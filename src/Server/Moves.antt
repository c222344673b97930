-- ===== src/Server/Moves.antt =====
-- backend/internal/server: what a handler can do to the application. A move is one call of the
-- store, of the limiter or of the loader with what the request meets; a handler makes several.
pub mod Logins
pub mod Admin
pub mod Routes
pub mod Histories
pub mod Logout
pub mod Login
use wol_secure_light_switch.Prelude.{ℕ, ◌≡◌, refl, subst, sym}
use wol_secure_light_switch.Limiter.Validity
use wol_secure_light_switch.Store.Keys
use wol_secure_light_switch.Loader.{load_hosts}
use wol_secure_light_switch.Server.{Services, World, App}

module _ (s : Services) (w : World) where
  pub data Move (a b : App) : Type 0 where
    stores :
        (n : ℕ) (c : Keys.Call)
        → b ≡ record a { tables = (Keys.call (w.db n) a.tables c).0 }
        → Move a b
    counts :
        (c : Validity.Call)
        → b ≡ record a { limiter = Validity.step s.unicode_lower a.limiter c }
        → Move a b
    loads : b ≡ record a { loader = (load_hosts s.formats w.files a.loader).0 } → Move a b

  pub data Moves (a : App) : App → Type 0 where
    here : Moves a a
    next : {b c : App} → Moves a b → Move b c → Moves a c

  pub Moves-trans : {a b c : App} → Moves a b → Moves b c → Moves a c
  Moves-trans r here = r
  Moves-trans r (next q m) = next (Moves-trans r q) m

  pub stored_move :
      (a : App) (n : ℕ) (c : Keys.Call)
      → Moves a (record a { tables = (Keys.call (w.db n) a.tables c).0 })
  stored_move a n c = next here (stores n c refl)

  pub counted_move :
      (a : App) (c : Validity.Call)
      → Moves a (record a { limiter = Validity.step s.unicode_lower a.limiter c })
  counted_move a c = next here (counts c refl)

  pub loaded_move :
      (a : App) → Moves a (record a { loader = (load_hosts s.formats w.files a.loader).0 })
  loaded_move a = next here (loads refl)

  pub Moves-eq : {a b c : App} → c ≡ b → Moves a b → Moves a c
  Moves-eq {a} e m = subst (λ (x : App). Moves a x) (sym e) m
