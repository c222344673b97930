-- ===== src/Server/Moves/Histories.antt =====
-- backend/internal/server: what holds of the application over any sequence of requests.
use wol_secure_light_switch.Prelude.{
  ℕ, ◌≡◌, refl, ◌≢◌, ◌<◌, List, [], ◌∷◌, All, Text, subst, sym, ap, ◌∙◌, true,
}
use wol_secure_light_switch.Prelude.Map.{Map}
use wol_secure_light_switch.Limiter.Bounds
use wol_secure_light_switch.Limiter.Validity.{step-IsValid}
use wol_secure_light_switch.Store.{UserRow, IsKeyed, admins}
use wol_secure_light_switch.Store.Keys.{IsUnique, call-IsUnique}
use wol_secure_light_switch.Store.Admins.{call-admins}
use wol_secure_light_switch.Store.Versions.{Newer, call-Newer}
use wol_secure_light_switch.Auth.{Request}
use wol_secure_light_switch.Loader.Soundness.{IsSound, load-Serves}
use wol_secure_light_switch.Monitor.{HostState}
use wol_secure_light_switch.Server.{Services, World, App}
use wol_secure_light_switch.Server.Devices.{Actions}
use wol_secure_light_switch.Server.Router.{Call, serve}
use wol_secure_light_switch.Server.Moves.{Move, stores, counts, loads, Moves, here, next}
use wol_secure_light_switch.Server.Moves.Routes.{serve-Moves}

-- A request with what it meets: the world, the actions on devices and the states shown.
pub record Exchange : Type 0 where
  pub world : World
  pub actions : Actions
  pub status : Map HostState
  pub request : Request
  pub call : Call

module _ (s : Services) where
  -- The application after the requests.
  unfoldable pub serve_all : App → List Exchange → App
  serve_all a [] = a
  serve_all a (x ∷ xs) = serve_all (serve s x.world x.actions x.status a x.request x.call).0 xs

  -- The state that each component keeps.
  pub record IsSane (a : App) : Type 0 where
    pub tables : IsUnique a.tables
    pub limiter : Bounds.IsValid a.limiter
    pub loader : a.loader.loaded ≡ true → IsSound s.formats a.loader.hosts

  module _ (w : World) where
    Move-IsSane : {a b : App} → ((n : ℕ) → IsKeyed (w.db n)) → Move s w a b → IsSane a → IsSane b
    Move-IsSane {a} k (stores n c e) v = subst IsSane (sym e) (record {
      tables = call-IsUnique (w.db n) a.tables c (k n) v.tables;
      limiter = v.limiter;
      loader = v.loader;
    })
    Move-IsSane {a} k (counts c e) v = subst IsSane (sym e) (record {
      tables = v.tables;
      limiter = step-IsValid s.unicode_lower a.limiter c v.limiter;
      loader = v.loader;
    })
    Move-IsSane {a} k (loads e) v = subst IsSane (sym e) (record {
      tables = v.tables;
      limiter = v.limiter;
      loader = load-Serves s.formats w.files a.loader v.loader;
    })

    pub Moves-IsSane :
        {a b : App} → ((n : ℕ) → IsKeyed (w.db n)) → IsSane a → Moves s w a b → IsSane b
    Moves-IsSane k v here = v
    Moves-IsSane k v (next r m) = Move-IsSane k m (Moves-IsSane k v r)

    Move-secret : {a b : App} → Move s w a b → b.secret ≡ a.secret
    Move-secret (stores n c e) = ap (λ (x : App). x.secret) e
    Move-secret (counts c e) = ap (λ (x : App). x.secret) e
    Move-secret (loads e) = ap (λ (x : App). x.secret) e

    pub Moves-secret : {a b : App} → Moves s w a b → b.secret ≡ a.secret
    Moves-secret here = refl
    Moves-secret (next r m) = Move-secret m ∙ Moves-secret r

    Move-admins : {a b : App} → Move s w a b → 0 < admins a.tables → 0 < admins b.tables
    Move-admins {a} (stores n c e) h =
        subst (λ (x : App). 0 < admins x.tables) (sym e) (call-admins (w.db n) a.tables c h)
    Move-admins (counts c e) h = subst (λ (x : App). 0 < admins x.tables) (sym e) h
    Move-admins (loads e) h = subst (λ (x : App). 0 < admins x.tables) (sym e) h

    Moves-admins : {a b : App} → 0 < admins a.tables → Moves s w a b → 0 < admins b.tables
    Moves-admins h here = h
    Moves-admins h (next r m) = Move-admins m (Moves-admins h r)

    -- The secret, and the versions of a user whose id is not allocated again.
    abbrev Kept : ℕ → ℕ → Text → App → Type 0
    Kept id v secret a = Newer id v a.tables.users × (a.secret ≡ secret)

    Move-Kept :
        (id v : ℕ) (secret : Text) {a b : App}
        → ((n : ℕ) (us : List UserRow) → (w.db n).new_user_id us ≢ id)
        → Move s w a b
        → Kept id v secret a
        → Kept id v secret b
    Move-Kept id v secret {a} no_reuse (stores n c e) (newer, same_secret) =
        subst (Kept id v secret) (sym e)
          (call-Newer id v (w.db n) a.tables c (no_reuse n) newer, same_secret)
    Move-Kept id v secret no_reuse (counts c e) k = subst (Kept id v secret) (sym e) k
    Move-Kept id v secret no_reuse (loads e) k = subst (Kept id v secret) (sym e) k

    Moves-Kept :
        (id v : ℕ) (secret : Text) {a b : App}
        → ((n : ℕ) (us : List UserRow) → (w.db n).new_user_id us ≢ id)
        → Kept id v secret a
        → Moves s w a b
        → Kept id v secret b
    Moves-Kept id v secret no_reuse k here = k
    Moves-Kept id v secret no_reuse k (next r m) =
        Move-Kept id v secret no_reuse m (Moves-Kept id v secret no_reuse k r)

  -- Every sequence of requests keeps the state sane, if the database allocates ids not in use: no
  -- id and no email stands twice in the users, the limiter's table is a map within its capacity,
  -- and the loader's hosts, once loaded, are sound.
  pub serve_all-IsSane :
      (a : App) (xs : List Exchange)
      → All (λ x. (n : ℕ) → IsKeyed (x.world.db n)) xs
      → IsSane a
      → IsSane (serve_all a xs)
  unfolding serve_all
  serve_all-IsSane a [] k v = v
  serve_all-IsSane a (x ∷ xs) (k, ks) v =
      serve_all-IsSane (serve s x.world x.actions x.status a x.request x.call).0 xs ks
        (Moves-IsSane x.world k v (serve-Moves s x.world x.actions x.status a x.request x.call))

  -- Once an administrator is stored, one is stored after every sequence of requests, whatever they
  -- are, whoever sends them and whichever database statements report an error.
  pub serve_all-admins :
      (a : App) (xs : List Exchange) → 0 < admins a.tables → 0 < admins (serve_all a xs).tables
  unfolding serve_all
  serve_all-admins a [] h = h
  serve_all-admins a (x ∷ xs) h =
      serve_all-admins (serve s x.world x.actions x.status a x.request x.call).0 xs
        (Moves-admins x.world h (serve-Moves s x.world x.actions x.status a x.request x.call))

  pub serve_all-Newer :
      (id v : ℕ) (a : App) (xs : List Exchange)
      → All (λ x. (n : ℕ) (us : List UserRow) → (x.world.db n).new_user_id us ≢ id) xs
      → Newer id v a.tables.users
      → Newer id v (serve_all a xs).tables.users × ((serve_all a xs).secret ≡ a.secret)
  unfolding serve_all
  serve_all-Newer id v a [] no_reuse n = (n, refl)
  serve_all-Newer id v a (x ∷ xs) (no_reuse, rest) n =
      let b = (serve s x.world x.actions x.status a x.request x.call).0 in
      let (newer, same_secret) : Kept x.world id v a.secret b =
        Moves-Kept x.world id v a.secret no_reuse (n, refl)
          (serve-Moves s x.world x.actions x.status a x.request x.call) in
      let (later, same_later) = serve_all-Newer id v b xs rest newer in
      (later, same_later ∙ same_secret)
