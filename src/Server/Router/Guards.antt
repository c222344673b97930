-- ===== src/Server/Router/Guards.antt =====
-- backend/internal/server/router.go: what stands before the protected and the admin handlers.
use Prim.Native.String.{String}
use wol_secure_light_switch.Prelude.{ℕ, ◌≡◌, refl, ◌⊎◌, inl, inr, true, false, arith, Bool-cases}
use wol_secure_light_switch.Prelude.Map.{Map}
use wol_secure_light_switch.Auth.{
  Request, Context, Verdict, abort, next, auth_middleware, admin_middleware, forbidden,
}
use wol_secure_light_switch.Auth.Tokens.{IsAuthentic, auth_middleware-IsAuthentic}
use wol_secure_light_switch.Monitor.{HostState}
use wol_secure_light_switch.Server.{Services, World, App, respond, failure}
use wol_secure_light_switch.Server.Devices.{Actions, nothing}
use wol_secure_light_switch.Server.Router.{
  AdminCall, ProtectedCall, admin, protected, Outcome, chain, serve_admin, serve_protected, serve,
}

module _ (s : Services) (w : World) (x : Actions) (status : Map HostState) (a : App)
    (r : Request) where
  -- A request that showed who sends it.
  abbrev pub Authentic : Context → Type 0
  Authentic c = IsAuthentic s.jwt a.secret w.auth_db a.tables r w.auth_clock c

  -- A refusal changes nothing and has nothing done.
  abbrev pub Refused : Outcome → Type 0
  Refused o =
      (o.0 ≡ a)
      × (o.2 ≡ nothing)
      × ((code : ℕ) × (error : String) × (o.1 ≡ respond code (failure error)))

  -- A request to a protected route is refused, with an error and no change of state or action, or
  -- it is authentic for some context and the route's handler runs with that context.
  pub serve_protected_guarded :
      (call : ProtectedCall)
      → Refused (serve s w x status a r (protected call))
        ⊎ ((c : Context) × Authentic c
            × (serve s w x status a r (protected call) ≡ serve_protected s w x status a c call))
  serve_protected_guarded call =
      by_verdict (auth_middleware s.jwt a.secret w.auth_db a.tables r w.auth_clock) refl
    where
      by_verdict :
          (v : Verdict)
          → auth_middleware s.jwt a.secret w.auth_db a.tables r w.auth_clock ≡ v
          → Refused (serve s w x status a r (protected call))
            ⊎ ((c : Context) × Authentic c
                × (serve s w x status a r (protected call) ≡ serve_protected s w x status a c call))
      by_verdict (abort code error) h =
          inl (unfold serve in rw (h, chain, serve) (refl, refl, (code, error, refl)))
      by_verdict (next c) h = inr (
        c,
        auth_middleware-IsAuthentic s.jwt a.secret w.auth_db a.tables r w.auth_clock c h,
        unfold serve in rw (h, chain, serve) refl,
      )

  -- A request to an admin route is refused, with an error and no change of state or action, or it
  -- is authentic for a stored administrator and answered by the route's handler.
  pub serve_admin_guarded :
      (call : AdminCall)
      → Refused (serve s w x status a r (protected (admin call)))
        ⊎ ((c : Context) × (u : Authentic c) × (u.user.is_admin ≡ true)
            × (serve s w x status a r (protected (admin call)) ≡ serve_admin s w a call))
  serve_admin_guarded call = elim (serve_protected_guarded (admin call)) [
    | inl refused ↦ inl refused
    | inr (c, u, same_outcome) ↦ by_role c u same_outcome (Bool-cases c.is_admin)
  ]
    where
      by_role :
          (c : Context) (u : Authentic c)
          → serve s w x status a r (protected (admin call))
            ≡ serve_protected s w x status a c (admin call)
          → ((c.is_admin ≡ true) ⊎ (c.is_admin ≡ false))
          → Refused (serve s w x status a r (protected (admin call)))
            ⊎ ((c : Context) × (u : Authentic c) × (u.user.is_admin ≡ true)
                × (serve s w x status a r (protected (admin call)) ≡ serve_admin s w a call))
      by_role c u o (inr user) = inl (
          rw o (
            unfold serve_protected admin_middleware in
            rw user (refl, refl, (forbidden, "Admin access required", refl))))
      by_role c u o (inl administrator) = inr (
        c,
        u,
        ground (arith, u.same_role),
        rw o (unfold serve_protected admin_middleware in rw administrator refl),
      )
