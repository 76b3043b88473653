-- ===== src/App/Access.antt =====
-- Which requests reach an endpoint.
use nsi_aggregator_proxy.App.{
  Reply, json_error, soap_fault, ends_with, callback_path, Guard, unguarded, authenticated_user,
  mtls_callback, Endpoint, health, Route, AppSettings, create_app, reply_of, run_guard, on_route,
  serve,
}
use nsi_aggregator_proxy.Auth.{
  AuthSettings, HttpRequest, user_header, header_value, get_authenticated_user,
  get_mtls_authenticated_callback,
}
use nsi_aggregator_proxy.Auth.Admission.{
  NamesUser, HasMtls, IsEntitled, get_authenticated_user_cases, get_authenticated_user_iff,
}
use nsi_aggregator_proxy.Common.{
  if◌then◌else◌, Bool-cases, is_empty, All, Member, All-Member, ℕ, String, ◌≡◌, refl, ◌⊎◌, inl, inr,
  true, false, Option, some, List,
}
use nsi_aggregator_proxy.Providers.Reach.{told}
use nsi_aggregator_proxy.Runtime.{
  World, M, Exception, http_exception, Result, ok, err, pure, lift, ◌>>=◌,
}

-- What an endpoint asks for: the callback endpoint the mTLS header, the health probe nothing, and
-- every other a user.
abbrev pub needs : Endpoint → Guard
needs health = unguarded
needs Endpoint.nsi_callback = mtls_callback
needs _ = authenticated_user

abbrev IsBehind : Route → Type 0
IsBehind r = r.guard ≡ needs r.endpoint

create_app-IsBehind : (settings : AppSettings) → All IsBehind (create_app settings).routes
unfolding create_app
create_app-IsBehind settings = (
  refl,
  (
    refl,
    (refl, (refl, (refl, (refl, (refl, (refl, (refl, (refl, (refl, (refl, (refl, tt))))))))))),
  ),
)

-- A refusal as the two kinds of clients read it.
abbrev pub refused_on : {Body : Type 0} → String → ℕ → String → Reply Body
refused_on path status_code detail =
    if ends_with callback_path path
    then soap_fault status_code detail
    else json_error status_code detail

module _ (auth : AuthSettings) (request : HttpRequest) where
  -- The request is let through by the dependency.
  abbrev pub Admits : Guard → Type 0
  Admits unguarded = Unit
  Admits authenticated_user =
      (auth.proxy_auth_enabled ≡ false)
      ⊎ ((NamesUser auth request × IsEntitled auth request)
          ⊎ ((is_empty (header_value auth request user_header) ≡ true) × HasMtls auth request))
  Admits mtls_callback = (auth.proxy_auth_enabled ≡ false) ⊎ HasMtls auth request

  abbrev pub IsRefusal : ℕ → Type 0
  IsRefusal status_code = (status_code ≡ 401) ⊎ (status_code ≡ 403)

  -- Whether a dependency lets the request through.
  data Passage (g : Guard) (r : Result (Unit {0})) : Type 0 where
    passed : Admits g → r ≡ ok tt → Passage g r
    barred :
        ¬ Admits g
        → (status_code : ℕ) (detail : String) → IsRefusal status_code
        → r ≡ err (http_exception status_code detail)
        → Passage g r

  mtls-Passage : Passage mtls_callback (get_mtls_authenticated_callback auth request)
  unfolding get_mtls_authenticated_callback
  mtls-Passage = elim (Bool-cases auth.proxy_auth_enabled) [
    | inr disabled ↦ passed (inl disabled) (rw disabled refl)
    | inl enabled ↦ elim (Bool-cases (is_empty auth.mtls_header)) [
      | inl unset ↦
          barred
            (λ a. elim a [ inl disabled ↦ cc (enabled, disabled) | inr told ↦ cc (unset, told.0) ])
            401 "mTLS authentication required" (inl refl) (rw enabled (rw unset refl))
      | inr configured ↦ elim (Bool-cases (is_empty (header_value auth request auth.mtls_header))) [
        | inl silent ↦
            barred
              (λ a. elim a [
                | inl disabled ↦ cc (enabled, disabled)
                | inr told ↦ cc (silent, told.1)
              ])
              401 "mTLS authentication required" (inl refl)
              (rw enabled (rw configured (rw silent refl)))
        | inr told ↦ passed (inr (configured, told)) (rw enabled (rw configured (rw told refl)))
      ]
    ]
  ]

  -- A result other than a user is of a request that is not admitted.
  not_admitted :
      (x : Exception) → get_authenticated_user auth request ≡ err x → ¬ Admits authenticated_user
  not_admitted x p admitted =
      let (user, q) = (get_authenticated_user_iff auth request).1 admitted in cc (p, q)

  module _ {Body : Type 0} (find_route : List Route → String → String → Option Route)
      (run : Endpoint → M Body) where
    run_guard-Passage :
        (g : Guard) (w : World)
        → Passage g (run_guard auth find_route run g request w).0
          × ((run_guard auth find_route run g request w).1 ≡ w)
    unfolding run_guard pure lift ◌>>=◌
    run_guard-Passage unguarded w = (passed tt refl, refl)
    run_guard-Passage mtls_callback w = (mtls-Passage, refl)
    run_guard-Passage authenticated_user w = elim (get_authenticated_user_cases auth request) [
      | inl (user, p) ↦
          (passed ((get_authenticated_user_iff auth request).0 (user, p)) (rw p refl), rw p refl)
      | inr (inl p) ↦ (
        barred (not_admitted _ p) 403 "Insufficient group membership" (inr refl) (rw p refl),
        rw p refl,
      )
      | inr (inr p) ↦ (
        barred (not_admitted _ p) 401 "Authentication required" (inl refl) (rw p refl),
        rw p refl,
      )
    ]

    bind-passed :
        {A : Type 0} (m : M (Unit {0})) (f : Unit {0} → M A) (w : World)
        → m w ≡ (ok tt, w)
        → (m >>= f) w ≡ f tt w
    unfolding ◌>>=◌
    bind-passed m f w e = rw e refl

    bind-barred :
        {A : Type 0} (m : M (Unit {0})) (f : Unit {0} → M A) (w : World) (x : Exception)
        → m w ≡ (err x, w)
        → (m >>= f) w ≡ (err x, w)
    unfolding ◌>>=◌
    bind-barred m f w x e = rw e refl

    -- What follows the choice of the route.
    on_route_lem :
        (path : String) (r : Route) (w : World)
        → let out = on_route auth find_route run path (some r) request w in
          let handled = run r.endpoint w in
          (Admits r.guard × (out ≡ (reply_of path handled.0, handled.1)))
          ⊎ ((¬ Admits r.guard)
              × (status_code : ℕ) × (detail : String) × IsRefusal status_code
              × (out ≡ (refused_on path status_code detail, w)))
    on_route_lem path r w =
        let m : M (Unit {0}) = run_guard auth find_route run r.guard request in
        let (passage, same) = run_guard-Passage r.guard w in
        elim passage [
          | passed admitted p ↦
              let e : m w ≡ (ok tt, w) = λ i. (p i, same i) in
              inl (admitted, rw (bind-passed m (λ _. run r.endpoint) w e) refl)
          | barred denied status_code detail refusal p ↦
              let e : m w ≡ (err (http_exception status_code detail), w) = λ i. (p i, same i) in
              inr (
                denied,
                status_code,
                detail,
                refusal,
                rw (bind-barred m (λ _. run r.endpoint) w _ e) refl,
              )
        ]

    module _ (settings : AppSettings)
        (member : (rs : List Route) (method path : String) (r : Route)
          → find_route rs method path ≡ some r
          → Member r rs) where
      -- starlette hands a request only to a route of the application. A request that takes a route
      -- reaches its endpoint exactly if it has what the endpoint needs: nothing for the health probe,
      -- the mTLS header for the callback endpoint, a user or the mTLS header for every other; and
      -- anything if authentication is disabled. It is then answered by the endpoint's result. If not,
      -- it is answered with 401 or 403, as a SOAP Fault on the callback path and as JSON on others,
      -- and neither the store nor the trace changes.
      pub serve_lem :
          (method path : String) (r : Route) (w : World)
          → find_route (create_app settings).routes method path ≡ some r
          → let out = serve auth find_route run settings method path request w in
            let handled = run r.endpoint w in
            (Admits (needs r.endpoint) × (out ≡ (reply_of path handled.0, handled.1)))
            ⊎ ((¬ Admits (needs r.endpoint))
                × (status_code : ℕ) × (detail : String) × IsRefusal status_code
                × (out ≡ (refused_on path status_code detail, w)))
      unfolding serve
      serve_lem method path r w found =
          let behind : r.guard ≡ needs r.endpoint =
            All-Member IsBehind r (create_app settings).routes (create_app-IsBehind settings)
              (member _ method path r found) in
          rw found (rw (← behind) (on_route_lem path r w))
