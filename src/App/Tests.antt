-- ===== src/App/Tests.antt =====
-- The theorems on the application, at concrete settings and requests.
use mathlib.Core.Option.{some-injective}
use nsi_aggregator_proxy.App.{
  authenticated_user, Endpoint, Route, AppSettings, openapi_url, openapi_servers, create_app,
  json_error, soap_fault, ends_with, error_reply, reply_of, serve, lifespan_start,
}
use nsi_aggregator_proxy.App.Access.{Admits, IsRefusal, serve_lem}
use nsi_aggregator_proxy.App.Startup.{lifespan_start_lem}
use nsi_aggregator_proxy.Auth.{AuthSettings, HttpRequest}
use nsi_aggregator_proxy.Common.{
  All, Bool-cases, ◌==◌, first, Member, ℕ, String, ◌≡◌, refl, sym, ◌⊎◌, inl, inr, Bool, true, ◌&&◌,
  Option, none, some, List, [], ◌∷◌,
}
use nsi_aggregator_proxy.Reservations.Queries.{query_summary}
use nsi_aggregator_proxy.Reservations.Queries.Stored.{IsAccepted, AllHas}
use nsi_aggregator_proxy.Runtime.{complete_reserve, M, create_task, http_exception, ok, pure, ◌>>◌}
use nsi_aggregator_proxy.Samples.{sample_env, sample_world, sample_env-IsFair}
use nsi_aggregator_proxy.Soap.Messages.{QueryReservation}
use nsi_aggregator_proxy.Store.{empty}

abbrev app_settings : AppSettings
app_settings = record { root_path = "/nsi/"; mcp_enabled = true; mcp_path = "/mcp" }

openapi_url_test : openapi_url app_settings ≡ "/nsi/openapi.json"
unfolding openapi_url
openapi_url_test = refl

openapi_servers_test : openapi_servers app_settings ≡ some "/nsi"
unfolding openapi_servers
openapi_servers_test = refl

fault_test :
    error_reply {Body = ℕ} "/nsi/nsi/v2/callback" (http_exception 401 "no") ≡ soap_fault 401 "no"
unfolding ends_with
fault_test = refl

json_test :
    error_reply {Body = ℕ} "/nsi/v2/callback/" (http_exception 404 "no") ≡ json_error 404 "no"
unfolding ends_with
json_test = refl

-- A router without path parameters.
abbrev exact : String → String → Route → Bool
exact method path r = r.method == method && r.path == path

abbrev find_exact : List Route → String → String → Option Route
find_exact rs method path = first (exact method path) rs

first-Member :
    (test : Route → Bool) (rs : List Route) (r : Route) → first test rs ≡ some r → Member r rs
first-Member test [] r h = cc (h)
first-Member test (x ∷ rs) r h = elim (Bool-cases (test x)) [
  | inl hit ↦ inl (sym (some-injective _ _ (rw hit at h)))
  | inr missed ↦ inr (first-Member test rs r (rw missed at h))
]

abbrev auth : AuthSettings
auth = record { proxy_auth_enabled = true; mtls_header = ""; oidc_required_groups = [] }

abbrev anonymous : HttpRequest
anonymous = record { header = λ name. none }

abbrev run : Endpoint → M ℕ
run endpoint = do create_task (complete_reserve "c1" 0); pure 202

abbrev reserve_route : Route
reserve_route = record {
  method = "POST";
  path = "/reservations";
  include_in_schema = true;
  guard = authenticated_user;
  endpoint = Endpoint.create_reservation;
}

serve_lem_example :
    let out =
      serve auth find_exact run app_settings "POST" "/reservations" anonymous sample_world in
    let handled = run Endpoint.create_reservation sample_world in
    (Admits auth anonymous authenticated_user
      × (out ≡ (reply_of "/reservations" handled.0, handled.1)))
    ⊎ ((¬ Admits auth anonymous authenticated_user)
        × (status_code : ℕ) × (detail : String) × IsRefusal auth anonymous status_code
        × (out ≡ (json_error status_code detail, sample_world)))
unfolding create_app ends_with
serve_lem_example =
    serve_lem auth anonymous find_exact run app_settings
      (λ rs method path r. first-Member (exact method path) rs r) "POST" "/reservations"
      reserve_route sample_world refl

lifespan_start_lem_example :
    let w0 = record sample_world { store = empty } in
    let out = lifespan_start sample_env sample_world in
    (out.0 ≡ ok tt)
    × ((qrs : List QueryReservation)
        → (query_summary sample_env none none w0).0 ≡ ok qrs
        → All IsAccepted qrs
        → AllHas qrs out.1.store)
lifespan_start_lem_example =
    lifespan_start_lem sample_env (λ id. (sample_env-IsFair id).keeps) sample_world
