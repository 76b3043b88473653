-- ===== src/App.antt =====
-- aggregator_proxy/main.py: the application. `create_app` gives FastAPI a table of routes with their
-- dependencies, and two exception handlers; which route a request takes is starlette's. The routes
-- of the three routers are those of the decorators in routers/*.py.
pub mod Startup
pub mod Access
mod Tests
use nsi_aggregator_proxy.Auth.{
  AuthSettings, HttpRequest, get_authenticated_user, get_mtls_authenticated_callback,
}
use nsi_aggregator_proxy.Common.{
  if◌then◌else◌, ◌==◌, ◌<>◌, is_empty, ℕ, String, Bool, true, false, ◌||◌, Option, none, some, List,
  [], ◌∷◌, ◌++◌,
}
use nsi_aggregator_proxy.Config.{rstrip_slashes}
use nsi_aggregator_proxy.Reservations.Queries.{refresh_all_reservations}
use nsi_aggregator_proxy.Runtime.{
  World, Env, M, write_store, Exception, http_exception, error, Result, ok, err, pure, lift, ◌>>◌,
  attempt,
}
use nsi_aggregator_proxy.Store.{empty}
use nsi_aggregator_proxy.Store.Futures.{run}

-- The dependency that a router or route is included with.
pub data Guard : Type 0 where
  unguarded authenticated_user mtls_callback : Guard

pub data Endpoint : Type 0 where
  openapi_endpoint swagger_ui redoc health : Endpoint
  create_reservation provision_reservation release_reservation terminate_reservation : Endpoint
  get_reservation list_reservations : Endpoint
  get_providers get_provider_reservations : Endpoint
  nsi_callback : Endpoint

pub record Route : Type 0 where
  pub method : String
  pub path : String
  pub include_in_schema : Bool
  pub guard : Guard
  pub endpoint : Endpoint

abbrev route : Bool → String → String → Endpoint → Route
route include_in_schema method path endpoint = record {
  method = method;
  path = path;
  include_in_schema = include_in_schema;
  guard = unguarded;
  endpoint = endpoint;
}

abbrev pub reservations_router : List Route
reservations_router =
    route true "POST" "/reservations" Endpoint.create_reservation
    ∷ route true "POST" "/reservations/{connectionId}/provision" Endpoint.provision_reservation
    ∷ route true "POST" "/reservations/{connectionId}/release" Endpoint.release_reservation
    ∷ route true "DELETE" "/reservations/{connectionId}" Endpoint.terminate_reservation
    ∷ route true "GET" "/reservations/{connectionId}" Endpoint.get_reservation
    ∷ route true "GET" "/reservations" Endpoint.list_reservations
    ∷ []

abbrev pub providers_router : List Route
providers_router =
    route true "GET" "/providers" Endpoint.get_providers
    ∷ route true "GET" "/providers/{nsaId}/reservations" Endpoint.get_provider_reservations
    ∷ []

abbrev pub callback_path : String
callback_path = "/nsi/v2/callback"

abbrev pub nsi_callback_router : List Route
nsi_callback_router = route false "POST" callback_path Endpoint.nsi_callback ∷ []

-- `fastapi_app.include_router(router, dependencies=…)`
abbrev include_router : Guard → List Route → List Route
include_router guard [] = []
include_router guard (r ∷ rs) = record r { guard = guard } ∷ include_router guard rs

pub record AppSettings : Type 0 where
  pub root_path : String
  pub mcp_enabled : Bool
  pub mcp_path : String

pub record FastApi : Type 0 where
  pub routes : List Route
  pub mounts : List String

-- The documentation's own links, and the `servers` of the schema.
abbrev pub prefix : AppSettings → String
prefix settings = rstrip_slashes settings.root_path

unfoldable pub openapi_url : AppSettings → String
unfolding rstrip_slashes
openapi_url settings = prefix settings <> "/openapi.json"

unfoldable pub openapi_servers : AppSettings → Option String
unfolding rstrip_slashes
openapi_servers settings = if is_empty (prefix settings) then none else some (prefix settings)

unfoldable pub create_app : AppSettings → FastApi
create_app settings = record {
  routes =
      include_router authenticated_user (
        route false "GET" "/openapi.json" openapi_endpoint
        ∷ route false "GET" "/docs" swagger_ui
        ∷ route false "GET" "/redoc" redoc
        ∷ [])
      ++ include_router authenticated_user reservations_router
      ++ include_router authenticated_user providers_router
      ++ include_router mtls_callback nsi_callback_router
      ++ route false "GET" "/health" health ∷ [];
  mounts = if settings.mcp_enabled then settings.mcp_path ∷ [] else [];
}

-- A response of an endpoint, of one of the exception handlers, or of what is not a route: starlette's
-- 404 and 405, and the mounted MCP application.
pub data Reply (Body : Type 0) : Type 0 where
  answered : Body → Reply Body
  json_error soap_fault plain_error : (status_code : ℕ) (detail : String) → Reply Body
  unrouted : Reply Body

-- `path.endswith(suffix)`
unfoldable pub ends_with : String → String → Bool
ends_with suffix String.[] = "" == suffix
ends_with suffix (String.◌∷◌ c s) = String.◌∷◌ c s == suffix || ends_with suffix s

-- soap_or_json_error_handler and aggregator_error_handler; starlette answers other exceptions
-- with a plain text.
abbrev pub error_reply : {Body : Type 0} → String → Exception → Reply Body
error_reply path (http_exception status_code detail) =
    if ends_with callback_path path
    then soap_fault status_code detail
    else json_error status_code detail
error_reply path (error description) =
    if description == "HTTPStatusError"
    then json_error 502 "NSI aggregator returned an error"
    else plain_error 500 "Internal Server Error"
error_reply path _ = plain_error 500 "Internal Server Error"

abbrev pub reply_of : {Body : Type 0} → String → Result Body → Reply Body
reply_of path (ok body) = answered body
reply_of path (err x) = error_reply path x

module _ {Body : Type 0} (auth : AuthSettings)
    (find_route : List Route → String → String → Option Route) (run : Endpoint → M Body) where
  unfoldable pub run_guard : Guard → HttpRequest → M (Unit {0})
  run_guard unguarded request = pure tt
  run_guard authenticated_user request = do lift (get_authenticated_user auth request); pure tt
  run_guard mtls_callback request = lift (get_mtls_authenticated_callback auth request)

  abbrev pub run_route : Route → HttpRequest → M Body
  run_route r request = do run_guard r.guard request; run r.endpoint

  abbrev pub on_route : String → Option Route → HttpRequest → World → Reply Body × World
  on_route path none request w = (unrouted, w)
  on_route path (some r) request w =
      let (result, w') = run_route r request w in (reply_of path result, w')

  unfoldable pub serve : AppSettings → String → String → HttpRequest → World → Reply Body × World
  serve settings method path request =
      on_route path (find_route (create_app settings).routes method path) request

-- What the application does before it serves: the store is empty, and is filled from the aggregator.
-- An exception of the query is logged.
module _ (e : Env) where
  unfoldable pub lifespan_start : M (Unit {0})
  lifespan_start = do
    write_store (λ s. empty)
    attempt (do refresh_all_reservations e; pure tt) (λ x. pure tt)
