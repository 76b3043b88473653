-- ===== src/Mcp/ReadOnly.antt =====
-- What an MCP client can do.
use nsi_aggregator_proxy.Reservations.Endpoints
use nsi_aggregator_proxy.App.{authenticated_user, Endpoint, Route, AppSettings, create_app}
use nsi_aggregator_proxy.Common.{All, All-Member, Member, String, ◌≡◌, refl, inl, inr, List}
use nsi_aggregator_proxy.Mcp.Choice.{type_of, type_of-Becomes, Becomes-type_of}
use nsi_aggregator_proxy.Mcp.Tools.{
  RouteMap, tool, list_pattern, detail_pattern, ServerSettings, build_mcp, IsFastMcp,
}
use nsi_aggregator_proxy.Models.{DetailLevel}
use nsi_aggregator_proxy.Reservations.Endpoints.Reading.{
  Reads, get_reservation-Reads, list_reservations-Reads,
}
use nsi_aggregator_proxy.Runtime.{Env}

module _ (e : Env) where
  -- The endpoint sends queries to the aggregator, and nothing else to anybody.
  abbrev pub OnlyReads : Endpoint → Type 0
  OnlyReads Endpoint.get_reservation =
      (connection_id : String) (detail : DetailLevel)
      → Reads (Endpoints.get_reservation e connection_id detail)
  OnlyReads Endpoint.list_reservations =
      (detail : DetailLevel) → Reads (Endpoints.list_reservations e detail)
  OnlyReads _ = ⊥

  abbrev pub IsHarmless : Route → Type 0
  IsHarmless r = (r.guard ≡ authenticated_user) × OnlyReads r.endpoint

  -- The routes of the application that become tools.
  abbrev IsSafe : List RouteMap → Route → Type 0
  IsSafe maps r = type_of maps r ≡ tool → IsHarmless r

  create_app-IsSafe :
      (server : ServerSettings) (settings : AppSettings)
      → All (IsSafe (build_mcp server).route_maps) (create_app settings).routes
  unfolding build_mcp create_app list_pattern detail_pattern
  create_app-IsSafe server settings = (
    (λ t. cc (t)),
    (
      (λ t. cc (t)),
      (
        (λ t. cc (t)),
        (
          (λ t. cc (t)),
          (
            (λ t. cc (t)),
            (
              (λ t. cc (t)),
              (
                (λ t. cc (t)),
                (
                  (λ t. (refl, get_reservation-Reads e)),
                  (
                    (λ t. (refl, list_reservations-Reads e)),
                    ((λ t. cc (t)), ((λ t. cc (t)), ((λ t. cc (t)), ((λ t. cc (t)), tt)))),
                  ),
                ),
              ),
            ),
          ),
        ),
      ),
    ),
  )

  module _ (from_fastapi : List RouteMap → List Route → List Route)
      (documented : IsFastMcp from_fastapi) (server : ServerSettings) (settings : AppSettings) where
    -- The tools of the MCP server.
    abbrev pub exposed_tools : List Route
    exposed_tools = from_fastapi (build_mcp server).route_maps (create_app settings).routes

    abbrev pub IsExposed : Endpoint → Type 0
    IsExposed endpoint = (r : Route) × Member r exposed_tools × (r.endpoint ≡ endpoint)

    get_reservation-IsExposed : IsExposed Endpoint.get_reservation
    unfolding build_mcp create_app list_pattern detail_pattern
    get_reservation-IsExposed = (
      _,
      (documented.exposed _ _ _).1
          (inr (inr (inr (inr (inr (inr (inr (inl refl))))))), refl, Becomes-type_of _ _ refl),
      refl,
    )

    list_reservations-IsExposed : IsExposed Endpoint.list_reservations
    unfolding build_mcp create_app list_pattern detail_pattern
    list_reservations-IsExposed = (
      _,
      (documented.exposed _ _ _).1 (
        inr (inr (inr (inr (inr (inr (inr (inr (inl refl)))))))),
        refl,
        Becomes-type_of _ _ refl,
      ),
      refl,
    )

    pub build_mcp-IsHarmless :
        IsExposed Endpoint.get_reservation
        × IsExposed Endpoint.list_reservations
        × ((r : Route) → Member r exposed_tools → IsHarmless r)
    build_mcp-IsHarmless = (
      get_reservation-IsExposed,
      list_reservations-IsExposed,
      λ r m.
          let (listed, shown, becomes) = (documented.exposed _ _ r).0 m in
          All-Member (IsSafe (build_mcp server).route_maps) r (create_app settings).routes
            (create_app-IsSafe server settings) listed (type_of-Becomes becomes),
    )
