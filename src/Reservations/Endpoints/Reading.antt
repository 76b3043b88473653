-- ===== src/Reservations/Endpoints/Reading.antt =====
-- The two endpoints that only read: GET /reservations and GET /reservations/{connectionId}.
use nsi_aggregator_proxy.Common.{if◌then◌else◌, String, ◌≡◌, refl, none, some, List, [], ◌∷◌}
use nsi_aggregator_proxy.Models.{DetailLevel}
use nsi_aggregator_proxy.Reservations.Endpoints.{
  refresh_for, detail_of, get_reservation, list_with, list_reservations,
}
use nsi_aggregator_proxy.Reservations.Queries.{Refreshed}
use nsi_aggregator_proxy.Reservations.Queries.Reading.{
  is_query, HidesQueries, shown, Hidden-refresh_reservation, Hidden-refresh_reservation_recursive,
  Hidden-refresh_all_reservations,
}
use nsi_aggregator_proxy.Runtime.{Event, posted, World, Env, M, read_store}
use nsi_aggregator_proxy.Runtime.Views.{Same-bind, Same-pure, Same-raise}

-- What a trace shows to the outside but queries: requests of operations, callbacks and started tasks.
abbrev pub effects : List Event → List Event
effects [] = []
effects (posted request ∷ trace) =
    let rest = effects trace in if is_query request then rest else posted request ∷ rest
effects (event ∷ trace) = event ∷ effects trace

effects-HidesQueries : HidesQueries effects
effects-HidesQueries = record { hides = λ request trace q. rw q refl }

-- The action sends no operation and no callback, and starts no task.
abbrev pub Reads : {A : Type 0} → M A → Type 0
Reads m = (w : World) → effects (m w).1.trace ≡ effects w.trace

module _ (e : Env) where
  refresh_for-Reads :
      (detail : DetailLevel) (connection_id : String) → Reads (refresh_for e detail connection_id)
  refresh_for-Reads DetailLevel.recursive connection_id =
      Hidden-refresh_reservation_recursive effects effects-HidesQueries e connection_id
  refresh_for-Reads DetailLevel.summary connection_id =
      Hidden-refresh_reservation effects effects-HidesQueries e connection_id
  refresh_for-Reads DetailLevel.full connection_id =
      Hidden-refresh_reservation effects effects-HidesQueries e connection_id

  detail_of-Reads :
      (connection_id : String) (detail : DetailLevel) (found : Refreshed e)
      → Reads (detail_of e connection_id detail found)
  detail_of-Reads connection_id detail none = Same-raise (shown effects) _ _
  detail_of-Reads connection_id detail (some (r, qr)) = Same-pure (shown effects) _

  -- Whatever the level of detail and the answers, get_reservation sends queries only.
  pub get_reservation-Reads :
      (connection_id : String) (detail : DetailLevel)
      → Reads (get_reservation e connection_id detail)
  unfolding get_reservation
  get_reservation-Reads connection_id detail =
      Same-bind (shown effects) _ _ (refresh_for-Reads detail connection_id)
        (detail_of-Reads connection_id detail)

  list_with-Reads : (detail : DetailLevel) → Reads (list_with e detail)
  unfolding read_store
  list_with-Reads detail =
      Same-bind (shown effects) _ _ (Hidden-refresh_all_reservations effects effects-HidesQueries e)
        (λ qrs. Same-bind (shown effects) _ _ (λ w. refl) (λ rs. Same-pure (shown effects) _))

  -- Whatever the level of detail and the answers, list_reservations sends queries only.
  pub list_reservations-Reads : (detail : DetailLevel) → Reads (list_reservations e detail)
  unfolding list_reservations
  list_reservations-Reads DetailLevel.recursive = Same-raise (shown effects) _ _
  list_reservations-Reads DetailLevel.summary = list_with-Reads DetailLevel.summary
  list_reservations-Reads DetailLevel.full = list_with-Reads DetailLevel.full
