-- ===== src/Reservations/Queries.antt =====
-- The queries to the aggregator in routers/reservations.py, and the delivery of callbacks.
-- `asyncio.gather` runs its coroutines one after the other here; those that it is given write to
-- the store only for their own connection.
pub mod Callbacks
pub mod Reading
pub mod Stored
pub mod Population
pub mod Failing
pub mod Statuses
use nsi_aggregator_proxy.Common.{
  eqb, if◌then◌else◌, or_else, ◌==◌, ◌<>◌, keep, first, is_nil, ℕ, zero, suc, String, Bool, false,
  not, Option, none, some, List, [], ◌∷◌, map,
}
use nsi_aggregator_proxy.Mapping.{map_nsi_states_to_status, DerivedStatus, derive_status}
use nsi_aggregator_proxy.Models.{
  ReservationStatus, activating, deactivating, is_final, is_terminated, ReservationDetail,
}
use nsi_aggregator_proxy.Reservations.Errors.{sync_failure_detail}
use nsi_aggregator_proxy.Reservations.Refresh.{update_store_from_query, build_reservation_detail}
use nsi_aggregator_proxy.Runtime.{
  Request, query_summary_sync, query_recursive, query_notification_sync, query_result_sync, Content,
  Response, is_success, Parsed, Env, M, from_parser, read_store, write_store, register, pause,
  draw_urn, current_time, post_checked, post_callback, wait_for, Exception, http_exception, error,
  ok, err, pure, raise, lift, capture, ◌>>=◌, ◌>>◌, attempt, try_some,
}
use nsi_aggregator_proxy.Soap.Messages.{
  ErrorEvent, QueryReservation, NsiMessage, Notifications, OperationResult, NsiHeader, type_name,
}
use nsi_aggregator_proxy.Store.{Reservation, ReservationStore, get, cancel_pending}

abbrev pub callback_attempts : ℕ
callback_attempts = 12

abbrev pub nsi_callback_path : String
nsi_callback_path = "/nsi/v2/callback"

module _ (e : Env) where
  abbrev pub operation_header_with : String → String → NsiHeader
  operation_header_with requester_nsa correlation_id = record {
    requester_nsa = requester_nsa;
    provider_nsa = e.settings.provider_nsa;
    reply_to = some (e.settings.base_url <> nsi_callback_path);
    correlation_id = correlation_id;
  }

  -- `_operation_header` without a correlation id draws a new one.
  unfoldable pub query_header : M NsiHeader
  query_header = do
    correlation_id ← draw_urn e
    pure (operation_header_with e.settings.requester_nsa correlation_id)

  abbrev pub after_delivery : Option Response → M (Unit {0}) → M (Unit {0})
  after_delivery none again = pure tt
  after_delivery (some response) again =
      if is_success response.status_code
      then pure tt
      else if eqb response.status_code 409
      then (do pause e; again)
      else pure tt

  -- The rounds of `_send_callback` that are left.
  unfoldable pub deliver_rounds : ℕ → String → ReservationDetail → M (Unit {0})
  deliver_rounds zero url payload = pure tt
  deliver_rounds (suc rounds) url payload = do
    response ← try_some (post_callback e url payload)
    after_delivery response (deliver_rounds rounds url payload)

  unfoldable pub send_callback : String → Reservation → M (Unit {0})
  send_callback url reservation =
      deliver_rounds callback_attempts url (build_reservation_detail reservation none)

  abbrev pub no_notifications : Notifications
  no_notifications = record { error_events = []; data_plane_changes = [] }

  abbrev pub parsed_or : {A : Type 0} → (Content → Parsed A) → A → Option Response → M A
  parsed_or parser fallback none = pure fallback
  parsed_or parser fallback (some response) = do
    parsed ← try_some (lift (from_parser (parser response.content)))
    pure (or_else parsed fallback)

  unfoldable pub query_notifications : String → M Notifications
  query_notifications connection_id = do
    header ← query_header
    response ← try_some (post_checked e (query_notification_sync header connection_id))
    parsed_or e.soap.parse_query_notification_sync no_notifications response

  unfoldable pub query_results : String → M (List OperationResult)
  query_results connection_id = do
    header ← query_header
    response ← try_some (post_checked e (query_result_sync header (some connection_id)))
    parsed_or e.soap.parse_query_result_sync [] response

  abbrev pub results_for : ReservationStatus → String → M (List OperationResult)
  results_for activating connection_id = query_results connection_id
  results_for deactivating connection_id = query_results connection_id
  results_for _ connection_id = pure []

  abbrev pub base_status : QueryReservation → Notifications → ReservationStatus
  base_status qr notifications =
      map_nsi_states_to_status qr.connection_states (not (is_nil notifications.error_events))

  abbrev pub stored_or_invalid : Option (Reservation × ReservationStore) → M Reservation
  stored_or_invalid none w = (err (error "ValidationError"), w)
  stored_or_invalid (some (reservation, s)) w = (ok reservation, record w { store = s })

  abbrev pub store_derived : QueryReservation → DerivedStatus → List ErrorEvent → M Reservation
  store_derived qr derived error_events w =
      stored_or_invalid (update_store_from_query w.store qr derived error_events) w

  unfoldable pub resolve_and_store : QueryReservation → Notifications → M Reservation
  resolve_and_store qr notifications = do
    let base = base_status qr notifications
    results ← results_for base qr.connection_id
    now ← current_time e
    store_derived qr
        (derive_status e.iso base results notifications.data_plane_changes qr.start_time now
          e.settings.dataplane_timeout)
        notifications.error_events

  abbrev pub unreachable : Exception
  unreachable = http_exception 502 "Failed to reach NSI aggregator"

  -- A request whose failure is answered by 502.
  unfoldable pub post_or_502 : Request → M Response
  post_or_502 request = attempt (post_checked e request) (λ _. raise unreachable)

  unfoldable pub query_summary : Option String → Option String → M (List QueryReservation)
  query_summary connection_id global_reservation_id = do
    header ← query_header
    response ← post_or_502 (query_summary_sync header connection_id global_reservation_id)
    lift (from_parser (e.soap.parse_query_summary_sync response.content))

  abbrev pub Refreshed : Type 0
  Refreshed = Option (Reservation × QueryReservation)

  abbrev pub first_resolved : List QueryReservation → Notifications → M Refreshed
  first_resolved [] notifications = pure none
  first_resolved (qr ∷ others) notifications = do
    reservation ← resolve_and_store qr notifications
    pure (some (reservation, qr))

  -- Both queries are sent before an error of the first is raised.
  unfoldable pub refresh_reservation : String → M Refreshed
  refresh_reservation connection_id = do
    outcome ← capture (query_summary (some connection_id) none)
    notifications ← query_notifications connection_id
    query_reservations ← lift outcome
    first_resolved query_reservations notifications

  unfoldable pub finalize_refresh : QueryReservation → M (Reservation × QueryReservation)
  finalize_refresh qr = do
    notifications ← query_notifications qr.connection_id
    reservation ← resolve_and_store qr notifications
    pure (reservation, qr)

  abbrev pub first_finalized : List QueryReservation → M Refreshed
  first_finalized [] = pure none
  first_finalized (qr ∷ others) = do
    refreshed_pair ← finalize_refresh qr
    pure (some refreshed_pair)

  abbrev pub on_recursive_result : Option NsiMessage → M Refreshed
  on_recursive_result none =
      raise (http_exception 504 "queryRecursive timed out waiting for aggregator callback")
  on_recursive_result (some (NsiMessage.query_recursive_result query_reservations)) =
      first_finalized query_reservations
  on_recursive_result (some other) =
      raise (http_exception 502 ("Unexpected callback from aggregator: " <> type_name other))

  -- A send that failed, or an answer that is no acknowledgment, takes the correlation out.
  abbrev pub send_registered : String → Request → M Response
  send_registered correlation_id request =
      attempt (post_checked e request)
        (λ _. do write_store (cancel_pending correlation_id); raise unreachable)

  abbrev pub expect_acknowledgment : String → NsiMessage → M (Unit {0})
  expect_acknowledgment correlation_id NsiMessage.acknowledgment = pure tt
  expect_acknowledgment correlation_id message = do
    write_store (cancel_pending correlation_id)
    raise (http_exception 502 (sync_failure_detail message))

  unfoldable pub refresh_reservation_recursive : String → M Refreshed
  refresh_reservation_recursive connection_id = do
    header ← query_header
    future ← register header.correlation_id
    response ← send_registered header.correlation_id (query_recursive header (some connection_id))
    sync_msg ← lift (from_parser (e.soap.parse response.content))
    expect_acknowledgment header.correlation_id sync_msg
    result ← wait_for e future
    on_recursive_result result

  abbrev pub plain_status : QueryReservation → ReservationStatus
  plain_status qr = map_nsi_states_to_status qr.connection_states false

  abbrev pub store_terminal : List QueryReservation → M (Unit {0})
  store_terminal [] = pure tt
  store_terminal (qr ∷ qrs) = do
    store_derived qr (record { status = plain_status qr; reason = none }) []
    store_terminal qrs

  abbrev pub all_notifications : List QueryReservation → M (List (QueryReservation × Notifications))
  all_notifications [] = pure []
  all_notifications (qr ∷ qrs) = do
    notifications ← query_notifications qr.connection_id
    rest ← all_notifications qrs
    pure ((qr, notifications) ∷ rest)

  abbrev pub resolve_all : List (QueryReservation × Notifications) → M (Unit {0})
  resolve_all [] = pure tt
  resolve_all ((qr, notifications) ∷ rest) = do resolve_and_store qr notifications; resolve_all rest

  unfoldable pub refresh_all_reservations : M (List QueryReservation)
  refresh_all_reservations = do
    query_reservations ← query_summary none none
    store_terminal (keep (λ qr. is_final (plain_status qr)) query_reservations)
    pairs ← all_notifications (keep (λ qr. not (is_final (plain_status qr))) query_reservations)
    resolve_all pairs
    pure query_reservations

  abbrev pub finalize_all : List QueryReservation → M (List Reservation)
  finalize_all [] = pure []
  finalize_all (qr ∷ qrs) = do
    (reservation, _) ← finalize_refresh qr
    rest ← finalize_all qrs
    pure (reservation ∷ rest)

  abbrev pub has_global_id : String → QueryReservation → Bool
  has_global_id global_reservation_id qr = elim qr.global_reservation_id [
    | none ↦ false
    | some id ↦ id == global_reservation_id
  ]

  -- The object that a refresh has returned, as it is after every refresh: the store holds it too.
  abbrev pub shared : ReservationStore → Reservation → Reservation
  shared s r = or_else (get r.connection_id s) r

  unfoldable pub find_reservation_by_global_id : String → M (Option Reservation)
  find_reservation_by_global_id global_reservation_id = do
    query_reservations ← query_summary none (some global_reservation_id)
    found ← finalize_all (keep (has_global_id global_reservation_id) query_reservations)
    resolved ← read_store (λ s. map (shared s) found)
    pure (first (λ r. not (is_terminated r.status)) resolved)
