-- ===== src/Reservations/Endpoints.antt =====
-- The HTTP endpoints of routers/reservations.py. A handler returns the body of its answer or raises
-- an HTTPException; the log lines are left out. A reservation object that the source holds across
-- no `await` is read and written in the store under its connectionId.
pub mod Requests
pub mod Listing
pub mod Single
pub mod Reported
pub mod Reading
pub mod Acceptance
pub mod Lifecycle
pub mod Termination
pub mod Creation
pub mod Operations
pub mod Guards
mod Tests
use nsi_aggregator_proxy.Common.Dict
use nsi_aggregator_proxy.Common.{
  if◌then◌else◌, or_else, ◌==◌, ◌<>◌, text_or, ℕ, String, Bool, true, not, ◌&&◌, ◌||◌, Option, none,
  some, List, [], ◌∷◌, map,
}
use nsi_aggregator_proxy.Models.{
  ReservationStatus, reserving, reserved, activating, activated, deactivating, failed, terminated,
  status_text, DetailLevel, summary, full, recursive, P2Ps, ReservationRequest, CallbackRequest,
  PathSegment, ReservationDetail, ReservationsListResponse, AcceptedResponse,
}
use nsi_aggregator_proxy.Reservations.Errors.{sync_failure_detail}
use nsi_aggregator_proxy.Reservations.Queries.{
  operation_header_with, Refreshed, refresh_reservation, send_registered, expect_acknowledgment,
  refresh_reservation_recursive, refresh_all_reservations, find_reservation_by_global_id,
}
use nsi_aggregator_proxy.Reservations.Refresh.{map_children_to_segments, build_reservation_detail}
use nsi_aggregator_proxy.Runtime.{
  Request, reserve, provision, release, terminate, deliver, complete_reserve, complete_provision,
  complete_release, complete_terminate, Response, Env, M, read_store, from_parser, write_store,
  change_store, register, create_task, draw_urn, Exception, http_exception, ok, pure, raise, lift,
  ◌>>=◌, ◌>>◌,
}
use nsi_aggregator_proxy.Soap.Messages.{ChildSegment, QueryReservation, NsiMessage, NsiHeader}
use nsi_aggregator_proxy.Store.{
  Reservation, create, get_all, modify, update_status, reserve_started, is_reserve_in_flight,
  cancel_pending,
}

abbrev pub accepted_type : String
accepted_type = "https://github.com/workfloworchestrator/nsi-aggregator-proxy#202-accepted"

abbrev pub default_service_type : String
default_service_type = "http://services.ogf.org/nsi/2013/12/descriptions/EVTS.A-GOLE"

abbrev pub accepted : String → AcceptedResponse
accepted connection_id = record {
  kind = accepted_type;
  instance_path = "/reservations/" <> connection_id;
}

abbrev pub response_p2ps : ReservationRequest → P2Ps
response_p2ps body = record {
  capacity = body.criteria.p2ps.capacity;
  source_stp = body.criteria.p2ps.source_stp;
  dest_stp = body.criteria.p2ps.dest_stp;
}

module _ (e : Env) where
  abbrev pub not_found : String → Exception
  not_found connection_id =
      http_exception 404 ("Reservation " <> e.repr connection_id <> " not found")

  abbrev pub set_callback_url : String → String → M (Unit {0})
  set_callback_url connection_id url =
      change_store (modify connection_id (λ r. record r { callback_url = url }))

  abbrev pub redeliver : String → String → M AcceptedResponse
  redeliver connection_id url = do
    create_task (deliver url connection_id)
    pure (accepted connection_id)

  abbrev pub wrong_state : ReservationStatus → String → Exception
  wrong_state status rest =
      http_exception 409 ("Reservation is in " <> status_text status <> " state, " <> rest)

  -- The answer to an operation has to be an acknowledgment; the result is the future that was
  -- registered for its callback.
  abbrev pub acknowledged : String → ℕ → Response → M ℕ
  acknowledged correlation_id future response = do
    sync_msg ← lift (from_parser (e.soap.parse response.content))
    expect_acknowledgment e correlation_id sync_msg
    pure future

  abbrev pub send_with : String → ℕ → Request → M ℕ
  send_with correlation_id future request = do
    response ← send_registered e correlation_id request
    acknowledged correlation_id future response

  -- The part that provision, release and terminate share.
  unfoldable pub send_operation : String → (NsiHeader → Request) → M ℕ
  send_operation requester_nsa request = do
    correlation_id ← draw_urn e
    future ← register correlation_id
    send_with correlation_id future (request (operation_header_with e requester_nsa correlation_id))

  abbrev pub start_provision : String → String → M AcceptedResponse
  start_provision connection_id requester_nsa = do
    future ← send_operation requester_nsa (λ header. provision header connection_id)
    change_store (update_status connection_id activating)
    create_task (complete_provision connection_id future)
    pure (accepted connection_id)

  -- The `match` on the refreshed status.
  abbrev pub dispatch_provision : ReservationStatus → String → String → String → M AcceptedResponse
  dispatch_provision activated connection_id requester_nsa url = redeliver connection_id url
  dispatch_provision activating connection_id requester_nsa url = pure (accepted connection_id)
  dispatch_provision reserved connection_id requester_nsa url =
      start_provision connection_id requester_nsa
  dispatch_provision status connection_id requester_nsa url =
      raise (wrong_state status "must be RESERVED to provision")

  abbrev pub provision_refreshed : String → CallbackRequest → Refreshed e → M AcceptedResponse
  provision_refreshed connection_id body none = raise (not_found connection_id)
  provision_refreshed connection_id body (some (reservation, qr)) = do
    set_callback_url reservation.connection_id body.callback_url
    dispatch_provision reservation.status connection_id reservation.requester_nsa body.callback_url

  unfoldable pub provision_reservation : String → CallbackRequest → M AcceptedResponse
  provision_reservation connection_id body = do
    found ← refresh_reservation e connection_id
    provision_refreshed connection_id body found

  abbrev pub start_release : String → String → M AcceptedResponse
  start_release connection_id requester_nsa = do
    future ← send_operation requester_nsa (λ header. release header connection_id)
    change_store (update_status connection_id deactivating)
    create_task (complete_release connection_id future)
    pure (accepted connection_id)

  abbrev pub dispatch_release : ReservationStatus → String → String → String → M AcceptedResponse
  dispatch_release reserved connection_id requester_nsa url = redeliver connection_id url
  dispatch_release deactivating connection_id requester_nsa url = pure (accepted connection_id)
  dispatch_release activated connection_id requester_nsa url =
      start_release connection_id requester_nsa
  dispatch_release status connection_id requester_nsa url =
      raise (wrong_state status "must be ACTIVATED to release")

  abbrev pub release_refreshed : String → CallbackRequest → Refreshed e → M AcceptedResponse
  release_refreshed connection_id body none = raise (not_found connection_id)
  release_refreshed connection_id body (some (reservation, qr)) = do
    set_callback_url reservation.connection_id body.callback_url
    dispatch_release reservation.status connection_id reservation.requester_nsa body.callback_url

  unfoldable pub release_reservation : String → CallbackRequest → M AcceptedResponse
  release_reservation connection_id body = do
    found ← refresh_reservation e connection_id
    release_refreshed connection_id body found

  abbrev pub start_terminate : Reservation → String → String → M AcceptedResponse
  start_terminate reservation connection_id url = do
    set_callback_url reservation.connection_id url
    future ← send_operation reservation.requester_nsa (λ header. terminate header connection_id)
    create_task (complete_terminate connection_id future)
    pure (accepted connection_id)

  abbrev pub refuse_terminate : ReservationStatus → M AcceptedResponse
  refuse_terminate status = raise (
      wrong_state status
        "must be RESERVED, FAILED, or RESERVING without a reserve in progress to terminate")

  -- Whether the status lets a terminate start. `retry` is the last case's guard without the test
  -- of the reserve in flight: the aggregator still reports the connection as terminating.
  abbrev pub may_terminate : ReservationStatus → Bool → Bool → Bool
  may_terminate reserved still_terminating in_flight = true
  may_terminate failed still_terminating in_flight = true
  may_terminate reserving still_terminating in_flight =
      not in_flight || (still_terminating && not in_flight)
  may_terminate status still_terminating in_flight = still_terminating && not in_flight

  abbrev pub dispatch_terminate :
      ReservationStatus → Reservation → String → String → Bool → Bool → M AcceptedResponse
  dispatch_terminate terminated reservation connection_id url still_terminating in_flight = do
    set_callback_url reservation.connection_id url
    redeliver connection_id url
  dispatch_terminate status reservation connection_id url still_terminating in_flight =
      if may_terminate status still_terminating in_flight
      then start_terminate reservation connection_id url
      else refuse_terminate status

  abbrev pub terminate_refreshed : String → CallbackRequest → Refreshed e → M AcceptedResponse
  terminate_refreshed connection_id body none = raise (not_found connection_id)
  terminate_refreshed connection_id body (some (reservation, qr)) = do
    in_flight ← read_store (is_reserve_in_flight connection_id)
    dispatch_terminate reservation.status reservation connection_id body.callback_url
        (qr.connection_states.lifecycle_state == "Terminating") in_flight

  unfoldable pub terminate_reservation : String → CallbackRequest → M AcceptedResponse
  terminate_reservation connection_id body = do
    found ← refresh_reservation e connection_id
    terminate_refreshed connection_id body found

  abbrev pub new_reservation : String → ReservationRequest → Reservation
  new_reservation connection_id body = record {
    connection_id = connection_id;
    status = reserving;
    global_reservation_id = body.global_reservation_id;
    description = body.description;
    criteria = some (record {
      version = 1;
      service_type = body.criteria.service_type;
      p2ps = response_p2ps body;
    });
    requester_nsa = body.requester_nsa;
    callback_url = body.callback_url;
    last_error = none;
    seen_error_notification_ids = none;
  }

  abbrev pub reserve_request : ReservationRequest → String → String × String → Request
  reserve_request body correlation_id (start_time, end_time) =
      reserve (operation_header_with e body.requester_nsa correlation_id) body.global_reservation_id
        body.description body.criteria.p2ps.capacity body.criteria.p2ps.source_stp
        body.criteria.p2ps.dest_stp start_time end_time
        (text_or body.criteria.service_type default_service_type) body.criteria.p2ps.ero

  -- The answer to the reserve: the aggregator's connectionId, or 502.
  abbrev pub accept_reserve : ReservationRequest → String → ℕ → NsiMessage → M AcceptedResponse
  accept_reserve body correlation_id future (NsiMessage.reserve_response msg) = do
    write_store (create (new_reservation msg.connection_id body))
    write_store (reserve_started msg.connection_id)
    create_task (complete_reserve msg.connection_id future)
    pure (accepted msg.connection_id)
  accept_reserve body correlation_id future message = do
    write_store (cancel_pending correlation_id)
    raise (http_exception 502 (sync_failure_detail message))

  abbrev pub reserve_answered : ReservationRequest → String → ℕ → Response → M AcceptedResponse
  reserve_answered body correlation_id future response = do
    sync_msg ← lift (from_parser (e.soap.parse response.content))
    accept_reserve body correlation_id future sync_msg

  abbrev pub send_reserve_with :
      ReservationRequest → String → ℕ → String × String → M AcceptedResponse
  send_reserve_with body correlation_id future period = do
    response ← send_registered e correlation_id (reserve_request body correlation_id period)
    reserve_answered body correlation_id future response

  unfoldable pub send_reserve : ReservationRequest → M AcceptedResponse
  send_reserve body = do
    correlation_id ← draw_urn e
    future ← register correlation_id
    period ← (λ w. (ok (e.reserve_period w), w))
    send_reserve_with body correlation_id future period

  -- A reservation that is still RESERVING is delivered by its own task.
  abbrev pub redeliver_settled : ReservationStatus → String → String → M AcceptedResponse
  redeliver_settled reserving connection_id url = pure (accepted connection_id)
  redeliver_settled status connection_id url = redeliver connection_id url

  abbrev pub reuse_or_send : ReservationRequest → Option Reservation → M AcceptedResponse
  reuse_or_send body none = send_reserve body
  reuse_or_send body (some existing) = do
    set_callback_url existing.connection_id body.callback_url
    redeliver_settled existing.status existing.connection_id body.callback_url

  abbrev pub reserve_idempotently : ReservationRequest → Option String → M AcceptedResponse
  reserve_idempotently body none = send_reserve body
  reserve_idempotently body (some global_reservation_id) = do
    existing ← find_reservation_by_global_id e global_reservation_id
    reuse_or_send body existing

  unfoldable pub create_reservation : ReservationRequest → M AcceptedResponse
  create_reservation body =
      if body.provider_nsa == e.settings.provider_nsa
      then reserve_idempotently body body.global_reservation_id
      else raise (
          http_exception 400 (
            "providerNSA "
            <> e.repr body.provider_nsa
            <> " does not match the configured provider "
            <> e.repr e.settings.provider_nsa))

  abbrev pub refresh_for : DetailLevel → String → M (Refreshed e)
  refresh_for recursive connection_id = refresh_reservation_recursive e connection_id
  refresh_for detail connection_id = refresh_reservation e connection_id

  abbrev pub segments_for : DetailLevel → QueryReservation → Option (List PathSegment)
  segments_for summary qr = none
  segments_for detail qr = map_children_to_segments qr.children

  abbrev pub detail_of : String → DetailLevel → Refreshed e → M ReservationDetail
  detail_of connection_id detail none = raise (not_found connection_id)
  detail_of connection_id detail (some (reservation, qr)) =
      pure (build_reservation_detail reservation (segments_for detail qr))

  unfoldable pub get_reservation : String → DetailLevel → M ReservationDetail
  get_reservation connection_id detail = do
    found ← refresh_for detail connection_id
    detail_of connection_id detail found

  -- `{qr.connection_id: qr.children for qr in …}`: the last of two equal ids counts.
  abbrev pub children_by_id :
      List QueryReservation
      → Dict.Dict (Option (List ChildSegment))
      → Dict.Dict (Option (List ChildSegment))
  children_by_id [] d = d
  children_by_id (qr ∷ qrs) d = children_by_id qrs (Dict.insert qr.connection_id qr.children d)

  abbrev pub segments_by_id :
      Dict.Dict (Option (List ChildSegment)) → Reservation → Option (List PathSegment)
  segments_by_id d r = map_children_to_segments (or_else (Dict.lookup r.connection_id d) none)

  abbrev pub listed_detail : DetailLevel → List QueryReservation → Reservation → ReservationDetail
  listed_detail full qrs r = build_reservation_detail r (segments_by_id (children_by_id qrs []) r)
  listed_detail detail qrs r = build_reservation_detail r none

  abbrev pub list_with : DetailLevel → M ReservationsListResponse
  list_with detail = do
    query_reservations ← refresh_all_reservations e
    reservations ← read_store get_all
    pure (map (listed_detail detail query_reservations) reservations)

  unfoldable pub list_reservations : DetailLevel → M ReservationsListResponse
  list_reservations recursive =
      raise (http_exception 400 "detail=recursive is only supported for individual reservations")
  list_reservations detail = list_with detail
