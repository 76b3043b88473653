-- ===== src/Reservations/Tasks.antt =====
-- The background tasks of routers/reservations.py: `_complete_reserve`, `_complete_provision`,
-- `_complete_release` and `_complete_terminate`, with the wait for the data plane.
-- The data-plane loop counts the remaining time in microseconds, and runs on fuel.
pub mod Waiting
pub mod Reserving
pub mod Endings
pub mod Outcomes
use nsi_aggregator_proxy.Common.{
  if◌then◌else◌, or_else, ◌<>◌, ℕ, zero, suc, ◌-◌, ◌*◌, String, Bool, true, false, not, Option,
  none, some,
}
use nsi_aggregator_proxy.Mapping.{microseconds}
use nsi_aggregator_proxy.Models.{ReservationStatus, reserved, activated, failed, terminated}
use nsi_aggregator_proxy.Reservations.Errors.{
  format_service_exception, format_error_event, format_last_error,
}
use nsi_aggregator_proxy.Reservations.Queries.{
  operation_header_with, send_callback, query_notifications,
}
use nsi_aggregator_proxy.Runtime.{
  reserve_commit, Response, Env, M, read_store, write_store, change_store, register,
  register_connection, draw_urn, post_checked, wait_for, out_of_fuel, ok, pure, raise, ◌>>=◌, ◌>>◌,
  attempt, try_some, ensure,
}
use nsi_aggregator_proxy.Soap.Messages.{ErrorEvent, NsiMessage, type_name}
use nsi_aggregator_proxy.Store.{
  Reservation, get, modify, update_status, update_criteria, reserve_finished, cancel_pending,
  cancel_pending_by_connection,
}

-- What `_await_dataplane_change` returns: the change, an error event, or a time-out.
pub data DataplaneOutcome : Type 0 where
  reached : DataplaneOutcome
  failed_by : ErrorEvent → DataplaneOutcome
  timed_out : DataplaneOutcome

abbrev pub bool_eq : Bool → Bool → Bool
bool_eq true b = b
bool_eq false b = not b

module _ (e : Env) where
  -- What one message means to the wait: it ends it, or (`none`) the wait goes on.
  abbrev pub dataplane_message : Bool → NsiMessage → Option DataplaneOutcome
  dataplane_message target (NsiMessage.data_plane_state_change change) =
      if bool_eq change.active target then some reached else none
  dataplane_message target (NsiMessage.error_event event) = some (failed_by event)
  dataplane_message target message = none

  abbrev pub continue_wait : Option DataplaneOutcome → M DataplaneOutcome → M DataplaneOutcome
  continue_wait (some outcome) again = pure outcome
  continue_wait none again = again

  -- A time-out of the wait, or the message that ended it.
  abbrev pub on_dataplane_wait :
      String → Bool → Option NsiMessage → M DataplaneOutcome → M DataplaneOutcome
  on_dataplane_wait connection_id target none again = do
    write_store (cancel_pending_by_connection connection_id)
    pure timed_out
  on_dataplane_wait connection_id target (some message) again =
      continue_wait (dataplane_message target message) again

  abbrev pub elapsed_now : M ℕ
  elapsed_now w = (ok (e.elapsed w), w)

  -- `while remaining > 0`
  unfoldable pub await_rounds : ℕ → ℕ → String → Bool → M DataplaneOutcome
  await_rounds zero remaining connection_id target = raise out_of_fuel
  await_rounds (suc fuel) zero connection_id target = pure timed_out
  await_rounds (suc fuel) (suc remaining) connection_id target = do
    future ← register_connection connection_id
    message ← wait_for e future
    spent ← elapsed_now
    on_dataplane_wait connection_id target message
        (await_rounds fuel (suc remaining - spent) connection_id target)

  unfoldable pub await_dataplane_change : String → Bool → M DataplaneOutcome
  await_dataplane_change connection_id target =
      let remaining = e.settings.dataplane_timeout * microseconds in
      await_rounds (suc remaining) remaining connection_id target

  abbrev pub python_bool : Bool → String
  python_bool true = "True"
  python_bool false = "False"

  abbrev pub dataplane_reason : String → Bool → DataplaneOutcome → M (Option String)
  dataplane_reason connection_id target reached = pure none
  dataplane_reason connection_id target (failed_by event) = pure (some (format_error_event event))
  dataplane_reason connection_id target timed_out = do
    notifications ← query_notifications e connection_id
    pure (
        some (
          or_else (format_last_error notifications.error_events) (
            "no DataPlaneStateChange(active="
            <> python_bool target
            <> ") received within timeout")))

  unfoldable pub dataplane_failure : String → Bool → M (Option String)
  dataplane_failure connection_id target = do
    outcome ← await_dataplane_change connection_id target
    dataplane_reason connection_id target outcome

  -- `reservation.last_error = …` and the callback, if the reservation is in the store.
  abbrev pub announce_to : String → Option String → Option Reservation → M (Unit {0})
  announce_to connection_id last_error none = pure tt
  announce_to connection_id last_error (some reservation) = do
    change_store (modify connection_id (λ r. record r { last_error = last_error }))
    send_callback e reservation.callback_url (record reservation { last_error = last_error })

  unfoldable pub announce : String → ReservationStatus → Option String → M (Unit {0})
  announce connection_id status last_error = do
    change_store (update_status connection_id status)
    reservation ← read_store (get connection_id)
    announce_to connection_id last_error reservation

  -- The local `fail(reason)` of the reserve, provision and release tasks.
  unfoldable pub fail : String → String → M (Unit {0})
  fail connection_id reason = announce connection_id failed (some reason)

  -- `except Exception: with suppress(Exception): await fail("internal error")`
  abbrev pub guarded : String → M (Unit {0}) → M (Unit {0})
  guarded connection_id body =
      attempt body (λ _. attempt (fail connection_id "internal error") (λ _. pure tt))

  -- Phase 2 of the reserve: what the answer to reserveCommit leads to.
  abbrev pub on_commit_result : String → Option NsiMessage → M (Unit {0})
  on_commit_result connection_id none =
      fail connection_id "no reserveCommitConfirmed received within timeout"
  on_commit_result connection_id (some (NsiMessage.reserve_commit_failed msg)) =
      fail connection_id ("reserveCommitFailed: " <> format_service_exception msg.service_exception)
  on_commit_result connection_id (some (NsiMessage.reserve_commit_confirmed _)) =
      announce connection_id reserved none
  on_commit_result connection_id (some message) =
      fail connection_id ("unexpected message: " <> type_name message)

  abbrev pub requester_of : Option Reservation → String
  requester_of none = ""
  requester_of (some reservation) = reservation.requester_nsa

  abbrev pub on_commit_sent : String → String → ℕ → Option Response → M (Unit {0})
  on_commit_sent connection_id correlation_id future none = do
    write_store (cancel_pending correlation_id)
    fail connection_id "failed to send reserveCommit to aggregator"
  on_commit_sent connection_id correlation_id future (some response) = do
    message ← wait_for e future
    on_commit_result connection_id message

  unfoldable pub commit : String → M (Unit {0})
  commit connection_id = do
    correlation_id ← draw_urn e
    future ← register correlation_id
    reservation ← read_store (get connection_id)
    response ← try_some (
        post_checked e (
          reserve_commit (operation_header_with e (requester_of reservation) correlation_id)
            connection_id))
    on_commit_sent connection_id correlation_id future response

  -- Phase 1 of the reserve.
  abbrev pub on_reserve_result : String → Option NsiMessage → M (Unit {0})
  on_reserve_result connection_id none =
      fail connection_id "no reserveConfirmed received within timeout"
  on_reserve_result connection_id (some (NsiMessage.reserve_failed msg)) =
      fail connection_id ("reserveFailed: " <> format_service_exception msg.service_exception)
  on_reserve_result connection_id (some (NsiMessage.reserve_timeout msg)) =
      fail connection_id "reserveTimeout from aggregator"
  on_reserve_result connection_id (some (NsiMessage.reserve_confirmed msg)) = do
    change_store (update_criteria connection_id msg)
    commit connection_id
  on_reserve_result connection_id (some message) =
      fail connection_id ("unexpected message: " <> type_name message)

  abbrev pub reserve_body : String → ℕ → M (Unit {0})
  reserve_body connection_id future = do
    message ← wait_for e future
    on_reserve_result connection_id message

  unfoldable pub complete_reserve : String → ℕ → M (Unit {0})
  complete_reserve connection_id future =
      ensure (guarded connection_id (reserve_body connection_id future))
        (λ w. record w { store = reserve_finished connection_id w.store })

  abbrev pub on_dataplane_failure : String → ReservationStatus → Option String → M (Unit {0})
  on_dataplane_failure connection_id goal (some reason) = fail connection_id reason
  on_dataplane_failure connection_id goal none = announce connection_id goal none

  abbrev pub switch_dataplane : String → Bool → ReservationStatus → M (Unit {0})
  switch_dataplane connection_id target goal = do
    reason ← dataplane_failure connection_id target
    on_dataplane_failure connection_id goal reason

  abbrev pub on_provision_result : String → Option NsiMessage → M (Unit {0})
  on_provision_result connection_id none =
      fail connection_id "no provisionConfirmed received within timeout"
  on_provision_result connection_id (some (NsiMessage.provision_confirmed _)) =
      switch_dataplane connection_id true activated
  on_provision_result connection_id (some message) =
      fail connection_id ("unexpected message: " <> type_name message)

  abbrev pub provision_body : String → ℕ → M (Unit {0})
  provision_body connection_id future = do
    message ← wait_for e future
    on_provision_result connection_id message

  unfoldable pub complete_provision : String → ℕ → M (Unit {0})
  complete_provision connection_id future =
      guarded connection_id (provision_body connection_id future)

  abbrev pub on_release_result : String → Option NsiMessage → M (Unit {0})
  on_release_result connection_id none =
      fail connection_id "no releaseConfirmed received within timeout"
  on_release_result connection_id (some (NsiMessage.release_confirmed _)) =
      switch_dataplane connection_id false reserved
  on_release_result connection_id (some message) =
      fail connection_id ("unexpected message: " <> type_name message)

  abbrev pub release_body : String → ℕ → M (Unit {0})
  release_body connection_id future = do
    message ← wait_for e future
    on_release_result connection_id message

  unfoldable pub complete_release : String → ℕ → M (Unit {0})
  complete_release connection_id future = guarded connection_id (release_body connection_id future)

  -- The local `terminated(reason)`, which leaves `last_error` as it is.
  abbrev pub deliver_terminated : Option Reservation → M (Unit {0})
  deliver_terminated none = pure tt
  deliver_terminated (some reservation) = send_callback e reservation.callback_url reservation

  unfoldable pub announce_terminated : String → M (Unit {0})
  announce_terminated connection_id = do
    change_store (update_status connection_id terminated)
    reservation ← read_store (get connection_id)
    deliver_terminated reservation

  -- Confirmed, timed out or anything else: all end TERMINATED.
  unfoldable pub complete_terminate : String → ℕ → M (Unit {0})
  complete_terminate connection_id future =
      attempt (do wait_for e future; announce_terminated connection_id)
        (λ _. attempt (announce_terminated connection_id) (λ _. pure tt))
