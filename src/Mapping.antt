-- ===== src/Mapping.antt =====
-- aggregator_proxy/state_mapping.py: the proxy's status from the NSI sub-states of a connection, and
-- the refinement of the two transient statuses by the aggregator's history.
-- A datetime is its wall clock in microseconds since year 1 with its UTC offset, written as two
-- numbers of which the offset is the difference. `datetime.fromisoformat` and `isoformat` are the
-- parameter `Iso8601`, for the standard library's grammar of timestamps is not restated here.
pub mod Priority
pub mod Activating
pub mod Deriving
mod Tests
use Prim.Native.Char.{Char, code}
use Prim.Native.String
use nsi_aggregator_proxy.Common.{
  ltb, eqb, if◌then◌else◌, ◌==◌, ◌<>◌, text_lt, str, keep, any, max_by, ℕ, ◌+◌, ◌*◌, String, Bool,
  true, false, ◌&&◌, ◌||◌, Option, none, some, List,
}
use nsi_aggregator_proxy.Models.{
  ReservationStatus, reserving, reserved, activating, activated, deactivating, failed, terminated,
}
use nsi_aggregator_proxy.Soap.Messages.{DataPlaneStateChange, ConnectionStates, OperationResult}

unfoldable pub is_ended : String → Bool
is_ended s = s == "Terminated" || s == "PassedEndTime"

unfoldable pub is_reserve_failure : String → Bool
is_reserve_failure s = s == "ReserveTimeout" || s == "ReserveFailed" || s == "ReserveAborting"

unfoldable pub is_reserve_pending : String → Bool
is_reserve_pending s = s == "ReserveChecking" || s == "ReserveHeld" || s == "ReserveCommitting"

unfoldable pub map_nsi_states_to_status : ConnectionStates → Bool → ReservationStatus
map_nsi_states_to_status states has_error_event =
    if is_ended states.lifecycle_state
    then terminated
    else if states.lifecycle_state == "Failed"
    then failed
    else if is_reserve_failure states.reservation_state
    then failed
    else if has_error_event
    then failed
    else if is_reserve_pending states.reservation_state
    then reserving
    else if states.data_plane_active && states.provision_state == "Released"
    then deactivating
    else if states.data_plane_active
    then activated
    else if states.provision_state == "Provisioned"
    then activating
    else reserved

pub record DerivedStatus : Type 0 where
  pub status : ReservationStatus
  pub reason : Option String

-- The UTC offset is `ahead - behind`.
pub record UtcOffset : Type 0 where
  pub ahead : ℕ
  pub behind : ℕ

pub record Datetime : Type 0 where
  pub wall : ℕ
  pub tzinfo : UtcOffset

-- What `fromisoformat` returns: the offset may be missing.
pub record ParsedDatetime : Type 0 where
  pub wall : ℕ
  pub tzinfo : Option UtcOffset

pub record Iso8601 : Type 0 where
  pub fromisoformat : String → Option ParsedDatetime
  pub isoformat : Datetime → String

abbrev pub utc : UtcOffset
utc = record { ahead = 0; behind = 0 }

-- `a < b` for datetimes with an offset: by their UTC instants.
abbrev pub before : Datetime → Datetime → Bool
before a b =
    ltb (a.wall + a.tzinfo.behind + b.tzinfo.ahead) (b.wall + b.tzinfo.behind + a.tzinfo.ahead)

-- `now - then > timeout`
abbrev pub longer_ago : Datetime → Datetime → ℕ → Bool
longer_ago now since timeout =
    ltb (since.wall + since.tzinfo.behind + now.tzinfo.ahead + timeout)
      (now.wall + now.tzinfo.behind + since.tzinfo.ahead)

-- `timestamp.replace("Z", "+00:00")`
abbrev pub replace_z : String → String
replace_z String.[] = ""
replace_z (String.◌∷◌ c s) =
    if eqb (code c) 90 then "+00:00" <> replace_z s else String.◌∷◌ c (replace_z s)

-- A naive timestamp is taken to be UTC.
abbrev pub offset_or_utc : Option UtcOffset → UtcOffset
offset_or_utc none = utc
offset_or_utc (some offset) = offset

abbrev pub with_utc : Option ParsedDatetime → Option Datetime
with_utc none = none
with_utc (some parsed) = some (record { wall = parsed.wall; tzinfo = offset_or_utc parsed.tzinfo })

-- `(result.result_id, result.timestamp)` is greater for the first.
abbrev pub later_result : OperationResult → OperationResult → Bool
later_result a b =
    ltb b.result_id a.result_id || (eqb a.result_id b.result_id && text_lt b.timestamp a.timestamp)

abbrev pub microseconds : ℕ
microseconds = 1000000

-- `ts is not None and ts >= since`
abbrev pub not_before : Option Datetime → Datetime → Bool
not_before none since = false
not_before (some ts) since = if before ts since then false else true

-- `max(provision_at, schedule_start)` where there is a start: the first of two equal ones.
abbrev pub deadline_from : Datetime → Option Datetime → Datetime
deadline_from provision_at none = provision_at
deadline_from provision_at (some schedule_start) =
    if before provision_at schedule_start then schedule_start else provision_at

module _ (iso : Iso8601) where
  unfoldable pub parse_iso8601 : String → Option Datetime
  parse_iso8601 timestamp = with_utc (iso.fromisoformat (replace_z timestamp))

  abbrev pub time_of : Option OperationResult → Option Datetime
  time_of none = none
  time_of (some latest) = parse_iso8601 latest.timestamp

  unfoldable pub latest_operation_time : List OperationResult → String → Option Datetime
  latest_operation_time results operation =
      time_of (max_by later_result (keep (λ result. result.operation == operation) results))

  unfoldable pub data_plane_active_since : List DataPlaneStateChange → Datetime → Bool
  data_plane_active_since changes since =
      any (λ change. change.active && not_before (parse_iso8601 change.timestamp) since) changes

  abbrev pub start_of : Option String → Option Datetime
  start_of none = none
  start_of (some start_time) = parse_iso8601 start_time

  pub derive_activating :
      Option Datetime → List DataPlaneStateChange → Option Datetime → Datetime → ℕ → DerivedStatus
  derive_activating none changes schedule_start now timeout = record {
    status = activating;
    reason = none;
  }
  derive_activating (some provision_at) changes schedule_start now timeout =
      if data_plane_active_since changes provision_at
      then record {
        status = failed;
        reason = some "data plane went inactive after activation without a release or terminate";
      }
      else if longer_ago now (deadline_from provision_at schedule_start) (timeout * microseconds)
      then record {
        status = failed;
        reason = some (
            "data plane not active within "
            <> str timeout
            <> "s of provision at "
            <> iso.isoformat provision_at);
      }
      else record { status = activating; reason = none }

  pub derive_deactivating : Option Datetime → Datetime → ℕ → DerivedStatus
  derive_deactivating none now timeout = record { status = deactivating; reason = none }
  derive_deactivating (some release_at) now timeout =
      if longer_ago now release_at (timeout * microseconds)
      then record {
        status = failed;
        reason = some (
            "data plane still active "
            <> str timeout
            <> "s after release at "
            <> iso.isoformat release_at);
      }
      else record { status = deactivating; reason = none }

  -- `timeout` is the whole number of seconds of `dataplane_timeout`.
  unfoldable pub derive_status :
      ReservationStatus
      → List OperationResult
      → List DataPlaneStateChange
      → Option String
      → Datetime
      → ℕ
      → DerivedStatus
  unfolding derive_activating derive_deactivating
  derive_status activating results changes start_time now timeout =
      derive_activating (latest_operation_time results "provisionConfirmed") changes
        (start_of start_time) now timeout
  derive_status deactivating results changes start_time now timeout =
      derive_deactivating (latest_operation_time results "releaseConfirmed") now timeout
  derive_status base results changes start_time now timeout = record {
    status = base;
    reason = none;
  }
