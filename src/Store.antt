-- ===== src/Store.antt =====
-- aggregator_proxy/reservation_store.py: the reservations and the pending futures.
-- An `asyncio.Future` is an address in `futures`; the two pending dicts hold addresses, as the
-- source's dicts hold references, so a future that a task awaits and the dict's are one.
-- A method that Python leaves by a KeyError or a ValidationError returns `none`.
pub mod Delivery
pub mod Futures
pub mod Steps
pub mod Naming
pub mod Refinement
mod Tests
use nsi_aggregator_proxy.Common.Dict
use nsi_aggregator_proxy.Common.Dict.{Dict}
use nsi_aggregator_proxy.Common.{
  if◌then◌else◌, length, get_elem?, set, ℕ, String, Bool, true, false, Option, none, some, List, [],
  ◌∷◌, ◌++◌,
}
use nsi_aggregator_proxy.Mapping.Priority.{pending}
use nsi_aggregator_proxy.Models.{ReservationStatus, CriteriaResponse}
use nsi_aggregator_proxy.Models.Formats.{accepts_link}
use nsi_aggregator_proxy.Soap.Messages.{ReserveConfirmed, NsiMessage}

pub record Reservation : Type 0 where
  pub connection_id : String
  pub status : ReservationStatus
  pub global_reservation_id : Option String
  pub description : String
  pub criteria : Option CriteriaResponse
  pub requester_nsa : String
  pub callback_url : String
  pub last_error : Option String
  pub seen_error_notification_ids : Option (List ℕ)

pub data Future : Type 0 where
  waiting : Future
  resolved : NsiMessage → Future
  cancelled : Future

-- `future.done()`: a cancelled future is done too.
abbrev pub is_done : Future → Bool
is_done waiting = false
is_done _ = true

pub record ReservationStore : Type 0 where
  pub reservations : Dict Reservation
  pub pending : Dict ℕ
  pub pending_by_connection : Dict ℕ
  pub reserves_in_flight : List String
  pub futures : List Future

unfoldable pub empty : ReservationStore
empty = record {
  reservations = [];
  pending = [];
  pending_by_connection = [];
  reserves_in_flight = [];
  futures = [];
}

unfoldable pub create : Reservation → ReservationStore → ReservationStore
create reservation s = record s {
  reservations = Dict.insert reservation.connection_id reservation s.reservations;
}

unfoldable pub get : String → ReservationStore → Option Reservation
get connection_id s = Dict.lookup connection_id s.reservations

unfoldable pub get_all : ReservationStore → List Reservation
get_all s = Dict.values s.reservations

-- An assignment to fields of the stored object, which the store and its readers share.
abbrev pub modify_found :
    String
    → (Reservation → Reservation)
    → ReservationStore
    → Option Reservation
    → Option ReservationStore
modify_found connection_id change s none = none
modify_found connection_id change s (some r) =
    some (record s { reservations = Dict.insert connection_id (change r) s.reservations })

unfoldable pub modify :
    String → (Reservation → Reservation) → ReservationStore → Option ReservationStore
modify connection_id change s = modify_found connection_id change s (get connection_id s)

unfoldable pub update_status :
    String → ReservationStatus → ReservationStore → Option ReservationStore
update_status connection_id status = modify connection_id (λ r. record r { status = status })

abbrev pub read_criteria : ReserveConfirmed → CriteriaResponse
read_criteria msg = record {
  version = msg.criteria_version;
  service_type = some msg.service_type;
  p2ps = record { capacity = msg.capacity; source_stp = msg.source_stp; dest_stp = msg.dest_stp };
}

-- P2PS raises a ValidationError for a capacity of 0 and for an STP that is none.
abbrev pub confirmed_criteria : ReserveConfirmed → Option CriteriaResponse
confirmed_criteria msg =
    if accepts_link msg.capacity msg.source_stp msg.dest_stp then some (read_criteria msg) else none

abbrev pub replace_criteria :
    String → Option CriteriaResponse → ReservationStore → Option ReservationStore
replace_criteria connection_id none s = none
replace_criteria connection_id (some criteria) s =
    modify connection_id (λ r. record r { criteria = some criteria }) s

-- The KeyError comes first, the ValidationError next; after either the store is as it was.
unfoldable pub update_criteria :
    String → ReserveConfirmed → ReservationStore → Option ReservationStore
update_criteria connection_id msg = replace_criteria connection_id (confirmed_criteria msg)

unfoldable pub reserve_started : String → ReservationStore → ReservationStore
reserve_started connection_id s = record s {
  reserves_in_flight = Dict.add connection_id s.reserves_in_flight;
}

unfoldable pub reserve_finished : String → ReservationStore → ReservationStore
reserve_finished connection_id s = record s {
  reserves_in_flight = Dict.discard connection_id s.reserves_in_flight;
}

unfoldable pub is_reserve_in_flight : String → ReservationStore → Bool
is_reserve_in_flight connection_id s = Dict.contains connection_id s.reserves_in_flight

-- The state of the future at an address, and a write to it.
abbrev pub future_at : ℕ → ReservationStore → Option Future
future_at address s = get_elem? s.futures address

-- `loop.create_future()`: the new future's address is the number of those before.
unfoldable pub register_pending : String → ReservationStore → ℕ × ReservationStore
register_pending correlation_id s =
    let address = length s.futures in
    (
      address,
      record s {
        futures = s.futures ++ waiting ∷ [];
        pending = Dict.insert correlation_id address s.pending;
      },
    )

unfoldable pub register_pending_by_connection : String → ReservationStore → ℕ × ReservationStore
register_pending_by_connection connection_id s =
    let address = length s.futures in
    (
      address,
      record s {
        futures = s.futures ++ waiting ∷ [];
        pending_by_connection = Dict.insert connection_id address s.pending_by_connection;
      },
    )

-- `if future is None or future.done(): …` and otherwise the future gets its outcome.
abbrev pub settle_at : Option Future → ℕ → Future → List Future → Bool × List Future
settle_at (some waiting) address outcome futures = (true, set futures address outcome)
settle_at _ address outcome futures = (false, futures)

unfoldable pub settle : Option ℕ → Future → List Future → Bool × List Future
settle none outcome futures = (false, futures)
settle (some address) outcome futures =
    settle_at (get_elem? futures address) address outcome futures

unfoldable pub resolve_pending : String → NsiMessage → ReservationStore → Bool × ReservationStore
resolve_pending correlation_id message s =
    let (found, futures) =
      settle (Dict.lookup correlation_id s.pending) (resolved message) s.futures in
    (found, record s { pending = Dict.erase correlation_id s.pending; futures = futures })

unfoldable pub cancel_pending : String → ReservationStore → ReservationStore
cancel_pending correlation_id s =
    let (found, futures) = settle (Dict.lookup correlation_id s.pending) cancelled s.futures in
    record s { pending = Dict.erase correlation_id s.pending; futures = futures }

unfoldable pub resolve_pending_by_connection :
    String → NsiMessage → ReservationStore → Bool × ReservationStore
resolve_pending_by_connection connection_id message s =
    let (found, futures) =
      settle (Dict.lookup connection_id s.pending_by_connection) (resolved message) s.futures in
    (
      found,
      record s {
        pending_by_connection = Dict.erase connection_id s.pending_by_connection;
        futures = futures;
      },
    )

unfoldable pub cancel_pending_by_connection : String → ReservationStore → ReservationStore
cancel_pending_by_connection connection_id s =
    let (found, futures) =
      settle (Dict.lookup connection_id s.pending_by_connection) cancelled s.futures in
    record s {
      pending_by_connection = Dict.erase connection_id s.pending_by_connection;
      futures = futures;
    }

-- What `asyncio.wait_for` does to a future that is still waiting when the time is over: it is
-- cancelled, and a dict that names it keeps naming it.
unfoldable pub abandon : ℕ → ReservationStore → ReservationStore
abandon address s = record s { futures = (settle (some address) cancelled s.futures).1 }
