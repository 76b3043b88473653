-- ===== src/Reservations/Refresh.antt =====
-- How a queried reservation is written to the store: `_resolve_last_error`,
-- `_record_seen_error_events`, `_update_store_from_query`, and the segments of the answer.
-- The log lines are left out.
pub mod Laws
use mathlib.Core.Option
use nsi_aggregator_proxy.Common.Dict
use nsi_aggregator_proxy.Common.{
  eqb, if◌then◌else◌, is_some, or_else, prefer, any, ℕ, zero, suc, String, Bool, false, Option,
  none, some, List, [], ◌∷◌, map,
}
use nsi_aggregator_proxy.Mapping.{map_nsi_states_to_status, DerivedStatus}
use nsi_aggregator_proxy.Models.{
  ReservationStatus, is_failed, P2Ps, CriteriaResponse, PathSegment, ReservationDetail,
}
use nsi_aggregator_proxy.Models.Formats.{accepts_link}
use nsi_aggregator_proxy.Reservations.Errors.{format_last_error}
use nsi_aggregator_proxy.Soap.Messages.{
  ErrorEvent, ConnectionStates, ChildSegment, QueryReservation,
}
use nsi_aggregator_proxy.Store.{Reservation, ReservationStore, get}

unfoldable pub resolve_last_error : DerivedStatus → Option String → Option String → Option String
resolve_last_error derived (some nsi_last_error) existing_last_error = some nsi_last_error
resolve_last_error derived none existing_last_error =
    if is_failed derived.status
    then (if is_some derived.reason then derived.reason else existing_last_error)
    else none

-- Python's `set.update` with one more number.
abbrev pub has_id : ℕ → List ℕ → Bool
has_id n ids = any (eqb n) ids

abbrev pub add_ids : List ErrorEvent → List ℕ → List ℕ
add_ids [] ids = ids
add_ids (e ∷ events) ids =
    add_ids events (if has_id e.notification_id ids then ids else e.notification_id ∷ ids)

unfoldable pub record_seen_error_events : Reservation → List ErrorEvent → Reservation
record_seen_error_events reservation [] = reservation
record_seen_error_events reservation (e ∷ events) = record reservation {
  seen_error_notification_ids =
      some (add_ids (e ∷ events) (or_else reservation.seen_error_notification_ids []));
}

abbrev pub p2ps_of : Option ℕ → Option String → Option String → Option P2Ps
p2ps_of (some capacity) (some source_stp) (some dest_stp) =
    some (record { capacity = capacity; source_stp = source_stp; dest_stp = dest_stp })
p2ps_of _ _ _ = none

-- `qr.criteria_version or 1`: version 0 counts as missing.
abbrev pub version_or_one : Option ℕ → ℕ
version_or_one none = 1
version_or_one (some zero) = 1
version_or_one (some (suc n)) = suc n

abbrev pub criteria_with : QueryReservation → P2Ps → CriteriaResponse
criteria_with qr p2ps = record {
  version = version_or_one qr.criteria_version;
  service_type = qr.service_type;
  p2ps = p2ps;
}

abbrev pub criteria_if_valid : QueryReservation → Option P2Ps → Option (Option CriteriaResponse)
criteria_if_valid qr none = some none
criteria_if_valid qr (some p2ps) =
    if accepts_link p2ps.capacity p2ps.source_stp p2ps.dest_stp
    then some (some (criteria_with qr p2ps))
    else none

-- The criteria of an answer that has all of a link; `none` is the ValidationError of P2PS, for a
-- capacity of 0 and for an STP that is none.
unfoldable pub queried_criteria : QueryReservation → Option (Option CriteriaResponse)
queried_criteria qr = criteria_if_valid qr (p2ps_of qr.capacity qr.source_stp qr.dest_stp)

abbrev pub last_error_of : Option Reservation → Option String
last_error_of none = none
last_error_of (some r) = r.last_error

-- The reservation that the query leaves in the store, before its error events are recorded.
unfoldable pub refreshed :
    Option Reservation
    → QueryReservation
    → Option CriteriaResponse
    → DerivedStatus
    → Option String
    → Reservation
refreshed (some existing) qr criteria derived last_error = record existing {
  status = derived.status;
  last_error = last_error;
  criteria = prefer criteria existing.criteria;
}
refreshed none qr criteria derived last_error = record {
  connection_id = qr.connection_id;
  status = derived.status;
  global_reservation_id = qr.global_reservation_id;
  description = qr.description;
  criteria = criteria;
  requester_nsa = qr.requester_nsa;
  callback_url = "";
  last_error = last_error;
  seen_error_notification_ids = none;
}

-- An existing object is changed in place, a new one created: either way the dict holds the result
-- under the queried connectionId, at the place that the key had.
unfoldable pub store_from_query :
    ReservationStore
    → QueryReservation
    → Option CriteriaResponse
    → DerivedStatus
    → List ErrorEvent
    → Reservation × ReservationStore
store_from_query store qr criteria derived error_events =
    let existing = get qr.connection_id store in
    let last_error =
      resolve_last_error derived (format_last_error error_events) (last_error_of existing) in
    let reservation =
      record_seen_error_events (refreshed existing qr criteria derived last_error) error_events in
    (
      reservation,
      record store { reservations = Dict.insert qr.connection_id reservation store.reservations },
    )

-- `none` where the criteria raise, before anything is stored.
unfoldable pub update_store_from_query :
    ReservationStore
    → QueryReservation
    → DerivedStatus
    → List ErrorEvent
    → Option (Reservation × ReservationStore)
update_store_from_query store qr derived error_events =
    Option.map (λ criteria. store_from_query store qr criteria derived error_events)
      (queried_criteria qr)

abbrev pub child_status : Option ConnectionStates → Option ReservationStatus
child_status none = none
child_status (some states) = some (map_nsi_states_to_status states false)

abbrev pub segment_of : ChildSegment → PathSegment
segment_of child = record {
  order = child.order;
  connection_id = child.connection_id;
  provider_nsa = child.provider_nsa;
  service_type = child.service_type;
  capacity = child.capacity;
  source_stp = child.source_stp;
  dest_stp = child.dest_stp;
  status = child_status child.connection_states;
}

unfoldable pub map_children_to_segments : Option (List ChildSegment) → Option (List PathSegment)
map_children_to_segments none = none
map_children_to_segments (some []) = none
map_children_to_segments (some (child ∷ children)) = some (map segment_of (child ∷ children))

unfoldable pub build_reservation_detail :
    Reservation → Option (List PathSegment) → ReservationDetail
build_reservation_detail reservation segments = record {
  global_reservation_id = reservation.global_reservation_id;
  connection_id = reservation.connection_id;
  description = reservation.description;
  criteria = reservation.criteria;
  status = reservation.status;
  last_error = reservation.last_error;
  segments = segments;
}
