-- ===== src/Reservations/Refresh/Laws.antt =====
-- What a refresh changes in the store and what it keeps.
use nsi_aggregator_proxy.Common.Dict.{lookup-insert}
use nsi_aggregator_proxy.Common.{
  eqb, or_else, any, ℕ, String, ◌≡◌, refl, ap, ◌∙◌, ◌≢◌, false, ◌||◌, Option, none, some, List, [],
  ◌∷◌, arith, eq_iff, eq_refl,
}
use nsi_aggregator_proxy.Mapping.{DerivedStatus}
use nsi_aggregator_proxy.Models.{is_failed, CriteriaResponse}
use nsi_aggregator_proxy.Reservations.Errors.{format_last_error}
use nsi_aggregator_proxy.Reservations.Refresh.{
  resolve_last_error, has_id, add_ids, record_seen_error_events, refreshed, store_from_query,
}
use nsi_aggregator_proxy.Soap.Messages.{ErrorEvent, QueryReservation}
use nsi_aggregator_proxy.Store.{Reservation, ReservationStore, get}

-- The fields that the aggregator does not decide.
pub record SameClient (r existing : Reservation) : Type 0 where
  pub connection_id : r.connection_id ≡ existing.connection_id
  pub global_reservation_id : r.global_reservation_id ≡ existing.global_reservation_id
  pub description : r.description ≡ existing.description
  pub requester_nsa : r.requester_nsa ≡ existing.requester_nsa
  pub callback_url : r.callback_url ≡ existing.callback_url

record_seen-status :
    (r : Reservation) (events : List ErrorEvent)
    → (record_seen_error_events r events).status ≡ r.status
unfolding record_seen_error_events
record_seen-status r [] = refl
record_seen-status r (e ∷ events) = refl

record_seen-SameClient :
    (r existing : Reservation) (events : List ErrorEvent)
    → SameClient r existing
    → SameClient (record_seen_error_events r events) existing
unfolding record_seen_error_events
record_seen-SameClient r existing [] h = h
record_seen-SameClient r existing (e ∷ events) h = record {
  connection_id = h.connection_id;
  global_reservation_id = h.global_reservation_id;
  description = h.description;
  requester_nsa = h.requester_nsa;
  callback_url = h.callback_url;
}

refreshed-status :
    (o : Option Reservation) (qr : QueryReservation) (criteria : Option CriteriaResponse)
    (derived : DerivedStatus) (last_error : Option String)
    → (refreshed o qr criteria derived last_error).status ≡ derived.status
unfolding refreshed
refreshed-status none qr criteria derived last_error = refl
refreshed-status (some r) qr criteria derived last_error = refl

abbrev pub seen_ids : Reservation → List ℕ
seen_ids r = or_else r.seen_error_notification_ids []

has_id-equal : (m n : ℕ) (ids : List ℕ) → m ≡ n → has_id m ids ≡ has_id n ids
has_id-equal m n ids e = ap (λ i. has_id i ids) e

has_id-add_ids :
    (n : ℕ) (events : List ErrorEvent) (ids : List ℕ)
    → has_id n (add_ids events ids)
      ≡ (has_id n ids || any (λ event. eqb n event.notification_id) events)
has_id-add_ids n [] ids = ground arith
has_id-add_ids n (e ∷ events) ids = ground (
  arith,
  has_id-add_ids n events ids,
  has_id-add_ids n events (e.notification_id ∷ ids),
  has_id-equal n e.notification_id ids,
)

record_seen-ids :
    (r : Reservation) (events : List ErrorEvent) (n : ℕ)
    → has_id n (seen_ids (record_seen_error_events r events))
      ≡ (has_id n (seen_ids r) || any (λ event. eqb n event.notification_id) events)
unfolding record_seen_error_events
record_seen-ids r [] n = ground arith
record_seen-ids r (e ∷ events) n = has_id-add_ids n (e ∷ events) (seen_ids r)

module _ (store : ReservationStore) (qr : QueryReservation) (criteria : Option CriteriaResponse)
    (derived : DerivedStatus) (events : List ErrorEvent) where
  abbrev After : Reservation × ReservationStore
  After = store_from_query store qr criteria derived events

  -- A refresh stores the reservation it returns under the queried id, with the derived status;
  -- every other reservation, the pending futures and the reserves in flight are as before.
  pub store_from_query_lem :
      (get qr.connection_id After.1 ≡ some After.0)
      × ((j : String) → qr.connection_id ≢ j → get j After.1 ≡ get j store)
      × (After.1 ≡ record store { reservations = After.1.reservations })
      × (After.0.status ≡ derived.status)
  unfolding store_from_query get
  store_from_query_lem = (
    rw lookup-insert (rw (eq_refl qr.connection_id) refl),
    λ j ne. ground (
      arith,
      lookup-insert qr.connection_id j After.0 store.reservations,
      eq_iff qr.connection_id j,
    ),
    refl,
    record_seen-status _ events ∙ refreshed-status _ qr criteria derived _,
  )

  -- A reservation that the store has keeps what its client gave: the ids, the description, the
  -- requester and the callback URL.
  pub store_from_query-SameClient :
      (existing : Reservation)
      → get qr.connection_id store ≡ some existing
      → SameClient After.0 existing
  unfolding store_from_query refreshed
  store_from_query-SameClient existing h = rw h (
      record_seen-SameClient _ existing events (record {
        connection_id = refl;
        global_reservation_id = refl;
        description = refl;
        requester_nsa = refl;
        callback_url = refl;
      }))

  -- The ids of error events that a reservation has seen are those it had and those of the query's
  -- events: none is lost.
  pub store_from_query-seen :
      (existing : Reservation)
      → get qr.connection_id store ≡ some existing
      → (n : ℕ)
      → has_id n (seen_ids After.0)
        ≡ (has_id n (seen_ids existing) || any (λ event. eqb n event.notification_id) events)
  unfolding store_from_query refreshed
  store_from_query-seen existing h n = rw h (record_seen-ids _ events n)

refreshed-last_error :
    (o : Option Reservation) (qr : QueryReservation) (criteria : Option CriteriaResponse)
    (derived : DerivedStatus) (last_error : Option String)
    → (refreshed o qr criteria derived last_error).last_error ≡ last_error
unfolding refreshed
refreshed-last_error none qr criteria derived last_error = refl
refreshed-last_error (some r) qr criteria derived last_error = refl

-- Without an error event, a reservation that is not FAILED is left without a last error.
pub store_from_query-last_error :
    (store : ReservationStore) (qr : QueryReservation) (criteria : Option CriteriaResponse)
    (derived : DerivedStatus)
    → is_failed derived.status ≡ false
    → (store_from_query store qr criteria derived []).0.last_error ≡ none
unfolding store_from_query record_seen_error_events format_last_error resolve_last_error
store_from_query-last_error store qr criteria derived h =
    refreshed-last_error _ qr criteria derived _ ∙ rw h refl
