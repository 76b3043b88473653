-- ===== src/Reservations/Endpoints/Single.antt =====
-- What GET /reservations/{connectionId} answers, by what the aggregator says of the reservation.
use nsi_aggregator_proxy.Common.{Option, String, ◌≡◌, ◌≢◌, refl, some, none, List, [], ◌∷◌}
use nsi_aggregator_proxy.Models.{
  CriteriaResponse, DetailLevel, summary, full, recursive, ReservationDetail,
}
use nsi_aggregator_proxy.Reservations.Endpoints.{
  not_found, segments_for, detail_of, get_reservation,
}
use nsi_aggregator_proxy.Reservations.Queries.{
  base_status, resolve_and_store, query_notifications, query_summary, Refreshed, first_resolved,
  refresh_reservation,
}
use nsi_aggregator_proxy.Reservations.Queries.Statuses.{
  IsStored, IsConsistent, Keeps-query_notifications, resolve_and_store_lem,
}
use nsi_aggregator_proxy.Reservations.Refresh.{queried_criteria, build_reservation_detail}
use nsi_aggregator_proxy.Runtime.{
  World, Env, M, error, Result, ok, err, pure, raise, lift, capture, ◌>>=◌, continue,
}
use nsi_aggregator_proxy.Runtime.Laws.{IsStable, Ends-after}
use nsi_aggregator_proxy.Soap.Messages.{QueryReservation, Notifications}
use nsi_aggregator_proxy.Store.{Reservation, get}

module _ (e : Env) (detail : DetailLevel) (connection_id : String) where
  -- The answer, by the criteria of the reservation: those that P2PS rejects raise.
  abbrev pub IsShown :
      QueryReservation
      → Option (Option CriteriaResponse)
      → Result ReservationDetail × World
      → Type 0
  IsShown qr none out = out.0 ≡ err (error "ValidationError")
  IsShown qr (some criteria) out =
      (r : Reservation) × (notifications : Notifications) × (out.0
        ≡ ok (build_reservation_detail r (segments_for e detail qr)))
      × (get qr.connection_id out.1.store ≡ some r)
      × IsConsistent (base_status e qr notifications) r

  -- The answer, by the result of the query for the reservation.
  abbrev pub IsTold : Result (List QueryReservation) → Result ReservationDetail × World → Type 0
  IsTold (err x) out = out.0 ≡ err x
  IsTold (ok []) out = out.0 ≡ err (not_found e connection_id)
  IsTold (ok (qr ∷ others)) out = IsShown qr (queried_criteria qr) out

  anything-IsStable : IsStable e (λ w. Unit)
  anything-IsStable = record { draws = λ w n i. tt; sends = λ w events i. tt; yields = λ w i. tt }

  abbrev resolved_of : Result (List QueryReservation) → Notifications → M (Refreshed e)
  resolved_of outcome notifications = do qrs ← lift outcome; first_resolved e qrs notifications

  abbrev told_of : Result (Refreshed e) × World → Result ReservationDetail × World
  told_of (found, w) = continue found (detail_of e connection_id detail) w

  -- What follows the refresh of the first reservation.
  shown_lem :
      (qr : QueryReservation) (notifications : Notifications)
      (criteria : Option (Option CriteriaResponse)) (out : Result Reservation × World)
      → IsStored e qr notifications criteria out
      → IsShown qr criteria (told_of (continue out.0 (λ r. pure (some (r, qr))) out.1))
  unfolding pure
  shown_lem qr notifications none out raised = rw raised refl
  shown_lem qr notifications (some criteria) out (r, p, stored, consistent) =
      rw p (r, notifications, refl, stored, consistent)

  resolved_of-IsTold :
      (outcome : Result (List QueryReservation)) (notifications : Notifications) (w : World)
      → IsTold outcome (told_of (resolved_of outcome notifications w))
  unfolding ◌>>=◌ lift pure raise
  resolved_of-IsTold (err x) notifications w = refl
  resolved_of-IsTold (ok []) notifications w = refl
  resolved_of-IsTold (ok (qr ∷ others)) notifications w =
      shown_lem qr notifications (queried_criteria qr) (resolve_and_store e qr notifications w)
        (resolve_and_store_lem e qr notifications w)

  queried-IsTold :
      (outcome : Result (List QueryReservation)) (w : World)
      → IsTold outcome (told_of ((query_notifications e connection_id >>= resolved_of outcome) w))
  queried-IsTold outcome w =
      Ends-after (λ n v. Unit) (λ out. IsTold outcome (told_of out))
        (query_notifications e connection_id) (resolved_of outcome) w
        (let ((n, p), _) =
            Keeps-query_notifications (λ v. Unit) e anything-IsStable connection_id w tt in
          (n, p, tt))
        (λ n v i. resolved_of-IsTold outcome n v)

  refresh_reservation-IsTold :
      (w : World)
      → IsTold
          (query_summary e (some connection_id) none w).0
          (told_of (refresh_reservation e connection_id w))
  unfolding refresh_reservation capture ◌>>=◌
  refresh_reservation-IsTold w =
      queried-IsTold (query_summary e (some connection_id) none w).0
        (query_summary e (some connection_id) none w).1

pub get_reservation-IsTold :
    (e : Env) (detail : DetailLevel) (connection_id : String) (w : World)
    → detail ≢ recursive
    → IsTold e detail connection_id
        (query_summary e (some connection_id) none w).0
        (get_reservation e connection_id detail w)
unfolding get_reservation ◌>>=◌
get_reservation-IsTold e recursive connection_id w ne = elim (ne refl) [ ]
get_reservation-IsTold e summary connection_id w ne =
    refresh_reservation-IsTold e summary connection_id w
get_reservation-IsTold e full connection_id w ne = refresh_reservation-IsTold e full connection_id w
