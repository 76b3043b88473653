-- ===== src/Reservations/Queries/Reading.antt =====
-- The queries leave a view of the world as it is, if it does not look at queries and at the store.
use nsi_aggregator_proxy.Common.{
  ℕ, String, ◌≡◌, refl, Bool, true, false, Option, none, some, List, [], ◌∷◌,
}
use nsi_aggregator_proxy.Models.{ReservationStatus, activating, deactivating}
use nsi_aggregator_proxy.Reservations.Queries.{
  query_header, parsed_or, query_notifications, query_results, results_for, stored_or_invalid,
  resolve_and_store, post_or_502, query_summary, first_resolved, refresh_reservation,
  finalize_refresh, first_finalized, on_recursive_result, send_registered, expect_acknowledgment,
  refresh_reservation_recursive, store_terminal, all_notifications, resolve_all,
  refresh_all_reservations, finalize_all, find_reservation_by_global_id,
}
use nsi_aggregator_proxy.Runtime.{
  Request, query_summary_sync, query_recursive, query_notification_sync, query_result_sync, Event,
  posted, World, Content, Response, Parsed, Env, M, read_store, write_store, register, draw_urn,
  current_time, post, post_checked, waited, wait_for,
}
use nsi_aggregator_proxy.Runtime.Views.{
  Same, Same-bind, Same-attempt, Same-try_some, Same-capture, Same-pure, Same-raise, Same-lift,
}
use nsi_aggregator_proxy.Soap.Messages.{QueryReservation, NsiMessage, Notifications}
use nsi_aggregator_proxy.Store.{
  Reservation, Future, waiting, resolved, cancelled, ReservationStore, future_at,
}

abbrev pub is_query : Request → Bool
is_query (query_summary_sync header connection_id global_reservation_id) = true
is_query (query_recursive header connection_id) = true
is_query (query_notification_sync header connection_id) = true
is_query (query_result_sync header connection_id) = true
is_query _ = false

-- A view of the trace that does not show the queries.
pub record HidesQueries {X : Type 0} (show : List Event → X) : Type 0 where
  pub hides :
      (request : Request) (trace : List Event)
      → is_query request ≡ true
      → show (posted request ∷ trace) ≡ show trace

module _ {X : Type 0} (show : List Event → X) where
  abbrev pub shown : World → X
  shown w = show w.trace

  abbrev pub Hidden : {A : Type 0} → M A → Type 0
  Hidden m = Same shown m

module _ {X : Type 0} (show : List Event → X) (h : HidesQueries show) (e : Env) where
  pub Hidden-draw_urn : Hidden show (draw_urn e)
  unfolding draw_urn
  Hidden-draw_urn w = refl

  Hidden-post_checked :
      (request : Request) → is_query request ≡ true → Hidden show (post_checked e request)
  unfolding post_checked post
  Hidden-post_checked request q =
      Same-bind (shown show) (post e request) _ sent (λ response. Same-lift (shown show) _)
    where
      sent : Hidden show (post e request)
      sent w = h.hides request w.trace q

  Hidden-query_header : Hidden show (query_header e)
  unfolding query_header
  Hidden-query_header = Same-bind (shown show) _ _ Hidden-draw_urn (λ id. Same-pure (shown show) _)

  Hidden-parsed_or :
      {A : Type 0} (parser : Content → Parsed A) (fallback : A) (o : Option Response)
      → Hidden show (parsed_or e parser fallback o)
  Hidden-parsed_or parser fallback none = Same-pure (shown show) fallback
  Hidden-parsed_or parser fallback (some response) =
      Same-bind (shown show) _ _ (Same-try_some (shown show) _ (Same-lift (shown show) _))
        (λ parsed. Same-pure (shown show) _)

  Hidden-query_notifications :
      (connection_id : String) → Hidden show (query_notifications e connection_id)
  unfolding query_notifications
  Hidden-query_notifications connection_id =
      Same-bind (shown show) _ _ Hidden-query_header (λ header.
        Same-bind (shown show) _ _ (Same-try_some (shown show) _ (Hidden-post_checked _ refl))
          (λ response. Hidden-parsed_or _ _ response))

  Hidden-query_results : (connection_id : String) → Hidden show (query_results e connection_id)
  unfolding query_results
  Hidden-query_results connection_id = Same-bind (shown show) _ _ Hidden-query_header (λ header.
      Same-bind (shown show) _ _ (Same-try_some (shown show) _ (Hidden-post_checked _ refl))
        (λ response. Hidden-parsed_or _ _ response))

  Hidden-results_for :
      (status : ReservationStatus) (connection_id : String)
      → Hidden show (results_for e status connection_id)
  Hidden-results_for activating connection_id = Hidden-query_results connection_id
  Hidden-results_for deactivating connection_id = Hidden-query_results connection_id
  Hidden-results_for _ connection_id = Same-pure (shown show) []

  Hidden-stored_or_invalid :
      (o : Option (Reservation × ReservationStore)) → Hidden show (stored_or_invalid e o)
  Hidden-stored_or_invalid none w = refl
  Hidden-stored_or_invalid (some (r, s)) w = refl

  Hidden-resolve_and_store :
      (qr : QueryReservation) (notifications : Notifications)
      → Hidden show (resolve_and_store e qr notifications)
  unfolding resolve_and_store current_time
  Hidden-resolve_and_store qr notifications =
      Same-bind (shown show) _ _ (Hidden-results_for _ _)
        (λ results. Same-bind (shown show) _ _ now_quiet (λ now w. Hidden-stored_or_invalid _ w))
    where
      now_quiet : Hidden show (current_time e)
      now_quiet w = refl

  Hidden-query_summary :
      (connection_id global_reservation_id : Option String)
      → Hidden show (query_summary e connection_id global_reservation_id)
  unfolding query_summary post_or_502
  Hidden-query_summary connection_id global_reservation_id =
      Same-bind (shown show) _ _ Hidden-query_header (λ header.
        Same-bind (shown show) _ _
          (Same-attempt (shown show) _ _ (Hidden-post_checked _ refl)
            (λ x. Same-raise (shown show) _ _))
          (λ response. Same-lift (shown show) _))

  -- A refresh sends queries only.
  pub Hidden-refresh_reservation :
      (connection_id : String) → Hidden show (refresh_reservation e connection_id)
  unfolding refresh_reservation
  Hidden-refresh_reservation connection_id =
      Same-bind (shown show) _ _ (Same-capture (shown show) _ (Hidden-query_summary _ _))
        (λ outcome. Same-bind (shown show) _ _ (Hidden-query_notifications _) (λ notifications.
          Same-bind (shown show) _ _ (Same-lift (shown show) outcome)
            (λ qrs. resolved_quiet qrs notifications)))
    where
      resolved_quiet :
          (qrs : List QueryReservation) (notifications : Notifications)
          → Hidden show (first_resolved e qrs notifications)
      resolved_quiet [] notifications = Same-pure (shown show) none
      resolved_quiet (qr ∷ others) notifications =
          Same-bind (shown show) _ _ (Hidden-resolve_and_store qr notifications)
            (λ r. Same-pure (shown show) _)

  Hidden-finalize_refresh : (qr : QueryReservation) → Hidden show (finalize_refresh e qr)
  unfolding finalize_refresh
  Hidden-finalize_refresh qr =
      Same-bind (shown show) _ _ (Hidden-query_notifications _) (λ notifications.
        Same-bind (shown show) _ _ (Hidden-resolve_and_store qr notifications)
          (λ r. Same-pure (shown show) _))

  Hidden-finalize_all : (qrs : List QueryReservation) → Hidden show (finalize_all e qrs)
  Hidden-finalize_all [] = Same-pure (shown show) []
  Hidden-finalize_all (qr ∷ qrs) = Same-bind (shown show) _ _ (Hidden-finalize_refresh qr) (λ pair.
      Same-bind (shown show) _ _ (Hidden-finalize_all qrs) (λ rest. Same-pure (shown show) _))

  -- The search for a reservation with a global id sends queries only.
  pub Hidden-find_reservation_by_global_id :
      (id : String) → Hidden show (find_reservation_by_global_id e id)
  unfolding find_reservation_by_global_id read_store
  Hidden-find_reservation_by_global_id id =
      Same-bind (shown show) _ _ (Hidden-query_summary _ _) (λ qrs.
        Same-bind (shown show) _ _ (Hidden-finalize_all _)
          (λ found. Same-bind (shown show) _ _ (λ w. refl) (λ resolved. Same-pure (shown show) _)))

  Hidden-write_store : (f : ReservationStore → ReservationStore) → Hidden show (write_store f)
  unfolding write_store
  Hidden-write_store f w = refl

  Hidden-register : (correlation_id : String) → Hidden show (register correlation_id)
  unfolding register
  Hidden-register correlation_id w = refl

  Hidden-waited :
      (o : Option Future) (a : ℕ) (w : World) → show (waited e o a w).1.trace ≡ show w.trace
  Hidden-waited (some (resolved message)) a w = refl
  Hidden-waited (some waiting) a w = refl
  Hidden-waited (some cancelled) a w = refl
  Hidden-waited none a w = refl

  Hidden-wait_for : (a : ℕ) → Hidden show (wait_for e a)
  unfolding wait_for
  Hidden-wait_for a w = Hidden-waited (future_at a (e.others w)) a (record w { store = e.others w })

  Hidden-send_registered :
      (correlation_id : String) (request : Request)
      → is_query request ≡ true
      → Hidden show (send_registered e correlation_id request)
  Hidden-send_registered correlation_id request q =
      Same-attempt (shown show) _ _ (Hidden-post_checked request q)
        (λ x. Same-bind (shown show) _ _ (Hidden-write_store _) (λ u. Same-raise (shown show) _ _))

  Hidden-expect_acknowledgment :
      (correlation_id : String) (message : NsiMessage)
      → Hidden show (expect_acknowledgment e correlation_id message)
  Hidden-expect_acknowledgment correlation_id NsiMessage.acknowledgment = Same-pure (shown show) tt
  Hidden-expect_acknowledgment correlation_id _ =
      Same-bind (shown show) _ _ (Hidden-write_store _) (λ u. Same-raise (shown show) _ _)

  Hidden-first_finalized : (qrs : List QueryReservation) → Hidden show (first_finalized e qrs)
  Hidden-first_finalized [] = Same-pure (shown show) none
  Hidden-first_finalized (qr ∷ others) =
      Same-bind (shown show) _ _ (Hidden-finalize_refresh qr) (λ pair. Same-pure (shown show) _)

  Hidden-on_recursive_result : (o : Option NsiMessage) → Hidden show (on_recursive_result e o)
  Hidden-on_recursive_result none = Same-raise (shown show) _ _
  Hidden-on_recursive_result (some (NsiMessage.query_recursive_result qrs)) =
      Hidden-first_finalized qrs
  Hidden-on_recursive_result (some _) = Same-raise (shown show) _ _

  pub Hidden-refresh_reservation_recursive :
      (connection_id : String) → Hidden show (refresh_reservation_recursive e connection_id)
  unfolding refresh_reservation_recursive
  Hidden-refresh_reservation_recursive connection_id =
      Same-bind (shown show) _ _ Hidden-query_header (λ header.
        Same-bind (shown show) _ _ (Hidden-register _) (λ future.
          Same-bind (shown show) _ _ (Hidden-send_registered _ _ refl) (λ response.
            Same-bind (shown show) _ _ (Same-lift (shown show) _) (λ message.
              Same-bind (shown show) _ _ (Hidden-expect_acknowledgment _ message) (λ u.
                Same-bind (shown show) _ _ (Hidden-wait_for future) Hidden-on_recursive_result)))))

  Hidden-store_terminal : (qrs : List QueryReservation) → Hidden show (store_terminal e qrs)
  Hidden-store_terminal [] = Same-pure (shown show) tt
  Hidden-store_terminal (qr ∷ qrs) =
      Same-bind (shown show) _ _ (λ w. Hidden-stored_or_invalid _ w)
        (λ r. Hidden-store_terminal qrs)

  Hidden-all_notifications : (qrs : List QueryReservation) → Hidden show (all_notifications e qrs)
  Hidden-all_notifications [] = Same-pure (shown show) []
  Hidden-all_notifications (qr ∷ qrs) =
      Same-bind (shown show) _ _ (Hidden-query_notifications _) (λ notifications.
        Same-bind (shown show) _ _ (Hidden-all_notifications qrs)
          (λ rest. Same-pure (shown show) _))

  Hidden-resolve_all :
      (pairs : List (QueryReservation × Notifications)) → Hidden show (resolve_all e pairs)
  Hidden-resolve_all [] = Same-pure (shown show) tt
  Hidden-resolve_all ((qr, notifications) ∷ pairs) =
      Same-bind (shown show) _ _ (Hidden-resolve_and_store qr notifications)
        (λ r. Hidden-resolve_all pairs)

  pub Hidden-refresh_all_reservations : Hidden show (refresh_all_reservations e)
  unfolding refresh_all_reservations
  Hidden-refresh_all_reservations = Same-bind (shown show) _ _ (Hidden-query_summary _ _) (λ qrs.
      Same-bind (shown show) _ _ (Hidden-store_terminal _) (λ u.
        Same-bind (shown show) _ _ (Hidden-all_notifications _) (λ pairs.
          Same-bind (shown show) _ _ (Hidden-resolve_all pairs) (λ v. Same-pure (shown show) _))))
