-- ===== src/Reservations/Queries/Failing.antt =====
-- How a refresh of all reservations may fail: by an exception that `except Exception` catches.
use nsi_aggregator_proxy.Common.{refl, inl, inr, Option, none, some, List, [], ◌∷◌}
use nsi_aggregator_proxy.Mapping.{DerivedStatus}
use nsi_aggregator_proxy.Reservations.Queries.{
  stored_or_invalid, store_derived, resolve_and_store, store_terminal, all_notifications,
  resolve_all, refresh_all_reservations, base_status,
}
use nsi_aggregator_proxy.Reservations.Queries.Statuses.{
  Keeps-query_notifications, KeepsTame-query_summary, Keeps-results_for,
}
use nsi_aggregator_proxy.Runtime.{World, Env, current_time}
use nsi_aggregator_proxy.Runtime.Laws.{
  Tame, KeepsTame, IsStable, Keeps-pure, KeepsTame-bind, KeepsTame-Keeps,
}
use nsi_aggregator_proxy.Soap.Messages.{ErrorEvent, QueryReservation, Notifications}
use nsi_aggregator_proxy.Store.{Reservation, ReservationStore}

-- What is said of a world, if it does not depend on the store.
module _ (e : Env) (I : World → Type 0) (stable : IsStable e I)
    (stores : (w : World) (s : ReservationStore) → I w → I (record w { store = s })) where
  KeepsTame-stored_or_invalid :
      (o : Option (Reservation × ReservationStore)) → KeepsTame I (stored_or_invalid e o)
  KeepsTame-stored_or_invalid none w i = (inr (_, refl, refl), i)
  KeepsTame-stored_or_invalid (some (r, s)) w i = (inl (r, refl), stores w s i)

  KeepsTame-store_derived :
      (qr : QueryReservation) (derived : DerivedStatus) (events : List ErrorEvent)
      → KeepsTame I (store_derived e qr derived events)
  KeepsTame-store_derived qr derived events w i = KeepsTame-stored_or_invalid _ w i

  KeepsTame-resolve_and_store :
      (qr : QueryReservation) (notifications : Notifications)
      → KeepsTame I (resolve_and_store e qr notifications)
  unfolding resolve_and_store current_time
  KeepsTame-resolve_and_store qr notifications =
      KeepsTame-bind I _ _
        (KeepsTame-Keeps I _
          (Keeps-results_for I e stable (base_status e qr notifications) qr.connection_id))
        (λ results.
          KeepsTame-bind I (current_time e) _ (λ w i. (inl (_, refl), i))
            (λ now. KeepsTame-store_derived qr _ _))

  KeepsTame-store_terminal : (qrs : List QueryReservation) → KeepsTame I (store_terminal e qrs)
  KeepsTame-store_terminal [] = KeepsTame-Keeps I _ (Keeps-pure I tt)
  KeepsTame-store_terminal (qr ∷ qrs) =
      KeepsTame-bind I _ _ (KeepsTame-store_derived qr _ []) (λ r. KeepsTame-store_terminal qrs)

  KeepsTame-all_notifications :
      (qrs : List QueryReservation) → KeepsTame I (all_notifications e qrs)
  KeepsTame-all_notifications [] = KeepsTame-Keeps I _ (Keeps-pure I [])
  KeepsTame-all_notifications (qr ∷ qrs) =
      KeepsTame-bind I _ _
        (KeepsTame-Keeps I _ (Keeps-query_notifications I e stable qr.connection_id))
        (λ notifications.
          KeepsTame-bind I _ _ (KeepsTame-all_notifications qrs)
            (λ rest. KeepsTame-Keeps I _ (Keeps-pure I _)))

  KeepsTame-resolve_all :
      (pairs : List (QueryReservation × Notifications)) → KeepsTame I (resolve_all e pairs)
  KeepsTame-resolve_all [] = KeepsTame-Keeps I _ (Keeps-pure I tt)
  KeepsTame-resolve_all ((qr, notifications) ∷ pairs) =
      KeepsTame-bind I _ _ (KeepsTame-resolve_and_store qr notifications)
        (λ r. KeepsTame-resolve_all pairs)

  KeepsTame-refresh_all_reservations : KeepsTame I (refresh_all_reservations e)
  unfolding refresh_all_reservations
  KeepsTame-refresh_all_reservations =
      KeepsTame-bind I _ _ (KeepsTame-query_summary I e stable none none) (λ qrs.
        KeepsTame-bind I _ _ (KeepsTame-store_terminal _) (λ u.
          KeepsTame-bind I _ _ (KeepsTame-all_notifications _) (λ pairs.
            KeepsTame-bind I _ _ (KeepsTame-resolve_all pairs)
              (λ v. KeepsTame-Keeps I _ (Keeps-pure I _)))))

-- The refresh returns, or raises what `except Exception` catches.
pub refresh_all_reservations-Tame : (e : Env) (w : World) → Tame (refresh_all_reservations e w).0
refresh_all_reservations-Tame e w =
    (KeepsTame-refresh_all_reservations e (λ v. Unit)
      (record { draws = λ v n i. tt; sends = λ v events i. tt; yields = λ v i. tt }) (λ v s i. tt) w
      tt).0
