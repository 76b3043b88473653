-- ===== src/Reservations/Endpoints/Operations.antt =====
-- When provision and release send their request to the aggregator.
use nsi_aggregator_proxy.Common.{String, ◌≡◌, refl, inl, inr, none, some}
use nsi_aggregator_proxy.Models.{
  ReservationStatus, reserved, activating, activated, deactivating, CallbackRequest,
}
use nsi_aggregator_proxy.Reservations.Endpoints.{
  dispatch_provision, provision_refreshed, provision_reservation, dispatch_release,
  release_refreshed, release_reservation,
}
use nsi_aggregator_proxy.Reservations.Endpoints.Guards.{
  Quiet-redeliver, Sends-bind, IsGuarded, IsGuarded-by_refresh, Quiet-started, AtMostOnce,
  set_url_then-IsGuarded,
}
use nsi_aggregator_proxy.Reservations.Endpoints.Requests.{Quiet-pure, Quiet-raise}
use nsi_aggregator_proxy.Reservations.Queries.{Refreshed, refresh_reservation}
use nsi_aggregator_proxy.Runtime.{
  provision, release, complete_provision, complete_release, World, Env, ok,
}

module _ (e : Env) where
  dispatch_provision-AtMostOnce :
      (status : ReservationStatus) (connection_id requester_nsa url : String) (w : World)
      → AtMostOnce e
          (status ≡ reserved)
          (λ header. provision header connection_id)
          w
          (dispatch_provision e status connection_id requester_nsa url w).1
  dispatch_provision-AtMostOnce activated connection_id requester_nsa url w =
      inl (Quiet-redeliver e connection_id url w)
  dispatch_provision-AtMostOnce activating connection_id requester_nsa url w = inl (Quiet-pure _ w)
  dispatch_provision-AtMostOnce reserved connection_id requester_nsa url w = inr (
    refl,
    Sends-bind e requester_nsa _ _ (λ header. refl)
        (λ future. Quiet-started e _ (complete_provision connection_id future) connection_id) w,
  )
  dispatch_provision-AtMostOnce _ connection_id requester_nsa url w = inl (Quiet-raise _ _ w)

  provision_refreshed-IsGuarded :
      (connection_id : String) (body : CallbackRequest) (r : Refreshed e) (w : World)
      → IsGuarded e
          (λ found qr. found.status ≡ reserved)
          (λ header. provision header connection_id)
          (ok r)
          w
          (provision_refreshed e connection_id body r w).1
  provision_refreshed-IsGuarded connection_id body none w = inl (Quiet-raise _ _ w)
  provision_refreshed-IsGuarded connection_id body (some (reservation, qr)) w =
      set_url_then-IsGuarded e (λ found qr. found.status ≡ reserved) _ reservation qr
        body.callback_url _
        (dispatch_provision-AtMostOnce reservation.status connection_id reservation.requester_nsa
          body.callback_url)
        w

  -- A provision request is sent at most once, and only if the refresh found the reservation
  -- RESERVED.
  pub provision_reservation-IsGuarded :
      (connection_id : String) (body : CallbackRequest) (w : World)
      → IsGuarded e
          (λ found qr. found.status ≡ reserved)
          (λ header. provision header connection_id)
          (refresh_reservation e connection_id w).0
          w
          (provision_reservation e connection_id body w).1
  unfolding provision_reservation
  provision_reservation-IsGuarded connection_id body w =
      IsGuarded-by_refresh e (λ found qr. found.status ≡ reserved) _ connection_id _ w
        (λ r. provision_refreshed-IsGuarded connection_id body r _)

  dispatch_release-AtMostOnce :
      (status : ReservationStatus) (connection_id requester_nsa url : String) (w : World)
      → AtMostOnce e
          (status ≡ activated)
          (λ header. release header connection_id)
          w
          (dispatch_release e status connection_id requester_nsa url w).1
  dispatch_release-AtMostOnce reserved connection_id requester_nsa url w =
      inl (Quiet-redeliver e connection_id url w)
  dispatch_release-AtMostOnce deactivating connection_id requester_nsa url w = inl (Quiet-pure _ w)
  dispatch_release-AtMostOnce activated connection_id requester_nsa url w = inr (
    refl,
    Sends-bind e requester_nsa _ _ (λ header. refl)
        (λ future. Quiet-started e _ (complete_release connection_id future) connection_id) w,
  )
  dispatch_release-AtMostOnce _ connection_id requester_nsa url w = inl (Quiet-raise _ _ w)

  release_refreshed-IsGuarded :
      (connection_id : String) (body : CallbackRequest) (r : Refreshed e) (w : World)
      → IsGuarded e
          (λ found qr. found.status ≡ activated)
          (λ header. release header connection_id)
          (ok r)
          w
          (release_refreshed e connection_id body r w).1
  release_refreshed-IsGuarded connection_id body none w = inl (Quiet-raise _ _ w)
  release_refreshed-IsGuarded connection_id body (some (reservation, qr)) w =
      set_url_then-IsGuarded e (λ found qr. found.status ≡ activated) _ reservation qr
        body.callback_url _
        (dispatch_release-AtMostOnce reservation.status connection_id reservation.requester_nsa
          body.callback_url)
        w

  -- A release request is sent at most once, and only if the refresh found the reservation
  -- ACTIVATED.
  pub release_reservation-IsGuarded :
      (connection_id : String) (body : CallbackRequest) (w : World)
      → IsGuarded e
          (λ found qr. found.status ≡ activated)
          (λ header. release header connection_id)
          (refresh_reservation e connection_id w).0
          w
          (release_reservation e connection_id body w).1
  unfolding release_reservation
  release_reservation-IsGuarded connection_id body w =
      IsGuarded-by_refresh e (λ found qr. found.status ≡ activated) _ connection_id _ w
        (λ r. release_refreshed-IsGuarded connection_id body r _)
