-- ===== src/Reservations/Endpoints/Termination.antt =====
-- When terminate sends its request to the aggregator.
use nsi_aggregator_proxy.Auth.{refused}
use nsi_aggregator_proxy.Common.{
  if◌then◌else◌, Bool-cases, ◌==◌, String, ◌≡◌, refl, ◌≢◌, ◌⊎◌, inl, inr, Bool, true, false, none,
  some, arith, eq_iff,
}
use nsi_aggregator_proxy.Models.{
  ReservationStatus, reserving, reserved, activating, activated, deactivating, failed, terminated,
  CallbackRequest, AcceptedResponse,
}
use nsi_aggregator_proxy.Reservations.Endpoints.{
  accepted, not_found, set_callback_url, start_terminate, refuse_terminate, may_terminate,
  dispatch_terminate, terminate_refreshed, terminate_reservation,
}
use nsi_aggregator_proxy.Reservations.Endpoints.Guards.{
  Quiet-create_task, Quiet-set_callback_url, Quiet-redeliver, Sends-bind, IsGuarded,
  IsGuarded-by_refresh, AtMostOnce, AtMostOnce-bind, found-IsGuarded,
}
use nsi_aggregator_proxy.Reservations.Endpoints.Requests.{Quiet-bind, Quiet-pure, Quiet-raise}
use nsi_aggregator_proxy.Reservations.Queries.{Refreshed, refresh_reservation}
use nsi_aggregator_proxy.Runtime.{terminate, complete_terminate, World, Env, read_store, ok, ◌>>=◌}
use nsi_aggregator_proxy.Soap.Messages.{QueryReservation}
use nsi_aggregator_proxy.Store.{Reservation, is_reserve_in_flight}

module _ (e : Env) where
  -- What a terminate needs of the status, the lifecycle state and the reserve in flight.
  abbrev pub MayTerminate : Bool → ReservationStatus → String → Type 0
  MayTerminate in_flight status lifecycle_state =
      (status ≢ terminated)
      × ((status ≡ reserved)
          ⊎ (status ≡ failed)
          ⊎ (((status ≡ reserving) ⊎ (lifecycle_state ≡ "Terminating")) × (in_flight ≡ false)))

  may_terminate_lem :
      (status : ReservationStatus) (lifecycle_state : String) (in_flight : Bool)
      → status ≢ terminated
      → may_terminate e status (lifecycle_state == "Terminating") in_flight ≡ true
      → MayTerminate in_flight status lifecycle_state
  may_terminate_lem status lifecycle_state in_flight ne h =
      ground (arith, eq_iff lifecycle_state "Terminating")

  start_terminate-AtMostOnce :
      (Allowed : Type 0) (reservation : Reservation) (connection_id url : String)
      → Allowed
      → (w : World)
      → AtMostOnce e Allowed
          (λ header. terminate header connection_id)
          w
          (start_terminate e reservation connection_id url w).1
  start_terminate-AtMostOnce Allowed reservation connection_id url allowed =
      AtMostOnce-bind e Allowed (λ header. terminate header connection_id)
        (set_callback_url e reservation.connection_id url) _
        (Quiet-set_callback_url e reservation.connection_id url)
        (λ _ w. inr (
          allowed,
          Sends-bind e reservation.requester_nsa (λ header. terminate header connection_id) _
              (λ header. refl)
              (λ future.
                Quiet-bind _ _ (Quiet-create_task (complete_terminate connection_id future))
                  (λ _. Quiet-pure (accepted connection_id)))
              w,
        ))

  -- Any status but TERMINATED starts a terminate or is refused.
  dispatch_open :
      (status : ReservationStatus) (reservation : Reservation)
      (lifecycle_state connection_id url : String) (in_flight : Bool)
      → status ≢ terminated
      → (w : World)
      → AtMostOnce e
          (MayTerminate in_flight status lifecycle_state)
          (λ header. terminate header connection_id)
          w
          ((if may_terminate e status (lifecycle_state == "Terminating") in_flight
              then start_terminate e reservation connection_id url
              else refuse_terminate e status)
            w).1
  dispatch_open status reservation lifecycle_state connection_id url in_flight ne w =
      elim (Bool-cases (may_terminate e status (lifecycle_state == "Terminating") in_flight)) [
        | inl may ↦ rw may (
            start_terminate-AtMostOnce (MayTerminate in_flight status lifecycle_state) reservation
              connection_id url (may_terminate_lem status lifecycle_state in_flight ne may) w)
        | inr refused ↦ rw refused (inl (Quiet-raise _ _ w))
      ]

  dispatch_terminate-AtMostOnce :
      (status : ReservationStatus) (reservation : Reservation)
      (lifecycle_state connection_id url : String) (in_flight : Bool) (w : World)
      → AtMostOnce e
          (MayTerminate in_flight status lifecycle_state)
          (λ header. terminate header connection_id)
          w
          (dispatch_terminate e status reservation connection_id url
            (lifecycle_state == "Terminating")
            in_flight
            w).1
  dispatch_terminate-AtMostOnce terminated reservation lifecycle_state connection_id url in_flight
        w =
      inl (
        Quiet-bind _ _ (Quiet-set_callback_url e reservation.connection_id url)
          (λ _. Quiet-redeliver e connection_id url) w)
  dispatch_terminate-AtMostOnce reserving reservation lifecycle_state connection_id url in_flight
        w =
      dispatch_open reserving reservation lifecycle_state connection_id url in_flight (λ q. cc) w
  dispatch_terminate-AtMostOnce reserved reservation lifecycle_state connection_id url in_flight w =
      dispatch_open reserved reservation lifecycle_state connection_id url in_flight (λ q. cc) w
  dispatch_terminate-AtMostOnce activating reservation lifecycle_state connection_id url in_flight
        w =
      dispatch_open activating reservation lifecycle_state connection_id url in_flight (λ q. cc) w
  dispatch_terminate-AtMostOnce activated reservation lifecycle_state connection_id url in_flight
        w =
      dispatch_open activated reservation lifecycle_state connection_id url in_flight (λ q. cc) w
  dispatch_terminate-AtMostOnce deactivating reservation lifecycle_state connection_id url in_flight
        w =
      dispatch_open deactivating reservation lifecycle_state connection_id url in_flight (λ q. cc) w
  dispatch_terminate-AtMostOnce failed reservation lifecycle_state connection_id url in_flight w =
      dispatch_open failed reservation lifecycle_state connection_id url in_flight (λ q. cc) w

  abbrev pub TerminateAllows : Bool → Reservation → QueryReservation → Type 0
  TerminateAllows in_flight found qr =
      MayTerminate in_flight found.status qr.connection_states.lifecycle_state

  terminate_refreshed-IsGuarded :
      (connection_id : String) (body : CallbackRequest) (r : Refreshed e) (w : World)
      → IsGuarded e
          (TerminateAllows (is_reserve_in_flight connection_id w.store))
          (λ header. terminate header connection_id)
          (ok r)
          w
          (terminate_refreshed e connection_id body r w).1
  unfolding ◌>>=◌ read_store
  terminate_refreshed-IsGuarded connection_id body none w =
      inl (Quiet-raise AcceptedResponse (not_found e connection_id) w)
  terminate_refreshed-IsGuarded connection_id body (some (reservation, qr)) w =
      let in_flight = is_reserve_in_flight connection_id w.store in
      let lifecycle_state = qr.connection_states.lifecycle_state in
      found-IsGuarded e (TerminateAllows in_flight) (λ header. terminate header connection_id)
        reservation qr w
        (dispatch_terminate e reservation.status reservation connection_id body.callback_url
          (lifecycle_state == "Terminating") in_flight w).1
        (dispatch_terminate-AtMostOnce reservation.status reservation lifecycle_state connection_id
          body.callback_url in_flight w)

  -- A terminate request is sent at most once, and only if the refresh found the reservation
  -- RESERVED, FAILED, or, with no reserve of it in flight, RESERVING or still terminating at the
  -- aggregator; never if it is TERMINATED.
  pub terminate_reservation-IsGuarded :
      (connection_id : String) (body : CallbackRequest) (w : World)
      → let found = refresh_reservation e connection_id w in
        IsGuarded e
          (TerminateAllows (is_reserve_in_flight connection_id found.1.store))
          (λ header. terminate header connection_id)
          found.0
          w
          (terminate_reservation e connection_id body w).1
  unfolding terminate_reservation
  terminate_reservation-IsGuarded connection_id body w =
      let w' = (refresh_reservation e connection_id w).1 in
      IsGuarded-by_refresh e (TerminateAllows (is_reserve_in_flight connection_id w'.store)) _
        connection_id _ w (λ r. terminate_refreshed-IsGuarded connection_id body r w')
