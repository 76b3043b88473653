-- ===== src/Reservations/Endpoints/Guards.antt =====
-- How an endpoint sends an operation to the aggregator: at most once, and where a guard allows it.
use nsi_aggregator_proxy.Common.{
  Option-cases, ◌<>◌, ℕ, suc, String, ◌≡◌, refl, ◌∙◌, ◌⊎◌, inl, inr, false, Option, some, ◌∷◌,
}
use nsi_aggregator_proxy.Models.{AcceptedResponse}
use nsi_aggregator_proxy.Reservations.Endpoints.{
  accepted, set_callback_url, redeliver, acknowledged, send_with, send_operation,
}
use nsi_aggregator_proxy.Reservations.Endpoints.Requests.{
  operations, Quiet, Quiet-bind, operations-bind, operations-attempt, Quiet-pure, Quiet-raise,
  Quiet-lift, Quiet-refresh_reservation,
}
use nsi_aggregator_proxy.Reservations.Queries.{
  operation_header_with, Refreshed, refresh_reservation, send_registered, expect_acknowledgment,
}
use nsi_aggregator_proxy.Reservations.Queries.Reading.{is_query}
use nsi_aggregator_proxy.Runtime.{
  Request, Task, World, Response, Env, M, write_store, change_store, register, record_event,
  create_task, draw_urn, post, post_checked, Exception, Result, ok, err, pure, raise, continue,
  ◌>>=◌, ◌>>◌,
}
use nsi_aggregator_proxy.Soap.Messages.{QueryReservation, NsiMessage, NsiHeader}
use nsi_aggregator_proxy.Store.{Reservation, ReservationStore, register_pending, cancel_pending}
use nsi_aggregator_proxy.Store.Steps.{Allows}

pub Quiet-change_store : (f : ReservationStore → Option ReservationStore) → Quiet (change_store f)
unfolding change_store
Quiet-change_store f w = elim (Option-cases (f w.store)) [
  | inl p ↦ rw p refl
  | inr (s, p) ↦ rw p refl
]

pub Quiet-write_store : (f : ReservationStore → ReservationStore) → Quiet (write_store f)
unfolding write_store
Quiet-write_store f w = refl

pub Quiet-create_task : (task : Task) → Quiet (create_task task)
unfolding record_event
Quiet-create_task task w = refl

module _ (e : Env) where
  pub Quiet-set_callback_url :
      (connection_id url : String) → Quiet (set_callback_url e connection_id url)
  Quiet-set_callback_url connection_id url = Quiet-change_store _

  pub Quiet-redeliver : (connection_id url : String) → Quiet (redeliver e connection_id url)
  Quiet-redeliver connection_id url =
      Quiet-bind _ _ (Quiet-create_task _) (λ _. Quiet-pure (accepted connection_id))

  Quiet-cancel :
      (A : Type 0) (correlation_id : String) (x : Exception)
      → Quiet (do write_store (cancel_pending correlation_id); raise {A = A} x)
  Quiet-cancel A correlation_id x = Quiet-bind _ _ (Quiet-write_store _) (λ _. Quiet-raise A x)

  Quiet-expect_acknowledgment :
      (correlation_id : String) (message : NsiMessage)
      → Quiet (expect_acknowledgment e correlation_id message)
  Quiet-expect_acknowledgment correlation_id NsiMessage.acknowledgment = Quiet-pure tt
  Quiet-expect_acknowledgment correlation_id _ = Quiet-cancel _ correlation_id _

  -- A request of an operation, sent with its correlation id registered, is sent once.
  pub send_registered-operations :
      (correlation_id : String) (request : Request)
      → is_query request ≡ false
      → (w : World)
      → operations (send_registered e correlation_id request w).1.trace
        ≡ request ∷ operations w.trace
  unfolding post_checked post
  send_registered-operations correlation_id request q w =
      operations-attempt (post_checked e request) _ (λ x. Quiet-cancel _ correlation_id _) w
      ∙ operations-bind (post e request) _ (λ response. Quiet-lift _) w
      ∙ rw q refl

  Quiet-acknowledged :
      (correlation_id : String) (future : ℕ) (response : Response)
      → Quiet (acknowledged e correlation_id future response)
  Quiet-acknowledged correlation_id future response = Quiet-bind _ _ (Quiet-lift _) (λ message.
      Quiet-bind _ _ (Quiet-expect_acknowledgment correlation_id message) (λ _. Quiet-pure future))

  send_with-operations :
      (correlation_id : String) (future : ℕ) (request : Request)
      → is_query request ≡ false
      → (w : World)
      → operations (send_with e correlation_id future request w).1.trace
        ≡ request ∷ operations w.trace
  send_with-operations correlation_id future request q w =
      operations-bind (send_registered e correlation_id request)
        (acknowledged e correlation_id future) (Quiet-acknowledged correlation_id future) w
      ∙ send_registered-operations correlation_id request q w

  -- The operation was sent, and nothing else.
  abbrev pub Sends : (NsiHeader → Request) → World → World → Type 0
  Sends request w w' =
      (header : NsiHeader) × (operations w'.trace ≡ request header ∷ operations w.trace)

  send_operation-Sends :
      (requester_nsa : String) (request : NsiHeader → Request)
      → ((header : NsiHeader) → is_query (request header) ≡ false)
      → (w : World) → Sends request w (send_operation e requester_nsa request w).1
  unfolding send_operation ◌>>=◌ draw_urn register
  send_operation-Sends requester_nsa request q w =
      let id = "urn:uuid:" <> e.uuid4 w.drawn in
      let header = operation_header_with e requester_nsa id in
      let (a, s) = register_pending id w.store in
      let w' = record w { drawn = suc w.drawn; store = s; held = a ∷ w.held } in
      (header, send_with-operations id a (request header) (q header) w')

  -- What follows a sent operation sends no other.
  pub Sends-bind :
      {B : Type 0} (requester_nsa : String) (request : NsiHeader → Request) (f : ℕ → M B)
      → ((header : NsiHeader) → is_query (request header) ≡ false)
      → ((future : ℕ) → Quiet (f future))
      → (w : World) → Sends request w ((send_operation e requester_nsa request >>= f) w).1
  Sends-bind requester_nsa request f q g w =
      let (header, sent) = send_operation-Sends requester_nsa request q w in
      (header, operations-bind _ f g w ∙ sent)

  -- Either no operation was sent, or the refresh found the reservation in a status that allows it
  -- and the operation was sent once.
  abbrev pub IsGuarded :
      (Reservation → QueryReservation → Type 0)
      → (NsiHeader → Request)
      → Result (Refreshed e)
      → World
      → World
      → Type 0
  IsGuarded Allows request found w w' =
      (operations w'.trace ≡ operations w.trace)
      ⊎ ((reservation : Reservation) × (qr : QueryReservation) × (found
            ≡ ok (some (reservation, qr)))
          × Allows reservation qr
          × Sends request w w')

  continue-IsGuarded :
      (Allows : Reservation → QueryReservation → Type 0) (request : NsiHeader → Request)
      (f : Refreshed e → M AcceptedResponse) (found : Result (Refreshed e)) (w w' : World)
      → operations w'.trace ≡ operations w.trace
      → ((r : Refreshed e) → IsGuarded Allows request (ok r) w' (f r w').1)
      → IsGuarded Allows request found w (continue found f w').1
  continue-IsGuarded Allows request f (err x) w w' same h = inl same
  continue-IsGuarded Allows request f (ok r) w w' same h = elim (h r) [
    | inl quiet ↦ inl (quiet ∙ same)
    | inr (reservation, qr, there, allowed, (header, sent)) ↦
        inr (reservation, qr, there, allowed, (header, rw same at sent))
  ]

  pub IsGuarded-by_refresh :
      (Allows : Reservation → QueryReservation → Type 0) (request : NsiHeader → Request)
      (connection_id : String) (f : Refreshed e → M AcceptedResponse) (w : World)
      → let w' = (refresh_reservation e connection_id w).1 in
        ((r : Refreshed e) → IsGuarded Allows request (ok r) w' (f r w').1)
        → IsGuarded Allows request
            (refresh_reservation e connection_id w).0
            w
            ((refresh_reservation e connection_id >>= f) w).1
  unfolding ◌>>=◌
  IsGuarded-by_refresh Allows request connection_id f w h =
      let (found, w') = refresh_reservation e connection_id w in
      continue-IsGuarded Allows request f found w w' (Quiet-refresh_reservation e connection_id w) h

  pub Quiet-started :
      (f : ReservationStore → Option ReservationStore) (task : Task) (connection_id : String)
      → Quiet (do change_store f; create_task task; pure (accepted connection_id))
  Quiet-started f task connection_id =
      Quiet-bind _ _ (Quiet-change_store f)
        (λ _. Quiet-bind _ _ (Quiet-create_task task) (λ _. Quiet-pure _))

  -- The operation is sent at most once, and only where `Allowed` holds.
  abbrev pub AtMostOnce : Type 0 → (NsiHeader → Request) → World → World → Type 0
  AtMostOnce Allowed request w w' =
      (operations w'.trace ≡ operations w.trace) ⊎ (Allowed × Sends request w w')

  continue-AtMostOnce :
      {A : Type 0} (Allowed : Type 0) (request : NsiHeader → Request) (f : A → M AcceptedResponse)
      (r : Result A) (w w' : World)
      → operations w'.trace ≡ operations w.trace
      → ((a : A) → AtMostOnce Allowed request w' (f a w').1)
      → AtMostOnce Allowed request w (continue r f w').1
  continue-AtMostOnce Allowed request f (err x) w w' same h = inl same
  continue-AtMostOnce Allowed request f (ok a) w w' same h = elim (h a) [
    | inl quiet ↦ inl (quiet ∙ same)
    | inr (allowed, (header, sent)) ↦ inr (allowed, (header, rw same at sent))
  ]

  pub AtMostOnce-bind :
      {A : Type 0} (Allowed : Type 0) (request : NsiHeader → Request) (m : M A)
      (f : A → M AcceptedResponse)
      → Quiet m
      → ((a : A) (w : World) → AtMostOnce Allowed request w (f a w).1)
      → (w : World) → AtMostOnce Allowed request w ((m >>= f) w).1
  unfolding ◌>>=◌
  AtMostOnce-bind Allowed request m f q h w =
      continue-AtMostOnce Allowed request f (m w).0 w (m w).1 (q w) (λ a. h a (m w).1)

  pub found-IsGuarded :
      (Allows : Reservation → QueryReservation → Type 0) (request : NsiHeader → Request)
      (reservation : Reservation) (qr : QueryReservation) (w w' : World)
      → AtMostOnce (Allows reservation qr) request w w'
      → IsGuarded Allows request (ok (some (reservation, qr))) w w'
  found-IsGuarded Allows request reservation qr w w' (inl quiet) = inl quiet
  found-IsGuarded Allows request reservation qr w w' (inr (allowed, sent)) =
      inr (reservation, qr, refl, allowed, sent)

  -- The callback URL is set, and then the reservation's status decides.
  pub set_url_then-IsGuarded :
      (Allows : Reservation → QueryReservation → Type 0) (request : NsiHeader → Request)
      (reservation : Reservation) (qr : QueryReservation) (url : String) (f : M AcceptedResponse)
      → ((w : World) → AtMostOnce (Allows reservation qr) request w (f w).1)
      → (w : World)
      → IsGuarded Allows request
          (ok (some (reservation, qr)))
          w
          ((set_callback_url e reservation.connection_id url >> f) w).1
  set_url_then-IsGuarded Allows request reservation qr url f h w =
      found-IsGuarded Allows request reservation qr w
        ((set_callback_url e reservation.connection_id url >> f) w).1
        (AtMostOnce-bind (Allows reservation qr) request
          (set_callback_url e reservation.connection_id url) (λ _. f)
          (Quiet-set_callback_url reservation.connection_id url) (λ _. h) w)
