-- ===== src/Reservations/Endpoints/Creation.antt =====
-- When create sends a reserve to the aggregator.
use nsi_aggregator_proxy.Common.{
  Bool-cases, ◌==◌, ◌<>◌, ℕ, suc, String, ◌≡◌, refl, ◌∙◌, ◌⊎◌, inl, inr, Option, none, some, ◌∷◌,
  eq_iff,
}
use nsi_aggregator_proxy.Models.{ReservationStatus, reserving, ReservationRequest}
use nsi_aggregator_proxy.Reservations.Endpoints.{
  accepted, new_reservation, reserve_request, accept_reserve, reserve_answered, send_reserve_with,
  send_reserve, redeliver_settled, reuse_or_send, reserve_idempotently, create_reservation,
}
use nsi_aggregator_proxy.Reservations.Endpoints.Guards.{
  Quiet-write_store, Quiet-create_task, Quiet-set_callback_url, Quiet-redeliver,
  send_registered-operations,
}
use nsi_aggregator_proxy.Reservations.Endpoints.Requests.{
  operations, Quiet, Quiet-bind, operations-bind, Quiet-pure, Quiet-raise, Quiet-lift,
  Quiet-find_reservation_by_global_id,
}
use nsi_aggregator_proxy.Reservations.Queries.{send_registered, find_reservation_by_global_id}
use nsi_aggregator_proxy.Runtime.{
  complete_reserve, World, Env, register, draw_urn, Result, ok, err, continue, ◌>>=◌,
}
use nsi_aggregator_proxy.Soap.Messages.{NsiMessage}
use nsi_aggregator_proxy.Store.{
  Reservation, create, reserve_started, register_pending, cancel_pending,
}

module _ (e : Env) (body : ReservationRequest) where
  -- The reserve was sent once, and no other operation.
  abbrev pub Reserves : World → World → Type 0
  Reserves w w' =
      (correlation_id : String) × (period : String × String) × (operations w'.trace
        ≡ reserve_request e body correlation_id period ∷ operations w.trace)

  Quiet-accept_reserve :
      (correlation_id : String) (future : ℕ) (message : NsiMessage)
      → Quiet (accept_reserve e body correlation_id future message)
  Quiet-accept_reserve correlation_id future (NsiMessage.reserve_response msg) =
      Quiet-bind _ _ (Quiet-write_store (create (new_reservation e msg.connection_id body))) (λ _.
        Quiet-bind _ _ (Quiet-write_store (reserve_started msg.connection_id)) (λ _.
          Quiet-bind _ _ (Quiet-create_task (complete_reserve msg.connection_id future))
            (λ _. Quiet-pure (accepted msg.connection_id))))
  Quiet-accept_reserve correlation_id future _ =
      Quiet-bind _ _ (Quiet-write_store (cancel_pending correlation_id)) (λ _. Quiet-raise _ _)

  send_reserve_with-operations :
      (correlation_id : String) (future : ℕ) (period : String × String) (w : World)
      → operations (send_reserve_with e body correlation_id future period w).1.trace
        ≡ reserve_request e body correlation_id period ∷ operations w.trace
  send_reserve_with-operations correlation_id future period w =
      operations-bind
        (send_registered e correlation_id (reserve_request e body correlation_id period))
        (reserve_answered e body correlation_id future)
        (λ response. Quiet-bind _ _ (Quiet-lift _) (Quiet-accept_reserve correlation_id future)) w
      ∙ send_registered-operations e correlation_id _ refl w

  send_reserve-Reserves : (w : World) → Reserves w (send_reserve e body w).1
  unfolding send_reserve ◌>>=◌ draw_urn register
  send_reserve-Reserves w =
      let id = "urn:uuid:" <> e.uuid4 w.drawn in
      let (a, s) = register_pending id w.store in
      let w' = record w { drawn = suc w.drawn; store = s; held = a ∷ w.held } in
      (id, e.reserve_period w', send_reserve_with-operations id a (e.reserve_period w') w')

  -- What a reserve needs: the configured provider, and no live reservation with the same global
  -- id, where the request has one.
  abbrev pub MayReserve : World → Type 0
  MayReserve w =
      (body.provider_nsa ≡ e.settings.provider_nsa)
      × ((body.global_reservation_id ≡ none)
          ⊎ ((id : String) × (body.global_reservation_id ≡ some id)
              × ((find_reservation_by_global_id e id w).0 ≡ ok none)))

  abbrev pub ReservesOnce : Type 0 → World → World → Type 0
  ReservesOnce Allowed w w' = (operations w'.trace ≡ operations w.trace) ⊎ (Allowed × Reserves w w')

  Quiet-redeliver_settled :
      (status : ReservationStatus) (connection_id url : String)
      → Quiet (redeliver_settled e status connection_id url)
  Quiet-redeliver_settled reserving connection_id url = Quiet-pure (accepted connection_id)
  Quiet-redeliver_settled _ connection_id url = Quiet-redeliver e connection_id url

  reuse_or_send-ReservesOnce :
      (found : Result (Option Reservation)) (w w' : World)
      → operations w'.trace ≡ operations w.trace
      → ReservesOnce (found ≡ ok none) w (continue found (reuse_or_send e body) w').1
  reuse_or_send-ReservesOnce (err x) w w' same = inl same
  reuse_or_send-ReservesOnce (ok (some existing)) w w' same = inl (
      Quiet-bind _ _ (Quiet-set_callback_url e existing.connection_id body.callback_url)
        (λ _. Quiet-redeliver_settled existing.status existing.connection_id body.callback_url) w'
      ∙ same)
  reuse_or_send-ReservesOnce (ok none) w w' same =
      let (id, period, sent) = send_reserve-Reserves w' in inr (refl, (id, period, rw same at sent))

  reserve_idempotently-ReservesOnce :
      (o : Option String) (w : World)
      → ReservesOnce
          ((o ≡ none)
            ⊎ ((id : String) × (o ≡ some id)
                × ((find_reservation_by_global_id e id w).0 ≡ ok none)))
          w
          (reserve_idempotently e body o w).1
  unfolding ◌>>=◌
  reserve_idempotently-ReservesOnce none w = inr (inl refl, send_reserve-Reserves w)
  reserve_idempotently-ReservesOnce (some id) w =
      let (found, w') = find_reservation_by_global_id e id w in
      elim (reuse_or_send-ReservesOnce found w w' (Quiet-find_reservation_by_global_id e id w)) [
        | inl quiet ↦ inl quiet
        | inr (free, sent) ↦ inr (inr (id, refl, free), sent)
      ]

  -- A reserve is sent at most once, and only to the configured provider; where the request has a
  -- global id, only if the search finds no live reservation that has it.
  pub create_reservation-ReservesOnce :
      (w : World) → ReservesOnce (MayReserve w) w (create_reservation e body w).1
  unfolding create_reservation
  create_reservation-ReservesOnce w =
      elim (Bool-cases (body.provider_nsa == e.settings.provider_nsa)) [
        | inl match ↦
            rw match (elim (reserve_idempotently-ReservesOnce body.global_reservation_id w) [
              | inl quiet ↦ inl quiet
              | inr (free, sent) ↦ inr (((eq_iff _ _).0 match, free), sent)
            ])
        | inr other ↦ rw other (inl (Quiet-raise _ _ w))
      ]
