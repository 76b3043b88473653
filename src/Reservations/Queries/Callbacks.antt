-- ===== src/Reservations/Queries/Callbacks.antt =====
-- The delivery of a callback: how often, what, and to whom.
use nsi_aggregator_proxy.Common.{
  eqb, Bool-cases, ℕ, zero, suc, ◌≤◌, String, ◌≡◌, refl, ap, ◌∙◌, ◌⊎◌, inl, inr, Option, none, some,
  List, ◌∷◌, arith,
}
use nsi_aggregator_proxy.Models.{ReservationDetail}
use nsi_aggregator_proxy.Reservations.Queries.{after_delivery, deliver_rounds}
use nsi_aggregator_proxy.Runtime.{
  Event, delivered, World, Response, is_success, Env, from_library, pause, post_callback, ok, pure,
  continue, ◌>>=◌, settled, try_some,
}

-- The newest event, if it is a delivery, by its payload.
abbrev pub newest : List Event → Option ReservationDetail
newest (delivered url payload ∷ trace) = some payload
newest _ = none

abbrev pub repeat : ℕ → Event → List Event → List Event
repeat zero event trace = trace
repeat (suc n) event trace = event ∷ repeat n event trace

repeat_comm :
    (n : ℕ) (event : Event) (trace : List Event)
    → repeat n event (event ∷ trace) ≡ event ∷ repeat n event trace
repeat_comm zero event trace = refl
repeat_comm (suc n) event trace = ap (λ t. event ∷ t) (repeat_comm n event trace)

module _ (e : Env) (url : String) (payload : ReservationDetail) where
  abbrev Delivery : Event
  Delivery = delivered url payload

  -- What one answer leads to: an end, or the rounds that are left.
  after_answer :
      (o : Option Response) (n : ℕ) (w : World)
      → (w' : World) × (w'.trace ≡ w.trace)
        × ((continue
                (settled (from_library "httpx" o))
                (λ r. after_delivery e r (deliver_rounds e n url payload))
                w
              ≡ (ok tt, w'))
            ⊎ (continue
                  (settled (from_library "httpx" o))
                  (λ r. after_delivery e r (deliver_rounds e n url payload))
                  w
                ≡ deliver_rounds e n url payload w'))
  unfolding ◌>>=◌ pause
  after_answer none n w = (w, refl, inl refl)
  after_answer (some response) n w = elim (Bool-cases (is_success response.status_code)) [
    | inl s ↦ rw s (w, refl, inl refl)
    | inr f ↦ rw f (elim (Bool-cases (eqb response.status_code 409)) [
      | inl busy ↦ rw busy (record w { store = e.others w }, refl, inr refl)
      | inr other ↦ rw other (w, refl, inl refl)
    ])
  ]

  abbrev after_post : World → World
  after_post w =
      let sent = record w { trace = Delivery ∷ w.trace } in record sent { store = e.others sent }

  -- One round: it posts once, and is the last or goes on with the rounds that are left.
  one_round :
      (n : ℕ) (w : World)
      → (w' : World) × (w'.trace ≡ Delivery ∷ w.trace)
        × ((deliver_rounds e (suc n) url payload w ≡ (ok tt, w'))
            ⊎ (deliver_rounds e (suc n) url payload w ≡ deliver_rounds e n url payload w'))
  unfolding deliver_rounds ◌>>=◌ try_some post_callback
  one_round n w =
      after_answer (e.deliver_answer (record w { trace = Delivery ∷ w.trace }) url) n (after_post w)

  -- The callback is posted at least once and at most once for each round, always with the same
  -- payload to the same URL, and nothing else is sent; no exception leaves.
  pub deliver_rounds_lem :
      (n : ℕ) (w : World)
      → ((deliver_rounds e (suc n) url payload w).0 ≡ ok tt)
        × (k : ℕ) × (k ≤ n)
        × ((deliver_rounds e (suc n) url payload w).1.trace ≡ repeat (suc k) Delivery w.trace)
  unfolding deliver_rounds pure
  deliver_rounds_lem zero w = elim (one_round zero w).2 [
    | inl p ↦ rw p (refl, 0, omega arith, (one_round zero w).1)
    | inr p ↦ rw p (refl, 0, omega arith, (one_round zero w).1)
  ]
  deliver_rounds_lem (suc n) w =
      let w' = (one_round (suc n) w).0 in
      let (done, k, bound, same) = deliver_rounds_lem n w' in
      elim (one_round (suc n) w).2 [
        | inl p ↦ rw p (refl, 0, omega arith, (one_round (suc n) w).1)
        | inr p ↦ rw p (
          done,
          suc k,
          omega arith,
          same
              ∙ ap (repeat (suc k) Delivery) (one_round (suc n) w).1
              ∙ repeat_comm (suc k) Delivery w.trace,
        )
      ]
