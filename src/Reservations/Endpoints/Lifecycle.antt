-- ===== src/Reservations/Endpoints/Lifecycle.antt =====
-- From an accepted operation to its result: the task that an endpoint starts waits for the future
-- of the request that was sent, and ends with a callback.
use mathlib.Core.Path.{subst}
use nsi_aggregator_proxy.Reservations.Tasks
use nsi_aggregator_proxy.Common.Dict.{lookup-insert}
use nsi_aggregator_proxy.Common.{
  Option-cases, ◌<>◌, get_elem?-append_last, ℕ, suc, String, ◌≡◌, refl, inl, inr, List, ◌∷◌, arith,
}
use nsi_aggregator_proxy.Mapping.{before}
use nsi_aggregator_proxy.Models.{
  ReservationStatus, reserved, activating, activated, deactivating, terminated, AcceptedResponse,
}
use nsi_aggregator_proxy.Models.Formats.{after}
use nsi_aggregator_proxy.NsiCallback.Answers.{answer}
use nsi_aggregator_proxy.Reservations.Endpoints.{
  accepted, set_callback_url, acknowledged, send_with, send_operation, start_provision,
  start_release, start_terminate,
}
use nsi_aggregator_proxy.Reservations.Queries.{
  operation_header_with, send_registered, expect_acknowledgment,
}
use nsi_aggregator_proxy.Reservations.Tasks.Endings.{
  complete_provision-Delivers, complete_release-Delivers,
}
use nsi_aggregator_proxy.Reservations.Tasks.Outcomes.{IsOutcome, Delivers, modify-get, get-modify}
use nsi_aggregator_proxy.Reservations.Tasks.Reserving.{complete_terminate-Delivers}
use nsi_aggregator_proxy.Reservations.Tasks.Waiting.{Ready, IsFair, Ready-IsStable}
use nsi_aggregator_proxy.Runtime.{
  Request, provision, release, terminate, Task, complete_provision, complete_release,
  complete_terminate, Event, spawned, World, Response, Env, write_store, change_store, register,
  record_event, create_task, draw_urn, post_checked, ok, pure, raise, lift, ◌>>=◌, ◌>>◌,
}
use nsi_aggregator_proxy.Runtime.Laws.{KeepsTame-post_checked, IfOk, IfOk-bind, IfOk-attempt}
use nsi_aggregator_proxy.Soap.Messages.{NsiMessage, NsiHeader}
use nsi_aggregator_proxy.Store.{Reservation, waiting, get, modify, update_status, register_pending}
use nsi_aggregator_proxy.Store.Steps.{Has}

module _ (e : Env) (connection_id : String) (fair : IsFair e connection_id) where
  send_registered-IfOk :
      (correlation_id : String) (request : Request) (a : ℕ)
      → IfOk
          (Ready connection_id a)
          (send_registered e correlation_id request)
          (λ response. Ready connection_id a)
  unfolding ◌>>=◌ write_store raise
  send_registered-IfOk correlation_id request a =
      IfOk-attempt (Ready connection_id a) (post_checked e request) _
        (λ response. Ready connection_id a)
        (λ w i response ok_response.
          (KeepsTame-post_checked (Ready connection_id a) e (Ready-IsStable e connection_id fair a)
            request w i).1)
        (λ x w response p. cc (p))

  expect_acknowledgment-IfOk :
      (correlation_id : String) (message : NsiMessage) (a : ℕ)
      → IfOk
          (Ready connection_id a)
          (expect_acknowledgment e correlation_id message)
          (λ _. Ready connection_id a)
  unfolding ◌>>=◌ write_store raise pure
  expect_acknowledgment-IfOk correlation_id NsiMessage.acknowledgment a w i u p = i
  expect_acknowledgment-IfOk correlation_id _ a w i u p = cc (p)

  acknowledged-IfOk :
      (correlation_id : String) (a : ℕ) (response : Response)
      → IfOk
          (Ready connection_id a)
          (acknowledged e correlation_id a response)
          (Ready connection_id)
  unfolding lift pure
  acknowledged-IfOk correlation_id a response =
      IfOk-bind (Ready connection_id a) (λ message. Ready connection_id a) _ _ (Ready connection_id)
        (λ w i message p. i)
        (λ message.
          IfOk-bind (Ready connection_id a) (λ u. Ready connection_id a) _ _ (Ready connection_id)
            (expect_acknowledgment-IfOk correlation_id message a)
            (λ u w i b p. subst (λ n. Ready connection_id n w) (cc p) i))

  send_with-IfOk :
      (correlation_id : String) (a : ℕ) (request : Request)
      → IfOk (Ready connection_id a) (send_with e correlation_id a request) (Ready connection_id)
  send_with-IfOk correlation_id a request =
      IfOk-bind (Ready connection_id a) (λ response. Ready connection_id a)
        (send_registered e correlation_id request) (acknowledged e correlation_id a)
        (Ready connection_id) (send_registered-IfOk correlation_id request a)
        (acknowledged-IfOk correlation_id a)

  -- The future that comes with an acknowledged request is the one registered for its callback, and
  -- it is not cancelled.
  send_operation-IfOk :
      (requester_nsa : String) (request : NsiHeader → Request)
      → IfOk
          (λ w. Has connection_id w.store)
          (send_operation e requester_nsa request)
          (Ready connection_id)
  unfolding send_operation ◌>>=◌ draw_urn register register_pending get
  send_operation-IfOk requester_nsa request w i b p =
      let id = "urn:uuid:" <> e.uuid4 w.drawn in
      let (a, s) = register_pending id w.store in
      send_with-IfOk id a (request (operation_header_with e requester_nsa id))
        (record w { drawn = suc w.drawn; store = s; held = a ∷ w.held })
        (i, (inl refl, inl (get_elem?-append_last w.store.futures waiting))) b p

  -- What an accepted operation does last: the status changes and the task starts.
  started_lem :
      (status : ReservationStatus) (task : Task) (a : ℕ) (w : World)
      → Ready connection_id a w
      → let out =
          (do
            change_store (update_status connection_id status)
            create_task task
            pure (accepted connection_id))
            w in
        Ready connection_id a out.1 × (out.1.trace ≡ spawned task ∷ w.trace)
  unfolding ◌>>=◌ change_store update_status record_event pure
  started_lem status task a w (has, live) = elim (Option-cases (get connection_id w.store)) [
    | inl missing ↦ cc (rw missing at has)
    | inr (r, h) ↦
        let f : Reservation → Reservation = λ x. record x { status = status } in
        rw (modify-get connection_id f w.store r h)
          ((rw (get-modify connection_id f w.store r) refl, live), refl)
  ]

  -- The newest event is the start of a task that waits for `a`, and its future is ready.
  abbrev pub Starts : (ℕ → Task) → World → Type 0
  Starts task w =
      (a : ℕ) × (before : List Event) × (w.trace ≡ spawned (task a) ∷ before)
      × Ready connection_id a w

  start_provision-Starts :
      (requester_nsa : String)
      → IfOk
          (λ w. Has connection_id w.store)
          (start_provision e connection_id requester_nsa)
          (λ answer. Starts (complete_provision connection_id))
  start_provision-Starts requester_nsa =
      IfOk-bind (λ w. Has connection_id w.store) (Ready connection_id) _ _
        (λ answer. Starts (complete_provision connection_id))
        (send_operation-IfOk requester_nsa (λ header. provision header connection_id))
        (λ a w ready answer p.
          let (after, sent) =
            started_lem activating (complete_provision connection_id a) a w ready in
          (a, w.trace, sent, after))

  start_release-Starts :
      (requester_nsa : String)
      → IfOk
          (λ w. Has connection_id w.store)
          (start_release e connection_id requester_nsa)
          (λ answer. Starts (complete_release connection_id))
  start_release-Starts requester_nsa =
      IfOk-bind (λ w. Has connection_id w.store) (Ready connection_id) _ _
        (λ answer. Starts (complete_release connection_id))
        (send_operation-IfOk requester_nsa (λ header. release header connection_id))
        (λ a w ready answer p.
          let (after, sent) =
            started_lem deactivating (complete_release connection_id a) a w ready in
          (a, w.trace, sent, after))

  -- If the other tasks are fair (`IsFair`) and the provision of a stored reservation is accepted, the newest event is the start of a
  -- provision task, and this task, run from there, ends with a callback that is ACTIVATED without
  -- an error or FAILED with one.
  pub start_provision-Delivers :
      (requester_nsa : String) (w : World)
      → Has connection_id w.store
      → (answer : AcceptedResponse)
      → (start_provision e connection_id requester_nsa w).0 ≡ ok answer
      → let w' = (start_provision e connection_id requester_nsa w).1 in
        (a : ℕ) × (before : List Event) × (w'.trace
          ≡ spawned (complete_provision connection_id a) ∷ before)
        × Delivers (IsOutcome activated) (Tasks.complete_provision e connection_id a w')
  start_provision-Delivers requester_nsa w has answer p =
      let (a, before, started, (i, live)) = start_provision-Starts requester_nsa w has answer p in
      (a, before, started, complete_provision-Delivers e connection_id fair a _ live i)

  -- If the other tasks are fair (`IsFair`) and the release of a stored reservation is accepted, the newest event is the start of a release
  -- task, and this task, run from there, ends with a callback that is RESERVED without an error or
  -- FAILED with one.
  pub start_release-Delivers :
      (requester_nsa : String) (w : World)
      → Has connection_id w.store
      → (answer : AcceptedResponse) → (start_release e connection_id requester_nsa w).0 ≡ ok answer
      → let w' = (start_release e connection_id requester_nsa w).1 in
        (a : ℕ) × (before : List Event) × (w'.trace
          ≡ spawned (complete_release connection_id a) ∷ before)
        × Delivers (IsOutcome reserved) (Tasks.complete_release e connection_id a w')
  start_release-Delivers requester_nsa w has answer p =
      let (a, before, started, (i, live)) = start_release-Starts requester_nsa w has answer p in
      (a, before, started, complete_release-Delivers e connection_id fair a _ live i)

  Has-modify :
      (key : String) (f : Reservation → Reservation) (w : World)
      → Has connection_id w.store
      → (u : Unit {0}) → (change_store (modify key f) w).0 ≡ ok u
      → Has connection_id (change_store (modify key f) w).1.store
  unfolding change_store get modify
  Has-modify key f w i u p = elim (Option-cases (get key w.store)) [
    | inl missing ↦ cc (rw missing at p)
    | inr (r, h) ↦
        rw (modify-get key f w.store r h)
          (ground (arith, lookup-insert key connection_id (f r) w.store.reservations))
  ]

  -- If the other tasks are fair (`IsFair`) and the terminate of a stored reservation is accepted, the newest event is the start of a
  -- terminate task, and this task, run from there, ends with a callback that is TERMINATED.
  pub start_terminate-Delivers :
      (reservation : Reservation) (url : String) (w : World)
      → Has connection_id w.store
      → (answer : AcceptedResponse)
      → (start_terminate e reservation connection_id url w).0 ≡ ok answer
      → let w' = (start_terminate e reservation connection_id url w).1 in
        (a : ℕ) × (before : List Event) × (w'.trace
          ≡ spawned (complete_terminate connection_id a) ∷ before)
        × Delivers (λ p. p.status ≡ terminated) (Tasks.complete_terminate e connection_id a w')
  unfolding pure record_event ◌>>=◌
  start_terminate-Delivers reservation url w has answer p =
      let (a, before, started, (i, live)) =
        IfOk-bind (λ v. Has connection_id v.store) (λ _ v. Has connection_id v.store)
          (set_callback_url e reservation.connection_id url) _
          (λ _. Starts (complete_terminate connection_id)) (Has-modify reservation.connection_id _)
          (λ _.
            IfOk-bind (λ v. Has connection_id v.store) (Ready connection_id) _ _
              (λ _. Starts (complete_terminate connection_id))
              (send_operation-IfOk reservation.requester_nsa
                (λ header. terminate header connection_id))
              (λ a v ready x q. (a, v.trace, refl, ready)))
          w has answer p in
      (a, before, started, complete_terminate-Delivers e connection_id fair a _ live i)
