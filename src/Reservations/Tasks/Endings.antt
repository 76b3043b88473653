-- ===== src/Reservations/Tasks/Endings.antt =====
-- Where each background task ends, on every branch.
use nsi_aggregator_proxy.Common.{
  Option-cases, ℕ, String, ◌≡◌, refl, inl, inr, Bool, true, false, Option, none, some,
}
use nsi_aggregator_proxy.Models.{ReservationStatus, reserved, activated, failed, ReservationDetail}
use nsi_aggregator_proxy.Providers.{P}
use nsi_aggregator_proxy.Reservations.Queries.Statuses.{Keeps-query_notifications}
use nsi_aggregator_proxy.Reservations.Tasks.{
  complete_provision, complete_release, DataplaneOutcome, reached, failed_by, timed_out,
  dataplane_reason, dataplane_failure, announce, fail, guarded, on_commit_result,
  on_dataplane_failure, switch_dataplane, on_provision_result, provision_body, on_release_result,
  release_body,
}
use nsi_aggregator_proxy.Reservations.Tasks.Outcomes.{IsOutcome, Delivers, announce_stored}
use nsi_aggregator_proxy.Reservations.Tasks.Waiting.{
  IsLive, Stored, IsFair, Stored-IsStable, wait_for-Keeps, await_dataplane_change-Keeps,
}
use nsi_aggregator_proxy.Runtime.{World, Env, M, wait_for, Result, ◌>>=◌, attempt}
use nsi_aggregator_proxy.Runtime.Laws.{Keeps, Keeps-pure, Keeps-bind, Ends, Ends-bind}
use nsi_aggregator_proxy.Soap.Messages.{NsiMessage}
use nsi_aggregator_proxy.Store.{get}
use nsi_aggregator_proxy.Store.Steps.{Has}

module _ (e : Env) (connection_id : String) where
  pub announce-Ends :
      (status : ReservationStatus) (last_error : Option String)
      → Ends
          (Stored connection_id)
          (Delivers (λ p. (p.status ≡ status) × (p.last_error ≡ last_error)))
          (announce e connection_id status last_error)
  announce-Ends status last_error w i = elim (Option-cases (get connection_id w.store)) [
    | inl none_there ↦ cc (rw none_there at i)
    | inr (r, h) ↦ announce_stored e connection_id status last_error w r h
  ]

  pub fail-Ends :
      (goal : ReservationStatus) (reason : String)
      → Ends (Stored connection_id) (Delivers (IsOutcome goal)) (fail e connection_id reason)
  unfolding fail
  fail-Ends goal reason w i =
      let (done, (p, sent, (status, error_text))) = announce-Ends failed (some reason) w i in
      (done, (p, sent, inr (status, rw error_text refl)))

  reach-Ends :
      (goal : ReservationStatus)
      → Ends (Stored connection_id) (Delivers (IsOutcome goal)) (announce e connection_id goal none)
  reach-Ends goal w i =
      let (done, (p, sent, (status, error_text))) = announce-Ends goal none w i in
      (done, (p, sent, inl (status, error_text)))

  -- A body that ends by itself is left alone by the guard around it.
  pub guarded-Delivers :
      (P : ReservationDetail → Type 0) (body : M (Unit {0})) (w : World)
      → Delivers P (body w)
      → Delivers P (guarded e connection_id body w)
  unfolding attempt
  guarded-Delivers P body w (done, sent) = rw done (refl, sent)

  module _ (fair : IsFair e connection_id) where
    Keeps-dataplane_reason :
        (target : Bool) (outcome : DataplaneOutcome)
        → Keeps (Stored connection_id) (dataplane_reason e connection_id target outcome)
    Keeps-dataplane_reason target reached = Keeps-pure (Stored connection_id) none
    Keeps-dataplane_reason target (failed_by event) = Keeps-pure (Stored connection_id) _
    Keeps-dataplane_reason target timed_out =
        Keeps-bind (Stored connection_id) _ _
          (Keeps-query_notifications (Stored connection_id) e (Stored-IsStable e connection_id fair)
            connection_id)
          (λ notifications. Keeps-pure (Stored connection_id) _)

    Keeps-dataplane_failure :
        (target : Bool) → Keeps (Stored connection_id) (dataplane_failure e connection_id target)
    unfolding dataplane_failure
    Keeps-dataplane_failure target =
        Keeps-bind (Stored connection_id) _ _
          (await_dataplane_change-Keeps e connection_id fair target) (Keeps-dataplane_reason target)

    on_dataplane_failure-Ends :
        (goal : ReservationStatus) (reason : Option String)
        → Ends
            (Stored connection_id)
            (Delivers (IsOutcome goal))
            (on_dataplane_failure e connection_id goal reason)
    on_dataplane_failure-Ends goal none = reach-Ends goal
    on_dataplane_failure-Ends goal (some reason) = fail-Ends goal reason

    switch_dataplane-Ends :
        (target : Bool) (goal : ReservationStatus)
        → Ends
            (Stored connection_id)
            (Delivers (IsOutcome goal))
            (switch_dataplane e connection_id target goal)
    switch_dataplane-Ends target goal =
        Ends-bind (Stored connection_id) (Delivers (IsOutcome goal)) _ _
          (Keeps-dataplane_failure target) (on_dataplane_failure-Ends goal)

    on_provision_result-Ends :
        (o : Option NsiMessage)
        → Ends
            (Stored connection_id)
            (Delivers (IsOutcome activated))
            (on_provision_result e connection_id o)
    on_provision_result-Ends (some (NsiMessage.provision_confirmed _)) =
        switch_dataplane-Ends true activated
    on_provision_result-Ends _ = fail-Ends activated _

    on_release_result-Ends :
        (o : Option NsiMessage)
        → Ends
            (Stored connection_id)
            (Delivers (IsOutcome reserved))
            (on_release_result e connection_id o)
    on_release_result-Ends (some (NsiMessage.release_confirmed _)) =
        switch_dataplane-Ends false reserved
    on_release_result-Ends _ = fail-Ends reserved _

    pub on_commit_result-Ends :
        (o : Option NsiMessage)
        → Ends
            (Stored connection_id)
            (Delivers (IsOutcome reserved))
            (on_commit_result e connection_id o)
    on_commit_result-Ends (some (NsiMessage.reserve_commit_confirmed _)) = reach-Ends reserved
    on_commit_result-Ends _ = fail-Ends reserved _

    -- A task that first waits for its own future, and then ends as `Q` says.
    pub wait_for-Ends :
        (Q : Result (Unit {0}) × World → Type 0) (f : Option NsiMessage → M (Unit {0}))
        → ((o : Option NsiMessage) → Ends (Stored connection_id) Q (f o))
        → (a : ℕ) (w : World) → IsLive a w
        → Has connection_id w.store
        → Q ((wait_for e a >>= f) w)
    unfolding ◌>>=◌
    wait_for-Ends Q f h a w live i =
        let ((o, p), j) = wait_for-Keeps e connection_id fair a w live i in
        rw p (h o (wait_for e a w).1 j)

    -- If the other tasks are fair (`IsFair`), the future that the task waits for is not cancelled
    -- and the reservation is in the store, the provision task returns, and the newest event is a
    -- callback that is ACTIVATED without an error or FAILED with one: on every message, time-out
    -- and data-plane outcome.
    pub complete_provision-Delivers :
        (a : ℕ) (w : World)
        → IsLive a w
        → Has connection_id w.store
        → Delivers (IsOutcome activated) (complete_provision e connection_id a w)
    unfolding complete_provision
    complete_provision-Delivers a w live i =
        guarded-Delivers (IsOutcome activated) (provision_body e connection_id a) w
          (wait_for-Ends (Delivers (IsOutcome activated)) _ on_provision_result-Ends a w live i)

    -- If the other tasks are fair (`IsFair`), the future that the task waits for is not cancelled
    -- and the reservation is in the store, the release task returns, and the newest event is a
    -- callback that is RESERVED without an error or FAILED with one.
    pub complete_release-Delivers :
        (a : ℕ) (w : World)
        → IsLive a w
        → Has connection_id w.store
        → Delivers (IsOutcome reserved) (complete_release e connection_id a w)
    unfolding complete_release
    complete_release-Delivers a w live i =
        guarded-Delivers (IsOutcome reserved) (release_body e connection_id a) w
          (wait_for-Ends (Delivers (IsOutcome reserved)) _ on_release_result-Ends a w live i)
