-- ===== src/Reservations/Tasks/Reserving.antt =====
-- Where the reserve task with its two phases ends, and the terminate task.
use nsi_aggregator_proxy.Common.Dict.{contains-discard}
use nsi_aggregator_proxy.Common.{
  Option-cases, ◌<>◌, length, get_elem?-append_last, ℕ, suc, String, ◌≡◌, refl, ◌⊎◌, inl, inr, true,
  false, Option, none, some, eq_refl,
}
use nsi_aggregator_proxy.Models.{CriteriaResponse, reserved, terminated, ReservationDetail}
use nsi_aggregator_proxy.Providers.{P}
use nsi_aggregator_proxy.Reservations.Refresh.{build_reservation_detail}
use nsi_aggregator_proxy.Reservations.Tasks.{
  complete_reserve, complete_terminate, on_commit_result, on_commit_sent, commit, on_reserve_result,
  reserve_body, guarded, announce_terminated,
}
use nsi_aggregator_proxy.Reservations.Tasks.Endings.{
  fail-Ends, guarded-Delivers, on_commit_result-Ends, wait_for-Ends,
}
use nsi_aggregator_proxy.Reservations.Tasks.Outcomes.{
  IsOutcome, Delivers, Modified, modify-get, get-modify, send_callback-Delivers,
}
use nsi_aggregator_proxy.Reservations.Tasks.Waiting.{IsLive, Stored, Ready, IsFair, Ready-IsStable}
use nsi_aggregator_proxy.Runtime.{
  Request, World, Response, Env, M, read_store, write_store, change_store, register, draw_urn,
  post_checked, Exception, is_exception, Result, err, ◌>>=◌, ◌>>◌, attempt, try_some, ensure,
}
use nsi_aggregator_proxy.Runtime.Laws.{
  Keeps, Keeps-try_some, KeepsTame-post_checked, Ends, Ends-bind,
}
use nsi_aggregator_proxy.Soap.Messages.{NsiMessage}
use nsi_aggregator_proxy.Store.{
  Reservation, waiting, get, update_status, confirmed_criteria, replace_criteria, update_criteria,
  reserve_finished, is_reserve_in_flight, register_pending, cancel_pending,
}
use nsi_aggregator_proxy.Store.Steps.{Has}

module _ (e : Env) (connection_id : String) (fair : IsFair e connection_id) where
  abbrev Outcome : Result (Unit {0}) × World → Type 0
  Outcome = Delivers (IsOutcome reserved)

  on_commit_sent-Ends :
      (correlation_id : String) (a : ℕ) (o : Option Response) (w : World)
      → IsLive a w
      → Has connection_id w.store
      → Outcome (on_commit_sent e connection_id correlation_id a o w)
  unfolding ◌>>=◌ write_store cancel_pending get
  on_commit_sent-Ends correlation_id a none w live i =
      fail-Ends e connection_id reserved _
        (record w { store = cancel_pending correlation_id w.store }) i
  on_commit_sent-Ends correlation_id a (some response) w live i =
      wait_for-Ends e connection_id fair Outcome (on_commit_result e connection_id)
        (on_commit_result-Ends e connection_id fair) a w live i

  commit_registered :
      (correlation_id : String) (a : ℕ) (request : Request)
      → Ends (Ready connection_id a) Outcome (do
        response ← try_some (post_checked e request)
        on_commit_sent e connection_id correlation_id a response)
  commit_registered correlation_id a request =
      Ends-bind (Ready connection_id a) Outcome _ _
        (Keeps-try_some (Ready connection_id a) _ (
          KeepsTame-post_checked (Ready connection_id a) e (Ready-IsStable e connection_id fair a)
            request))
        (λ o w (i, live). on_commit_sent-Ends correlation_id a o w live i)

  commit-Ends : Ends (Stored connection_id) Outcome (commit e connection_id)
  unfolding commit ◌>>=◌ draw_urn register register_pending read_store get
  commit-Ends w i =
      let (a, w') = register ("urn:uuid:" <> e.uuid4 w.drawn) (record w { drawn = suc w.drawn }) in
      commit_registered _ (length w.store.futures) _ w'
        (i, (inl refl, inl (get_elem?-append_last w.store.futures waiting)))

  Keeps-replace_criteria :
      (criteria : CriteriaResponse)
      → Keeps (Stored connection_id) (change_store (replace_criteria connection_id (some criteria)))
  unfolding change_store
  Keeps-replace_criteria criteria w i = elim (Option-cases (get connection_id w.store)) [
    | inl missing ↦ cc (rw missing at i)
    | inr (r, h) ↦
        let f : Reservation → Reservation = λ x. record x { criteria = some criteria } in
        rw (modify-get connection_id f w.store r h)
          ((tt, refl), rw (get-modify connection_id f w.store r) refl)
  ]

  -- The body of the task delivers an outcome, or leaves by an exception that its guard catches.
  abbrev Settled : Result (Unit {0}) × World → Type 0
  Settled out =
      Outcome out
      ⊎ ((x : Exception) × (out.0 ≡ err x)
          × (is_exception x ≡ true)
          × Has connection_id out.1.store)

  guarded-Settled :
      (body : M (Unit {0})) (w : World)
      → Settled (body w)
      → Outcome (guarded e connection_id body w)
  unfolding attempt
  guarded-Settled body w (inl delivered) =
      guarded-Delivers e connection_id (IsOutcome reserved) body w delivered
  guarded-Settled body w (inr (x, raised, caught, i)) =
      let (done, sent) = fail-Ends e connection_id reserved "internal error" (body w).1 i in
      rw raised (rw caught (rw done (refl, sent)))

  -- Criteria that P2PS rejects end the reserve before the commit.
  confirmed-Ends :
      (criteria : Option CriteriaResponse)
      → Ends
          (Stored connection_id)
          Settled
          (do change_store (replace_criteria connection_id criteria); commit e connection_id)
  unfolding change_store ◌>>=◌
  confirmed-Ends none w i = inr (_, refl, refl, i)
  confirmed-Ends (some criteria) w i =
      Ends-bind (Stored connection_id) Settled
        (change_store (replace_criteria connection_id (some criteria)))
        (λ _. commit e connection_id) (Keeps-replace_criteria criteria)
        (λ _ v j. inl (commit-Ends v j)) w i

  on_reserve_result-Ends :
      (o : Option NsiMessage)
      → Ends (Stored connection_id) Settled (on_reserve_result e connection_id o)
  unfolding update_criteria
  on_reserve_result-Ends (some (NsiMessage.reserve_confirmed msg)) w i =
      confirmed-Ends (confirmed_criteria msg) w i
  on_reserve_result-Ends _ w i = inl (fail-Ends e connection_id reserved _ w i)

  -- If the other tasks are fair (`IsFair`), the future that the task waits for is not cancelled and
  -- the reservation is in the store, the reserve task returns, and the newest event is a callback
  -- that is RESERVED without an error or FAILED with one, in both phases and on every message and
  -- time-out.
  pub complete_reserve-Delivers :
      (a : ℕ) (w : World)
      → IsLive a w
      → Has connection_id w.store
      → Delivers (IsOutcome reserved) (complete_reserve e connection_id a w)
  unfolding complete_reserve ensure
  complete_reserve-Delivers a w live i =
      guarded-Settled (reserve_body e connection_id a) w
        (wait_for-Ends e connection_id fair Settled _ on_reserve_result-Ends a w live i)

  deliver_stored_terminated :
      (w : World) (r : Reservation)
      → get connection_id w.store ≡ some r
      → Delivers (λ p. p.status ≡ terminated) (announce_terminated e connection_id w)
  unfolding announce_terminated update_status ◌>>=◌ change_store read_store build_reservation_detail
  deliver_stored_terminated w r h =
      let f : Reservation → Reservation = λ x. record x { status = terminated } in
      let (done, (p, sent, same)) =
        send_callback-Delivers e r.callback_url (f r)
          (record w { store = Modified connection_id f w.store r }) in
      rw (modify-get connection_id f w.store r h)
        (rw (get-modify connection_id f w.store r) (done, (p, sent, rw same refl)))

  announce_terminated-Ends :
      Ends
        (Stored connection_id)
        (Delivers (λ p. p.status ≡ terminated))
        (announce_terminated e connection_id)
  announce_terminated-Ends w i = elim (Option-cases (get connection_id w.store)) [
    | inl missing ↦ cc (rw missing at i)
    | inr (r, h) ↦ deliver_stored_terminated w r h
  ]

  attempt-Delivers :
      (P : ReservationDetail → Type 0) (body : M (Unit {0})) (h : Exception → M (Unit {0}))
      (w : World)
      → Delivers P (body w)
      → Delivers P (attempt body h w)
  unfolding attempt
  attempt-Delivers P body h w (done, sent) = rw done (refl, sent)

  -- If the other tasks are fair (`IsFair`), the future that the task waits for is not cancelled and
  -- the reservation is in the store, the terminate task returns, and the newest event is a callback
  -- that is TERMINATED: confirmed, answered by anything else, or timed out.
  pub complete_terminate-Delivers :
      (a : ℕ) (w : World)
      → IsLive a w
      → Has connection_id w.store
      → Delivers (λ p. p.status ≡ terminated) (complete_terminate e connection_id a w)
  unfolding complete_terminate
  complete_terminate-Delivers a w live i =
      attempt-Delivers (λ p. p.status ≡ terminated) _ _ w
        (wait_for-Ends e connection_id fair (Delivers (λ p. p.status ≡ terminated))
          (λ _. announce_terminated e connection_id) (λ _. announce_terminated-Ends) a w live i)

-- However the reserve task ends, by a cancellation too, its reserve is no longer in flight.
pub complete_reserve-in_flight :
    (e : Env) (connection_id : String) (a : ℕ) (w : World)
    → is_reserve_in_flight connection_id (complete_reserve e connection_id a w).1.store ≡ false
unfolding complete_reserve ensure is_reserve_in_flight reserve_finished
complete_reserve-in_flight e connection_id a w =
    rw contains-discard (rw (eq_refl connection_id) refl)
