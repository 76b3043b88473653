-- ===== src/Reservations/Tasks/Waiting.antt =====
-- The waits of the background tasks: they end, and a reservation outlives them.
use nsi_aggregator_proxy.Common.{
  Option-cases, length, get_elem?-append_last, ℕ, zero, suc, ◌-◌, ◌≤◌, ◌<◌, String, ◌≡◌, refl, inl,
  inr, Bool, Option, none, some, arith,
}
use nsi_aggregator_proxy.Reservations.Tasks.{
  DataplaneOutcome, timed_out, dataplane_message, on_dataplane_wait, await_rounds,
  await_dataplane_change,
}
use nsi_aggregator_proxy.Runtime.{
  World, Env, M, write_store, register_connection, waited, wait_for, Result, ok, pure, ◌>>=◌,
}
use nsi_aggregator_proxy.Runtime.Laws.{Keeps, IsStable, Keeps-pure, Ends}
use nsi_aggregator_proxy.Soap.Messages.{NsiMessage}
use nsi_aggregator_proxy.Store.{
  waiting, get, future_at, register_pending_by_connection, cancel_pending_by_connection, abandon,
}
use nsi_aggregator_proxy.Store.Steps.{
  Has, IsUncancelled, Holds, Reach, Reach-Has, Reach-IsUncancelled,
}

abbrev pub Stored : String → World → Type 0
Stored connection_id w = Has connection_id w.store

-- A future that the coroutine holds, and that is not cancelled.
abbrev pub IsLive : ℕ → World → Type 0
IsLive a w = Holds a w.held × IsUncancelled a w.store

-- The reservation is in the store, and the future is live.
abbrev pub Ready : String → ℕ → World → Type 0
Ready connection_id a w = Has connection_id w.store × IsLive a w

-- The other tasks neither remove the reservation nor cancel a future that this coroutine holds,
-- and a wait takes time.
pub record IsFair (e : Env) (connection_id : String) : Type 0 where
  pub keeps : (w : World) → Has connection_id w.store → Has connection_id (e.others w)
  pub spares : (w : World) (a : ℕ) → IsLive a w → IsUncancelled a (e.others w)
  pub time_passes : (w : World) → 1 ≤ e.elapsed w

-- If in each of their turns the other tasks do nothing to the store but call its methods, any number
-- of times and in any order, and cancel and time out no future that this coroutine registered, and
-- if a wait takes time, then they are fair: they leave every stored reservation in the store, and
-- every future that the coroutine holds waiting or resolved.
pub Reach-IsFair :
    (e : Env) (connection_id : String)
    → ((w : World) → Reach w.held w.store (e.others w))
    → ((w : World) → 1 ≤ e.elapsed w)
    → IsFair e connection_id
Reach-IsFair e connection_id turn time_passes = record {
  keeps = λ w. Reach-Has connection_id (turn w);
  spares = λ w a (mine, live). Reach-IsUncancelled (turn w) a mine live;
  time_passes = time_passes;
}

module _ (e : Env) (connection_id : String) (fair : IsFair e connection_id) where
  pub Stored-IsStable : IsStable e (Stored connection_id)
  Stored-IsStable = record { draws = λ w n i. i; sends = λ w events i. i; yields = fair.keeps }

  pub IsLive-IsStable : (a : ℕ) → IsStable e (IsLive a)
  IsLive-IsStable a = record {
    draws = λ w n i. i;
    sends = λ w events i. i;
    yields = λ w i. (i.0, fair.spares w a i);
  }

  pub Ready-IsStable : (a : ℕ) → IsStable e (Ready connection_id a)
  Ready-IsStable a = record {
    draws = λ w n i. i;
    sends = λ w events i. i;
    yields = λ w (i, live). (fair.keeps w i, (live.0, fair.spares w a live));
  }

  waited-Keeps :
      (a : ℕ) (w : World)
      → IsUncancelled a w.store
      → Has connection_id w.store
      → let out = waited e (future_at a w.store) a w in
        ((o : Option NsiMessage) × (out.0 ≡ ok o)) × Has connection_id out.1.store
  unfolding abandon get
  waited-Keeps a w (inl h) i = rw h ((none, refl), i)
  waited-Keeps a w (inr (m, h)) i = rw h ((some m, refl), i)

  -- A wait for a live future returns.
  pub wait_for-Keeps :
      (a : ℕ) (w : World)
      → IsLive a w
      → Has connection_id w.store
      → ((o : Option NsiMessage) × ((wait_for e a w).0 ≡ ok o))
        × Has connection_id (wait_for e a w).1.store
  unfolding wait_for
  wait_for-Keeps a w live i =
      waited-Keeps a (record w { store = e.others w }) (fair.spares w a live) (fair.keeps w i)

  -- Where a task waits for the future that it just registered.
  pub register_connection-Ends :
      {B : Type 0} (Q : Result B × World → Type 0) (f : Option NsiMessage → M B)
      → ((o : Option NsiMessage) → Ends (Stored connection_id) Q (f o))
      → Ends
          (Stored connection_id)
          Q
          (do future ← register_connection connection_id; message ← wait_for e future; f message)
  unfolding ◌>>=◌ register_connection register_pending_by_connection get
  register_connection-Ends Q f h w i =
      let a = length w.store.futures in
      let (registered, w') = register_connection connection_id w in
      let ((o, p), j) =
        wait_for-Keeps a w' (inl refl, inl (get_elem?-append_last w.store.futures waiting)) i in
      rw p (h o (wait_for e a w').1 j)

  on_dataplane_wait-Keeps :
      (target : Bool) (o : Option NsiMessage) (again : M DataplaneOutcome)
      → Keeps (Stored connection_id) again
      → Keeps (Stored connection_id) (on_dataplane_wait e connection_id target o again)
  unfolding ◌>>=◌ write_store cancel_pending_by_connection get pure
  on_dataplane_wait-Keeps target none again h w i = ((timed_out, refl), i)
  on_dataplane_wait-Keeps target (some message) again h w i =
      elim (Option-cases (dataplane_message e target message)) [
        | inl p ↦ rw p (h w i)
        | inr (outcome, p) ↦ rw p ((outcome, refl), i)
      ]

  -- With fuel above the remaining time the loop ends: each wait takes some of it.
  await_rounds-Keeps :
      (target : Bool) (fuel remaining : ℕ)
      → remaining < fuel
      → Keeps (Stored connection_id) (await_rounds e fuel remaining connection_id target)
  unfolding await_rounds ◌>>=◌
  await_rounds-Keeps target zero remaining bound = let no : ⊥ = omega arith in elim no [ ]
  await_rounds-Keeps target (suc fuel) zero bound = Keeps-pure (Stored connection_id) timed_out
  await_rounds-Keeps target (suc fuel) (suc remaining) bound =
      register_connection-Ends
        (λ out. ((a : DataplaneOutcome) × (out.0 ≡ ok a)) × Stored connection_id out.1) _
        (λ o w i.
          on_dataplane_wait-Keeps target o _
            (await_rounds-Keeps target fuel (suc remaining - e.elapsed w)
              (omega (arith, fair.time_passes w)))
            w i)

  -- If the other tasks are fair (`IsFair`) and the reservation is in the store, the wait for the data
  -- plane ends with an outcome, whatever messages come, and the reservation is still in the store:
  -- no fuel runs out and no exception leaves.
  pub await_dataplane_change-Keeps :
      (target : Bool) → Keeps (Stored connection_id) (await_dataplane_change e connection_id target)
  unfolding await_dataplane_change
  await_dataplane_change-Keeps target = await_rounds-Keeps target _ _ (omega arith)
