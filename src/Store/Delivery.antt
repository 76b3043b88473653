-- ===== src/Store/Delivery.antt =====
-- A callback reaches the task that registered for it, and a late one reaches nobody.
use mathlib.Core.Option.{some-injective}
use nsi_aggregator_proxy.Common.Dict
use nsi_aggregator_proxy.Common.Dict.{lookup-insert, lookup-erase}
use nsi_aggregator_proxy.Common.{
  length, All, get_elem?, get_elem?-set_self, get_elem?-set_ne, get_elem?-append,
  get_elem?-append_last, ℕ, String, ◌≡◌, refl, ◌∙◌, ◌≢◌, true, false, Option, none, some, List, [],
  ◌∷◌, arith, eq_iff, eq_refl,
}
use nsi_aggregator_proxy.Soap.Messages.{NsiMessage}
use nsi_aggregator_proxy.Store.{
  Future, waiting, resolved, cancelled, ReservationStore, future_at, register_pending,
  register_pending_by_connection, settle, resolve_pending, cancel_pending,
  resolve_pending_by_connection, cancel_pending_by_connection, abandon,
}
use nsi_aggregator_proxy.Store.Futures.{
  Op, register, resolve, cancel, register_connection, resolve_connection, cancel_connection,
  time_out, perform, run, IsSound, perform-IsSound,
}

-- The task that holds the future at `a` waits for a message with the correlation id `k`.
pub record Waits (k : String) (a : ℕ) (s : ReservationStore) : Type 0 where
  pub named : Dict.lookup k s.pending ≡ some a
  pub unresolved : future_at a s ≡ some waiting

-- The operation neither uses the correlation id nor times this wait out.
abbrev pub Spares : String → ℕ → Op → Type 0
Spares k a (register j) = j ≢ k
Spares k a (resolve j m) = j ≢ k
Spares k a (cancel j) = j ≢ k
Spares k a (time_out b) = b ≢ a
Spares k a _ = Unit

pub settle_ne :
    (o : Option ℕ) (outcome : Future) (fs : List Future) (a : ℕ)
    → o ≢ some a
    → get_elem? (settle o outcome fs).1 a ≡ get_elem? fs a
unfolding settle
settle_ne none outcome fs a h = refl
settle_ne (some b) outcome fs a h = ground (arith, get_elem?-set_ne fs b a outcome)

pub settle_waiting :
    (a : ℕ) (outcome : Future) (fs : List Future)
    → get_elem? fs a ≡ some waiting
    → ((settle (some a) outcome fs).0 ≡ true)
      × (get_elem? (settle (some a) outcome fs).1 a ≡ some outcome)
unfolding settle
settle_waiting a outcome fs h = rw h (refl, get_elem?-set_self fs a outcome waiting h)

settle_done :
    (a : ℕ) (fs : List Future) (outcome : Future)
    → get_elem? fs a ≡ some cancelled
    → ((settle (some a) outcome fs).0 ≡ false)
      × (get_elem? (settle (some a) outcome fs).1 a ≡ some cancelled)
unfolding settle
settle_done a fs outcome h = rw h (refl, h)

module _ (k : String) (a : ℕ) (s : ReservationStore) (sound : IsSound s) (w : Waits k a s) where
  other_key : (j : String) → j ≢ k → Dict.lookup j s.pending ≢ some a
  other_key j ne e = ne (sound.one_key j k a e w.named)

  perform-Waits : (op : Op) → Spares k a op → Waits k a (perform op s)
  unfolding perform register_pending resolve_pending cancel_pending register_pending_by_connection
      resolve_pending_by_connection cancel_pending_by_connection abandon
  perform-Waits (register j) ne = record {
    named = ground (arith, lookup-insert j k (length s.futures) s.pending, eq_iff j k, w.named);
    unresolved = get_elem?-append s.futures a waiting waiting w.unresolved;
  }
  perform-Waits (register_connection j) _ = record {
    named = w.named;
    unresolved = get_elem?-append s.futures a waiting waiting w.unresolved;
  }
  perform-Waits (resolve j m) ne = record {
    named = ground (arith, lookup-erase j k s.pending, eq_iff j k, w.named);
    unresolved = settle_ne _ _ s.futures a (other_key j ne) ∙ w.unresolved;
  }
  perform-Waits (cancel j) ne = record {
    named = ground (arith, lookup-erase j k s.pending, eq_iff j k, w.named);
    unresolved = settle_ne _ _ s.futures a (other_key j ne) ∙ w.unresolved;
  }
  perform-Waits (resolve_connection j m) _ = record {
    named = w.named;
    unresolved = settle_ne _ _ s.futures a (sound.not_both k j a w.named) ∙ w.unresolved;
  }
  perform-Waits (cancel_connection j) _ = record {
    named = w.named;
    unresolved = settle_ne _ _ s.futures a (sound.not_both k j a w.named) ∙ w.unresolved;
  }
  perform-Waits (time_out b) ne = record {
    named = w.named;
    unresolved = settle_ne _ _ s.futures a (λ e. ne (some-injective _ _ e)) ∙ w.unresolved;
  }

run-Waits :
    (k : String) (a : ℕ) (ops : List Op) (s : ReservationStore)
    → IsSound s
    → Waits k a s
    → All (Spares k a) ops
    → Waits k a (run ops s)
unfolding run
run-Waits k a [] s sound w h = w
run-Waits k a (op ∷ ops) s sound w h =
    run-Waits k a ops (perform op s) (perform-IsSound op s sound)
      (perform-Waits k a s sound w op h.0) h.1

register_pending-Waits :
    (k : String) (s : ReservationStore) → Waits k (register_pending k s).0 (register_pending k s).1
unfolding register_pending
register_pending-Waits k s = record {
  named = rw lookup-insert (rw (eq_refl k));
  unresolved = get_elem?-append_last s.futures waiting;
}

pub resolve_pending-Waits :
    (k : String) (m : NsiMessage) (a : ℕ) (s : ReservationStore)
    → Waits k a s
    → let r = resolve_pending k m s in
      (r.0 ≡ true) × (future_at a r.1 ≡ some (resolved m)) × (Dict.lookup k r.1.pending ≡ none)
unfolding resolve_pending
resolve_pending-Waits k m a s w =
    let (found, stored) = settle_waiting a (resolved m) s.futures w.unresolved in
    rw w.named (found, stored, rw lookup-erase (rw (eq_refl k)))

-- The future that a task registers is the one its callback resolves: after any operations that
-- neither use the correlation id nor time the wait out, resolving it reports that it was found,
-- gives this very future the message, and takes the correlation id out.
pub resolve_pending-register_pending :
    (k : String) (m : NsiMessage) (s : ReservationStore) (ops : List Op)
    → IsSound s
    → All (Spares k (register_pending k s).0) ops
    → let a = (register_pending k s).0 in
      let r = resolve_pending k m (run ops (register_pending k s).1) in
      (r.0 ≡ true) × (future_at a r.1 ≡ some (resolved m)) × (Dict.lookup k r.1.pending ≡ none)
resolve_pending-register_pending k m s ops sound h =
    resolve_pending-Waits k m (register_pending k s).0 (run ops (register_pending k s).1) (
      run-Waits k (register_pending k s).0 ops (register_pending k s).1
        (unfold perform in perform-IsSound (register k) s sound) (register_pending-Waits k s) h)

-- A callback that comes after the time-out of its task is reported as not found, and the future
-- stays cancelled.
pub resolve_pending-abandon :
    (k : String) (m : NsiMessage) (a : ℕ) (s : ReservationStore)
    → Waits k a s
    → let r = resolve_pending k m (abandon a s) in
      (r.0 ≡ false) × (future_at a r.1 ≡ some cancelled)
unfolding resolve_pending abandon
resolve_pending-abandon k m a s w =
    let (_, stored) = settle_waiting a cancelled s.futures w.unresolved in
    rw w.named (settle_done _ _ (resolved m) stored)
