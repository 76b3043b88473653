-- ===== src/Store/Futures.antt =====
-- The pending futures of the store: what every sequence of its operations keeps, and delivery.
use nsi_aggregator_proxy.Common.Dict
use nsi_aggregator_proxy.Common.Dict.{Dict, lookup-insert, lookup-erase}
use nsi_aggregator_proxy.Common.{
  length, get_elem?, length-set, get_elem?-set_ne, length-append, get_elem?-append, ℕ, suc, ◌<◌,
  String, ◌≡◌, refl, ◌≢◌, true, Option, none, some, List, [], ◌∷◌, ◌++◌, arith, eq_iff,
}
use nsi_aggregator_proxy.Soap.Messages.{NsiMessage}
use nsi_aggregator_proxy.Store.{
  Future, waiting, is_done, ReservationStore, future_at, register_pending,
  register_pending_by_connection, settle, resolve_pending, cancel_pending,
  resolve_pending_by_connection, cancel_pending_by_connection, abandon,
}

-- The operations that touch the futures. `abandon` is the time-out of a wait.
pub data Op : Type 0 where
  register : String → Op
  resolve : String → NsiMessage → Op
  cancel : String → Op
  register_connection : String → Op
  resolve_connection : String → NsiMessage → Op
  cancel_connection : String → Op
  time_out : ℕ → Op

unfoldable pub perform : Op → ReservationStore → ReservationStore
perform (register k) s = (register_pending k s).1
perform (resolve k m) s = (resolve_pending k m s).1
perform (cancel k) s = cancel_pending k s
perform (register_connection k) s = (register_pending_by_connection k s).1
perform (resolve_connection k m) s = (resolve_pending_by_connection k m s).1
perform (cancel_connection k) s = cancel_pending_by_connection k s
perform (time_out a) s = abandon a s

unfoldable pub run : List Op → ReservationStore → ReservationStore
run [] s = s
run (op ∷ ops) s = run ops (perform op s)

-- Two dicts of addresses below `bound`, in which no two keys share an address.
pub record AreApart (p c : Dict ℕ) (bound : ℕ) : Type 0 where
  pub known : (k : String) (a : ℕ) → Dict.lookup k p ≡ some a → a < bound
  pub known_other : (k : String) (a : ℕ) → Dict.lookup k c ≡ some a → a < bound
  pub one_key : (j k : String) (a : ℕ) → Dict.lookup j p ≡ some a → Dict.lookup k p ≡ some a → j ≡ k
  pub one_key_other :
      (j k : String) (a : ℕ) → Dict.lookup j c ≡ some a → Dict.lookup k c ≡ some a → j ≡ k
  pub not_both : (j k : String) (a : ℕ) → Dict.lookup j p ≡ some a → Dict.lookup k c ≢ some a

AreApart-swap : {p c : Dict ℕ} {n : ℕ} → AreApart p c n → AreApart c p n
AreApart-swap h = record {
  known = h.known_other;
  known_other = h.known;
  one_key = h.one_key_other;
  one_key_other = h.one_key;
  not_both = λ j k a e e'. h.not_both k j a e' e;
}

module _ (k : String) {p c : Dict ℕ} {n : ℕ} (h : AreApart p c n) where
  AreApart-insert : AreApart (Dict.insert k n p) c (suc n)
  AreApart-insert = record {
    known = λ j a e. ground (arith, lookup-insert k j n p, h.known j a);
    known_other = λ j a e. omega (arith, h.known_other j a e);
    one_key = λ i j a e e'. ground (
      arith,
      lookup-insert k i n p,
      lookup-insert k j n p,
      h.known i a,
      h.known j a,
      h.one_key i j a,
      eq_iff k i,
      eq_iff k j,
    );
    one_key_other = h.one_key_other;
    not_both =
        λ i j a e e'. ground (arith, lookup-insert k i n p, h.known_other j a, h.not_both i j a);
  }

  AreApart-erase : AreApart (Dict.erase k p) c n
  AreApart-erase = record {
    known = λ j a e. ground (arith, lookup-erase k j p, h.known j a);
    known_other = h.known_other;
    one_key = λ i j a e e'. ground (arith, lookup-erase k i p, lookup-erase k j p, h.one_key i j a);
    one_key_other = h.one_key_other;
    not_both = λ i j a e e'. ground (arith, lookup-erase k i p, h.not_both i j a);
  }

-- Every address in the dicts was given out, and no two keys share one.
abbrev pub IsSound : ReservationStore → Type 0
IsSound s = AreApart s.pending s.pending_by_connection (length s.futures)

length-settle :
    (o : Option ℕ) (f : Future) (fs : List Future) → length (settle o f fs).1 ≡ length fs
unfolding settle
length-settle none f fs = refl
length-settle (some a) f fs = ground (arith, length-set {0} fs a f)

length-new : (fs : List Future) → length (fs ++ waiting ∷ []) ≡ suc (length fs)
length-new fs = omega (arith, length-append {0} fs (waiting ∷ []))

pub perform-IsSound : (op : Op) (s : ReservationStore) → IsSound s → IsSound (perform op s)
unfolding perform register_pending resolve_pending cancel_pending register_pending_by_connection
    resolve_pending_by_connection cancel_pending_by_connection abandon
perform-IsSound (register k) s h = rw (length-new s.futures) (AreApart-insert k h)
perform-IsSound (register_connection k) s h =
    rw (length-new s.futures) (AreApart-swap (AreApart-insert k (AreApart-swap h)))
perform-IsSound (resolve k m) s h = rw length-settle (AreApart-erase k h)
perform-IsSound (cancel k) s h = rw length-settle (AreApart-erase k h)
perform-IsSound (resolve_connection k m) s h =
    rw length-settle (AreApart-swap (AreApart-erase k (AreApart-swap h)))
perform-IsSound (cancel_connection k) s h =
    rw length-settle (AreApart-swap (AreApart-erase k (AreApart-swap h)))
perform-IsSound (time_out a) s h = rw length-settle h

-- Whatever operations a sound store goes through, no address is shared between two keys and
-- every address is that of a future.
pub run-IsSound : (ops : List Op) (s : ReservationStore) → IsSound s → IsSound (run ops s)
unfolding run
run-IsSound [] s h = h
run-IsSound (op ∷ ops) s h = run-IsSound ops (perform op s) (perform-IsSound op s h)

settle-done :
    (o : Option ℕ) (outcome f : Future) (fs : List Future) (a : ℕ)
    → get_elem? fs a ≡ some f
    → is_done f ≡ true
    → get_elem? (settle o outcome fs).1 a ≡ some f
unfolding settle
settle-done none outcome f fs a e d = e
settle-done (some b) outcome f fs a e d = ground (arith, get_elem?-set_ne fs b a outcome)

-- A future that is done keeps its outcome, whatever operation comes next.
perform-done :
    (op : Op) (s : ReservationStore) (a : ℕ) (f : Future)
    → future_at a s ≡ some f
    → is_done f ≡ true
    → future_at a (perform op s) ≡ some f
unfolding perform register_pending resolve_pending cancel_pending register_pending_by_connection
    resolve_pending_by_connection cancel_pending_by_connection abandon
perform-done (register k) s a f e d = get_elem?-append s.futures a waiting f e
perform-done (register_connection k) s a f e d = get_elem?-append s.futures a waiting f e
perform-done (resolve k m) s a f e d = settle-done _ _ f s.futures a e d
perform-done (cancel k) s a f e d = settle-done _ _ f s.futures a e d
perform-done (resolve_connection k m) s a f e d = settle-done _ _ f s.futures a e d
perform-done (cancel_connection k) s a f e d = settle-done _ _ f s.futures a e d
perform-done (time_out b) s a f e d = settle-done _ _ f s.futures a e d

-- A future that is done keeps its outcome through any operations: it is resolved at most once.
pub run-done :
    (ops : List Op) (s : ReservationStore) (a : ℕ) (f : Future)
    → future_at a s ≡ some f
    → is_done f ≡ true
    → future_at a (run ops s) ≡ some f
unfolding run
run-done [] s a f e d = e
run-done (op ∷ ops) s a f e d = run-done ops (perform op s) a f (perform-done op s a f e d) d
