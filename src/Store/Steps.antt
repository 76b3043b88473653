-- ===== src/Store/Steps.antt =====
-- What the other tasks of the event loop do to the store between two awaits of a coroutine: any
-- sequence of calls of the store's methods, by whichever endpoints, tasks and callbacks run. A
-- coroutine alone cancels and times out the futures that it registered, so the others' calls of
-- `cancel_pending` and their time-outs name no future that it holds.
use mathlib.Core.Option.{some-injective}
use nsi_aggregator_proxy.Common.Dict
use nsi_aggregator_proxy.Common.Dict.{Dict, lookup-insert}
use nsi_aggregator_proxy.Common.{
  is_some, Option-cases, get_elem?, get_elem?-set_self, get_elem?-set_ne, get_elem?-append, ℕ,
  String, ◌≡◌, refl, sym, ap, ◌≢◌, ◌⊎◌, inl, inr, true, Option, none, some, List, [], ◌∷◌, ◌++◌,
  arith,
}
use nsi_aggregator_proxy.Soap.Messages.{NsiMessage}
use nsi_aggregator_proxy.Store.{
  Reservation, Future, waiting, resolved, cancelled, ReservationStore, create, get, modify,
  reserve_started, reserve_finished, future_at, register_pending, register_pending_by_connection,
  settle, resolve_pending, cancel_pending, resolve_pending_by_connection,
  cancel_pending_by_connection, abandon,
}
use nsi_aggregator_proxy.Store.Delivery.{settle_ne}
use nsi_aggregator_proxy.Store.Futures.{
  register, register_connection, Op, resolve, cancel, resolve_connection, cancel_connection,
  time_out, perform,
}

abbrev pub Has : String → ReservationStore → Type 0
Has connection_id s = is_some (get connection_id s) ≡ true

-- A future that is there and not cancelled.
abbrev pub IsUncancelled : ℕ → ReservationStore → Type 0
IsUncancelled a s =
    (future_at a s ≡ some waiting) ⊎ ((m : NsiMessage) × (future_at a s ≡ some (resolved m)))

-- The address is one of these.
abbrev pub Holds : ℕ → List ℕ → Type 0
Holds a [] = ⊥
Holds a (b ∷ held) = (b ≡ a) ⊎ Holds a held

-- The key is not that of a held future.
abbrev IsElsewhere : List ℕ → Dict ℕ → String → Type 0
IsElsewhere held addresses k = (a : ℕ) → Holds a held → Dict.lookup k addresses ≢ some a

-- The operation on futures cancels none of those that are held.
abbrev pub Allows : List ℕ → Op → ReservationStore → Type 0
Allows held (cancel k) s = IsElsewhere held s.pending k
Allows held (cancel_connection k) s = IsElsewhere held s.pending_by_connection k
Allows held (time_out b) s = (a : ℕ) → Holds a held → b ≢ a
Allows held _ s = Unit

pub data Step (held : List ℕ) : ReservationStore → ReservationStore → Type 0 where
  created : (r : Reservation) (s : ReservationStore) → Step held s (create r s)
  changed :
      (connection_id : String) (change : Reservation → Reservation) {s s' : ReservationStore}
      → ((r : Reservation) → (change r).connection_id ≡ r.connection_id)
      → modify connection_id change s ≡ some s'
      → Step held s s'
  marked :
      (connection_id : String) (s : ReservationStore)
      → Step held s (reserve_started connection_id s)
  unmarked :
      (connection_id : String) (s : ReservationStore)
      → Step held s (reserve_finished connection_id s)
  operated : (op : Op) (s : ReservationStore) → Allows held op s → Step held s (perform op s)

pub data Reach (held : List ℕ) (s : ReservationStore) : ReservationStore → Type 0 where
  here : Reach held s s
  next : {t u : ReservationStore} → Reach held s t → Step held t u → Reach held s u

pub reservations-perform :
    (op : Op) (s : ReservationStore) → (perform op s).reservations ≡ s.reservations
unfolding perform register_pending resolve_pending cancel_pending register_pending_by_connection
    resolve_pending_by_connection cancel_pending_by_connection abandon
reservations-perform (register k) s = refl
reservations-perform (resolve k m) s = refl
reservations-perform (cancel k) s = refl
reservations-perform (register_connection k) s = refl
reservations-perform (resolve_connection k m) s = refl
reservations-perform (cancel_connection k) s = refl
reservations-perform (time_out a) s = refl

append-uncancelled :
    (fs : List Future) (a : ℕ)
    → (get_elem? fs a ≡ some waiting) ⊎ ((m : NsiMessage) × (get_elem? fs a ≡ some (resolved m)))
    → let fs' = fs ++ waiting ∷ [] in
      (get_elem? fs' a ≡ some waiting) ⊎ ((m : NsiMessage) × (get_elem? fs' a ≡ some (resolved m)))
append-uncancelled fs a (inl h) = inl (get_elem?-append fs a waiting waiting h)
append-uncancelled fs a (inr (m, h)) = inr (m, get_elem?-append fs a waiting (resolved m) h)

pub settle-uncancelled :
    (o : Option ℕ) (m : NsiMessage) (fs : List Future) (a : ℕ)
    → (get_elem? fs a ≡ some waiting) ⊎ ((n : NsiMessage) × (get_elem? fs a ≡ some (resolved n)))
    → let fs' = (settle o (resolved m) fs).1 in
      (get_elem? fs' a ≡ some waiting) ⊎ ((n : NsiMessage) × (get_elem? fs' a ≡ some (resolved n)))
unfolding settle
settle-uncancelled none m fs a h = h
settle-uncancelled (some b) m fs a (inl h) =
    ground
      (arith, get_elem?-set_ne fs b a (resolved m), get_elem?-set_self fs b (resolved m) waiting)
settle-uncancelled (some b) m fs a (inr (n, h)) =
    inr (n, ground (arith, get_elem?-set_ne fs b a (resolved m)))

perform-IsUncancelled :
    (held : List ℕ) (a : ℕ)
    → Holds a held
    → (op : Op) (s : ReservationStore) → Allows held op s
    → IsUncancelled a s
    → IsUncancelled a (perform op s)
unfolding perform register_pending resolve_pending cancel_pending register_pending_by_connection
    resolve_pending_by_connection cancel_pending_by_connection abandon
perform-IsUncancelled held a mine (register k) s allowed h = append-uncancelled s.futures a h
perform-IsUncancelled held a mine (register_connection k) s allowed h =
    append-uncancelled s.futures a h
perform-IsUncancelled held a mine (resolve k m) s allowed h = settle-uncancelled _ m s.futures a h
perform-IsUncancelled held a mine (resolve_connection k m) s allowed h =
    settle-uncancelled _ m s.futures a h
perform-IsUncancelled held a mine (cancel k) s allowed h =
    rw (settle_ne _ cancelled s.futures a (allowed a mine)) h
perform-IsUncancelled held a mine (cancel_connection k) s allowed h =
    rw (settle_ne _ cancelled s.futures a (allowed a mine)) h
perform-IsUncancelled held a mine (time_out b) s allowed h =
    rw (settle_ne _ cancelled s.futures a (λ e. allowed a mine (some-injective _ _ e))) h

futures-changed :
    (k : String) (change : Reservation → Reservation) (s s' : ReservationStore)
    → modify k change s ≡ some s'
    → s'.futures ≡ s.futures
unfolding modify
futures-changed k change s s' e = elim (Option-cases (get k s)) [
  | inl missing ↦ cc (rw missing at e)
  | inr (r, h) ↦
      let found = rw h at e in
      sym (ap (λ (t : ReservationStore). t.futures) (some-injective _ _ found))
]

Has-changed :
    (id k : String) (change : Reservation → Reservation) (s s' : ReservationStore)
    → modify k change s ≡ some s'
    → Has id s
    → Has id s'
unfolding modify get
Has-changed id k change s s' e i = elim (Option-cases (get k s)) [
  | inl missing ↦ cc (rw missing at e)
  | inr (r, h) ↦
      let found = rw h at e in
      rw (← some-injective _ _ found) (ground (arith, lookup-insert k id (change r) s.reservations))
]

-- No method removes a reservation.
Step-Has :
    (connection_id : String) {held : List ℕ} {s t : ReservationStore}
    → Step held s t
    → Has connection_id s
    → Has connection_id t
unfolding create get reserve_started reserve_finished
Step-Has id (created r s) h = ground (arith, lookup-insert r.connection_id id r s.reservations)
Step-Has id (changed k change {s} {s'} same e) h = Has-changed id k change s s' e h
Step-Has id (marked k s) h = h
Step-Has id (unmarked k s) h = h
Step-Has id (operated op s allowed) h = rw (reservations-perform op s) h

Step-IsUncancelled :
    {held : List ℕ} {s t : ReservationStore}
    → Step held s t
    → (a : ℕ) → Holds a held
    → IsUncancelled a s
    → IsUncancelled a t
unfolding create reserve_started reserve_finished
Step-IsUncancelled (created r s) a mine h = h
Step-IsUncancelled (changed k change {s} {s'} same e) a mine h =
    rw (futures-changed k change s s' e) h
Step-IsUncancelled (marked k s) a mine h = h
Step-IsUncancelled (unmarked k s) a mine h = h
Step-IsUncancelled {held} (operated op s allowed) a mine h =
    perform-IsUncancelled held a mine op s allowed h

pub Reach-Has :
    (connection_id : String) {held : List ℕ} {s t : ReservationStore}
    → Reach held s t
    → Has connection_id s
    → Has connection_id t
Reach-Has id here h = h
Reach-Has id (next r step) h = Step-Has id step (Reach-Has id r h)

pub Reach-IsUncancelled :
    {held : List ℕ} {s t : ReservationStore}
    → Reach held s t
    → (a : ℕ) → Holds a held
    → IsUncancelled a s
    → IsUncancelled a t
Reach-IsUncancelled here a mine h = h
Reach-IsUncancelled (next r step) a mine h =
    Step-IsUncancelled step a mine (Reach-IsUncancelled r a mine h)
