-- ===== src/Store/Naming.antt =====
-- A reservation stands in the store under its own connection id, and the store's methods leave it
-- there.
use nsi_aggregator_proxy.Common.Dict
use nsi_aggregator_proxy.Common.Dict.{lookup-insert}
use mathlib.Core.Option.{some-injective}
use nsi_aggregator_proxy.Common.{
  Bool-cases, Option-cases, ◌==◌, ℕ, String, ◌≡◌, refl, sym, ◌∙◌, inl, inr, some, List, eq_iff,
}
use nsi_aggregator_proxy.Store.{
  Reservation, ReservationStore, create, get, modify, reserve_started, reserve_finished,
}
use nsi_aggregator_proxy.Store.Steps.{
  Step, created, changed, marked, unmarked, operated, Reach, here, next, reservations-perform,
}

abbrev pub IsNamed : ReservationStore → Type 0
IsNamed s = (id : String) (r : Reservation) → get id s ≡ some r → r.connection_id ≡ id

pub insert-IsNamed :
    (k : String) (new : Reservation) (s : ReservationStore)
    → new.connection_id ≡ k
    → IsNamed s
    → IsNamed (record s { reservations = Dict.insert k new s.reservations })
unfolding get
insert-IsNamed k new s name named id r h =
    let looked = lookup-insert k id new s.reservations in
    elim (Bool-cases (k == id)) [
      | inl same ↦
          let found : new ≡ r = some-injective _ _ (sym (rw same at looked) ∙ h) in
          rw (← found) (name ∙ (eq_iff k id).0 same)
      | inr other ↦ named id r (sym (rw other at looked) ∙ h)
    ]

modify-IsNamed :
    (k : String) (change : Reservation → Reservation) (s s' : ReservationStore)
    → ((r : Reservation) → (change r).connection_id ≡ r.connection_id)
    → modify k change s ≡ some s'
    → IsNamed s
    → IsNamed s'
unfolding modify
modify-IsNamed k change s s' same e named = elim (Option-cases (get k s)) [
  | inl missing ↦ cc (rw missing at e)
  | inr (r, h) ↦
      let found = rw h at e in
      rw (← some-injective _ _ found) (insert-IsNamed k (change r) s (same r ∙ named k r h) named)
]

Step-IsNamed : {held : List ℕ} {s t : ReservationStore} → Step held s t → IsNamed s → IsNamed t
unfolding create get reserve_started reserve_finished
Step-IsNamed (created r s) named = insert-IsNamed r.connection_id r s refl named
Step-IsNamed (changed k change {s} {s'} same e) named = modify-IsNamed k change s s' same e named
Step-IsNamed (marked k s) named = named
Step-IsNamed (unmarked k s) named = named
Step-IsNamed (operated op s allowed) named = rw (reservations-perform op s) named

pub Reach-IsNamed :
    {held : List ℕ} {s t : ReservationStore} → Reach held s t → IsNamed s → IsNamed t
Reach-IsNamed here named = named
Reach-IsNamed (next r step) named = Step-IsNamed step (Reach-IsNamed r named)
