-- ===== src/Reservations/Queries/Stored.antt =====
-- What is said of the store while a refresh of all reservations runs: which ids it has, and whatever
-- else each update keeps.
use nsi_aggregator_proxy.Common.Dict.{lookup-insert}
use nsi_aggregator_proxy.Common.{
  Bool-cases, keep, All, String, inl, inr, Bool, not, ◌≡◌, Option, some, List, [], ◌∷◌, map, arith,
}
use nsi_aggregator_proxy.Mapping.{DerivedStatus}
use nsi_aggregator_proxy.Providers.{P}
use nsi_aggregator_proxy.Models.{CriteriaResponse}
use nsi_aggregator_proxy.Reservations.Refresh.{queried_criteria, store_from_query}
use nsi_aggregator_proxy.Runtime.{World, Env}
use nsi_aggregator_proxy.Soap.Messages.{ErrorEvent, QueryReservation, Notifications}
use nsi_aggregator_proxy.Store.{ReservationStore, get}
use nsi_aggregator_proxy.Store.Steps.{Has}

-- The reservations with these ids are in the store.
abbrev pub Known : (ReservationStore → Type 0) → List String → World → Type 0
Known Also ids w = Also w.store × All (λ id. Has id w.store) ids

abbrev pub AllHas : List QueryReservation → ReservationStore → Type 0
AllHas qrs s = All (λ qr. Has qr.connection_id s) qrs

pub All-imp :
    (ids : List String) (s t : ReservationStore)
    → ((id : String) → Has id s → Has id t)
    → All (λ id. Has id s) ids
    → All (λ id. Has id t) ids
All-imp [] s t f h = tt
All-imp (id ∷ ids) s t f h = (f id h.0, All-imp ids s t f h.1)

pub All-keep :
    (P : QueryReservation → Type 0) (test : QueryReservation → Bool) (qrs : List QueryReservation)
    → All P (keep test qrs)
    → All P (keep (λ qr. not (test qr)) qrs)
    → All P qrs
All-keep P test [] h k = tt
All-keep P test (qr ∷ qrs) h k = elim (Bool-cases (test qr)) [
  | inl passed ↦
      let h' = rw passed at h in let k' = rw passed at k in (h'.0, All-keep P test qrs h'.1 k')
  | inr other ↦
      let h' = rw other at h in let k' = rw other at k in (k'.0, All-keep P test qrs h' k'.1)
]

pub AllHas-pairs :
    (pairs : List (QueryReservation × Notifications)) (s : ReservationStore)
    → All (λ p. Has p.0.connection_id s) pairs
    → AllHas (map (λ p. p.0) pairs) s
AllHas-pairs [] s h = tt
AllHas-pairs (p ∷ pairs) s h = (h.0, AllHas-pairs pairs s h.1)

pub Known-map :
    (qrs : List QueryReservation) (s : ReservationStore)
    → AllHas qrs s
    → All (λ id. Has id s) (map (λ qr. qr.connection_id) qrs)
Known-map [] s h = tt
Known-map (qr ∷ qrs) s h = (h.0, Known-map qrs s h.1)

pub AllHas-map :
    (qrs : List QueryReservation) (s : ReservationStore)
    → All (λ id. Has id s) (map (λ qr. qr.connection_id) qrs)
    → AllHas qrs s
AllHas-map [] s h = tt
AllHas-map (qr ∷ qrs) s h = (h.0, AllHas-map qrs s h.1)

pub flat : {A : Type 0} (R : A → Type 0) (K : Type 0) → ((a : A) × R a) × K → (a : A) × R a × K
flat R K ((a, r), k) = (a, r, k)

pub Has-store_from_query :
    (s : ReservationStore) (qr : QueryReservation) (criteria : Option CriteriaResponse)
    (derived : DerivedStatus) (events : List ErrorEvent) (id : String)
    → Has id s
    → Has id (store_from_query s qr criteria derived events).1
unfolding store_from_query get
Has-store_from_query s qr criteria derived events id h = ground (
  arith,
  lookup-insert qr.connection_id id (store_from_query s qr criteria derived events).0
      s.reservations,
)

-- What else is said of the store is kept by the other tasks and by _update_store_from_query.
pub record IsKept (e : Env) (Also : ReservationStore → Type 0) : Type 0 where
  pub by_others : (w : World) → Also w.store → Also (e.others w)
  pub by_update :
      (qr : QueryReservation) (criteria : Option CriteriaResponse) (derived : DerivedStatus)
      (events : List ErrorEvent) (s : ReservationStore)
      → Also s
      → Also (store_from_query s qr criteria derived events).1

pub plain-IsKept : (e : Env) → IsKept e (λ s. Unit)
plain-IsKept e = record { by_others = λ w k. k; by_update = λ qr criteria derived events s k. k }

-- P2PS takes the criteria of the answer.
abbrev pub IsAccepted : QueryReservation → Type 0
IsAccepted qr = (criteria : Option CriteriaResponse) × (queried_criteria qr ≡ some criteria)

pub keep-All :
    (P : QueryReservation → Type 0) (test : QueryReservation → Bool) (qrs : List QueryReservation)
    → All P qrs
    → All P (keep test qrs)
keep-All P test [] h = tt
keep-All P test (qr ∷ qrs) (h, hs) = elim (Bool-cases (test qr)) [
  | inl passed ↦ rw passed (h, keep-All P test qrs hs)
  | inr other ↦ rw other (keep-All P test qrs hs)
]
