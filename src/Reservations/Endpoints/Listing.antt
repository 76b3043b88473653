-- ===== src/Reservations/Endpoints/Listing.antt =====
-- The list of reservations is complete: GET /reservations answers with every reservation that the
-- aggregator reports.
use nsi_aggregator_proxy.Common.Dict
use nsi_aggregator_proxy.Common.Dict.{Dict, lookup-insert}
use mathlib.Core.Option.{some-injective}
use mathlib.Core.Path.{subst}
use nsi_aggregator_proxy.Common.{
  Option, Bool-cases, Option-cases, ◌==◌, Member, All, String, ◌≡◌, ◌≢◌, refl, sym, ap, ◌∙◌, inl,
  inr, none, some, List, [], ◌∷◌, map,
}
use nsi_aggregator_proxy.Models.{
  CriteriaResponse, DetailLevel, summary, full, recursive, ReservationDetail,
}
use nsi_aggregator_proxy.Mapping.{DerivedStatus}
use nsi_aggregator_proxy.Reservations.Endpoints.{listed_detail, list_with, list_reservations}
use nsi_aggregator_proxy.Reservations.Queries.{query_summary, refresh_all_reservations}
use nsi_aggregator_proxy.Reservations.Queries.Population.{refresh_all_reservations-Has}
use nsi_aggregator_proxy.Reservations.Queries.Stored.{AllHas, IsKept, IsAccepted}
use nsi_aggregator_proxy.Reservations.Refresh.{
  record_seen_error_events, refreshed, store_from_query,
}
use nsi_aggregator_proxy.Reservations.Refresh.Laws.{SameClient, store_from_query-SameClient}
use nsi_aggregator_proxy.Runtime.{World, Env, read_store, Result, ok, pure, ◌>>=◌}
use nsi_aggregator_proxy.Runtime.Laws.{Ends-after}
use nsi_aggregator_proxy.Soap.Messages.{ErrorEvent, QueryReservation}
use nsi_aggregator_proxy.Store.{Reservation, ReservationStore, get, get_all}
use nsi_aggregator_proxy.Store.Steps.{Reach, Reach-Has}
use nsi_aggregator_proxy.Store.Naming.{IsNamed, insert-IsNamed, Reach-IsNamed}

record_seen-name :
    (r : Reservation) (events : List ErrorEvent)
    → (record_seen_error_events r events).connection_id ≡ r.connection_id
unfolding record_seen_error_events
record_seen-name r [] = refl
record_seen-name r (e ∷ events) = refl

updated_name :
    (qr : QueryReservation) (criteria : Option CriteriaResponse) (derived : DerivedStatus)
    (events : List ErrorEvent) (s : ReservationStore)
    → IsNamed s
    → (store_from_query s qr criteria derived events).0.connection_id ≡ qr.connection_id
unfolding store_from_query refreshed
updated_name qr criteria derived events s named = elim (Option-cases (get qr.connection_id s)) [
  | inl missing ↦ rw missing (record_seen-name _ events)
  | inr (r, found) ↦
      let same : SameClient _ r =
        store_from_query-SameClient s qr criteria derived events r found in
      same.connection_id ∙ named qr.connection_id r found
]

update-IsNamed :
    (qr : QueryReservation) (criteria : Option CriteriaResponse) (derived : DerivedStatus)
    (events : List ErrorEvent) (s : ReservationStore)
    → IsNamed s
    → IsNamed (store_from_query s qr criteria derived events).1
unfolding store_from_query
update-IsNamed qr criteria derived events s named =
    insert-IsNamed qr.connection_id (store_from_query s qr criteria derived events).0 s
      (updated_name qr criteria derived events s named) named

Member-values :
    (d : Dict Reservation) (k : String) (r : Reservation)
    → Dict.lookup k d ≡ some r
    → Member r (Dict.values d)
unfolding Dict.lookup Dict.values
Member-values [] k r h = cc (h)
Member-values ((j, x) ∷ d) k r h = elim (Bool-cases (j == k)) [
  | inl same ↦ inl (sym (some-injective _ _ (rw same at h)))
  | inr other ↦ inr (Member-values d k r (rw other at h))
]

Member-map : {A B : Type 0} (f : A → B) (a : A) (l : List A) → Member a l → Member (f a) (map f l)
Member-map f a [] m = elim m [ ]
Member-map f a (b ∷ l) (inl same) = inl (ap f same)
Member-map f a (b ∷ l) (inr later) = inr (Member-map f a l later)

-- The list has an entry for the reservation: what is stored under its id, with this id.
abbrev pub IsListed :
    (e : Env)
    → DetailLevel
    → List QueryReservation
    → ReservationStore
    → List ReservationDetail
    → QueryReservation
    → Type 0
IsListed e detail qrs s entries qr =
    (r : Reservation) × (get qr.connection_id s ≡ some r)
    × (r.connection_id ≡ qr.connection_id)
    × Member (listed_detail e detail qrs r) entries

AllHas-IsListed :
    (e : Env) (detail : DetailLevel) (all qrs : List QueryReservation) (s : ReservationStore)
    → IsNamed s
    → AllHas qrs s
    → All (IsListed e detail all s (map (listed_detail e detail all) (get_all s))) qrs
unfolding get get_all
AllHas-IsListed e detail all [] s named h = tt
AllHas-IsListed e detail all (qr ∷ qrs) s named (h, hs) =
    let rest = AllHas-IsListed e detail all qrs s named hs in
    elim (Option-cases (Dict.lookup qr.connection_id s.reservations)) [
      | inl missing ↦ cc (rw missing at h)
      | inr (r, found) ↦ (
        (
          r,
          found,
          named qr.connection_id r found,
          Member-map (listed_detail e detail all) r (Dict.values s.reservations)
              (Member-values s.reservations qr.connection_id r found),
        ),
        rest,
      )
    ]

module _ (e : Env) (turn : (w : World) → Reach w.held w.store (e.others w)) where
  IsNamed-kept : IsKept e IsNamed
  IsNamed-kept = record {
    by_others = λ w named. Reach-IsNamed (turn w) named;
    by_update = update-IsNamed;
  }

  abbrev IsComplete :
      DetailLevel → List QueryReservation → Result (List ReservationDetail) × World → Type 0
  IsComplete detail qrs out =
      (entries : List ReservationDetail) × (out.0 ≡ ok entries)
      × All (IsListed e detail qrs out.1.store entries) qrs

  list_with-IsComplete :
      (detail : DetailLevel) (qrs : List QueryReservation) (w : World)
      → IsNamed w.store
      → All IsAccepted qrs
      → (query_summary e none none w).0 ≡ ok qrs
      → IsComplete detail qrs (list_with e detail w)
  unfolding ◌>>=◌ pure read_store
  list_with-IsComplete detail qrs w named valid answered =
      let (p, all, named') =
        refresh_all_reservations-Has e IsNamed IsNamed-kept (λ id v. Reach-Has id (turn v)) qrs w
          valid named answered in
      Ends-after (λ qrs' v. (qrs' ≡ qrs) × AllHas qrs v.store × IsNamed v.store)
        (IsComplete detail qrs) (refresh_all_reservations e) _ w (qrs, p, (refl, all, named'))
        (λ qrs' v (same, all', kept). (
          _,
          refl,
          subst
              (λ l.
                All
                  (IsListed e detail qrs v.store (map (listed_detail e detail l) (get_all v.store)))
                  qrs)
              (sym same) (AllHas-IsListed e detail qrs qrs v.store kept all'),
        ))

  -- If in each of their turns the other tasks do nothing to the store but call its methods, if
  -- each reservation is stored under its own id, and if the query for all reservations is answered
  -- and the answer parses: GET /reservations without recursive details returns a list, in which
  -- each reservation of the answer has an entry, with the details of the one that is now stored
  -- under its id, whose connection id it is.
  pub list_reservations-IsComplete :
      (detail : DetailLevel) (qrs : List QueryReservation) (w : World)
      → detail ≢ recursive
      → IsNamed w.store
      → All IsAccepted qrs
      → (query_summary e none none w).0 ≡ ok qrs
      → IsComplete detail qrs (list_reservations e detail w)
  unfolding list_reservations
  list_reservations-IsComplete recursive qrs w ne named valid answered = elim (ne refl) [ ]
  list_reservations-IsComplete summary qrs w ne named valid answered =
      list_with-IsComplete summary qrs w named valid answered
  list_reservations-IsComplete full qrs w ne named valid answered =
      list_with-IsComplete full qrs w named valid answered
