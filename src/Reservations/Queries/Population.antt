-- ===== src/Reservations/Queries/Population.antt =====
-- A refresh of all reservations: what the aggregator listed is then in the store.
use mathlib.Core.Path.{subst}
use mathlib.Core.Option
use nsi_aggregator_proxy.Common.{
  Option, keep, All, String, ◌≡◌, refl, sym, ap, not, none, List, [], ◌∷◌, map,
}
use nsi_aggregator_proxy.Mapping.{DerivedStatus, derive_status}
use nsi_aggregator_proxy.Models.{is_final}
use nsi_aggregator_proxy.Reservations.Queries.{
  query_notifications, results_for, base_status, stored_or_invalid, store_derived,
  resolve_and_store, query_summary, plain_status, store_terminal, all_notifications, resolve_all,
  refresh_all_reservations,
}
use nsi_aggregator_proxy.Reservations.Queries.Statuses.{
  Keeps-query_notifications, KeepsTame-query_summary, Keeps-results_for,
}
use nsi_aggregator_proxy.Reservations.Refresh.{store_from_query, update_store_from_query}
use nsi_aggregator_proxy.Models.{CriteriaResponse}
use nsi_aggregator_proxy.Reservations.Refresh.Laws.{store_from_query_lem}
use nsi_aggregator_proxy.Runtime.{World, Env, M, current_time, Result, ok, pure, ◌>>=◌, ◌>>◌}
use nsi_aggregator_proxy.Runtime.Laws.{IsStable, Ends-after}
use nsi_aggregator_proxy.Soap.Messages.{ErrorEvent, QueryReservation, Notifications}
use nsi_aggregator_proxy.Store.{Reservation, ReservationStore}
use nsi_aggregator_proxy.Store.Steps.{Has}
use nsi_aggregator_proxy.Reservations.Queries.Stored.{
  Known, AllHas, All-imp, All-keep, AllHas-pairs, Known-map, AllHas-map, flat, Has-store_from_query,
  IsKept, IsAccepted, keep-All,
}

module _ (e : Env) (Also : ReservationStore → Type 0) (kept : IsKept e Also)
    (keeps : (id : String) (w : World) → Has id w.store → Has id (e.others w)) where
  abbrev Sure : List String → World → Type 0
  Sure = Known Also

  Known-IsStable : (ids : List String) → IsStable e (Sure ids)
  Known-IsStable ids = record {
    draws = λ w n k. k;
    sends = λ w events k. k;
    yields = λ w k. (kept.by_others w k.0, All-imp ids w.store (e.others w) (λ id. keeps id w) k.1);
  }

  -- What store_derived does, by the queried criteria.
  abbrev StoresKnown :
      QueryReservation
      → DerivedStatus
      → List ErrorEvent
      → List String
      → World
      → Option (Option CriteriaResponse)
      → Type 0
  StoresKnown qr derived events ids w queried =
      let out =
        stored_or_invalid e
          (Option.map (λ criteria. store_from_query w.store qr criteria derived events) queried)
          w in
      ((r : Reservation) × (out.0 ≡ ok r)) × Sure (qr.connection_id ∷ ids) out.1

  store_derived-Known :
      (qr : QueryReservation) (derived : DerivedStatus) (events : List ErrorEvent)
      (ids : List String) (w : World)
      → IsAccepted qr
      → Sure ids w
      → let out = store_derived e qr derived events w in
        ((r : Reservation) × (out.0 ≡ ok r)) × Sure (qr.connection_id ∷ ids) out.1
  unfolding update_store_from_query
  store_derived-Known qr derived events ids w (criteria, valid) k =
      let (stored, _, _, _) = store_from_query_lem w.store qr criteria derived events in
      subst (StoresKnown qr derived events ids w) (sym valid) (
        (_, refl),
        (
          kept.by_update qr criteria derived events w.store k.0,
          (
            rw stored refl,
            All-imp ids w.store _ (Has-store_from_query w.store qr criteria derived events) k.1,
          ),
        ),
      )

  resolve_and_store-Known :
      (qr : QueryReservation) (notifications : Notifications) (ids : List String) (w : World)
      → IsAccepted qr
      → Sure ids w
      → let out = resolve_and_store e qr notifications w in
        ((r : Reservation) × (out.0 ≡ ok r)) × Sure (qr.connection_id ∷ ids) out.1
  unfolding resolve_and_store ◌>>=◌ current_time
  resolve_and_store-Known qr notifications ids w valid k =
      Ends-after (λ results. Sure ids)
        (λ out. ((r : Reservation) × (out.0 ≡ ok r)) × Sure (qr.connection_id ∷ ids) out.1)
        (results_for e (base_status e qr notifications) qr.connection_id) _ w
        (flat _ _ (
          Keeps-results_for (Sure ids) e (Known-IsStable ids) (base_status e qr notifications)
            qr.connection_id w k))
        (λ results w' k'.
          store_derived-Known qr
            (derive_status e.iso (base_status e qr notifications) results
              notifications.data_plane_changes qr.start_time (e.now w')
              e.settings.dataplane_timeout)
            notifications.error_events ids w' valid k')

  store_terminal-Known :
      (qrs : List QueryReservation) (ids : List String) (w : World)
      → All IsAccepted qrs
      → Sure ids w
      → let out = store_terminal e qrs w in
        (out.0 ≡ ok tt) × Sure ids out.1 × AllHas qrs out.1.store
  unfolding ◌>>=◌ pure
  store_terminal-Known [] ids w valid k = (refl, k, tt)
  store_terminal-Known (qr ∷ qrs) ids w (valid, valids) k =
      let derived : DerivedStatus = record { status = plain_status e qr; reason = none } in
      Ends-after (λ r. Sure (qr.connection_id ∷ ids))
        (λ out. (out.0 ≡ ok tt) × Sure ids out.1 × AllHas (qr ∷ qrs) out.1.store)
        (store_derived e qr derived []) _ w
        (flat _ _ (store_derived-Known qr derived [] ids w valid k))
        (λ r w' k'.
          let (done, known, all) = store_terminal-Known qrs (qr.connection_id ∷ ids) w' valids k' in
          (done, (known.0, known.1.1), (known.1.0, all)))

  all_notifications-Known :
      (qrs : List QueryReservation) (ids : List String) (w : World)
      → Sure ids w
      → let out = all_notifications e qrs w in
        ((pairs : List (QueryReservation × Notifications)) × (out.0 ≡ ok pairs)
          × (map (λ p. p.0) pairs ≡ qrs))
        × Sure ids out.1
  unfolding ◌>>=◌ pure
  all_notifications-Known [] ids w k = (([], refl, refl), k)
  all_notifications-Known (qr ∷ qrs) ids w k =
      let ((notifications, p), k') =
        Keeps-query_notifications (Sure ids) e (Known-IsStable ids) qr.connection_id w k in
      let ((pairs, q, same), k'') =
        all_notifications-Known qrs ids (query_notifications e qr.connection_id w).1 k' in
      rw p (rw q (((qr, notifications) ∷ pairs, refl, ap (λ l. qr ∷ l) same), k''))

  resolve_all-Known :
      (pairs : List (QueryReservation × Notifications)) (ids : List String) (w : World)
      → All IsAccepted (map (λ p. p.0) pairs)
      → Sure ids w
      → let out = resolve_all e pairs w in
        (out.0 ≡ ok tt) × Sure ids out.1 × All (λ p. Has p.0.connection_id out.1.store) pairs
  unfolding ◌>>=◌ pure
  resolve_all-Known [] ids w valid k = (refl, k, tt)
  resolve_all-Known ((qr, notifications) ∷ pairs) ids w (valid, valids) k =
      Ends-after (λ r. Sure (qr.connection_id ∷ ids))
        (λ out.
          (out.0 ≡ ok tt)
          × Sure ids out.1
          × All (λ p. Has p.0.connection_id out.1.store) ((qr, notifications) ∷ pairs))
        (resolve_and_store e qr notifications) _ w
        (flat _ _ (resolve_and_store-Known qr notifications ids w valid k))
        (λ r w' k'.
          let (done, known, all) = resolve_all-Known pairs (qr.connection_id ∷ ids) w' valids k' in
          (done, (known.0, known.1.1), (known.1.0, all)))

  abbrev ended : List QueryReservation → List QueryReservation
  ended = keep (λ qr. is_final (plain_status e qr))

  abbrev open_ones : List QueryReservation → List QueryReservation
  open_ones = keep (λ qr. not (is_final (plain_status e qr)))

  abbrev after_query : List QueryReservation → M (List QueryReservation)
  after_query qrs = do
    store_terminal e (ended qrs)
    pairs ← all_notifications e (open_ones qrs)
    resolve_all e pairs
    pure qrs

  -- What follows the query: the reservations of the answer are stored, in two groups.
  module _ (qrs : List QueryReservation) (valid : All IsAccepted qrs) where
    abbrev IsStored : Result (List QueryReservation) × World → Type 0
    IsStored out = (out.0 ≡ ok qrs) × AllHas qrs out.1.store × Also out.1.store

    resolved-IsStored :
        (pairs : List (QueryReservation × Notifications)) (w : World)
        → (map (λ p. p.0) pairs ≡ (open_ones qrs)) × AllHas (ended qrs) w.store × Also w.store
        → IsStored ((do resolve_all e pairs; pure qrs) w)
    unfolding pure
    resolved-IsStored pairs w (same, all, also) =
        let (done, known, rest) =
          resolve_all-Known pairs _ w
            (subst (λ l. All IsAccepted l) (sym same) (keep-All IsAccepted _ qrs valid))
            (also, Known-map (ended qrs) w.store all) in
        Ends-after
          (λ u v. AllHas (ended qrs) v.store × AllHas (open_ones qrs) v.store × Also v.store)
          IsStored (resolve_all e pairs) _ w
          (
            tt,
            done,
            (
              AllHas-map (ended qrs) _ known.1,
              subst (λ l. AllHas l (resolve_all e pairs w).1.store) same
                  (AllHas-pairs pairs _ rest),
              known.0,
            ),
          )
          (λ u v (h, k, also').
            (refl, All-keep (λ qr. Has qr.connection_id v.store) _ qrs h k, also'))

    refreshed-IsStored : (w : World) → Also w.store → IsStored (after_query qrs w)
    refreshed-IsStored w also =
        let (done, known, all) =
          store_terminal-Known (ended qrs) [] w (keep-All IsAccepted _ qrs valid) (also, tt) in
        Ends-after (λ u v. AllHas (ended qrs) v.store × Also v.store) IsStored
          (store_terminal e (ended qrs)) _ w (tt, done, (all, known.0))
          (λ u v (h, also').
            let ((pairs, p, same), known') =
              all_notifications-Known (open_ones qrs) _ v
                (also', Known-map (ended qrs) v.store h) in
            Ends-after
              (λ pairs' v'.
                (map (λ p'. p'.0) pairs' ≡ (open_ones qrs))
                × AllHas (ended qrs) v'.store
                × Also v'.store)
              IsStored (all_notifications e (open_ones qrs)) _ v
              (pairs, p, (same, AllHas-map (ended qrs) _ known'.1, known'.0)) resolved-IsStored)

  -- If the query for all reservations is answered, the answer parses and P2PS takes its criteria, the
  -- refresh returns, and every reservation of the answer is in the store.
  pub refresh_all_reservations-Has :
      (qrs : List QueryReservation) (w : World)
      → All IsAccepted qrs
      → Also w.store
      → (query_summary e none none w).0 ≡ ok qrs
      → let out = refresh_all_reservations e w in
        (out.0 ≡ ok qrs) × AllHas qrs out.1.store × Also out.1.store
  unfolding refresh_all_reservations
  refresh_all_reservations-Has qrs w valid also answered =
      let (_, stable) =
        KeepsTame-query_summary (Sure []) e (Known-IsStable []) none none w (also, tt) in
      Ends-after (λ qrs' v. (qrs' ≡ qrs) × Also v.store) (IsStored qrs valid)
        (query_summary e none none) _ w (qrs, answered, (refl, stable.0))
        (λ qrs' v (same, also').
          subst (λ l. IsStored qrs valid (after_query l v)) (sym same)
            (refreshed-IsStored qrs valid v also'))
