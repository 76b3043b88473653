-- ===== src/Reservations/Queries/Statuses.antt =====
-- The queries that never fail, and what a refresh makes of status and last error.
use mathlib.Core.Option
use nsi_aggregator_proxy.Common.{
  Bool-cases, is_nil, ℕ, String, ◌≡◌, refl, ◌⊎◌, inl, inr, true, false, not, Option, none, some,
  List, [], ◌∷◌, arith,
}
use nsi_aggregator_proxy.Mapping.{map_nsi_states_to_status, DerivedStatus, Datetime, derive_status}
use nsi_aggregator_proxy.Mapping.Deriving.{derive_status_refines}
use nsi_aggregator_proxy.Mapping.Priority.{map-error_event}
use nsi_aggregator_proxy.Models.{
  ReservationStatus, activating, deactivating, failed, is_final, is_failed, CriteriaResponse,
}
use nsi_aggregator_proxy.Reservations.Queries.{
  query_header, parsed_or, query_notifications, query_results, results_for, base_status,
  stored_or_invalid, resolve_and_store, post_or_502, query_summary,
}
use nsi_aggregator_proxy.Reservations.Refresh.{
  queried_criteria, store_from_query, update_store_from_query,
}
use nsi_aggregator_proxy.Reservations.Refresh.Laws.{
  store_from_query_lem, store_from_query-last_error,
}
use nsi_aggregator_proxy.Runtime.{
  World, Content, Response, Parsed, Env, current_time, error, Result, ok, err, ◌>>=◌,
}
use nsi_aggregator_proxy.Runtime.Laws.{
  Keeps, KeepsTame, from_parser-Tame, IsStable, Keeps-pure, KeepsTame-lift, Keeps-bind,
  KeepsTame-bind, KeepsTame-attempt, KeepsTame-raise, KeepsTame-Keeps, Keeps-try_some,
  Keeps-draw_urn, KeepsTame-post_checked, Ends-after,
}
use nsi_aggregator_proxy.Soap.Messages.{
  DataPlaneStateChange, ErrorEvent, ConnectionStates, QueryReservation, Notifications,
  OperationResult,
}
use nsi_aggregator_proxy.Store.{Reservation, ReservationStore, get}

module _ (I : World → Type 0) (e : Env) (stable : IsStable e I) where
  Keeps-query_header : Keeps I (query_header e)
  unfolding query_header
  Keeps-query_header = Keeps-bind I _ _ (Keeps-draw_urn I e stable) (λ id. Keeps-pure I _)

  Keeps-parsed_or :
      {A : Type 0} (parser : Content → Parsed A) (fallback : A) (o : Option Response)
      → Keeps I (parsed_or e parser fallback o)
  Keeps-parsed_or parser fallback none = Keeps-pure I fallback
  Keeps-parsed_or parser fallback (some response) =
      Keeps-bind I _ _ (Keeps-try_some I _ (KeepsTame-lift I _ (from_parser-Tame _)))
        (λ parsed. Keeps-pure I _)

  pub Keeps-query_notifications :
      (connection_id : String) → Keeps I (query_notifications e connection_id)
  unfolding query_notifications
  Keeps-query_notifications connection_id = Keeps-bind I _ _ Keeps-query_header (λ header.
      Keeps-bind I _ _ (Keeps-try_some I _ (KeepsTame-post_checked I e stable _))
        (λ response. Keeps-parsed_or _ _ response))

  pub KeepsTame-query_summary :
      (connection_id global_reservation_id : Option String)
      → KeepsTame I (query_summary e connection_id global_reservation_id)
  unfolding query_summary post_or_502
  KeepsTame-query_summary connection_id global_reservation_id =
      KeepsTame-bind I _ _ (KeepsTame-Keeps I _ Keeps-query_header) (λ header.
        KeepsTame-bind I _ _
          (KeepsTame-attempt I _ _ (KeepsTame-post_checked I e stable _)
            (λ x. KeepsTame-raise I _ refl))
          (λ response. KeepsTame-lift I _ (from_parser-Tame _)))

  Keeps-query_results : (connection_id : String) → Keeps I (query_results e connection_id)
  unfolding query_results
  Keeps-query_results connection_id = Keeps-bind I _ _ Keeps-query_header (λ header.
      Keeps-bind I _ _ (Keeps-try_some I _ (KeepsTame-post_checked I e stable _))
        (λ response. Keeps-parsed_or _ _ response))

  pub Keeps-results_for :
      (status : ReservationStatus) (connection_id : String)
      → Keeps I (results_for e status connection_id)
  Keeps-results_for activating connection_id = Keeps-query_results connection_id
  Keeps-results_for deactivating connection_id = Keeps-query_results connection_id
  Keeps-results_for _ connection_id = Keeps-pure I []

-- What a refresh makes of the status and the last error of a reservation.
abbrev pub IsConsistent : ReservationStatus → Reservation → Type 0
IsConsistent base r =
    ((r.status ≡ base) ⊎ (((base ≡ activating) ⊎ (base ≡ deactivating)) × (r.status ≡ failed)))
    × ((is_final r.status ≡ true) ⊎ (r.last_error ≡ none))

is_failed-is_final : (st : ReservationStatus) → is_final st ≡ false → is_failed st ≡ false
is_failed-is_final st h = ground arith

-- Error events leave only FAILED and TERMINATED.
is_final-error_event :
    (states : ConnectionStates) → is_final (map_nsi_states_to_status states true) ≡ true
is_final-error_event states = rw (map-error_event states) (ground arith)

module _ (store : ReservationStore) (qr : QueryReservation) where
  last_error_cleared :
      (criteria : Option CriteriaResponse) (derived : DerivedStatus) (events : List ErrorEvent)
      → (is_final derived.status ≡ true) ⊎ (events ≡ [])
      → (is_final derived.status ≡ true)
        ⊎ ((store_from_query store qr criteria derived events).0.last_error ≡ none)
  last_error_cleared criteria derived events (inl final) = inl final
  last_error_cleared criteria derived events (inr e) = elim (Bool-cases (is_final derived.status)) [
    | inl final ↦ inl final
    | inr open_status ↦ inr (
        rw e (
          store_from_query-last_error store qr criteria derived
            (is_failed-is_final derived.status open_status)))
  ]

abbrev Derives : ReservationStatus → DerivedStatus → Type 0
Derives base d =
    (d.status ≡ base) ⊎ (((base ≡ activating) ⊎ (base ≡ deactivating)) × (d.status ≡ failed))

derive_status-Derives :
    (e : Env) (base : ReservationStatus) (results : List OperationResult)
    (changes : List DataPlaneStateChange) (start_time : Option String) (now : Datetime)
    (timeout : ℕ)
    → Derives base (derive_status e.iso base results changes start_time now timeout)
derive_status-Derives e base results changes start_time now timeout =
    elim (derive_status_refines e.iso base results changes start_time now timeout) [
      | inl (same, _) ↦ inl same
      | inr (transient, fails, _) ↦ inr (transient, fails)
    ]

final_or_quiet :
    (states : ConnectionStates) (events : List ErrorEvent) (derived : DerivedStatus)
    → Derives (map_nsi_states_to_status states (not (is_nil events))) derived
    → (is_final derived.status ≡ true) ⊎ (events ≡ [])
final_or_quiet states [] derived d = inr refl
final_or_quiet states (event ∷ events) derived (inl same) =
    inl (rw same (is_final-error_event states))
final_or_quiet states (event ∷ events) derived (inr (_, fails)) = inl (rw fails refl)

module _ (e : Env) (qr : QueryReservation) (notifications : Notifications) where
  -- What a refresh does: nothing but raise, if P2PS rejects the queried criteria; else it stores.
  abbrev pub IsStored : Option (Option CriteriaResponse) → Result Reservation × World → Type 0
  IsStored none out = out.0 ≡ err (error "ValidationError")
  IsStored (some criteria) out =
      (r : Reservation) × (out.0 ≡ ok r)
      × (get qr.connection_id out.1.store ≡ some r)
      × IsConsistent (base_status e qr notifications) r

  store_derived_lem :
      (criteria : Option (Option CriteriaResponse)) (derived : DerivedStatus) (w : World)
      → Derives (base_status e qr notifications) derived
      → IsStored criteria (
          stored_or_invalid e
            (Option.map
              (λ c. store_from_query w.store qr c derived notifications.error_events)
              criteria)
            w)
  store_derived_lem none derived w d = refl
  store_derived_lem (some criteria) derived w d =
      let (stored, _, _, same) =
        store_from_query_lem w.store qr criteria derived notifications.error_events in
      (
        _,
        refl,
        stored,
        rw same (
          d,
          last_error_cleared w.store qr criteria derived _
              (final_or_quiet qr.connection_states notifications.error_events derived d),
        ),
      )

  -- A refresh of one connection returns, unless P2PS rejects the criteria: it stores the
  -- reservation under the queried id, with the status of the NSI states or FAILED in place of
  -- ACTIVATING or DEACTIVATING; and a last error is left only with FAILED or TERMINATED.
  pub resolve_and_store_lem :
      (w : World) → IsStored (queried_criteria qr) (resolve_and_store e qr notifications w)
  unfolding resolve_and_store update_store_from_query ◌>>=◌ current_time
  resolve_and_store_lem w =
      let results_returned =
        Keeps-results_for (λ v. Unit) e
          (record { draws = λ v n i. tt; sends = λ v events i. tt; yields = λ v i. tt })
          (base_status e qr notifications) qr.connection_id in
      Ends-after (λ results v. Unit) (IsStored (queried_criteria qr))
        (results_for e (base_status e qr notifications) qr.connection_id) _ w
        (let ((results, p), _) = results_returned w tt in (results, p, tt))
        (λ results v i.
          store_derived_lem (queried_criteria qr) _ v (derive_status-Derives e _ results _ _ _ _))
