-- ===== src/Mapping/Deriving.antt =====
-- What `derive_status` decides from the history of a connection, and when.
-- `Passed a b n` reads `b - a > n`, in microseconds between the UTC instants of two datetimes.
use mathlib.Core.Path.{subst}
use mathlib.Core.Option.{some-injective}
use native.Mathlib.Nat.{le_trans}
use nsi_aggregator_proxy.Common.{
  if◌then◌else◌, is_some, Option-cases, ◌==◌, keep, max_from, max_by, Member, Member-keep,
  keep-Member, ℕ, suc, ◌+◌, ◌*◌, ◌≤◌, ◌<◌, String, ◌≡◌, refl, sym, ◌↔◌, ◌⊎◌, inl, inr, true, Option,
  none, some, List, [], ◌∷◌, arith, eq_iff,
}
use nsi_aggregator_proxy.Mapping.{
  Datetime, Iso8601, later_result, microseconds, deadline_from, parse_iso8601,
  latest_operation_time, start_of, derive_activating, derive_status,
}
use nsi_aggregator_proxy.Models.{ReservationStatus, activating, deactivating, failed}
use nsi_aggregator_proxy.Soap.Messages.{DataPlaneStateChange, OperationResult}

abbrev pub Passed : Datetime → Datetime → ℕ → Type 0
Passed since now timeout =
    since.wall + since.tzinfo.behind + now.tzinfo.ahead + timeout
    < now.wall + now.tzinfo.behind + since.tzinfo.ahead

abbrev pub NotBefore : Datetime → Datetime → Type 0
NotBefore a b =
    b.wall + b.tzinfo.behind + a.tzinfo.ahead ≤ a.wall + a.tzinfo.behind + b.tzinfo.ahead

-- The result that `max` takes has the greatest result id, and is one of the list.
max_from-ge :
    (best : OperationResult) (rs : List OperationResult)
    → best.result_id ≤ (max_from later_result best rs).result_id
max_from-ge best [] = omega arith
max_from-ge best (r ∷ rs) =
    let best' = if later_result r best then r else best in
    let step : best.result_id ≤ best'.result_id = ground arith in
    le_trans step (max_from-ge best' rs)

max_from_bound :
    (best : OperationResult) (rs : List OperationResult) (r : OperationResult)
    → Member r rs
    → r.result_id ≤ (max_from later_result best rs).result_id
max_from_bound best [] r m = elim m [ ]
max_from_bound best (x ∷ rs) r (inl e) =
    let best' = if later_result x best then x else best in
    let step : x.result_id ≤ best'.result_id = ground arith in
    rw e (le_trans step (max_from-ge best' rs))
max_from_bound best (x ∷ rs) r (inr m) =
    max_from_bound (if later_result x best then x else best) rs r m

max_from-Member :
    (best : OperationResult) (rs : List OperationResult)
    → Member (max_from later_result best rs) (best ∷ rs)
max_from-Member best [] = inl refl
max_from-Member best (r ∷ rs) = ground (arith, max_from-Member r rs, max_from-Member best rs)

-- The newest result of an operation: no other of that operation has a greater result id.
pub record IsLatest (results : List OperationResult) (operation : String) (r : OperationResult)
    : Type 0 where
  pub listed : Member r results
  pub matches : r.operation ≡ operation
  pub newest :
      (other : OperationResult)
      → Member other results
      → other.operation ≡ operation
      → other.result_id ≤ r.result_id

module _ (results : List OperationResult) (operation : String) where
  abbrev matching_results : List OperationResult
  matching_results = keep (λ result. result.operation == operation) results

  -- The entries of the matching list, back in the whole list.
  IsLatest-of_matching :
      (r : OperationResult)
      → Member r matching_results
      → ((other : OperationResult) → Member other matching_results → other.result_id ≤ r.result_id)
      → IsLatest results operation r
  IsLatest-of_matching r m bound =
      let (listed, same) = keep-Member (λ result. result.operation == operation) r results m in
      record {
        listed = listed;
        matches = (eq_iff _ _).0 same;
        newest = λ other o e. bound other (
            Member-keep (λ result. result.operation == operation) other results o
              ((eq_iff _ _).1 e));
      }

  IsLatest-of_max :
      (matching : List OperationResult)
      → matching ≡ matching_results
      → (r : OperationResult) → max_by later_result matching ≡ some r
      → IsLatest results operation r
  IsLatest-of_max [] e r h = cc
  IsLatest-of_max (x ∷ rs) e r h = subst (IsLatest results operation) (some-injective _ _ h) (
      IsLatest-of_matching (max_from later_result x rs)
        (subst (Member (max_from later_result x rs)) e (max_from-Member x rs))
        (λ other o. bound other (subst (Member other) (sym e) o)))
    where
      bound :
          (other : OperationResult)
          → Member other (x ∷ rs)
          → other.result_id ≤ (max_from later_result x rs).result_id
      bound other (inl q) = rw q (max_from-ge x rs)
      bound other (inr m) = max_from_bound x rs other m

-- If the latest time of an operation is known, it is the timestamp of a result of that operation
-- than which no result of that operation has a greater result id.
pub latest_operation_time_lem :
    (iso : Iso8601) (results : List OperationResult) (operation : String) {t : Datetime}
    → latest_operation_time iso results operation ≡ some t
    → (r : OperationResult) × IsLatest results operation r
      × (parse_iso8601 iso r.timestamp ≡ some t)
unfolding latest_operation_time
latest_operation_time_lem iso results operation h =
    elim (Option-cases (max_by later_result (keep (λ r. r.operation == operation) results))) [
      | inl e ↦ cc (rw e at h)
      | inr (r, e) ↦ (r, IsLatest-of_max results operation _ refl r e, rw e at h)
    ]

-- A datetime that is parsed has an offset; a text that `fromisoformat` refuses gives none.
module _ (iso : Iso8601) where
  -- A DEACTIVATING connection with a releaseConfirmed at `release_at` becomes FAILED exactly when
  -- more than the timeout has passed since then.
  pub derive_status-deactivating_iff :
      (results : List OperationResult) (changes : List DataPlaneStateChange)
      (start_time : Option String) (now : Datetime) (timeout : ℕ) (release_at : Datetime)
      → latest_operation_time iso results "releaseConfirmed" ≡ some release_at
      → ((derive_status iso deactivating results changes start_time now timeout).status ≡ failed)
        ↔ Passed release_at now (timeout * microseconds)
  unfolding derive_status
  derive_status-deactivating_iff results changes start_time now timeout p h = rw h (ground arith)

  derive_activating-failed_stays :
      (since : Option Datetime) (changes : List DataPlaneStateChange) (start : Option Datetime)
      (now later : Datetime) (timeout : ℕ)
      → NotBefore later now
      → (derive_activating iso since changes start now timeout).status ≡ failed
      → (derive_activating iso since changes start later timeout).status ≡ failed
  unfolding derive_activating
  derive_activating-failed_stays none changes start now later timeout n h = h
  derive_activating-failed_stays (some p) changes start now later timeout n h = ground arith

  abbrev after_deadline : Datetime → ℕ → Datetime
  after_deadline deadline timeout = record {
    wall = suc (deadline.wall + deadline.tzinfo.behind + timeout * microseconds);
    tzinfo = record { ahead = deadline.tzinfo.ahead; behind = 0 };
  }

  derive_activating_fails :
      (p : Datetime) (changes : List DataPlaneStateChange) (start : Option Datetime) (timeout : ℕ)
      → (derive_activating iso
          (some p)
          changes
          start
          (after_deadline (deadline_from p start) timeout)
          timeout).status
        ≡ failed
  unfolding derive_activating
  derive_activating_fails p changes start timeout = ground arith

  -- Time does not undo a failure: what is FAILED at one moment is FAILED at any later one, the
  -- history being the same.
  pub derive_status-failed_stays :
      (base : ReservationStatus) (results : List OperationResult)
      (changes : List DataPlaneStateChange) (start_time : Option String) (now later : Datetime)
      (timeout : ℕ)
      → NotBefore later now
      → (derive_status iso base results changes start_time now timeout).status ≡ failed
      → (derive_status iso base results changes start_time later timeout).status ≡ failed
  unfolding derive_status
  derive_status-failed_stays activating results changes start_time now later timeout n h =
      derive_activating-failed_stays (latest_operation_time iso results "provisionConfirmed")
        changes (start_of iso start_time) now later timeout n h
  derive_status-failed_stays deactivating results changes start_time now later timeout n h =
      ground arith
  derive_status-failed_stays _ results changes start_time now later timeout n h = h

  -- An ACTIVATING connection is reported ACTIVATING at every moment exactly if the latest
  -- provisionConfirmed of its history, by result id and then timestamp, is missing or has no
  -- readable timestamp.
  pub derive_status-activating_forever_iff :
      (results : List OperationResult) (changes : List DataPlaneStateChange)
      (start_time : Option String) (timeout : ℕ)
      → ((now : Datetime)
          → (derive_status iso activating results changes start_time now timeout).status
            ≡ activating)
        ↔ (latest_operation_time iso results "provisionConfirmed" ≡ none)
  unfolding derive_status
  derive_status-activating_forever_iff results changes start_time timeout =
      (never (latest_operation_time iso results "provisionConfirmed"), λ e now. rw e refl)
    where
      never :
          (since : Option Datetime)
          → ((now : Datetime)
              → (derive_activating iso since changes (start_of iso start_time) now timeout).status
                ≡ activating)
          → since ≡ none
      never none always = refl
      never (some p) always =
          let start = start_of iso start_time in
          cc (
            derive_activating_fails p changes start timeout,
            always (after_deadline (deadline_from p start) timeout),
          )

  -- The refinement only ever turns ACTIVATING or DEACTIVATING into FAILED, and a reason comes
  -- with that and with nothing else: any other base status is returned as it is.
  pub derive_status_refines :
      (base : ReservationStatus) (results : List OperationResult)
      (changes : List DataPlaneStateChange) (start_time : Option String) (now : Datetime)
      (timeout : ℕ)
      → let d = derive_status iso base results changes start_time now timeout in
        ((d.status ≡ base) × (d.reason ≡ none))
        ⊎ (((base ≡ activating) ⊎ (base ≡ deactivating))
            × (d.status ≡ failed)
            × (is_some d.reason ≡ true))
  unfolding derive_status
  derive_status_refines activating results changes start_time now timeout = ground arith
  derive_status_refines deactivating results changes start_time now timeout = ground arith
  derive_status_refines _ results changes start_time now timeout = inl (refl, refl)
