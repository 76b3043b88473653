-- ===== src/Mapping/Activating.antt =====
-- When an ACTIVATING connection has failed: `derive_status` of state_mapping.py, by the history alone.
use mathlib.Core.Option.{some-injective}
use mathlib.Core.Path.{subst}
use nsi_aggregator_proxy.Common.{
  Bool-cases, Member, ℕ, ◌*◌, String, ◌≡◌, refl, sym, ◌↔◌, ◌⊎◌, inl, inr, Bool, true, ◌&&◌, Option,
  none, some, List, [], ◌∷◌, arith,
}
use nsi_aggregator_proxy.Mapping.{
  Datetime, Iso8601, before, not_before, microseconds, deadline_from, parse_iso8601,
  latest_operation_time, data_plane_active_since, start_of, derive_activating, derive_status,
}
use nsi_aggregator_proxy.Mapping.Deriving.{Passed, NotBefore}
use nsi_aggregator_proxy.Models.{activating, failed}
use nsi_aggregator_proxy.Soap.Messages.{DataPlaneStateChange, OperationResult}

module _ (iso : Iso8601) where
  -- The change reports the data plane active, at or after the time.
  abbrev pub IsUp : Datetime → DataPlaneStateChange → Type 0
  IsUp since change =
      (change.active ≡ true)
      × ((ts : Datetime) × (parse_iso8601 iso change.timestamp ≡ some ts) × NotBefore ts since)

  abbrev pub CameUp : Datetime → List DataPlaneStateChange → Type 0
  CameUp since changes = (change : DataPlaneStateChange) × Member change changes × IsUp since change

  -- More than the timeout has passed since the start of the schedule, where one can be read.
  abbrev pub PassedStart : Option String → Datetime → ℕ → Type 0
  PassedStart start_time now timeout =
      (text : String) (start : Datetime)
      → start_time ≡ some text
      → parse_iso8601 iso text ≡ some start
      → Passed start now timeout

  not_before_iff :
      (o : Option Datetime) (since : Datetime)
      → (not_before o since ≡ true) ↔ ((ts : Datetime) × (o ≡ some ts) × NotBefore ts since)
  not_before_iff none since = ((λ h. cc (h)), (λ found. cc (found.1)))
  not_before_iff (some t) since = (
    (λ h. (t, refl, ground arith)),
    (λ found.
        let later = subst (λ x. NotBefore x since) (sym (some-injective _ _ found.1)) found.2 in
        ground arith),
  )

  IsUp-iff :
      (since : Datetime) (change : DataPlaneStateChange)
      → ((change.active && not_before (parse_iso8601 iso change.timestamp) since) ≡ true)
        ↔ IsUp since change
  IsUp-iff since change =
      let ended = not_before_iff (parse_iso8601 iso change.timestamp) since in
      elim (Bool-cases change.active) [
        | inl on ↦ ((λ h. (on, ended.0 (rw on at h))), (λ up. rw on (ended.1 up.1)))
        | inr off ↦ ((λ h. cc (rw off at h)), (λ up. cc (off, up.0)))
      ]

  CameUp-iff :
      (since : Datetime) (changes : List DataPlaneStateChange)
      → (data_plane_active_since iso changes since ≡ true) ↔ CameUp since changes
  unfolding data_plane_active_since
  CameUp-iff since [] = ((λ h. cc (h)), (λ found. elim found.1 [ ]))
  CameUp-iff since (change ∷ changes) =
      let one = IsUp-iff since change in
      let rest = CameUp-iff since changes in
      (
        (λ h.
            elim (Bool-cases
              (change.active && not_before (parse_iso8601 iso change.timestamp) since)) [
                | inl hit ↦ (change, inl refl, one.0 hit)
                | inr missed ↦ let (c, m, up) = rest.0 (rw missed at h) in (c, inr m, up)
              ]),
        (λ (c, m, up). elim m [
          | inl same ↦ let hit = one.1 (subst (IsUp since) same up) in rw hit refl
          | inr later ↦
              elim (Bool-cases
                (change.active && not_before (parse_iso8601 iso change.timestamp) since)) [
                  | inl hit ↦ rw hit refl
                  | inr missed ↦ rw missed (rest.1 (c, later, up))
                ]
        ]),
      )

  deadline_iff :
      (p now : Datetime) (timeout : ℕ) (o : Option Datetime)
      → Passed (deadline_from p o) now timeout
        ↔ (Passed p now timeout × ((s : Datetime) → o ≡ some s → Passed s now timeout))
  deadline_iff p now timeout none = ((λ h. (h, λ s e. cc (e))), (λ h. h.0))
  deadline_iff p now timeout (some s) = elim (Bool-cases (before p s)) [
    | inl earlier ↦ rw earlier (
      (λ h. (ground arith, λ t e. subst (λ x. Passed x now timeout) (some-injective _ _ e) h)),
      (λ h. h.1 s refl),
    )
    | inr later ↦ rw later (
      (λ h.
          let start : Passed s now timeout = ground arith in
          (h, λ t e. subst (λ x. Passed x now timeout) (some-injective _ _ e) start)),
      (λ h. h.0),
    )
  ]

  start_iff :
      (start_time : Option String) (now : Datetime) (timeout : ℕ)
      → ((s : Datetime) → start_of iso start_time ≡ some s → Passed s now timeout)
        ↔ PassedStart start_time now timeout
  start_iff none now timeout = ((λ k text start e read. cc (e)), (λ k s e. cc (e)))
  start_iff (some text) now timeout = (
    (λ k text' start e read.
        k start (subst (λ x. parse_iso8601 iso x ≡ some start) (sym (some-injective _ _ e)) read)),
    (λ k s e. k text s refl e),
  )

  decided :
      (up : Bool) (p : Datetime) (changes : List DataPlaneStateChange) (o : Option Datetime)
      (now : Datetime) (timeout : ℕ)
      → data_plane_active_since iso changes p ≡ up
      → ((derive_activating iso (some p) changes o now timeout).status ≡ failed)
        ↔ ((up ≡ true) ⊎ Passed (deadline_from p o) now (timeout * microseconds))
  unfolding derive_activating
  decided up p changes o now timeout h = rw h (ground arith)

  -- If the latest provisionConfirmed of an ACTIVATING connection, by result id and then timestamp,
  -- has a readable timestamp, the connection becomes FAILED exactly if a change reported the data
  -- plane active at or after that time, or more than the timeout has passed since that time and,
  -- where there is a readable start time, also since that.
  pub derive_status-activating_iff :
      (results : List OperationResult) (changes : List DataPlaneStateChange)
      (start_time : Option String) (now : Datetime) (timeout : ℕ) (provision_at : Datetime)
      → latest_operation_time iso results "provisionConfirmed" ≡ some provision_at
      → ((derive_status iso activating results changes start_time now timeout).status ≡ failed) ↔ (
          CameUp provision_at changes
          ⊎ (Passed provision_at now (timeout * microseconds)
              × PassedStart start_time now (timeout * microseconds)))
  unfolding derive_status
  derive_status-activating_iff results changes start_time now timeout p h =
      let out = decided _ p changes (start_of iso start_time) now timeout refl in
      let up = CameUp-iff p changes in
      let deadline = deadline_iff p now (timeout * microseconds) (start_of iso start_time) in
      let start = start_iff start_time now (timeout * microseconds) in
      rw h (
        (λ fails. elim (out.0 fails) [
          | inl on ↦ inl (up.0 on)
          | inr passed ↦ let both = deadline.0 passed in inr (both.0, start.0 both.1)
        ]),
        (λ cause. elim cause [
          | inl on ↦ out.1 (inl (up.1 on))
          | inr both ↦ out.1 (inr (deadline.1 (both.0, start.1 both.1)))
        ]),
      )
