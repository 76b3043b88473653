-- ===== src/Mapping/Priority.antt =====
-- The priority order of `map_nsi_states_to_status`, against its table of nine rules.
use mathlib.Core.Path.{subst}
use nsi_aggregator_proxy.Common.{
  if◌then◌else◌, Bool-cases, ◌==◌, String, ◌≡◌, refl, sym, ◌≢◌, ◌↔◌, ◌⊎◌, inl, inr, Bool, true,
  false, arith, eq_iff,
}
use nsi_aggregator_proxy.Mapping.{
  is_ended, is_reserve_failure, is_reserve_pending, map_nsi_states_to_status,
}
use nsi_aggregator_proxy.Models.{
  ReservationStatus, reserving, reserved, activating, activated, deactivating, failed, terminated,
  is_final,
}
use nsi_aggregator_proxy.Soap.Messages.{ConnectionStates}

abbrev pub IsEnded : String → Type 0
IsEnded s = (s ≡ "Terminated") ⊎ (s ≡ "PassedEndTime")

abbrev pub IsReserveFailure : String → Type 0
IsReserveFailure s = (s ≡ "ReserveTimeout") ⊎ (s ≡ "ReserveFailed") ⊎ (s ≡ "ReserveAborting")

abbrev pub IsReservePending : String → Type 0
IsReservePending s = (s ≡ "ReserveChecking") ⊎ (s ≡ "ReserveHeld") ⊎ (s ≡ "ReserveCommitting")

pub is_ended_iff : (s : String) → (is_ended s ≡ true) ↔ IsEnded s
unfolding is_ended
is_ended_iff s = ground (arith, eq_iff s "Terminated", eq_iff s "PassedEndTime")

pub is_reserve_failure_iff : (s : String) → (is_reserve_failure s ≡ true) ↔ IsReserveFailure s
unfolding is_reserve_failure
is_reserve_failure_iff s =
    ground (arith, eq_iff s "ReserveTimeout", eq_iff s "ReserveFailed", eq_iff s "ReserveAborting")

pub is_reserve_pending_iff : (s : String) → (is_reserve_pending s ≡ true) ↔ IsReservePending s
unfolding is_reserve_pending
is_reserve_pending_iff s =
    ground (arith, eq_iff s "ReserveChecking", eq_iff s "ReserveHeld", eq_iff s "ReserveCommitting")

-- The table of the docstring: a rule applies where none above it does.
pub record IsLive (states : ConnectionStates) : Type 0 where
  pub not_ended : ¬ IsEnded states.lifecycle_state
  pub not_failed : states.lifecycle_state ≢ "Failed"
  pub not_reserve_failure : ¬ IsReserveFailure states.reservation_state

pub data Rule (states : ConnectionStates) (has_error : Bool) (st : ReservationStatus) : Type 0 where
  ended : IsEnded states.lifecycle_state → st ≡ terminated → Rule states has_error st
  lifecycle_failed :
      ¬ IsEnded states.lifecycle_state
      → states.lifecycle_state ≡ "Failed"
      → st ≡ failed
      → Rule states has_error st
  reserve_failed :
      ¬ IsEnded states.lifecycle_state
      → states.lifecycle_state ≢ "Failed"
      → IsReserveFailure states.reservation_state
      → st ≡ failed
      → Rule states has_error st
  error_seen : IsLive states → has_error ≡ true → st ≡ failed → Rule states has_error st
  pending :
      IsLive states
      → has_error ≡ false
      → IsReservePending states.reservation_state
      → st ≡ reserving
      → Rule states has_error st
  releasing :
      IsLive states
      → has_error ≡ false
      → ¬ IsReservePending states.reservation_state
      → states.data_plane_active ≡ true
      → states.provision_state ≡ "Released"
      → st ≡ deactivating
      → Rule states has_error st
  active :
      IsLive states
      → has_error ≡ false
      → ¬ IsReservePending states.reservation_state
      → states.data_plane_active ≡ true
      → states.provision_state ≢ "Released"
      → st ≡ activated
      → Rule states has_error st
  provisioned :
      IsLive states
      → has_error ≡ false
      → ¬ IsReservePending states.reservation_state
      → states.data_plane_active ≡ false
      → states.provision_state ≡ "Provisioned"
      → st ≡ activating
      → Rule states has_error st
  otherwise :
      IsLive states
      → has_error ≡ false
      → ¬ IsReservePending states.reservation_state
      → states.data_plane_active ≡ false
      → states.provision_state ≢ "Provisioned"
      → st ≡ reserved
      → Rule states has_error st

not-IsEnded : (s : String) → is_ended s ≡ false → ¬ IsEnded s
not-IsEnded s h p = cc ((is_ended_iff s).1 p)

not-IsReserveFailure : (s : String) → is_reserve_failure s ≡ false → ¬ IsReserveFailure s
not-IsReserveFailure s h p = cc ((is_reserve_failure_iff s).1 p)

not-IsReservePending : (s : String) → is_reserve_pending s ≡ false → ¬ IsReservePending s
not-IsReservePending s h p = cc ((is_reserve_pending_iff s).1 p)

text_ne : (s t : String) → (s == t) ≡ false → s ≢ t
text_ne s t h p = cc ((eq_iff s t).1 p)

module _ (states : ConnectionStates) (has_error : Bool) (st : ReservationStatus) where
  Rule-map : Rule states has_error st → map_nsi_states_to_status states has_error ≡ st
  unfolding map_nsi_states_to_status
  Rule-map (Rule.ended a e) = ground (arith, is_ended_iff states.lifecycle_state)
  Rule-map r = ground (
    arith,
    is_ended_iff states.lifecycle_state,
    is_reserve_failure_iff states.reservation_state,
    is_reserve_pending_iff states.reservation_state,
    eq_iff states.lifecycle_state "Failed",
    eq_iff states.provision_state "Released",
    eq_iff states.provision_state "Provisioned",
  )

abbrev SomeRule : ConnectionStates → Bool → Type 0
SomeRule states has_error = (st : ReservationStatus) × Rule states has_error st

module _ (states : ConnectionStates) (live : IsLive states) where
  abbrev NotPending : Type 0
  NotPending = ¬ IsReservePending states.reservation_state

  SomeRule-active : NotPending → states.data_plane_active ≡ true → SomeRule states false
  SomeRule-active p a = elim (Bool-cases (states.provision_state == "Released")) [
    | inl r ↦ (_, Rule.releasing live refl p a ((eq_iff _ _).0 r) refl)
    | inr r ↦ (_, Rule.active live refl p a (text_ne _ _ r) refl)
  ]

  SomeRule-inactive : NotPending → states.data_plane_active ≡ false → SomeRule states false
  SomeRule-inactive p a = elim (Bool-cases (states.provision_state == "Provisioned")) [
    | inl r ↦ (_, Rule.provisioned live refl p a ((eq_iff _ _).0 r) refl)
    | inr r ↦ (_, Rule.otherwise live refl p a (text_ne _ _ r) refl)
  ]

  SomeRule-settled : NotPending → SomeRule states false
  SomeRule-settled p = elim (Bool-cases states.data_plane_active) [
    | inl a ↦ SomeRule-active p a
    | inr a ↦ SomeRule-inactive p a
  ]

  SomeRule-live : (has_error : Bool) → SomeRule states has_error
  SomeRule-live true = (_, Rule.error_seen live refl refl)
  SomeRule-live false = elim (Bool-cases (is_reserve_pending states.reservation_state)) [
    | inl p ↦ (_, Rule.pending live refl ((is_reserve_pending_iff _).0 p) refl)
    | inr p ↦ SomeRule-settled (not-IsReservePending _ p)
  ]

module _ (states : ConnectionStates) (has_error : Bool) where
  SomeRule-unfailed :
      ¬ IsEnded states.lifecycle_state
      → states.lifecycle_state ≢ "Failed"
      → SomeRule states has_error
  SomeRule-unfailed e f = elim (Bool-cases (is_reserve_failure states.reservation_state)) [
    | inl r ↦ (_, Rule.reserve_failed e f ((is_reserve_failure_iff _).0 r) refl)
    | inr r ↦
        SomeRule-live states
          (record { not_ended = e; not_failed = f; not_reserve_failure = not-IsReserveFailure _ r })
          has_error
  ]

  SomeRule-unended : ¬ IsEnded states.lifecycle_state → SomeRule states has_error
  SomeRule-unended e = elim (Bool-cases (states.lifecycle_state == "Failed")) [
    | inl f ↦ (_, Rule.lifecycle_failed e ((eq_iff _ _).0 f) refl)
    | inr f ↦ SomeRule-unfailed e (text_ne _ _ f)
  ]

  rule_applies : SomeRule states has_error
  rule_applies = elim (Bool-cases (is_ended states.lifecycle_state)) [
    | inl e ↦ (_, Rule.ended ((is_ended_iff _).0 e) refl)
    | inr e ↦ SomeRule-unended (not-IsEnded _ e)
  ]

  map-Rule : Rule states has_error (map_nsi_states_to_status states has_error)
  map-Rule =
      let (st, rule) = rule_applies in
      subst (Rule states has_error) (sym (Rule-map states has_error st rule)) rule

-- The mapped status is a given one exactly when the rule of the docstring's table that applies
-- first, the ones above it being excluded, gives that status.
pub map_nsi_states_to_status_iff :
    (states : ConnectionStates) (has_error : Bool) (st : ReservationStatus)
    → (map_nsi_states_to_status states has_error ≡ st) ↔ Rule states has_error st
map_nsi_states_to_status_iff states has_error st =
    (λ e. subst (Rule states has_error) e (map-Rule states has_error), Rule-map states has_error st)

-- A connection is TERMINATED for exactly the lifecycles Terminated and PassedEndTime, whatever its
-- other sub-states and error events are.
pub map-terminated_iff :
    (states : ConnectionStates) (has_error : Bool)
    → (map_nsi_states_to_status states has_error ≡ terminated) ↔ IsEnded states.lifecycle_state
unfolding map_nsi_states_to_status
map-terminated_iff states has_error = ground (arith, is_ended_iff states.lifecycle_state)

-- An error event leaves TERMINATED and FAILED as they are and makes every other status FAILED.
pub map-error_event :
    (states : ConnectionStates)
    → map_nsi_states_to_status states true ≡ (
        if is_final (map_nsi_states_to_status states false)
        then map_nsi_states_to_status states false
        else failed)
unfolding map_nsi_states_to_status
map-error_event states = ground arith
