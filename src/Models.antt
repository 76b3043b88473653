-- ===== src/Models.antt =====
-- aggregator_proxy/models.py: the payloads of the REST API, as records. What pydantic checks of
-- a text is not part of these types: Formats has the validators of models.py.
use nsi_aggregator_proxy.Common.{ℕ, String, Bool, true, false, Option, List}
pub mod Formats
mod Tests

pub data ReservationStatus : Type 0 where
  reserving reserved activating activated deactivating failed terminated : ReservationStatus

pub ReservationStatus-discrete : Discrete ReservationStatus
ReservationStatus-discrete = hlevel

-- The value of a member of the `StrEnum`.
abbrev pub status_text : ReservationStatus → String
status_text ReservationStatus.reserving = "RESERVING"
status_text ReservationStatus.reserved = "RESERVED"
status_text ReservationStatus.activating = "ACTIVATING"
status_text ReservationStatus.activated = "ACTIVATED"
status_text ReservationStatus.deactivating = "DEACTIVATING"
status_text ReservationStatus.failed = "FAILED"
status_text ReservationStatus.terminated = "TERMINATED"

-- `_TERMINAL_STATUSES` of routers/reservations.py.
abbrev pub is_final : ReservationStatus → Bool
is_final ReservationStatus.terminated = true
is_final ReservationStatus.failed = true
is_final _ = false

abbrev pub is_failed : ReservationStatus → Bool
is_failed ReservationStatus.failed = true
is_failed _ = false

abbrev pub is_terminated : ReservationStatus → Bool
is_terminated ReservationStatus.terminated = true
is_terminated _ = false

pub data DetailLevel : Type 0 where
  summary full recursive : DetailLevel

pub record P2Ps : Type 0 where
  pub capacity : ℕ
  pub source_stp : String
  pub dest_stp : String

pub record P2PsRequest : Type 0 where
  pub capacity : ℕ
  pub source_stp : String
  pub dest_stp : String
  pub ero : Option (List String)

pub record Criteria : Type 0 where
  pub service_type : Option String
  pub p2ps : P2PsRequest

pub record CriteriaResponse : Type 0 where
  pub version : ℕ
  pub service_type : Option String
  pub p2ps : P2Ps

pub record ReservationRequest : Type 0 where
  pub global_reservation_id : Option String
  pub description : String
  pub criteria : Criteria
  pub requester_nsa : String
  pub provider_nsa : String
  pub callback_url : String

pub record CallbackRequest : Type 0 where
  pub callback_url : String

pub record PathSegment : Type 0 where
  pub order : ℕ
  pub connection_id : String
  pub provider_nsa : String
  pub service_type : Option String
  pub capacity : Option ℕ
  pub source_stp : Option String
  pub dest_stp : Option String
  pub status : Option ReservationStatus

pub record ReservationDetail : Type 0 where
  pub global_reservation_id : Option String
  pub connection_id : String
  pub description : String
  pub criteria : Option CriteriaResponse
  pub status : ReservationStatus
  pub last_error : Option String
  pub segments : Option (List PathSegment)

pub record UpaReservation : Type 0 where
  pub connection_id : String
  pub global_reservation_id : Option String
  pub description : String
  pub requester_nsa : String
  pub reservation_state : String
  pub provision_state : String
  pub lifecycle_state : String
  pub data_plane_active : Bool
  pub capacity : Option ℕ
  pub source_stp : Option String
  pub dest_stp : Option String

pub record Upa : Type 0 where
  pub nsa_id : String
  pub provider_url : String
  pub network_ids : List String

-- `ReservationsListResponse` is its one field, and so is `UpasResponse`.
abbrev pub ReservationsListResponse : Type 0
ReservationsListResponse = List ReservationDetail

abbrev pub UpasResponse : Type 0
UpasResponse = List Upa

pub record UpaReservationsResponse : Type 0 where
  pub provider_nsa : String
  pub provider_url : String
  pub reservations : List UpaReservation

-- The fields that a caller sets; `title`, `status` and `detail` are constants.
pub record AcceptedResponse : Type 0 where
  pub kind : String
  pub instance_path : String
