-- ===== src/Soap/Messages.antt =====
-- The typed messages of aggregator_proxy/nsi_soap/parser.py and the header of builder.py.
use nsi_aggregator_proxy.Common.{ℕ, String, Bool, Option, List}

pub record ReserveResponse : Type 0 where
  pub connection_id : String

pub record ReserveConfirmed : Type 0 where
  pub connection_id : String
  pub criteria_version : ℕ
  pub service_type : String
  pub capacity : ℕ
  pub source_stp : String
  pub dest_stp : String

pub record Variable : Type 0 where
  pub kind : String
  pub value : String

-- The fields in the order of the dataclass. `child_exceptions` is `None` or a list.
mutual
  pub data ServiceException : Type 0 where
    exception :
        (nsa_id : String) (connection_id : Option String) (error_id text : String)
        (variables : Option (List Variable)) (child_exceptions : ChildExceptions)
        → ServiceException

  pub data ChildExceptions : Type 0 where
    absent : ChildExceptions
    present : ExceptionList → ChildExceptions

  pub data ExceptionList : Type 0 where
    nil : ExceptionList
    cons : ServiceException → ExceptionList → ExceptionList

-- `ReserveFailed` and `ReserveCommitFailed`.
pub record FailedResult : Type 0 where
  pub connection_id : String
  pub service_exception : ServiceException

pub record ReserveTimeout : Type 0 where
  pub connection_id : String
  pub notification_id : ℕ
  pub timestamp : String
  pub timeout_value : ℕ
  pub originating_connection_id : String
  pub originating_nsa : String

pub record DataPlaneStateChange : Type 0 where
  pub connection_id : String
  pub notification_id : ℕ
  pub timestamp : String
  pub active : Bool
  pub version : ℕ
  pub version_consistent : Bool

pub record ErrorEvent : Type 0 where
  pub connection_id : String
  pub notification_id : ℕ
  pub timestamp : String
  pub event : String
  pub originating_connection_id : String
  pub originating_nsa : String
  pub service_exception : Option ServiceException

pub record ConnectionStates : Type 0 where
  pub reservation_state : String
  pub provision_state : String
  pub lifecycle_state : String
  pub data_plane_active : Bool

pub record ChildSegment : Type 0 where
  pub order : ℕ
  pub connection_id : String
  pub provider_nsa : String
  pub service_type : Option String
  pub capacity : Option ℕ
  pub source_stp : Option String
  pub dest_stp : Option String
  pub connection_states : Option ConnectionStates

pub record QueryReservation : Type 0 where
  pub connection_id : String
  pub global_reservation_id : Option String
  pub description : String
  pub requester_nsa : String
  pub connection_states : ConnectionStates
  pub criteria_version : Option ℕ
  pub service_type : Option String
  pub capacity : Option ℕ
  pub source_stp : Option String
  pub dest_stp : Option String
  pub start_time : Option String
  pub children : Option (List ChildSegment)

pub record SoapFault : Type 0 where
  pub fault_string : String
  pub service_exception : Option ServiceException

-- The union `NsiMessage`; the messages that carry only a connectionId hold it directly.
pub data NsiMessage : Type 0 where
  reserve_response : ReserveResponse → NsiMessage
  acknowledgment : NsiMessage
  reserve_confirmed : ReserveConfirmed → NsiMessage
  reserve_failed : FailedResult → NsiMessage
  reserve_timeout : ReserveTimeout → NsiMessage
  reserve_commit_failed : FailedResult → NsiMessage
  reserve_commit_confirmed : (connection_id : String) → NsiMessage
  provision_confirmed : (connection_id : String) → NsiMessage
  data_plane_state_change : DataPlaneStateChange → NsiMessage
  error_event : ErrorEvent → NsiMessage
  release_confirmed : (connection_id : String) → NsiMessage
  terminate_confirmed : (connection_id : String) → NsiMessage
  query_recursive_result : List QueryReservation → NsiMessage
  soap_fault : SoapFault → NsiMessage

pub record Notifications : Type 0 where
  pub error_events : List ErrorEvent
  pub data_plane_changes : List DataPlaneStateChange

pub record OperationResult : Type 0 where
  pub result_id : ℕ
  pub timestamp : String
  pub operation : String
  pub connection_id : String

pub record NsiHeader : Type 0 where
  pub requester_nsa : String
  pub provider_nsa : String
  pub reply_to : Option String
  pub correlation_id : String

-- `type(msg).__name__`
abbrev pub type_name : NsiMessage → String
type_name (NsiMessage.reserve_response _) = "ReserveResponse"
type_name NsiMessage.acknowledgment = "Acknowledgment"
type_name (NsiMessage.reserve_confirmed _) = "ReserveConfirmed"
type_name (NsiMessage.reserve_failed _) = "ReserveFailed"
type_name (NsiMessage.reserve_timeout _) = "ReserveTimeout"
type_name (NsiMessage.reserve_commit_failed _) = "ReserveCommitFailed"
type_name (NsiMessage.reserve_commit_confirmed _) = "ReserveCommitConfirmed"
type_name (NsiMessage.provision_confirmed _) = "ProvisionConfirmed"
type_name (NsiMessage.data_plane_state_change _) = "DataPlaneStateChange"
type_name (NsiMessage.error_event _) = "ErrorEvent"
type_name (NsiMessage.release_confirmed _) = "ReleaseConfirmed"
type_name (NsiMessage.terminate_confirmed _) = "TerminateConfirmed"
type_name (NsiMessage.query_recursive_result _) = "QueryRecursiveResult"
type_name (NsiMessage.soap_fault _) = "SoapFault"
