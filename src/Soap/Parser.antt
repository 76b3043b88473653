-- ===== src/Soap/Parser.antt =====
-- aggregator_proxy/nsi_soap/parser.py: `parse`, `parse_correlation_id` and the readers of the parts
-- of a callback, and the parsers of the synchronous answers.
pub mod Exceptions
pub mod Queries
pub mod Kinds
pub mod Answers
pub mod Depth
use nsi_aggregator_proxy.Common.{if◌then◌else◌, or_else, ◌==◌, ◌<>◌, String, Option, List, [], ◌∷◌}
use nsi_aggregator_proxy.Runtime.{Content, Parsed, value, value_error, Soap}
use nsi_aggregator_proxy.Soap.Etree.{
  ◌>>=◌, plain, in_soapenv, in_ctypes, in_p2p, Etree, read_all, found_or, local_name, require,
  require_int,
}
use nsi_aggregator_proxy.Soap.Messages.{
  exception, FailedResult, QueryReservation, NsiMessage, Notifications, OperationResult,
}
use nsi_aggregator_proxy.Soap.Parser.Exceptions.{
  parse_service_exception, parse_fault, parse_data_plane_state_change, parse_error_event,
}
use nsi_aggregator_proxy.Soap.Parser.Queries.{parse_reservations, parse_result_element}

module _ {A : Type 0} where
  -- The first of `body[0]`, where `body` may be empty.
  abbrev pub head_or : List A → Parsed A → Parsed A
  head_or [] missing = missing
  head_or (x ∷ xs) missing = value x

  -- `etree.fromstring` on bytes: an XMLSyntaxError where it is no XML.
  abbrev pub rooted : Option A → Parsed A
  rooted root = found_or root (value_error "XMLSyntaxError")

module _ {Element : Type 0} (etree : Etree Element) where
  -- `body[0]`
  unfoldable pub body_operation : Element → Parsed Element
  body_operation root = do
    body ←
        found_or (etree.find root (in_soapenv "Body"))
          (value_error "No SOAP Body found or Body is empty")
    head_or (etree.children body) (value_error "No SOAP Body found or Body is empty")

  unfoldable pub parse_reserve_response : Element → Parsed NsiMessage
  unfolding require
  parse_reserve_response operation = do
    connection_id ← require etree operation "connectionId"
    value (NsiMessage.reserve_response (record { connection_id = connection_id }))

  unfoldable pub parse_reserve_confirmed : Element → Parsed NsiMessage
  unfolding require require_int
  parse_reserve_confirmed operation = do
    criteria ←
        found_or (etree.find operation (plain "criteria"))
          (value_error "<criteria> not found in reserveConfirmed")
    p2ps ←
        found_or (etree.find criteria (in_p2p "p2ps")) (value_error "<p2ps> not found in criteria")
    connection_id ← require etree operation "connectionId"
    criteria_version ← etree.int (or_else (etree.get criteria "version") "1")
    service_type ← require etree criteria "serviceType"
    capacity ← require_int etree p2ps "capacity"
    source_stp ← require etree p2ps "sourceSTP"
    dest_stp ← require etree p2ps "destSTP"
    value (
        NsiMessage.reserve_confirmed (record {
          connection_id = connection_id;
          criteria_version = criteria_version;
          service_type = service_type;
          capacity = capacity;
          source_stp = source_stp;
          dest_stp = dest_stp;
        }))

  -- The cases of `reserveFailed` and `reserveCommitFailed`, which differ in their names.
  unfoldable pub parse_failed : String → (FailedResult → NsiMessage) → Element → Parsed NsiMessage
  unfolding require parse_service_exception
  parse_failed name message operation = do
    reason ←
        found_or (etree.find operation (plain "serviceException"))
          (value_error ("<serviceException> not found in " <> name))
    connection_id ← require etree operation "connectionId"
    service_exception ← parse_service_exception etree reason
    value
        (message (record { connection_id = connection_id; service_exception = service_exception }))

  unfoldable pub parse_reserve_timeout : Element → Parsed NsiMessage
  unfolding require require_int
  parse_reserve_timeout operation = do
    connection_id ← require etree operation "connectionId"
    notification_id ← require_int etree operation "notificationId"
    timestamp ← require etree operation "timeStamp"
    timeout_value ← require_int etree operation "timeoutValue"
    originating_connection_id ← require etree operation "originatingConnectionId"
    originating_nsa ← require etree operation "originatingNSA"
    value (
        NsiMessage.reserve_timeout (record {
          connection_id = connection_id;
          notification_id = notification_id;
          timestamp = timestamp;
          timeout_value = timeout_value;
          originating_connection_id = originating_connection_id;
          originating_nsa = originating_nsa;
        }))

  -- A message that carries its connectionId and no more.
  unfoldable pub parse_confirmed : (String → NsiMessage) → Element → Parsed NsiMessage
  unfolding require
  parse_confirmed message operation = do
    connection_id ← require etree operation "connectionId"
    value (message connection_id)

  unfoldable pub parse_change : Element → Parsed NsiMessage
  unfolding parse_data_plane_state_change
  parse_change operation = do
    change ← parse_data_plane_state_change etree operation
    value (NsiMessage.data_plane_state_change change)

  unfoldable pub parse_event : Element → Parsed NsiMessage
  unfolding parse_error_event
  parse_event operation = do
    event ← parse_error_event etree operation
    value (NsiMessage.error_event event)

  unfoldable pub parse_recursive : Element → Parsed NsiMessage
  unfolding parse_reservations
  parse_recursive operation = do
    reservations ← parse_reservations etree operation
    value (NsiMessage.query_recursive_result reservations)

  unfoldable pub parse_rejection : Element → Parsed NsiMessage
  unfolding parse_fault
  parse_rejection operation = do
    fault ← parse_fault etree operation
    value (NsiMessage.soap_fault fault)

  -- The `match` on the local name of the operation.
  unfoldable pub parse_operation : String → Element → Parsed NsiMessage
  unfolding parse_reserve_response parse_reserve_confirmed parse_failed parse_reserve_timeout
      parse_confirmed parse_change parse_event parse_recursive parse_rejection
  parse_operation local operation =
      if local == "reserveResponse"
      then parse_reserve_response operation
      else if local == "reserveConfirmed"
      then parse_reserve_confirmed operation
      else if local == "reserveFailed"
      then parse_failed "reserveFailed" NsiMessage.reserve_failed operation
      else if local == "reserveTimeout"
      then parse_reserve_timeout operation
      else if local == "reserveCommitFailed"
      then parse_failed "reserveCommitFailed" NsiMessage.reserve_commit_failed operation
      else if local == "reserveCommitConfirmed"
      then parse_confirmed NsiMessage.reserve_commit_confirmed operation
      else if local == "provisionConfirmed"
      then parse_confirmed NsiMessage.provision_confirmed operation
      else if local == "dataPlaneStateChange"
      then parse_change operation
      else if local == "errorEvent"
      then parse_event operation
      else if local == "releaseConfirmed"
      then parse_confirmed NsiMessage.release_confirmed operation
      else if local == "terminateConfirmed"
      then parse_confirmed NsiMessage.terminate_confirmed operation
      else if local == "acknowledgment"
      then value NsiMessage.acknowledgment
      else if local == "queryRecursiveConfirmed"
      then parse_recursive operation
      else if local == "Fault"
      then parse_rejection operation
      else value_error ("Unknown NSI operation: '" <> local <> "'")

  -- `parse` and `parse_correlation_id` on a tree.
  unfoldable pub parse : Element → Parsed NsiMessage
  unfolding body_operation parse_operation
  parse root = do
    operation ← body_operation root
    local ← local_name etree operation
    parse_operation local operation

  unfoldable pub parse_correlation_id : Element → Parsed String
  parse_correlation_id root =
      head_or (etree.correlation_ids root) (value_error "correlationId not found in SOAP nsiHeader")

  abbrev pub check_name : String → String → Element → Parsed Element
  check_name name local confirmed =
      if local == name
      then value confirmed
      else value_error ("Expected " <> name <> ", got '" <> local <> "'")

  -- The operation of a synchronous answer, if it is the one that is expected.
  unfoldable pub expected : String → Content → Parsed Element
  unfolding body_operation
  expected name content = do
    root ← rooted (etree.fromstring content)
    confirmed ← body_operation root
    local ← local_name etree confirmed
    check_name name local confirmed

  unfoldable pub parse_query_summary_sync : Content → Parsed (List QueryReservation)
  unfolding expected parse_reservations
  parse_query_summary_sync content = do
    confirmed ← expected "querySummarySyncConfirmed" content
    parse_reservations etree confirmed

  unfoldable pub parse_query_notification_sync : Content → Parsed Notifications
  unfolding expected read_all parse_error_event parse_data_plane_state_change
  parse_query_notification_sync content = do
    confirmed ← expected "queryNotificationSyncConfirmed" content
    events ← read_all (parse_error_event etree) (etree.findall confirmed (in_ctypes "errorEvent"))
    changes ←
        read_all (parse_data_plane_state_change etree)
          (etree.findall confirmed (in_ctypes "dataPlaneStateChange"))
    value (record { error_events = events; data_plane_changes = changes })

  unfoldable pub parse_query_result_sync : Content → Parsed (List OperationResult)
  unfolding expected read_all parse_result_element
  parse_query_result_sync content = do
    confirmed ← expected "queryResultSyncConfirmed" content
    read_all (parse_result_element etree) (etree.findall confirmed (plain "result"))

  unfoldable pub parse_bytes : Content → Parsed NsiMessage
  unfolding parse
  parse_bytes content = do root ← rooted (etree.fromstring content); parse root

  -- The parsers as the router calls them, on bytes.
  unfoldable pub soap : Soap
  unfolding parse_bytes parse_query_summary_sync parse_query_notification_sync
      parse_query_result_sync
  soap = record {
    parse = parse_bytes;
    parse_query_summary_sync = parse_query_summary_sync;
    parse_query_notification_sync = parse_query_notification_sync;
    parse_query_result_sync = parse_query_result_sync;
  }
