-- ===== src/NsiCallback.antt =====
-- aggregator_proxy/routers/nsi_callback.py: the endpoint for the aggregator's SOAP callbacks.
-- `etree.fromstring` and the two parsers of a tree are parameters; the log lines are left out.
pub mod Answers
pub mod Dispatch
pub mod Confirmed
mod Tests
use nsi_aggregator_proxy.Common.{ℕ, String, Bool, ◌||◌, Option, none, some}
use nsi_aggregator_proxy.Runtime.{Settings, Content, Parsed, value, value_error}
use nsi_aggregator_proxy.Soap.Messages.{NsiMessage, NsiHeader}
use nsi_aggregator_proxy.Store.{ReservationStore, resolve_pending, resolve_pending_by_connection}

-- A SOAP Fault, or an acknowledgment with the header that it is built from.
pub data CallbackResponse : Type 0 where
  soap_fault_response : (faultstring : String) (status_code : ℕ) → CallbackResponse
  acknowledgment_response : NsiHeader → CallbackResponse

-- A notification carries the aggregator's own correlation id, so it is matched by connection too.
unfoldable pub dispatch : String → NsiMessage → ReservationStore → Bool × ReservationStore
dispatch correlation_id (NsiMessage.data_plane_state_change change) s =
    let message = NsiMessage.data_plane_state_change change in
    let (found, s') = resolve_pending correlation_id message s in
    let (found', s'') = resolve_pending_by_connection change.connection_id message s' in
    (found' || found, s'')
dispatch correlation_id (NsiMessage.error_event event) s =
    let message = NsiMessage.error_event event in
    let (found, s') = resolve_pending correlation_id message s in
    let (found', s'') = resolve_pending_by_connection event.connection_id message s' in
    (found' || found, s'')
dispatch correlation_id message s = resolve_pending correlation_id message s

module _ (settings : Settings) {Element : Type 0} (fromstring : Content → Option Element)
    (parse_correlation_id : Element → Parsed String) (parse : Element → Parsed NsiMessage) where
  abbrev pub acknowledge : String → CallbackResponse
  acknowledge correlation_id = acknowledgment_response (record {
    requester_nsa = settings.requester_nsa;
    provider_nsa = settings.provider_nsa;
    reply_to = none;
    correlation_id = correlation_id;
  })

  abbrev pub handle_parsed :
      Parsed String → Parsed NsiMessage → ReservationStore → CallbackResponse × ReservationStore
  handle_parsed (value_error text) message s = (soap_fault_response text 400, s)
  handle_parsed (value correlation_id) (value_error text) s = (soap_fault_response text 400, s)
  handle_parsed (value correlation_id) (value message) s =
      (acknowledge correlation_id, (dispatch correlation_id message s).1)

  abbrev pub handle_root : Option Element → ReservationStore → CallbackResponse × ReservationStore
  handle_root none s = (soap_fault_response "Malformed XML in NSI callback" 400, s)
  handle_root (some root) s = handle_parsed (parse_correlation_id root) (parse root) s

  unfoldable pub nsi_callback : Content → ReservationStore → CallbackResponse × ReservationStore
  nsi_callback body s = handle_root (fromstring body) s
