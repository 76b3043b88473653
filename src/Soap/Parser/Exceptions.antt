-- ===== src/Soap/Parser/Exceptions.antt =====
-- aggregator_proxy/nsi_soap/parser.py: `_parse_service_exception`, `_parse_fault`,
-- `_parse_data_plane_state_change` and `_parse_error_event`. An exception is read to the height of
-- its element.
use nsi_aggregator_proxy.Common.{
  or_else, is_empty, text_or, keep, ℕ, zero, suc, Bool, not, ◌||◌, Option, none, some, List, [],
  ◌∷◌, map,
}
use nsi_aggregator_proxy.Runtime.{Parsed, value, value_error}
use nsi_aggregator_proxy.Soap.Etree.{
  ◌>>=◌, plain, Etree, read_all, read_optional, found_or, require, require_int, require_flag,
}
use nsi_aggregator_proxy.Soap.Messages.{
  Variable, ServiceException, ChildExceptions, ExceptionList, DataPlaneStateChange, ErrorEvent,
  SoapFault,
}

abbrev pub exception_list : List ServiceException → ExceptionList
exception_list [] = ExceptionList.nil
exception_list (x ∷ xs) = ExceptionList.cons x (exception_list xs)

-- `children or None`, `variables or None`
abbrev pub children_or_none : List ServiceException → ChildExceptions
children_or_none [] = ChildExceptions.absent
children_or_none (x ∷ xs) = ChildExceptions.present (exception_list (x ∷ xs))

abbrev pub list_or_none : {A : Type 0} → List A → Option (List A)
list_or_none [] = none
list_or_none (x ∷ xs) = some (x ∷ xs)

module _ {Element : Type 0} (etree : Etree Element) where
  unfoldable pub read_variable : Element → Variable
  read_variable element = record {
    kind = or_else (etree.get element "type") "";
    value = text_or (etree.findtext element (plain "value")) "";
  }

  abbrev pub is_told : Variable → Bool
  is_told v = not (is_empty v.kind) || not (is_empty v.value)

  abbrev pub variable_elements : Option Element → List Element
  variable_elements none = []
  variable_elements (some variables) = etree.findall variables (plain "variable")

  unfoldable pub read_variables : Element → List Variable
  unfolding read_variable
  read_variables element =
      keep is_told
        (map (read_variable) (variable_elements (etree.find element (plain "variables"))))

  -- One exception, by what its child exceptions are read with.
  unfoldable pub read_exception :
      (Element → Parsed ServiceException) → Element → Parsed ServiceException
  unfolding read_all require read_variables
  read_exception read element = do
    children ← read_all read (etree.findall element (plain "childException"))
    nsa_id ← require etree element "nsaId"
    error_id ← require etree element "errorId"
    text ← require etree element "text"
    value (
        ServiceException.exception nsa_id (etree.findtext element (plain "connectionId")) error_id
          text (list_or_none (read_variables element)) (children_or_none children))

  unfoldable pub exceptions_to : ℕ → Element → Parsed ServiceException
  unfolding read_exception
  exceptions_to zero element = value_error "maximum recursion depth exceeded"
  exceptions_to (suc depth) element = read_exception (exceptions_to depth) element

  unfoldable pub parse_service_exception : Element → Parsed ServiceException
  unfolding exceptions_to
  parse_service_exception element = exceptions_to (suc (etree.height element)) element

  abbrev pub fault_exception : Option Element → Option Element
  fault_exception none = none
  fault_exception (some detail) = etree.find_anywhere detail "serviceException"

  unfoldable pub parse_fault : Element → Parsed SoapFault
  unfolding parse_service_exception
  parse_fault element = do
    reason ←
        read_optional (parse_service_exception)
          (fault_exception (etree.find element (plain "detail")))
    value (record {
      fault_string = text_or (etree.findtext element (plain "faultstring")) "(no faultstring)";
      service_exception = reason;
    })

  unfoldable pub parse_data_plane_state_change : Element → Parsed DataPlaneStateChange
  unfolding require require_int require_flag
  parse_data_plane_state_change element = do
    status ←
        found_or (etree.find element (plain "dataPlaneStatus"))
          (value_error "<dataPlaneStatus> not found in dataPlaneStateChange")
    connection_id ← require etree element "connectionId"
    notification_id ← require_int etree element "notificationId"
    timestamp ← require etree element "timeStamp"
    up ← require_flag etree status "active"
    version ← require_int etree status "version"
    version_consistent ← require_flag etree status "versionConsistent"
    value (record {
      connection_id = connection_id;
      notification_id = notification_id;
      timestamp = timestamp;
      active = up;
      version = version;
      version_consistent = version_consistent;
    })

  unfoldable pub parse_error_event : Element → Parsed ErrorEvent
  unfolding require require_int parse_service_exception
  parse_error_event element = do
    connection_id ← require etree element "connectionId"
    notification_id ← require_int etree element "notificationId"
    timestamp ← require etree element "timeStamp"
    event ← require etree element "event"
    originating_connection_id ← require etree element "originatingConnectionId"
    originating_nsa ← require etree element "originatingNSA"
    reason ← read_optional (parse_service_exception) (etree.find element (plain "serviceException"))
    value (record {
      connection_id = connection_id;
      notification_id = notification_id;
      timestamp = timestamp;
      event = event;
      originating_connection_id = originating_connection_id;
      originating_nsa = originating_nsa;
      service_exception = reason;
    })
