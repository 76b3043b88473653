-- ===== src/Reservations/Errors.antt =====
-- The texts that routers/reservations.py makes of the aggregator's exceptions and error events.
pub mod Laws
use mathlib.Core.Option
use nsi_aggregator_proxy.Common.{
  ltb, ◌<>◌, join, max_by, String, Bool, Option, none, some, List, [], ◌∷◌, ◌++◌, map,
}
use nsi_aggregator_proxy.Soap.Messages.{
  Variable, ServiceException, exception, ChildExceptions, absent, present, ExceptionList, nil, cons,
  ErrorEvent, NsiMessage, type_name,
}

-- `not exc.child_exceptions`: `None` and the empty list alike.
unfoldable mutual
  pub root_causes : ServiceException → List ServiceException
  root_causes (exception nsa connection error text variables children) =
      causes_below children (exception nsa connection error text variables children)

  -- The causes among the children, or the exception itself where it has none.
  pub causes_below : ChildExceptions → ServiceException → List ServiceException
  causes_below absent self = self ∷ []
  causes_below (present nil) self = self ∷ []
  causes_below (present (cons child others)) self = root_causes child ++ causes_of others

  pub causes_of : ExceptionList → List ServiceException
  causes_of nil = []
  causes_of (cons child others) = root_causes child ++ causes_of others

abbrev pub child_list : ChildExceptions → ExceptionList
child_list absent = nil
child_list (present children) = children

abbrev pub variable_list : Option (List Variable) → List Variable
variable_list none = []
variable_list (some variables) = variables

unfoldable pub format_variables : Option (List Variable) → String → List String
format_variables variables indent =
    map (λ v. indent <> v.kind <> "=" <> v.value) (variable_list variables)

abbrev pub error_line : String → String → String → String
error_line error_id text nsa_id = "[" <> error_id <> "] " <> text <> " (nsaId=" <> nsa_id <> ")"

abbrev pub child_lines : ExceptionList → List String
child_lines nil = []
child_lines (cons (exception nsa connection error text variables children) others) =
    ("  child " <> error_line error text nsa)
    ∷ (format_variables variables "    " ++ child_lines others)

unfoldable pub format_service_exception : ServiceException → String
format_service_exception (exception nsa connection error text variables children) = join "\n" (
    error_line error text nsa
    ∷ (format_variables variables "  " ++ child_lines (child_list children)))

abbrev pub cause_text : ServiceException → String
cause_text (exception nsa connection error text variables children) =
    error <> ": " <> text <> " (nsaId=" <> nsa <> ")"

abbrev pub event_text : String → String → Option ServiceException → String
event_text event originating_nsa none = event <> " (originatingNSA=" <> originating_nsa <> ")"
event_text event originating_nsa (some exc) =
    event <> ": " <> join "; " (map cause_text (root_causes exc))

unfoldable pub format_error_event : ErrorEvent → String
format_error_event e = event_text e.event e.originating_nsa e.service_exception

abbrev pub later_event : ErrorEvent → ErrorEvent → Bool
later_event a b = ltb b.notification_id a.notification_id

unfoldable pub format_last_error : List ErrorEvent → Option String
format_last_error error_events = Option.map format_error_event (max_by later_event error_events)

abbrev pub fault_detail : String → Option ServiceException → String
fault_detail text none = "Aggregator returned a SOAP Fault: " <> text
fault_detail text (some (exception nsa connection error exc_text variables children)) =
    "Aggregator returned a SOAP Fault: " <> text <> " (" <> error <> ": " <> exc_text <> ")"

unfoldable pub sync_failure_detail : NsiMessage → String
sync_failure_detail (NsiMessage.soap_fault fault) =
    fault_detail fault.fault_string fault.service_exception
sync_failure_detail message = "Unexpected sync response from aggregator: " <> type_name message
