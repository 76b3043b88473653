-- ===== src/Soap/Parser/Queries.antt =====
-- aggregator_proxy/nsi_soap/parser.py: the readers of the parts of a query's answer.
use nsi_aggregator_proxy.Common.{
  or_else, ◌==◌, ◌<>◌, text_or, first, ℕ, String, Bool, false, Option, none, some, List, [],
}
use nsi_aggregator_proxy.Runtime.{Parsed, value, value_error}
use nsi_aggregator_proxy.Soap.Etree.{
  ◌>>=◌, QName, plain, nsi_ctypes, in_p2p, Etree, read_all, read_optional, found_or, local_name,
  require, require_int, require_flag,
}
use nsi_aggregator_proxy.Soap.Messages.{
  ConnectionStates, ChildSegment, QueryReservation, OperationResult,
}
use nsi_aggregator_proxy.Soap.Parser.Exceptions.{list_or_none}

module _ {Element : Type 0} (etree : Etree Element) where
  unfoldable pub parse_connection_states : Element → String → Parsed ConnectionStates
  unfolding require require_flag
  parse_connection_states parent context = do
    states ←
        found_or (etree.find parent (plain "connectionStates"))
          (value_error ("<connectionStates> not found for " <> context))
    status ←
        found_or (etree.find states (plain "dataPlaneStatus"))
          (value_error ("<dataPlaneStatus> not found for " <> context))
    reservation_state ← require etree states "reservationState"
    provision_state ← require etree states "provisionState"
    lifecycle_state ← require etree states "lifecycleState"
    up ← require_flag etree status "active"
    value (record {
      reservation_state = reservation_state;
      provision_state = provision_state;
      lifecycle_state = lifecycle_state;
      data_plane_active = up;
    })

  -- `element.findtext(name) if element is not None else None`
  abbrev pub text_in : Option Element → String → Option String
  text_in none name = none
  text_in (some element) name = etree.findtext element (plain name)

  abbrev pub find_in : Option Element → QName → Option Element
  find_in none name = none
  find_in (some element) name = etree.find element name

  -- The `<p2ps>` of a child, its own or that of its criteria.
  abbrev pub own_or_criteria : Option Element → Option Element → Option Element
  own_or_criteria none criteria = find_in criteria (in_p2p "p2ps")
  own_or_criteria (some p2ps) criteria = some p2ps

  abbrev pub child_p2ps : Element → Option Element
  child_p2ps child =
      own_or_criteria (etree.find child (in_p2p "p2ps")) (etree.find child (plain "criteria"))

  abbrev pub child_states : Element → Option Element → Parsed (Option ConnectionStates)
  child_states child none = value none
  child_states child (some _) = do
    states ← parse_connection_states child ("child " <> or_else (etree.get child "order") "?")
    value (some states)

  unfoldable pub parse_child_element : Element → Parsed ChildSegment
  unfolding require parse_connection_states
  parse_child_element child = do
    states ← child_states child (etree.find child (plain "connectionStates"))
    order ← etree.int (or_else (etree.get child "order") "0")
    connection_id ← require etree child "connectionId"
    provider_nsa ← require etree child "providerNSA"
    capacity ← read_optional (etree.int) (text_in (child_p2ps child) "capacity")
    value (record {
      order = order;
      connection_id = connection_id;
      provider_nsa = provider_nsa;
      service_type = etree.findtext child (plain "serviceType");
      capacity = capacity;
      source_stp = text_in (child_p2ps child) "sourceSTP";
      dest_stp = text_in (child_p2ps child) "destSTP";
      connection_states = states;
    })

  abbrev pub read_version : Option Element → Parsed (Option ℕ)
  read_version none = value none
  read_version (some criteria) = do
    version ← etree.int (or_else (etree.get criteria "version") "1")
    value (some version)

  abbrev pub child_elements : Option Element → List Element
  child_elements none = []
  child_elements (some children) = etree.findall children (plain "child")

  unfoldable pub parse_reservation_element : Element → Parsed QueryReservation
  unfolding require read_all parse_connection_states parse_child_element
  parse_reservation_element element = do
    connection_id ← require etree element "connectionId"
    states ← parse_connection_states element ("reservation " <> connection_id)
    let criteria = etree.find element (plain "criteria")
    version ← read_version criteria
    let p2ps = find_in criteria (in_p2p "p2ps")
    capacity ← read_optional (etree.int) (text_in p2ps "capacity")
    children ← read_all (parse_child_element) (child_elements (find_in criteria (plain "children")))
    value (record {
      connection_id = connection_id;
      global_reservation_id = etree.findtext element (plain "globalReservationId");
      description = text_or (etree.findtext element (plain "description")) "";
      requester_nsa = text_or (etree.findtext element (plain "requesterNSA")) "";
      connection_states = states;
      criteria_version = version;
      service_type = text_in criteria "serviceType";
      capacity = capacity;
      source_stp = text_in p2ps "sourceSTP";
      dest_stp = text_in p2ps "destSTP";
      start_time = text_in (find_in criteria (plain "schedule")) "startTime";
      children = list_or_none children;
    })

  unfoldable pub parse_reservations : Element → Parsed (List QueryReservation)
  unfolding read_all parse_reservation_element
  parse_reservations confirmed =
      read_all (parse_reservation_element) (etree.findall confirmed (plain "reservation"))

  -- `isinstance(child.tag, str) and etree.QName(child).namespace == _C`
  abbrev pub has_ctypes : Option QName → Bool
  has_ctypes none = false
  has_ctypes (some name) = name.namespace == nsi_ctypes

  unfoldable pub parse_result_element : Element → Parsed OperationResult
  unfolding require require_int
  parse_result_element result = do
    operation ←
        found_or (first (λ child. has_ctypes (etree.tag child)) (etree.children result))
          (value_error "No NSI operation element found in <result>")
    result_id ← require_int etree result "resultId"
    timestamp ← require etree result "timeStamp"
    name ← local_name etree operation
    value (record {
      result_id = result_id;
      timestamp = timestamp;
      operation = name;
      connection_id = text_or (etree.findtext operation (plain "connectionId")) "";
    })
