-- ===== src/Soap/Tests.antt =====
-- The theorems on the builder and the parser, at small envelopes.
use nsi_aggregator_proxy.Common.Dict
use nsi_aggregator_proxy.Common.{String, ◌≡◌, refl, true, Option, none, some, [], ◌∷◌}
use nsi_aggregator_proxy.Runtime.{Request, Content, value}
use nsi_aggregator_proxy.Soap.Builder.{build_reserve, build}
use nsi_aggregator_proxy.Soap.Builder.Addressing.{IsFrom, Asks, build-IsFrom-Asks}
use nsi_aggregator_proxy.Soap.Builder.Route.{
  reserve_text, route, asked_route, IsLink, build_reserve_lem,
}
use nsi_aggregator_proxy.Soap.Etree.{plain, in_soapenv, in_ctypes, in_p2p, local_name}
use nsi_aggregator_proxy.Soap.Etree.Laws.{Pairwise}
use nsi_aggregator_proxy.Soap.Messages.{ConnectionStates, QueryReservation, NsiMessage, NsiHeader}
use nsi_aggregator_proxy.Soap.Parser.{body_operation, parse, expected, parse_query_summary_sync}
use nsi_aggregator_proxy.Soap.Parser.Answers.{IsReservation, parse_query_summary_sync-IsReservation}
use nsi_aggregator_proxy.Soap.Parser.Kinds.{IsOf, parse-IsOf}
use nsi_aggregator_proxy.Soap.Tree.{Tree, node, forest, leaf, branch}
use nsi_aggregator_proxy.Soap.Tree.Sample.{tree_etree}

abbrev in_envelope : Tree → Tree
in_envelope operation =
    branch (in_soapenv "Envelope") (branch (in_soapenv "Body") (operation ∷ []) ∷ [])

abbrev confirmed : Tree
confirmed = branch (in_ctypes "provisionConfirmed") (leaf (plain "connectionId") "c1" ∷ [])

abbrev nothing_read : Content → Option Tree
nothing_read content = none

confirmed_parsed :
    parse (tree_etree nothing_read) (in_envelope confirmed)
    ≡ value (NsiMessage.provision_confirmed "c1")
unfolding parse
confirmed_parsed = refl

parse-IsOf_example :
    (operation : Tree) × (local : String) × (body_operation
        (tree_etree nothing_read)
        (in_envelope confirmed)
      ≡ value operation)
    × (local_name (tree_etree nothing_read) operation ≡ value local)
    × IsOf (tree_etree nothing_read) local operation (NsiMessage.provision_confirmed "c1")
parse-IsOf_example =
    parse-IsOf (tree_etree nothing_read) (in_envelope confirmed)
      (NsiMessage.provision_confirmed "c1") confirmed_parsed

-- An exception with one child exception.
abbrev child_exception : Tree
child_exception = branch (plain "childException") (
    leaf (plain "nsaId") "urn:upa" ∷ leaf (plain "errorId") "00704" ∷ leaf (plain "text") "no" ∷ [])

abbrev top_exception : Tree
top_exception = branch (plain "serviceException") (
    leaf (plain "nsaId") "urn:agg"
    ∷ leaf (plain "errorId") "00700"
    ∷ leaf (plain "text") "failed"
    ∷ child_exception
    ∷ [])

-- A summary with one reservation, which has one path segment.
abbrev states : Tree
states = branch (plain "connectionStates") (
    leaf (plain "reservationState") "ReserveStart"
    ∷ leaf (plain "provisionState") "Provisioned"
    ∷ leaf (plain "lifecycleState") "Created"
    ∷ branch (plain "dataPlaneStatus") (leaf (plain "active") "true" ∷ [])
    ∷ [])

abbrev segment : Tree
segment = node (plain "child") (("order", "3") ∷ []) "" (
    forest (
      leaf (plain "connectionId") "c9"
      ∷ leaf (plain "providerNSA") "urn:upa"
      ∷ branch (in_p2p "p2ps") (leaf (plain "capacity") "7" ∷ leaf (plain "sourceSTP") "a" ∷ [])
      ∷ []))

abbrev reservation : Tree
reservation = branch (plain "reservation") (
    leaf (plain "connectionId") "c1"
    ∷ states
    ∷ branch (plain "criteria") (
        branch (in_p2p "p2ps") (leaf (plain "capacity") "10" ∷ [])
        ∷ branch (plain "children") (segment ∷ [])
        ∷ [])
    ∷ [])

abbrev summary_answer : Tree
summary_answer = branch (in_ctypes "querySummarySyncConfirmed") (reservation ∷ [])

abbrev answered : Content → Option Tree
answered content = some (in_envelope summary_answer)

abbrev up : ConnectionStates
up = record {
  reservation_state = "ReserveStart";
  provision_state = "Provisioned";
  lifecycle_state = "Created";
  data_plane_active = true;
}

abbrev read_reservation : QueryReservation
read_reservation = record {
  connection_id = "c1";
  global_reservation_id = none;
  description = "";
  requester_nsa = "";
  connection_states = up;
  criteria_version = some 1;
  service_type = none;
  capacity = some 10;
  source_stp = none;
  dest_stp = none;
  start_time = none;
  children = some (
      (record {
        order = 3;
        connection_id = "c9";
        provider_nsa = "urn:upa";
        service_type = none;
        capacity = some 7;
        source_stp = some "a";
        dest_stp = none;
        connection_states = none;
      })
      ∷ []);
}

summary_found : expected (tree_etree answered) "querySummarySyncConfirmed" [] ≡ value summary_answer
unfolding expected
summary_found = refl

summary_parsed : parse_query_summary_sync (tree_etree answered) [] ≡ value (read_reservation ∷ [])
unfolding parse_query_summary_sync Dict.lookup
summary_parsed = refl

parse_query_summary_sync-IsReservation_example :
    Pairwise (IsReservation (tree_etree answered)) (reservation ∷ []) (read_reservation ∷ [])
parse_query_summary_sync-IsReservation_example =
    parse_query_summary_sync-IsReservation (tree_etree answered) [] summary_answer
      (read_reservation ∷ []) summary_found summary_parsed

abbrev sample_header : NsiHeader
sample_header = record {
  requester_nsa = "urn:nsa:proxy";
  provider_nsa = "urn:nsa:aggregator";
  reply_to = some "https://proxy/callback";
  correlation_id = "urn:uuid:1";
}

build-IsFrom-Asks_example :
    IsFrom sample_header (build (Request.provision sample_header "c1"))
    × Asks "provision" (some "c1") (build (Request.provision sample_header "c1"))
build-IsFrom-Asks_example = build-IsFrom-Asks (Request.provision sample_header "c1")

build_reserve_lem_example :
    let envelope =
      build_reserve sample_header
        (some "g1")
        "link"
        100
        "a"
        "b"
        "t0"
        "t1"
        "evts"
        (some ("m" ∷ "n" ∷ [])) in
    IsLink sample_header "link" 100 "a" "b" "t0" "t1" "evts" envelope
    × (reserve_text "globalReservationId" envelope ≡ some "g1")
    × (route envelope ≡ asked_route (some ("m" ∷ "n" ∷ [])))
build_reserve_lem_example =
    build_reserve_lem sample_header "link" 100 "a" "b" "t0" "t1" "evts" (some "g1")
      (some ("m" ∷ "n" ∷ []))
