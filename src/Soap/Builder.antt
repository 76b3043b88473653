-- ===== src/Soap/Builder.antt =====
-- aggregator_proxy/nsi_soap/builder.py: the envelopes. Each is the tree that `_serialize` is given.
pub mod Addressing
pub mod Route
pub mod RoundTrip
use nsi_aggregator_proxy.Common.{str, ℕ, suc, String, Option, none, some, List, [], ◌∷◌, ◌++◌}
use nsi_aggregator_proxy.Runtime.{Request}
use nsi_aggregator_proxy.Soap.Etree.{plain, in_soapenv, in_headers, in_ctypes, in_p2p}
use nsi_aggregator_proxy.Soap.Messages.{NsiHeader}
use nsi_aggregator_proxy.Soap.Tree.{Tree, node, forest, leaf, branch}

abbrev pub protocol_version : String
protocol_version = "application/vnd.ogf.nsi.cs.v2.provider+soap"

abbrev pub requester_protocol_version : String
requester_protocol_version = "application/vnd.ogf.nsi.cs.v2.requester+soap"

-- `if text is not None: etree.SubElement(parent, name).text = text`
abbrev pub optional : String → Option String → List Tree
optional name none = []
optional name (some text) = leaf (plain name) text ∷ []

unfoldable pub header_fields : NsiHeader → String → List Tree
header_fields header version =
    leaf (plain "protocolVersion") version
    ∷ leaf (plain "correlationId") header.correlation_id
    ∷ leaf (plain "requesterNSA") header.requester_nsa
    ∷ leaf (plain "providerNSA") header.provider_nsa
    ∷ optional "replyTo" header.reply_to

-- `_build_envelope`, with what the caller puts into the body.
unfoldable pub build_envelope : NsiHeader → String → List Tree → Tree
unfolding header_fields
build_envelope header version content = branch (in_soapenv "Envelope") (
    branch (in_soapenv "Header")
      (branch (in_headers "nsiHeader") (header_fields header version) ∷ [])
    ∷ branch (in_soapenv "Body") content
    ∷ [])

unfoldable pub build_acknowledgment : NsiHeader → Tree
unfolding build_envelope
build_acknowledgment header =
    build_envelope header requester_protocol_version (branch (in_ctypes "acknowledgment") [] ∷ [])

unfoldable pub build_soap_fault : String → String → Tree
build_soap_fault faultstring faultcode = branch (in_soapenv "Envelope") (
    branch (in_soapenv "Body") (
      branch (in_soapenv "Fault")
        (leaf (plain "faultcode") faultcode ∷ leaf (plain "faultstring") faultstring ∷ [])
      ∷ [])
    ∷ [])

-- `for order, stp in enumerate(ero)`
unfoldable pub ordered_stps : ℕ → List String → List Tree
ordered_stps order [] = []
ordered_stps order (stp ∷ stps) =
    node (plain "orderedSTP") (("order", str order) ∷ []) "" (forest (leaf (plain "stp") stp ∷ []))
    ∷ ordered_stps (suc order) stps

-- `if ero:`
abbrev pub ero_element : Option (List String) → List Tree
ero_element none = []
ero_element (some []) = []
ero_element (some (stp ∷ stps)) = branch (plain "ero") (ordered_stps 0 (stp ∷ stps)) ∷ []

unfoldable pub build_reserve :
    NsiHeader
    → Option String
    → String
    → ℕ
    → String
    → String
    → String
    → String
    → String
    → Option (List String)
    → Tree
unfolding build_envelope ordered_stps
build_reserve header global_reservation_id description capacity source_stp dest_stp start_time
      end_time service_type ero =
    build_envelope header protocol_version (
      branch (in_ctypes "reserve") (
        optional "globalReservationId" global_reservation_id
        ++ leaf (plain "description") description
          ∷ node (plain "criteria") (("version", "1") ∷ []) "" (
              forest (
                branch (plain "schedule")
                  (leaf (plain "startTime") start_time ∷ leaf (plain "endTime") end_time ∷ [])
                ∷ leaf (plain "serviceType") service_type
                ∷ branch (in_p2p "p2ps") (
                    leaf (plain "capacity") (str capacity)
                    ∷ leaf (plain "directionality") "Bidirectional"
                    ∷ leaf (plain "symmetricPath") "true"
                    ∷ leaf (plain "sourceSTP") source_stp
                    ∷ leaf (plain "destSTP") dest_stp
                    ∷ ero_element ero)
                ∷ []))
          ∷ [])
      ∷ [])

unfoldable pub build_connection_id_operation : NsiHeader → String → String → Tree
unfolding build_envelope
build_connection_id_operation header operation_tag connection_id =
    build_envelope header protocol_version
      (branch (in_ctypes operation_tag) (leaf (plain "connectionId") connection_id ∷ []) ∷ [])

unfoldable pub build_reserve_commit : NsiHeader → String → Tree
unfolding build_connection_id_operation
build_reserve_commit header = build_connection_id_operation header "reserveCommit"

unfoldable pub build_provision : NsiHeader → String → Tree
unfolding build_connection_id_operation
build_provision header = build_connection_id_operation header "provision"

unfoldable pub build_release : NsiHeader → String → Tree
unfolding build_connection_id_operation
build_release header = build_connection_id_operation header "release"

unfoldable pub build_terminate : NsiHeader → String → Tree
unfolding build_connection_id_operation
build_terminate header = build_connection_id_operation header "terminate"

unfoldable pub build_optional_connection_id_operation : NsiHeader → String → Option String → Tree
unfolding build_envelope
build_optional_connection_id_operation header operation_tag connection_id =
    build_envelope header protocol_version
      (branch (in_ctypes operation_tag) (optional "connectionId" connection_id) ∷ [])

unfoldable pub build_query_summary_sync : NsiHeader → Option String → Option String → Tree
unfolding build_envelope
build_query_summary_sync header connection_id global_reservation_id =
    build_envelope header protocol_version (
      branch (in_ctypes "querySummarySync") (
        optional "connectionId" connection_id
        ++ optional "globalReservationId" global_reservation_id)
      ∷ [])

unfoldable pub build_query_recursive : NsiHeader → Option String → Tree
unfolding build_optional_connection_id_operation
build_query_recursive header = build_optional_connection_id_operation header "queryRecursive"

unfoldable pub build_query_notification_sync : NsiHeader → String → Tree
unfolding build_envelope
build_query_notification_sync header connection_id = build_envelope header protocol_version (
    branch (in_ctypes "queryNotificationSync") (
      leaf (plain "connectionId") connection_id
      ∷ leaf (plain "startNotificationId") "1"
      ∷ leaf (plain "endNotificationId") "2147483647"
      ∷ [])
    ∷ [])

unfoldable pub build_query_result_sync : NsiHeader → Option String → Tree
unfolding build_optional_connection_id_operation
build_query_result_sync header = build_optional_connection_id_operation header "queryResultSync"

-- The envelope of a request, by the builder that its caller names.
unfoldable pub build : Request → Tree
unfolding build_reserve build_reserve_commit build_provision build_release build_terminate
    build_query_summary_sync build_query_recursive build_query_notification_sync
    build_query_result_sync
build
      (Request.reserve header global_reservation_id description capacity source_stp dest_stp
        start_time end_time service_type ero) =
    build_reserve header global_reservation_id description capacity source_stp dest_stp start_time
      end_time service_type ero
build (Request.reserve_commit header connection_id) = build_reserve_commit header connection_id
build (Request.provision header connection_id) = build_provision header connection_id
build (Request.release header connection_id) = build_release header connection_id
build (Request.terminate header connection_id) = build_terminate header connection_id
build (Request.query_summary_sync header connection_id global_reservation_id) =
    build_query_summary_sync header connection_id global_reservation_id
build (Request.query_recursive header connection_id) = build_query_recursive header connection_id
build (Request.query_notification_sync header connection_id) =
    build_query_notification_sync header connection_id
build (Request.query_result_sync header connection_id) =
    build_query_result_sync header connection_id
