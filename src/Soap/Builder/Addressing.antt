-- ===== src/Soap/Builder/Addressing.antt =====
-- Whom the envelope of a request is addressed to, and what it asks.
use mathlib.Core.Option
use nsi_aggregator_proxy.Common.{first, String, ◌≡◌, refl, Option, none, some, List, [], ◌∷◌}
use nsi_aggregator_proxy.Runtime.{Request}
use nsi_aggregator_proxy.Soap.Builder.{optional, header_fields, build}
use nsi_aggregator_proxy.Soap.Etree.{QName, plain, in_soapenv, in_headers, in_ctypes}
use nsi_aggregator_proxy.Soap.Messages.{NsiHeader}
use nsi_aggregator_proxy.Soap.Tree.{
  children_of, Tree, node, Forest, leafless, grow, forest, trees, branch, tag_of, text_of, has_tag,
  child, child_text,
}

-- The element of a path of tags.
abbrev pub descend : List QName → Option Tree → Option Tree
descend tags none = none
descend [] (some t) = some t
descend (tag ∷ tags) (some t) = descend tags (child tag t)

abbrev pub text_at : List QName → Tree → Option String
text_at tags t = Option.map text_of (descend tags (some t))

abbrev pub header_text : String → Tree → Option String
header_text name = text_at (in_soapenv "Header" ∷ in_headers "nsiHeader" ∷ plain name ∷ [])

-- The operation that a request asks for, as the NSI schema names it, its header, and the connection
-- that it is about.
abbrev pub operation_name : Request → String
operation_name (Request.reserve _ _ _ _ _ _ _ _ _ _) = "reserve"
operation_name (Request.reserve_commit _ _) = "reserveCommit"
operation_name (Request.provision _ _) = "provision"
operation_name (Request.release _ _) = "release"
operation_name (Request.terminate _ _) = "terminate"
operation_name (Request.query_summary_sync _ _ _) = "querySummarySync"
operation_name (Request.query_recursive _ _) = "queryRecursive"
operation_name (Request.query_notification_sync _ _) = "queryNotificationSync"
operation_name (Request.query_result_sync _ _) = "queryResultSync"

abbrev pub header_of : Request → NsiHeader
header_of (Request.reserve header _ _ _ _ _ _ _ _ _) = header
header_of (Request.reserve_commit header _) = header
header_of (Request.provision header _) = header
header_of (Request.release header _) = header
header_of (Request.terminate header _) = header
header_of (Request.query_summary_sync header _ _) = header
header_of (Request.query_recursive header _) = header
header_of (Request.query_notification_sync header _) = header
header_of (Request.query_result_sync header _) = header

abbrev pub requested_connection : Request → Option String
requested_connection (Request.reserve _ _ _ _ _ _ _ _ _ _) = none
requested_connection (Request.reserve_commit _ connection_id) = some connection_id
requested_connection (Request.provision _ connection_id) = some connection_id
requested_connection (Request.release _ connection_id) = some connection_id
requested_connection (Request.terminate _ connection_id) = some connection_id
requested_connection (Request.query_summary_sync _ connection_id _) = connection_id
requested_connection (Request.query_recursive _ connection_id) = connection_id
requested_connection (Request.query_notification_sync _ connection_id) = some connection_id
requested_connection (Request.query_result_sync _ connection_id) = connection_id

-- The header of an envelope says what an `NsiHeader` holds.
pub record IsFrom (header : NsiHeader) (envelope : Tree) : Type 0 where
  pub correlation_id : header_text "correlationId" envelope ≡ some header.correlation_id
  pub requester_nsa : header_text "requesterNSA" envelope ≡ some header.requester_nsa
  pub provider_nsa : header_text "providerNSA" envelope ≡ some header.provider_nsa
  pub reply_to : header_text "replyTo" envelope ≡ header.reply_to

-- An envelope with any body below the header that `_build_envelope` writes.
header-IsFrom :
    (header : NsiHeader) (version : String) (body : Tree)
    → IsFrom header (
        branch (in_soapenv "Envelope") (
          branch
            (in_soapenv "Header")
            (branch (in_headers "nsiHeader") (header_fields header version) ∷ [])
          ∷ body
          ∷ []))
unfolding header_fields
header-IsFrom header version body = record {
  correlation_id = refl;
  requester_nsa = refl;
  provider_nsa = refl;
  reply_to = replied (header.reply_to);
}
  where
    replied :
        (reply_to : Option String)
        → Option.map text_of (
            Option.map
              (λ t. t)
              (first (has_tag (plain "replyTo")) (trees (forest (optional "replyTo" reply_to)))))
          ≡ reply_to
    replied none = refl
    replied (some url) = refl

-- A body has one operation, and it is about the connection.
pub record Asks (name : String) (connection_id : Option String) (envelope : Tree) : Type 0 where
  pub body : Tree
  pub operation : Tree
  pub found : child (in_soapenv "Body") envelope ≡ some body
  pub only : children_of body ≡ operation ∷ []
  pub named : tag_of operation ≡ in_ctypes name
  pub about : child_text (plain "connectionId") operation ≡ connection_id

operation-Asks :
    (header : Forest) (name : String) (content : Forest) {connection_id : Option String}
    → child_text (plain "connectionId") (node (in_ctypes name) [] "" content) ≡ connection_id
    → Asks name connection_id (
        branch (in_soapenv "Envelope") (
          node (in_soapenv "Header") [] "" header
          ∷ node (in_soapenv "Body") [] "" (grow (node (in_ctypes name) [] "" content) leafless)
          ∷ []))
operation-Asks header name content about = record {
  body = node (in_soapenv "Body") [] "" (grow (node (in_ctypes name) [] "" content) leafless);
  operation = node (in_ctypes name) [] "" content;
  found = refl;
  only = refl;
  named = refl;
  about = about;
}

-- The envelope of a request says who sends it, whom it is for, where an answer goes and its
-- correlation id, as its header holds them. Its body has one element: the NSI operation of the
-- request, which names the request's connection, and none where the request names none.
pub build-IsFrom-Asks :
    (request : Request)
    → IsFrom (header_of request) (build request)
      × Asks (operation_name request) (requested_connection request) (build request)
unfolding build
build-IsFrom-Asks
      (Request.reserve header none description capacity source_stp dest_stp start_time end_time
        service_type ero) =
    (header-IsFrom header _ _, operation-Asks _ _ _ refl)
build-IsFrom-Asks
      (Request.reserve header
        (some g)
        description
        capacity
        source_stp
        dest_stp
        start_time
        end_time
        service_type
        ero) =
    (header-IsFrom header _ _, operation-Asks _ _ _ refl)
build-IsFrom-Asks (Request.reserve_commit header connection_id) =
    (header-IsFrom header _ _, operation-Asks _ _ _ refl)
build-IsFrom-Asks (Request.provision header connection_id) =
    (header-IsFrom header _ _, operation-Asks _ _ _ refl)
build-IsFrom-Asks (Request.release header connection_id) =
    (header-IsFrom header _ _, operation-Asks _ _ _ refl)
build-IsFrom-Asks (Request.terminate header connection_id) =
    (header-IsFrom header _ _, operation-Asks _ _ _ refl)
build-IsFrom-Asks (Request.query_summary_sync header none none) =
    (header-IsFrom header _ _, operation-Asks _ _ _ refl)
build-IsFrom-Asks (Request.query_summary_sync header none (some g)) =
    (header-IsFrom header _ _, operation-Asks _ _ _ refl)
build-IsFrom-Asks (Request.query_summary_sync header (some connection_id) global_reservation_id) =
    (header-IsFrom header _ _, operation-Asks _ _ _ refl)
build-IsFrom-Asks (Request.query_recursive header none) =
    (header-IsFrom header _ _, operation-Asks _ _ _ refl)
build-IsFrom-Asks (Request.query_recursive header (some connection_id)) =
    (header-IsFrom header _ _, operation-Asks _ _ _ refl)
build-IsFrom-Asks (Request.query_notification_sync header connection_id) =
    (header-IsFrom header _ _, operation-Asks _ _ _ refl)
build-IsFrom-Asks (Request.query_result_sync header none) =
    (header-IsFrom header _ _, operation-Asks _ _ _ refl)
build-IsFrom-Asks (Request.query_result_sync header (some connection_id)) =
    (header-IsFrom header _ _, operation-Asks _ _ _ refl)
