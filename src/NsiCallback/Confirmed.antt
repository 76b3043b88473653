-- ===== src/NsiCallback/Confirmed.antt =====
-- A confirmation on its way from the aggregator's XML to the task that waits for it: through lxml,
-- the parsers of nsi_soap/parser.py, the callback endpoint and the store.
use nsi_aggregator_proxy.Common.{is_empty, ℕ, String, ◌≡◌, refl, false, some, [], ◌∷◌}
use nsi_aggregator_proxy.NsiCallback.{acknowledge, nsi_callback}
use nsi_aggregator_proxy.NsiCallback.Dispatch.{nsi_callback-Waits}
use nsi_aggregator_proxy.Providers.Reach.{told}
use nsi_aggregator_proxy.Runtime.{Settings, Content, value}
use nsi_aggregator_proxy.Soap.Builder.{requester_protocol_version, build_envelope}
use nsi_aggregator_proxy.Soap.Builder.RoundTrip.{parse_correlation_id-build_envelope}
use nsi_aggregator_proxy.Soap.Etree.{plain, in_soapenv, in_ctypes, Etree}
use nsi_aggregator_proxy.Soap.Messages.{NsiMessage, NsiHeader}
use nsi_aggregator_proxy.Soap.Parser.{parse, parse_correlation_id}
use nsi_aggregator_proxy.Soap.Tree.{Tree, leaf, branch}
use nsi_aggregator_proxy.Soap.Tree.Reading.{IsRead}
use nsi_aggregator_proxy.Store.{resolved, ReservationStore, future_at}
use nsi_aggregator_proxy.Store.Delivery.{Waits}

-- The confirmations that complete an operation, by the name of their element and by their class.
pub data Confirmation : Type 0 where
  committed provisioned released ended : Confirmation

abbrev pub element_name : Confirmation → String
element_name committed = "reserveCommitConfirmed"
element_name provisioned = "provisionConfirmed"
element_name released = "releaseConfirmed"
element_name ended = "terminateConfirmed"

abbrev pub message_of : Confirmation → String → NsiMessage
message_of committed = NsiMessage.reserve_commit_confirmed
message_of provisioned = NsiMessage.provision_confirmed
message_of released = NsiMessage.release_confirmed
message_of ended = NsiMessage.terminate_confirmed

abbrev pub operation_of : Confirmation → String → Tree
operation_of c connection_id =
    branch (in_ctypes (element_name c)) (leaf (plain "connectionId") connection_id ∷ [])

-- The document that the aggregator posts: an NSI header and a body with the confirmation.
unfoldable pub confirmation : NsiHeader → Confirmation → String → Tree
unfolding build_envelope
confirmation header c connection_id =
    build_envelope header requester_protocol_version (operation_of c connection_id ∷ [])

module _ {Element : Type 0} (etree : Etree Element) (element : Tree → Element)
    (read : IsRead etree element) where
  -- The way of parse to the operation and its connectionId.
  module _ (header : NsiHeader) (c : Confirmation) (connection_id : String) where
    abbrev operation : Tree
    operation = operation_of c connection_id

    has_body :
        etree.find (element (confirmation header c connection_id)) (in_soapenv "Body")
        ≡ some (element (branch (in_soapenv "Body") (operation ∷ [])))
    unfolding confirmation
    has_body = read.found (confirmation header c connection_id) (in_soapenv "Body")

    has_operation :
        etree.children (element (branch (in_soapenv "Body") (operation ∷ [])))
        ≡ element operation ∷ []
    has_operation = read.listed (branch (in_soapenv "Body") (operation ∷ []))

    has_name : etree.tag (element operation) ≡ some (in_ctypes (element_name c))
    has_name = read.tagged operation

    has_connection : etree.findtext (element operation) (plain "connectionId") ≡ some connection_id
    has_connection = read.found_text operation (plain "connectionId")

  parse-confirmation :
      (header : NsiHeader) (c : Confirmation) (connection_id : String)
      → parse etree (element (confirmation header c connection_id))
        ≡ value (message_of c connection_id)
  unfolding parse
  parse-confirmation header committed id =
      rw (has_body header committed id, has_operation header committed id)
        (rw (has_name header committed id, has_connection header committed id) refl)
  parse-confirmation header provisioned id =
      rw (has_body header provisioned id, has_operation header provisioned id)
        (rw (has_name header provisioned id, has_connection header provisioned id) refl)
  parse-confirmation header released id =
      rw (has_body header released id, has_operation header released id)
        (rw (has_name header released id, has_connection header released id) refl)
  parse-confirmation header ended id =
      rw (has_body header ended id, has_operation header ended id)
        (rw (has_name header ended id, has_connection header ended id) refl)

  -- If lxml reads the document of a confirmation, whose header has a correlation id that is not empty,
  -- and a task waits for that correlation id, then the future of the task is resolved with the
  -- confirmation of the connection that the document names, and the answer is an acknowledgment with
  -- the same correlation id.
  pub nsi_callback-confirmation :
      (settings : Settings) (body : Content) (header : NsiHeader) (c : Confirmation)
      (connection_id : String) (a : ℕ) (s : ReservationStore)
      → is_empty header.correlation_id ≡ false
      → etree.fromstring body ≡ some (element (confirmation header c connection_id))
      → Waits header.correlation_id a s
      → let out =
          nsi_callback settings etree.fromstring
            (parse_correlation_id etree)
            (parse etree)
            body
            s in
        (out.0
          ≡ acknowledge settings etree.fromstring
              (parse_correlation_id etree)
              (parse etree)
              header.correlation_id)
        × (future_at a out.1 ≡ some (resolved (message_of c connection_id)))
  nsi_callback-confirmation settings body header c connection_id a s told p w =
      nsi_callback-Waits settings etree.fromstring (parse_correlation_id etree) (parse etree) body
        (element (confirmation header c connection_id)) header.correlation_id
        (message_of c connection_id) a s p
        (unfold confirmation in
          parse_correlation_id-build_envelope etree element read header requester_protocol_version
            (operation_of c connection_id ∷ []) told)
        (parse-confirmation header c connection_id) w
