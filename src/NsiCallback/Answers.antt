-- ===== src/NsiCallback/Answers.antt =====
-- The answer of the callback endpoint, built by aggregator_proxy/nsi_soap/builder.py, as the parser
-- of aggregator_proxy/nsi_soap/parser.py reads it.
use nsi_aggregator_proxy.Common.{
  Option-cases, is_empty, All, String, ◌≡◌, refl, inl, inr, false, Option, none, some, List, [],
  ◌∷◌,
}
use nsi_aggregator_proxy.NsiCallback.{
  CallbackResponse, soap_fault_response, acknowledgment_response, handle_parsed, nsi_callback,
}
use nsi_aggregator_proxy.Runtime.{Settings, Content, Parsed, value, value_error}
use nsi_aggregator_proxy.Soap.Builder.{
  requester_protocol_version, build_acknowledgment, build_soap_fault,
}
use nsi_aggregator_proxy.Soap.Builder.RoundTrip.{
  rejection, parse_correlation_id-build_envelope, parse-build_acknowledgment,
  parse-build_soap_fault,
}
use nsi_aggregator_proxy.Soap.Etree.{in_ctypes, Etree}
use nsi_aggregator_proxy.Soap.Messages.{NsiMessage, NsiHeader}
use nsi_aggregator_proxy.Soap.Parser.{head_or, parse, parse_correlation_id}
use nsi_aggregator_proxy.Soap.Tree.{Tree, branch}
use nsi_aggregator_proxy.Soap.Tree.Reading.{IsRead}
use nsi_aggregator_proxy.Store.{ReservationStore}

-- `build_acknowledgment(header)`, and `build_soap_fault(faultstring)` with its default faultcode.
abbrev pub answer : CallbackResponse → Tree
answer (soap_fault_response faultstring status_code) = build_soap_fault faultstring "soapenv:Client"
answer (acknowledgment_response header) = build_acknowledgment header

-- What a callback says, if it can be read: its correlation id and its message.
abbrev pub both : Parsed String → Parsed NsiMessage → Option (String × NsiMessage)
both (value id) (value message) = some (id, message)
both (value id) (value_error text) = none
both (value_error text) message = none

module _ {Element : Type 0} (etree : Etree Element) where
  abbrev pub said_by : Option Element → Option (String × NsiMessage)
  said_by none = none
  said_by (some root) = both (parse_correlation_id etree root) (parse etree root)

  parse_correlation_id-told :
      (root : Element) (id : String)
      → All (λ text. is_empty text ≡ false) (etree.correlation_ids root)
      → parse_correlation_id etree root ≡ value id
      → is_empty id ≡ false
  unfolding parse_correlation_id
  parse_correlation_id-told root id told h = told_head (etree.correlation_ids root) told h
    where
      told_head :
          (ids : List String)
          → All (λ text. is_empty text ≡ false) ids
          → head_or ids (value_error "correlationId not found in SOAP nsiHeader") ≡ value id
          → is_empty id ≡ false
      told_head [] t e = cc (e)
      told_head (k ∷ ks) t e = let same : k ≡ id = cc (e) in rw (← same) t.0

  module _ (element : Tree → Element) where
    -- The answer to a callback that can be read, and to one that cannot.
    abbrev pub IsAnswer : Option (String × NsiMessage) → Tree → Type 0
    IsAnswer none t = (text : String) × (parse etree (element t) ≡ value (rejection text))
    IsAnswer (some (id, message)) t =
        (parse etree (element t) ≡ value NsiMessage.acknowledgment)
        × (parse_correlation_id etree (element t) ≡ value id)

    module _ (read : IsRead etree element) (settings : Settings) where
      handle_parsed-IsAnswer :
          (id : Parsed String) (message : Parsed NsiMessage) (s : ReservationStore)
          → ((k : String) → id ≡ value k → is_empty k ≡ false)
          → IsAnswer (both id message) (
              answer
                (handle_parsed settings etree.fromstring
                  (parse_correlation_id etree)
                  (parse etree)
                  id
                  message
                  s).0)
      unfolding build_acknowledgment
      handle_parsed-IsAnswer (value_error text) message s told =
          (text, parse-build_soap_fault etree element read _ _)
      handle_parsed-IsAnswer (value id) (value_error text) s told =
          (text, parse-build_soap_fault etree element read _ _)
      handle_parsed-IsAnswer (value id) (value message) s told =
          let header : NsiHeader = record {
            requester_nsa = settings.requester_nsa;
            provider_nsa = settings.provider_nsa;
            reply_to = none;
            correlation_id = id;
          } in
          (
            parse-build_acknowledgment etree element read header,
            parse_correlation_id-build_envelope etree element read header requester_protocol_version
                (branch (in_ctypes "acknowledgment") [] ∷ []) (told id refl),
          )

      -- The proxy's answer to a callback can be read by the proxy's own parser, if lxml reads what it
      -- has written. If the callback has a correlation id and a message, the answer is an
      -- acknowledgment with that correlation id; if not, it is a SOAP Fault.
      pub nsi_callback-IsAnswer :
          (body : Content) (s : ReservationStore)
          → IsAnswer (said_by (etree.fromstring body)) (
              answer
                (nsi_callback settings etree.fromstring
                  (parse_correlation_id etree)
                  (parse etree)
                  body
                  s).0)
      unfolding nsi_callback
      nsi_callback-IsAnswer body s = elim (Option-cases (etree.fromstring body)) [
        | inl p ↦
            rw p ("Malformed XML in NSI callback", parse-build_soap_fault etree element read _ _)
        | inr (root, p) ↦ rw p (
            handle_parsed-IsAnswer (parse_correlation_id etree root) (parse etree root) s
              (λ k h. parse_correlation_id-told root k (read.told root) h))
      ]
