-- ===== src/Soap/Builder/RoundTrip.antt =====
-- The answers that the proxy builds, as its own parser reads them.
use nsi_aggregator_proxy.Common.{
  is_empty, text_or, String, ◌≡◌, refl, false, none, some, List, [], ◌∷◌,
}
use nsi_aggregator_proxy.Runtime.{value}
use nsi_aggregator_proxy.Soap.Builder.{build_envelope, build_acknowledgment, build_soap_fault}
use nsi_aggregator_proxy.Soap.Etree.{plain, in_soapenv, in_ctypes, Etree}
use nsi_aggregator_proxy.Soap.Messages.{NsiMessage, NsiHeader}
use nsi_aggregator_proxy.Soap.Parser.{parse, parse_correlation_id}
use nsi_aggregator_proxy.Soap.Tree.{Tree, leaf, branch, header_ids}
use nsi_aggregator_proxy.Soap.Tree.Reading.{IsRead}

-- What a SOAP Fault is read as.
abbrev pub rejection : String → NsiMessage
rejection text =
    NsiMessage.soap_fault
      (record { fault_string = text_or (some text) "(no faultstring)"; service_exception = none })

module _ {Element : Type 0} (etree : Etree Element) (element : Tree → Element)
    (read : IsRead etree element) where
  -- The correlation id of an envelope, if its text is not empty.
  pub parse_correlation_id-build_envelope :
      (header : NsiHeader) (version : String) (content : List Tree)
      → is_empty header.correlation_id ≡ false
      → parse_correlation_id etree (element (build_envelope header version content))
        ≡ value header.correlation_id
  unfolding parse_correlation_id build_envelope header_ids
  parse_correlation_id-build_envelope header version content told =
      rw (read.identified (build_envelope header version content)) (rw told refl)

  pub parse-build_acknowledgment :
      (header : NsiHeader)
      → parse etree (element (build_acknowledgment header)) ≡ value NsiMessage.acknowledgment
  unfolding parse build_acknowledgment
  parse-build_acknowledgment header =
      rw (read.found (build_acknowledgment header) (in_soapenv "Body")) (
        rw (read.listed (branch (in_soapenv "Body") (branch (in_ctypes "acknowledgment") [] ∷ [])))
          (rw (read.tagged (branch (in_ctypes "acknowledgment") [])) refl))

  abbrev fault : String → String → Tree
  fault text code =
      branch (in_soapenv "Fault")
        (leaf (plain "faultcode") code ∷ leaf (plain "faultstring") text ∷ [])

  pub parse-build_soap_fault :
      (text code : String)
      → parse etree (element (build_soap_fault text code)) ≡ value (rejection text)
  unfolding parse build_soap_fault
  parse-build_soap_fault text code =
      rw (read.found (build_soap_fault text code) (in_soapenv "Body")) (
        rw (read.listed (branch (in_soapenv "Body") (fault text code ∷ []))) (
          rw (read.tagged (fault text code)) (
            rw (read.found (fault text code) (plain "detail"))
              (rw (read.found_text (fault text code) (plain "faultstring")) refl))))
