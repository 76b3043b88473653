-- ===== src/NsiCallback/Tests.antt =====
-- The theorems on the callback endpoint, with a parser that reads the first byte of a body.
use nsi_aggregator_proxy.Soap.Parser
use nsi_aggregator_proxy.Common.Dict
use nsi_aggregator_proxy.Common.{
  eqb, if◌then◌else◌, ℕ, String, ◌≡◌, refl, true, Option, none, some, List, [], ◌∷◌,
}
use nsi_aggregator_proxy.NsiCallback.{acknowledge, nsi_callback}
use nsi_aggregator_proxy.NsiCallback.Answers.{answer, said_by, IsAnswer, nsi_callback-IsAnswer}
use nsi_aggregator_proxy.NsiCallback.Confirmed.{
  provisioned, confirmation, nsi_callback-confirmation,
}
use nsi_aggregator_proxy.NsiCallback.Dispatch.{nsi_callback-dataplane_lem}
use nsi_aggregator_proxy.Runtime.{Content, Parsed, value}
use nsi_aggregator_proxy.Samples.{sample_settings}
use nsi_aggregator_proxy.Soap.Builder.{build_acknowledgment}
use nsi_aggregator_proxy.Soap.Messages.{DataPlaneStateChange, NsiMessage, NsiHeader}
use nsi_aggregator_proxy.Soap.Tree.{Tree}
use nsi_aggregator_proxy.Soap.Tree.Sample.{tree_etree, tree_etree-IsRead}
use nsi_aggregator_proxy.Store.{
  waiting, resolved, ReservationStore, empty, future_at, register_pending,
  register_pending_by_connection,
}
use nsi_aggregator_proxy.Store.Delivery.{Waits}
use nsi_aggregator_proxy.Store.Futures.{
  Op, register, register_connection, perform, run, IsSound, run-IsSound,
}

abbrev fromstring : Content → Option ℕ
fromstring [] = none
fromstring (byte ∷ bytes) = some byte

abbrev parse_correlation_id : ℕ → Parsed String
parse_correlation_id byte = if eqb byte 7 then value "7" else value "9"

abbrev change : DataPlaneStateChange
change = record {
  connection_id = "c1";
  notification_id = 8;
  timestamp = "2024-05-01T10:00:00Z";
  active = true;
  version = 1;
  version_consistent = true;
}

abbrev parse : ℕ → Parsed NsiMessage
parse byte = value (NsiMessage.data_plane_state_change change)

abbrev two_waits : ReservationStore
two_waits = record {
  reservations = [];
  pending = ("7", 0) ∷ [];
  pending_by_connection = ("c1", 1) ∷ [];
  reserves_in_flight = [];
  futures = waiting ∷ waiting ∷ [];
}

abbrev registered : List Op
registered = register "7" ∷ register_connection "c1" ∷ []

nothing_pending-IsSound : IsSound empty
unfolding empty Dict.lookup
nothing_pending-IsSound = record {
  known = λ k a h. cc (h);
  known_other = λ k a h. cc (h);
  one_key = λ j k a h h'. cc (h);
  one_key_other = λ j k a h h'. cc (h);
  not_both = λ j k a h. cc (h);
}

two_waits-IsSound : IsSound two_waits
unfolding run perform register_pending register_pending_by_connection empty Dict.insert
two_waits-IsSound = run-IsSound registered empty nothing_pending-IsSound

seven_waiting : Waits "7" 0 two_waits
unfolding Dict.lookup
seven_waiting = record { named = refl; unresolved = refl }

c1_waiting : Dict.lookup "c1" two_waits.pending_by_connection ≡ some 1
unfolding Dict.lookup
c1_waiting = refl

nsi_callback-dataplane_lem_example :
    future_at 1
      (nsi_callback sample_settings fromstring parse_correlation_id parse (9 ∷ []) two_waits).1
    ≡ some (resolved (NsiMessage.data_plane_state_change change))
nsi_callback-dataplane_lem_example =
    nsi_callback-dataplane_lem sample_settings fromstring parse_correlation_id parse (9 ∷ []) 9 "9"
      change 1 two_waits refl refl refl two_waits-IsSound c1_waiting refl

-- A callback with a header, whose body is the acknowledgment of another exchange.
abbrev called : Content → Option Tree
called content = some (
    build_acknowledgment (record {
      requester_nsa = "urn:nsa:proxy";
      provider_nsa = "urn:nsa:aggregator";
      reply_to = none;
      correlation_id = "urn:uuid:7";
    }))

nsi_callback-IsAnswer_example :
    IsAnswer
      (tree_etree called)
      (λ t. t)
      (said_by (tree_etree called) (called (1 ∷ [])))
      (answer
        (nsi_callback sample_settings called
          (Parser.parse_correlation_id (tree_etree called))
          (Parser.parse (tree_etree called))
          (1 ∷ [])
          two_waits).0)
nsi_callback-IsAnswer_example =
    nsi_callback-IsAnswer (tree_etree called) (λ t. t) (tree_etree-IsRead called) sample_settings
      (1 ∷ []) two_waits

abbrev confirming_header : NsiHeader
confirming_header = record {
  requester_nsa = "urn:nsa:proxy";
  provider_nsa = "urn:nsa:aggregator";
  reply_to = none;
  correlation_id = "7";
}

-- Every document is the confirmation of a provision.
abbrev confirmed_document : Content → Option Tree
confirmed_document content = some (confirmation confirming_header provisioned "c1")

nsi_callback-confirmation_example :
    let etree = tree_etree confirmed_document in
    let out =
      nsi_callback sample_settings confirmed_document
        (Parser.parse_correlation_id etree)
        (Parser.parse etree)
        (1 ∷ [])
        two_waits in
    (out.0
      ≡ acknowledge sample_settings confirmed_document
          (Parser.parse_correlation_id etree)
          (Parser.parse etree)
          "7")
    × (future_at 0 out.1 ≡ some (resolved (NsiMessage.provision_confirmed "c1")))
nsi_callback-confirmation_example =
    nsi_callback-confirmation (tree_etree confirmed_document) (λ t. t)
      (tree_etree-IsRead confirmed_document) sample_settings (1 ∷ []) confirming_header provisioned
      "c1" 0 two_waits refl refl seven_waiting
