-- ===== src/Soap/Parser/Answers.antt =====
-- What the answer of a query says: one reservation for each element, in order, each with the states
-- and the path segments that its element holds.
use mathlib.Core.Option
use nsi_aggregator_proxy.Common.{
  or_else, ◌==◌, ◌<>◌, ℕ, String, ◌≡◌, Bool, Option, some, List, [], arith,
}
use nsi_aggregator_proxy.Runtime.{Content, value}
use nsi_aggregator_proxy.Soap.Etree.{plain, in_p2p, Etree, require, require_flag}
use nsi_aggregator_proxy.Soap.Etree.Laws.{Pairwise, Pairwise-imp, read_all-ReadBy}
use nsi_aggregator_proxy.Soap.Messages.{ConnectionStates, ChildSegment, QueryReservation}
use nsi_aggregator_proxy.Soap.Parser.{expected, parse_query_summary_sync}
use nsi_aggregator_proxy.Soap.Parser.Queries.{
  parse_connection_states, text_in, find_in, child_p2ps, parse_child_element, child_elements,
  parse_reservation_element, parse_reservations,
}

module _ {Element : Type 0} (etree : Etree Element) where
  -- What an element says, by the path to it: the text of a tag, a number, and a flag.
  abbrev pub Says : Option Element → String → String → Type 0
  Says element name text = text_in etree element name ≡ some text

  abbrev pub SaysNumber : Option Element → String → Option ℕ → Type 0
  SaysNumber element name number =
      Option.map (etree.int) (text_in etree element name) ≡ Option.map value number

  abbrev pub SaysFlag : Option Element → String → Bool → Type 0
  SaysFlag element name flag =
      Option.map (λ text. text == "true") (text_in etree element name) ≡ some flag

  -- The states of an element are those of its `<connectionStates>`.
  pub record HasStates (parent : Element) (states : ConnectionStates) : Type 0 where
    pub reservation_state :
        Says
          (etree.find parent (plain "connectionStates"))
          "reservationState"
          states.reservation_state
    pub provision_state :
        Says (etree.find parent (plain "connectionStates")) "provisionState" states.provision_state
    pub lifecycle_state :
        Says (etree.find parent (plain "connectionStates")) "lifecycleState" states.lifecycle_state
    pub data_plane_active :
        SaysFlag
          (find_in etree (etree.find parent (plain "connectionStates")) (plain "dataPlaneStatus"))
          "active"
          states.data_plane_active

  parse_connection_states-HasStates :
      (parent : Element) (context : String) (states : ConnectionStates)
      → parse_connection_states etree parent context ≡ value states
      → HasStates parent states
  unfolding parse_connection_states require require_flag
  parse_connection_states-HasStates parent context states h = ground arith

  -- A path segment of a `<child>`.
  pub record IsSegment (child : Element) (segment : ChildSegment) : Type 0 where
    pub order : etree.int (or_else (etree.get child "order") "0") ≡ value segment.order
    pub connection_id : Says (some child) "connectionId" segment.connection_id
    pub provider_nsa : Says (some child) "providerNSA" segment.provider_nsa
    pub capacity : SaysNumber (child_p2ps etree child) "capacity" segment.capacity
    pub source_stp : text_in etree (child_p2ps etree child) "sourceSTP" ≡ segment.source_stp
    pub dest_stp : text_in etree (child_p2ps etree child) "destSTP" ≡ segment.dest_stp

  parse_child_element-IsSegment :
      (child : Element) (segment : ChildSegment)
      → parse_child_element etree child ≡ value segment
      → IsSegment child segment
  unfolding parse_child_element require
  parse_child_element-IsSegment child segment h = ground arith

  -- The reservation of a `<reservation>`: its names, its states, the numbers of its criteria, and a
  -- segment for each `<child>`, in their order.
  pub record IsReservation (element : Element) (reservation : QueryReservation) : Type 0 where
    pub connection_id : Says (some element) "connectionId" reservation.connection_id
    pub global_reservation_id :
        text_in etree (some element) "globalReservationId" ≡ reservation.global_reservation_id
    pub states : HasStates element reservation.connection_states
    pub capacity :
        SaysNumber
          (find_in etree (etree.find element (plain "criteria")) (in_p2p "p2ps"))
          "capacity"
          reservation.capacity
    pub segments :
        Pairwise IsSegment
          (child_elements etree
            (find_in etree (etree.find element (plain "criteria")) (plain "children")))
          (or_else reservation.children [])

  module _ (element : Element) (reservation : QueryReservation)
      (parsed : parse_reservation_element etree element ≡ value reservation) where
    reservation-HasStates : HasStates element reservation.connection_states
    unfolding parse_reservation_element
    reservation-HasStates =
        parse_connection_states-HasStates element ("reservation " <> reservation.connection_id) _
          (ground arith)

    -- `children or None` forgets nothing.
    reservation-segments :
        Pairwise IsSegment
          (child_elements etree
            (find_in etree (etree.find element (plain "criteria")) (plain "children")))
          (or_else reservation.children [])
    unfolding parse_reservation_element
    reservation-segments =
        Pairwise-imp _ _ (parse_child_element-IsSegment) _ _
          (read_all-ReadBy (parse_child_element etree) _ _ (ground arith))

    parse_reservation_element-IsReservation : IsReservation element reservation
    unfolding parse_reservation_element require
    parse_reservation_element-IsReservation = record {
      connection_id = ground arith;
      global_reservation_id = ground arith;
      states = reservation-HasStates;
      capacity = ground arith;
      segments = reservation-segments;
    }

  -- If a querySummarySync answer parses, there is one reservation for each `<reservation>` of it, in
  -- their order: with its connectionId, its globalReservationId, its states and data-plane flag, the
  -- capacity of its `<p2ps>`, and one segment for each `<child>` in order, with its order, ids,
  -- capacity and STPs.
  pub parse_query_summary_sync-IsReservation :
      (content : Content) (confirmed : Element) (reservations : List QueryReservation)
      → expected etree "querySummarySyncConfirmed" content ≡ value confirmed
      → parse_query_summary_sync etree content ≡ value reservations
      → Pairwise IsReservation (etree.findall confirmed (plain "reservation")) reservations
  unfolding parse_query_summary_sync parse_reservations
  parse_query_summary_sync-IsReservation content confirmed reservations found parsed =
      Pairwise-imp _ _ (parse_reservation_element-IsReservation) _ reservations
        (read_all-ReadBy (parse_reservation_element etree) _ reservations (ground arith))
