-- ===== src/Reservations/Endpoints/Tests.antt =====
-- The endpoints that read, with an aggregator that reports one reservation.
use mathlib.Core.Option.{some-injective}
use nsi_aggregator_proxy.Common.Dict
use nsi_aggregator_proxy.Common.{
  Bool-cases, ◌==◌, All, ◌≡◌, refl, inl, inr, true, some, none, List, [], ◌∷◌, eq_iff,
}
use nsi_aggregator_proxy.Models.Formats.{accepts_link, matches_stp}
use nsi_aggregator_proxy.Models.{summary, full, ReservationDetail}
use nsi_aggregator_proxy.Reservations.Endpoints.{get_reservation, list_reservations}
use nsi_aggregator_proxy.Reservations.Endpoints.Single.{IsTold, get_reservation-IsTold}
use nsi_aggregator_proxy.Reservations.Queries.{query_header, post_or_502, query_summary}
use nsi_aggregator_proxy.Reservations.Refresh.{queried_criteria}
use nsi_aggregator_proxy.Runtime.{draw_urn, post_checked, value, ok, ◌>>=◌, attempt}
use nsi_aggregator_proxy.Samples.{
  sample_env, sample_qr, sample_world, sample_response, sample_reservation, sample_turn,
}
use nsi_aggregator_proxy.Soap.Etree.{plain, in_soapenv, in_ctypes, Etree}
use nsi_aggregator_proxy.Soap.Messages.{QueryReservation}
use nsi_aggregator_proxy.Soap.Parser.{expected, parse_query_summary_sync}
use nsi_aggregator_proxy.Soap.Tree.{Tree, leaf, branch}
use nsi_aggregator_proxy.Soap.Tree.Sample.{tree_etree}
use nsi_aggregator_proxy.Reservations.Endpoints.Reported.{
  parsing, IsReported, list_reservations-IsReported,
}
use nsi_aggregator_proxy.Store.{get}
use nsi_aggregator_proxy.Store.Naming.{IsNamed}

sample_world-IsNamed : IsNamed sample_world.store
unfolding get Dict.lookup
sample_world-IsNamed id r h = elim (Bool-cases ("c1" == id)) [
  | inl same ↦
      let here : sample_reservation ≡ r = some-injective _ _ (rw same at h) in
      rw (← here) ((eq_iff "c1" id).0 same)
  | inr other ↦ cc (rw other at h)
]

-- The aggregator's document: a reservation whose data plane is up.
abbrev reported : Tree
reported = branch (plain "reservation") (
    leaf (plain "connectionId") "c1"
    ∷ branch (plain "connectionStates") (
        leaf (plain "reservationState") "ReserveStart"
        ∷ leaf (plain "provisionState") "Provisioned"
        ∷ leaf (plain "lifecycleState") "Created"
        ∷ branch (plain "dataPlaneStatus") (leaf (plain "active") "true" ∷ [])
        ∷ [])
    ∷ [])

abbrev summary_document : Tree
summary_document = branch (in_ctypes "querySummarySyncConfirmed") (reported ∷ [])

abbrev document_etree : Etree Tree
document_etree = tree_etree (λ content.
    some (branch (in_soapenv "Envelope") (branch (in_soapenv "Body") (summary_document ∷ []) ∷ [])))

abbrev read_reservation : QueryReservation
read_reservation = record {
  connection_id = "c1";
  global_reservation_id = none;
  description = "";
  requester_nsa = "";
  connection_states = record {
    reservation_state = "ReserveStart";
    provision_state = "Provisioned";
    lifecycle_state = "Created";
    data_plane_active = true;
  };
  criteria_version = none;
  service_type = none;
  capacity = none;
  source_stp = none;
  dest_stp = none;
  start_time = none;
  children = none;
}

document_found : expected document_etree "querySummarySyncConfirmed" [] ≡ value summary_document
unfolding expected
document_found = refl

document_parsed : parse_query_summary_sync document_etree [] ≡ value (read_reservation ∷ [])
unfolding parse_query_summary_sync Dict.lookup
document_parsed = refl

read_accepted : queried_criteria read_reservation ≡ some none
unfolding queried_criteria
read_accepted = refl

list_reservations-IsReported_example :
    let out = list_reservations (parsing document_etree sample_env) summary sample_world in
    (entries : List ReservationDetail) × (out.0 ≡ ok entries)
    × All
        (IsReported document_etree sample_env summary (read_reservation ∷ []) out.1.store entries)
        (reported ∷ [])
list_reservations-IsReported_example =
    list_reservations-IsReported document_etree sample_env sample_turn summary sample_response
      summary_document (read_reservation ∷ []) sample_world (λ same. cc (same)) sample_world-IsNamed
      (λ w header. refl) refl document_found document_parsed ((none, read_accepted), tt)

get_reservation-IsTold_example :
    IsTold sample_env full "c1"
      (ok (sample_qr ∷ []))
      (get_reservation sample_env "c1" full sample_world)
unfolding query_summary ◌>>=◌ query_header draw_urn post_or_502 attempt post_checked
get_reservation-IsTold_example =
    get_reservation-IsTold sample_env full "c1" sample_world (λ same. cc (same))

-- The sample's reservation is one that P2PS takes: the details are the answer.
sample_accepted :
    queried_criteria sample_qr
    ≡ some (
        some (record {
          version = 1;
          service_type = none;
          p2ps = record {
            capacity = 100;
            source_stp = "urn:ogf:network:a.net:2024:a";
            dest_stp = "urn:ogf:network:b.net:2024:b";
          };
        }))
unfolding queried_criteria accepts_link matches_stp
sample_accepted = refl
