-- ===== src/Mapping/Tests.antt =====
-- The theorems on the status mapping, at concrete sub-states and histories.
use nsi_aggregator_proxy.Common.{◌*◌, ◌≡◌, refl, ◌↔◌, ◌⊎◌, false, none, some, List, [], ◌∷◌, arith}
use nsi_aggregator_proxy.Mapping.{
  map_nsi_states_to_status, Datetime, utc, microseconds, parse_iso8601, latest_operation_time,
  data_plane_active_since, derive_activating, derive_status,
}
use nsi_aggregator_proxy.Mapping.Activating.{CameUp, PassedStart, derive_status-activating_iff}
use nsi_aggregator_proxy.Mapping.Deriving.{
  Passed, derive_status-failed_stays, derive_status-activating_forever_iff,
}
use nsi_aggregator_proxy.Mapping.Priority.{Rule, map_nsi_states_to_status_iff}
use nsi_aggregator_proxy.Models.{activating, failed}
use nsi_aggregator_proxy.Samples.{sample_states, sample_ten, sample_eleven, sample_iso}
use nsi_aggregator_proxy.Soap.Messages.{OperationResult}

abbrev results : List OperationResult
results =
    record {
      result_id = 1;
      timestamp = "never";
      operation = "provisionConfirmed";
      connection_id = "c1";
    }
    ∷ record {
      result_id = 2;
      timestamp = "2024-05-01T10:00:00Z";
      operation = "provisionConfirmed";
      connection_id = "c1";
    }
    ∷ record {
      result_id = 3;
      timestamp = "never";
      operation = "releaseConfirmed";
      connection_id = "c1";
    }
    ∷ []

abbrev released : List OperationResult
released =
    record {
      result_id = 4;
      timestamp = "2024-05-01T10:00:00Z";
      operation = "releaseConfirmed";
      connection_id = "c1";
    }
    ∷ []

provisioned_at_ten : latest_operation_time sample_iso results "provisionConfirmed" ≡ some sample_ten
unfolding latest_operation_time parse_iso8601
provisioned_at_ten = refl

released_at_ten : latest_operation_time sample_iso released "releaseConfirmed" ≡ some sample_ten
unfolding latest_operation_time parse_iso8601
released_at_ten = refl

failed_at_eleven :
    (derive_status sample_iso activating results [] none sample_eleven 300).status ≡ failed
unfolding derive_status derive_activating latest_operation_time parse_iso8601
    data_plane_active_since
failed_at_eleven = refl

map_nsi_states_to_status_iff_example :
    (map_nsi_states_to_status sample_states false ≡ activating)
    ↔ Rule sample_states false activating
map_nsi_states_to_status_iff_example = map_nsi_states_to_status_iff sample_states false activating

derive_status-activating_iff_example :
    ((derive_status sample_iso activating results [] none sample_eleven 300).status ≡ failed) ↔ (
      CameUp sample_iso sample_ten []
      ⊎ (Passed sample_ten sample_eleven (300 * microseconds)
          × PassedStart sample_iso none sample_eleven (300 * microseconds)))
derive_status-activating_iff_example =
    derive_status-activating_iff sample_iso results [] none sample_eleven 300 sample_ten
      provisioned_at_ten

abbrev noon : Datetime
noon = record { wall = 43200000000; tzinfo = utc }

derive_status-failed_stays_example :
    (derive_status sample_iso activating results [] none noon 300).status ≡ failed
derive_status-failed_stays_example =
    derive_status-failed_stays sample_iso activating results [] none sample_eleven noon 300
      (omega arith) failed_at_eleven

derive_status-activating_forever_iff_example :
    ((now : Datetime)
      → (derive_status sample_iso activating released [] none now 300).status ≡ activating)
    ↔ (latest_operation_time sample_iso released "provisionConfirmed" ≡ none)
derive_status-activating_forever_iff_example =
    derive_status-activating_forever_iff sample_iso released [] none 300
