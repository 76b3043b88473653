-- ===== src/Providers/Tests.antt =====
-- The theorems on the providers endpoints, at one uPA.
use nsi_aggregator_proxy.Common.Dict
use nsi_aggregator_proxy.Common.{if◌then◌else◌, ◌==◌, ◌≡◌, refl, ◌⊎◌, true, none, some, [], ◌∷◌}
use nsi_aggregator_proxy.DdsProxy.{
  fetch_network_service_agents, upa_role, NetworkServiceAgent, peered_upas,
}
use nsi_aggregator_proxy.Providers.{ProvidersEnv, to_upa_reservation, get_provider_reservations}
use nsi_aggregator_proxy.Providers.Reach.{IsAsked, IsRefused, get_provider_reservations-IsAsked}
use nsi_aggregator_proxy.Runtime.{value, ok, ◌>>=◌, attempt}
use nsi_aggregator_proxy.Samples.{sample_qr, sample_response}

abbrev aggregator : NetworkServiceAgent
aggregator = record {
  id = "urn:agg";
  provider_url = none;
  network_ids = [];
  roles = [];
  peers_with = "urn:upa" ∷ [];
}

abbrev upa : NetworkServiceAgent
upa = record {
  id = "urn:upa";
  provider_url = some "https://upa";
  network_ids = "urn:net" ∷ [];
  roles = upa_role ∷ [];
  peers_with = [];
}

abbrev sample_providers : ProvidersEnv
sample_providers = record {
  provider_nsa = "urn:agg";
  has_upa_client = true;
  dds_proxy_url = "https://dds-proxy";
  get = λ url.
      if url == "https://dds-proxy/network-service-agents" then some sample_response else none;
  validate_json = λ content. some (aggregator ∷ upa ∷ []);
  answer = λ url envelope. some sample_response;
  parse_query_summary_sync = λ content. value (sample_qr ∷ []);
  correlation_id = "urn:uuid:3";
}

-- The run is not refused: the uPA's reservation comes back.
upa_told :
    (get_provider_reservations sample_providers "urn:upa" []).0
    ≡ ok (record {
      provider_nsa = "urn:upa";
      provider_url = "https://upa";
      reservations = to_upa_reservation sample_qr ∷ [];
    })
unfolding get_provider_reservations peered_upas fetch_network_service_agents Dict.contains ◌>>=◌
    attempt
upa_told = refl

get_provider_reservations-IsAsked_example :
    IsAsked sample_providers "urn:upa" [] (get_provider_reservations sample_providers "urn:upa" [])
    ⊎ IsRefused sample_providers (get_provider_reservations sample_providers "urn:upa" []) []
get_provider_reservations-IsAsked_example =
    get_provider_reservations-IsAsked sample_providers "urn:upa" []
