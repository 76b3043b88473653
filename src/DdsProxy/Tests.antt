-- ===== src/DdsProxy/Tests.antt =====
-- The theorem on the peered uPAs, at two fetched agents.
use nsi_aggregator_proxy.Common.Dict
use nsi_aggregator_proxy.Common.{Member, refl, inl, none, some, List, [], ◌∷◌}
use nsi_aggregator_proxy.DdsProxy.{upa_role, NetworkServiceAgent, peered_upas}

abbrev aggregator : NetworkServiceAgent
aggregator = record {
  id = "urn:agg";
  provider_url = none;
  network_ids = [];
  roles = [];
  peers_with = "urn:upa" ∷ [];
}

abbrev upa : NetworkServiceAgent
upa = record {
  id = "urn:upa";
  provider_url = some "https://upa";
  network_ids = "urn:net" ∷ [];
  roles = upa_role ∷ [];
  peers_with = [];
}

abbrev agents : List NetworkServiceAgent
agents = aggregator ∷ upa ∷ []

upa_peered : Member upa (peered_upas agents "urn:agg")
unfolding peered_upas Dict.contains
upa_peered = inl refl
