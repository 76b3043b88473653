-- ===== src/DdsProxy.antt =====
-- aggregator_proxy/dds_proxy.py: the fetch of the agents from the dds-proxy, and which uPAs are peers
-- of the aggregator. httpx's `get` and pydantic's `validate_json` are parameters.
pub mod Peers
mod Tests
use nsi_aggregator_proxy.Common.Dict
use nsi_aggregator_proxy.Common.{
  if◌then◌else◌, ◌==◌, ◌<>◌, is_empty, keep, first, String, Bool, false, not, ◌&&◌, Option, none,
  some, List, [],
}
use nsi_aggregator_proxy.Runtime.{Content, Response, is_success}

abbrev pub upa_role : String
upa_role = "vnd.ogf.nsi.cs.v2.role.uPA"

pub record NetworkServiceAgent : Type 0 where
  pub id : String
  pub provider_url : Option String
  pub network_ids : List String
  pub roles : List String
  pub peers_with : List String

abbrev pub has_url : Option String → Bool
has_url none = false
has_url (some url) = not (is_empty url)

abbrev pub peers_of : Option NetworkServiceAgent → List String
peers_of none = []
peers_of (some aggregator) = aggregator.peers_with

abbrev pub is_peered : List String → NetworkServiceAgent → Bool
is_peered peers agent =
    Dict.contains agent.id peers && Dict.contains upa_role agent.roles && has_url agent.provider_url

unfoldable pub peered_upas : List NetworkServiceAgent → String → List NetworkServiceAgent
peered_upas agents aggregator_nsa =
    keep (is_peered (peers_of (first (λ agent. agent.id == aggregator_nsa) agents))) agents

-- `none` is any exception: httpx's own, HTTPStatusError of raise_for_status, and ValidationError.
module _ (get : String → Option Response)
    (validate_json : Content → Option (List NetworkServiceAgent)) where
  abbrev pub read_agents : Option Response → Option (List NetworkServiceAgent)
  read_agents none = none
  read_agents (some response) =
      if is_success response.status_code then validate_json response.content else none

  unfoldable pub fetch_network_service_agents : String → Option (List NetworkServiceAgent)
  fetch_network_service_agents dds_proxy_url =
      read_agents (get (dds_proxy_url <> "/network-service-agents"))
