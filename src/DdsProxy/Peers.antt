-- ===== src/DdsProxy/Peers.antt =====
-- The agents that `peered_upas` returns, which are the only ones sent the client certificate.
use nsi_aggregator_proxy.Common.Dict
use mathlib.Core.Path.{subst}
use mathlib.Core.Option.{some-injective}
use nsi_aggregator_proxy.Common.{
  Bool-cases, ◌==◌, is_empty, first, Member, keep-Member, String, ◌≡◌, refl, sym, inl, inr, Bool,
  true, false, Option, none, some, List, [], ◌∷◌, arith, eq_iff,
}
use nsi_aggregator_proxy.DdsProxy.{
  upa_role, NetworkServiceAgent, has_url, peers_of, is_peered, peered_upas,
}

has_url_lem :
    (o : Option String)
    → has_url o ≡ true
    → (url : String) × (o ≡ some url) × (is_empty url ≡ false)
has_url_lem none h = cc h
has_url_lem (some url) h = (url, refl, ground arith)

pub first_found :
    (test : NetworkServiceAgent → Bool) (agents : List NetworkServiceAgent)
    (agent : NetworkServiceAgent)
    → first test agents ≡ some agent
    → Member agent agents × (test agent ≡ true)
first_found test [] agent h = cc h
first_found test (x ∷ agents) agent h = elim (Bool-cases (test x)) [
  | inl passes ↦
      let same = some-injective x agent (rw passes at h) in
      (inl (sym same), subst (λ a. test a ≡ true) same passes)
  | inr fails ↦ let (m, t) = first_found test agents agent (rw fails at h) in (inr m, t)
]

is_peered_parts :
    (peers : List String) (agent : NetworkServiceAgent)
    → is_peered peers agent ≡ true
    → (Dict.contains agent.id peers ≡ true)
      × (Dict.contains upa_role agent.roles ≡ true)
      × (has_url agent.provider_url ≡ true)
is_peered_parts peers agent h = ground arith

-- The aggregator's own document is among the agents and lists the peer.
abbrev pub IsListed : List NetworkServiceAgent → String → String → Type 0
IsListed agents aggregator_nsa id =
    (aggregator : NetworkServiceAgent) × Member aggregator agents
    × (aggregator.id ≡ aggregator_nsa)
    × Member id aggregator.peers_with

IsListed-by_first :
    (agents : List NetworkServiceAgent) (aggregator_nsa id : String)
    (o : Option NetworkServiceAgent)
    → first (λ agent. agent.id == aggregator_nsa) agents ≡ o
    → Member id (peers_of o)
    → IsListed agents aggregator_nsa id
IsListed-by_first agents aggregator_nsa id none p m = elim m [ ]
IsListed-by_first agents aggregator_nsa id (some aggregator) p m =
    let (there, same) = first_found (λ agent. agent.id == aggregator_nsa) agents aggregator p in
    (aggregator, there, (eq_iff _ _).0 same, m)

-- An agent is among the peered uPAs only if it is one of the agents that were fetched, the
-- aggregator's own document is among them and lists it, and it has the role of a uPA and a
-- provider URL that is not empty.
pub peered_upas_lem :
    (agents : List NetworkServiceAgent) (aggregator_nsa : String) (agent : NetworkServiceAgent)
    → Member agent (peered_upas agents aggregator_nsa)
    → Member agent agents
      × IsListed agents aggregator_nsa agent.id
      × Member upa_role agent.roles
      × ((url : String) × (agent.provider_url ≡ some url) × (is_empty url ≡ false))
unfolding peered_upas
peered_upas_lem agents aggregator_nsa agent m =
    let aggregator = first (λ a. a.id == aggregator_nsa) agents in
    let (there, passes) = keep-Member (is_peered (peers_of aggregator)) agent agents m in
    let (listed, role, url) = is_peered_parts (peers_of aggregator) agent passes in
    (
      there,
      IsListed-by_first agents aggregator_nsa agent.id aggregator refl
          ((Dict.contains_iff agent.id (peers_of aggregator)).0 listed),
      (Dict.contains_iff upa_role agent.roles).0 role,
      has_url_lem agent.provider_url url,
    )
