-- ===== src/Providers/Reach.antt =====
-- Which uPA is asked, and what the endpoints answer.
use mathlib.Core.Path.{subst}
use nsi_aggregator_proxy.Common.{
  if◌then◌else◌, Bool-cases, Option-cases, ◌==◌, ◌<>◌, is_empty, first, Member, ℕ, String, ◌≡◌,
  refl, ◌⊎◌, inl, inr, true, false, Option, none, some, List, [], ◌∷◌, map, arith, eq_iff,
}
use nsi_aggregator_proxy.DdsProxy.{upa_role, NetworkServiceAgent, peered_upas}
use nsi_aggregator_proxy.DdsProxy.Peers.{first_found, IsListed, peered_upas_lem}
use nsi_aggregator_proxy.Models.{Upa, UpaReservationsResponse}
use nsi_aggregator_proxy.Providers.{
  fetched_agents, Sent, ProvidersEnv, to_upa_reservation, add_upa, upas_of, get_providers,
  query_header, query_provider, get_provider_reservations,
}
use nsi_aggregator_proxy.Runtime.{
  Response, is_success, Parsed, value, value_error, http_exception, Result, ok, err, ◌>>=◌, attempt,
}
use nsi_aggregator_proxy.Soap.Builder.{build_query_summary_sync}
use nsi_aggregator_proxy.Soap.Etree.Laws.{Pairwise}
use nsi_aggregator_proxy.Soap.Messages.{QueryReservation}

module _ (e : ProvidersEnv) where
  -- The query of a uPA, as it is sent.
  abbrev pub query : String → String → Sent
  query nsa_id url = record {
    url = url;
    envelope = build_query_summary_sync (query_header e nsa_id) none none;
  }

  -- What a uPA reports, if it answers with success and its answer can be read.
  abbrev pub read_report : Parsed (List QueryReservation) → Option (List QueryReservation)
  read_report (value qrs) = some qrs
  read_report (value_error message) = none

  abbrev pub report : Option Response → Option (List QueryReservation)
  report none = none
  report (some response) =
      if is_success response.status_code
      then read_report (e.parse_query_summary_sync response.content)
      else none

  -- The answer to the caller: every reservation of the report, in order, or a 502.
  abbrev pub told :
      String → String → Option (List QueryReservation) → Result UpaReservationsResponse
  told nsa_id url none = err (http_exception 502 ("Failed to query " <> nsa_id))
  told nsa_id url (some qrs) = ok (record {
    provider_nsa = nsa_id;
    provider_url = url;
    reservations = map to_upa_reservation qrs;
  })

  query_provider-told :
      (nsa_id url : String) (s : List Sent)
      → (query_provider e nsa_id url s).0
        ≡ told nsa_id url (report (e.answer url (query nsa_id url).envelope))
  unfolding query_provider ◌>>=◌ attempt
  query_provider-told nsa_id url s = ground arith

  query_provider-sent :
      (nsa_id url : String) (s : List Sent)
      → (query_provider e nsa_id url s).1 ≡ query nsa_id url ∷ s
  unfolding query_provider ◌>>=◌ attempt
  query_provider-sent nsa_id url s = ground arith

  -- A uPA was asked: an agent of the DDS by the id of the path, that the aggregator's own document
  -- lists, with the role of a uPA, at its provider URL; and it was asked once. The
  -- caller is told what it reports.
  pub record IsAsked (nsa_id : String) (s : List Sent)
      (r : Result UpaReservationsResponse × List Sent) : Type 0 where
    pub agents : List NetworkServiceAgent
    pub upa : NetworkServiceAgent
    pub url : String
    pub fetched : fetched_agents e ≡ some agents
    pub known : Member upa agents
    pub named : upa.id ≡ nsa_id
    pub listed : IsListed agents e.provider_nsa nsa_id
    pub role : Member upa_role upa.roles
    pub located : upa.provider_url ≡ some url
    pub sent : r.1 ≡ query nsa_id url ∷ s
    pub answered : r.0 ≡ told nsa_id url (report (e.answer url (query nsa_id url).envelope))

  -- Nothing was sent, and the answer is an error.
  abbrev pub IsRefused : Result UpaReservationsResponse × List Sent → List Sent → Type 0
  IsRefused r s =
      (r.1 ≡ s)
      × ((status_code : ℕ) × (detail : String) × (r.0 ≡ err (http_exception status_code detail)))

  abbrev pub asked : String → List Sent → Result UpaReservationsResponse × List Sent
  asked nsa_id s = get_provider_reservations e nsa_id s

  module _ (nsa_id : String) (s : List Sent) (configured : e.has_upa_client ≡ true)
      (agents : List NetworkServiceAgent) (fetched : fetched_agents e ≡ some agents) where
    upa_found :
        (upa : NetworkServiceAgent) (url : String)
        → first (λ u. u.id == nsa_id) (peered_upas agents e.provider_nsa) ≡ some upa
        → upa.provider_url ≡ some url
        → IsAsked nsa_id s (asked nsa_id s)
    unfolding get_provider_reservations ◌>>=◌
    upa_found upa url found located =
        let (member, same) =
          first_found (λ u. u.id == nsa_id) (peered_upas agents e.provider_nsa) upa found in
        let (known, listed, role, _) = peered_upas_lem agents e.provider_nsa upa member in
        let named : upa.id ≡ nsa_id = (eq_iff upa.id nsa_id).0 same in
        record {
          agents = agents;
          upa = upa;
          url = url;
          fetched = fetched;
          known = known;
          named = named;
          listed = subst (IsListed agents e.provider_nsa) named listed;
          role = role;
          located = located;
          sent =
              rw configured (rw fetched (rw found (rw located (query_provider-sent nsa_id url s))));
          answered =
              rw configured (rw fetched (rw found (rw located (query_provider-told nsa_id url s))));
        }

    with_agents : IsAsked nsa_id s (asked nsa_id s) ⊎ IsRefused (asked nsa_id s) s
    unfolding get_provider_reservations ◌>>=◌
    with_agents =
        elim (Option-cases (first (λ u. u.id == nsa_id) (peered_upas agents e.provider_nsa))) [
          | inl p ↦ inr (rw configured (rw fetched (rw p (refl, (404, _, refl)))))
          | inr (upa, p) ↦ elim (Option-cases upa.provider_url) [
            | inl q ↦ inr (rw configured (rw fetched (rw p (rw q (refl, (404, _, refl))))))
            | inr (url, q) ↦ inl (upa_found upa url p q)
          ]
        ]

  -- Either one query is sent, or none. If one is sent, it is the aggregator's querySummarySync
  -- without a filter, to a fetched agent with the id of the path, which the aggregator's own document
  -- lists, which has the role of a uPA, and at whose provider URL it is asked; the caller is told
  -- every reservation that it reports, in order, or 502 if it does not answer with success or cannot
  -- be read. If none is sent, the answer is an HTTP error.
  pub get_provider_reservations-IsAsked :
      (nsa_id : String) (s : List Sent)
      → IsAsked nsa_id s (get_provider_reservations e nsa_id s)
        ⊎ IsRefused (get_provider_reservations e nsa_id s) s
  unfolding get_provider_reservations ◌>>=◌
  get_provider_reservations-IsAsked nsa_id s = elim (Bool-cases e.has_upa_client) [
    | inr q ↦ inr (rw q (refl, (503, _, refl)))
    | inl configured ↦ elim (Option-cases (fetched_agents e)) [
      | inl p ↦ inr (rw configured (rw p (refl, (502, _, refl))))
      | inr (agents, fetched) ↦ with_agents nsa_id s configured agents fetched
    ]
  ]

  -- What the list says of a uPA.
  abbrev pub IsListing : NetworkServiceAgent → Upa → Type 0
  IsListing agent upa =
      (upa.nsa_id ≡ agent.id)
      × (agent.provider_url ≡ some upa.provider_url)
      × (upa.network_ids ≡ agent.network_ids)

  add_upa-some :
      (upa : NetworkServiceAgent) (o : Option String) (url : String) (rest : List Upa)
      → o ≡ some url
      → is_empty url ≡ false
      → add_upa o upa rest
        ≡ record { nsa_id = upa.id; provider_url = url; network_ids = upa.network_ids } ∷ rest
  add_upa-some upa o url rest p q = rw p (rw q refl)

  upas_of_lem :
      (upas : List NetworkServiceAgent)
      → ((u : NetworkServiceAgent)
          → Member u upas
          → (url : String) × (u.provider_url ≡ some url) × (is_empty url ≡ false))
      → Pairwise IsListing upas (upas_of e upas)
  upas_of_lem [] h = tt
  upas_of_lem (upa ∷ upas) h =
      let (url, p, q) = h upa (inl refl) in
      rw (add_upa-some upa upa.provider_url url (upas_of e upas) p q)
        ((refl, p, refl), upas_of_lem upas (λ u m. h u (inr m)))

  -- If the uPA client is configured and the DDS answers, the list has every uPA that the aggregator
  -- peers with, once and in their order, with its id, provider URL and networks: the test of the URL
  -- leaves none out. Nothing is sent to a uPA.
  pub get_providers_lem :
      (agents : List NetworkServiceAgent) (s : List Sent)
      → e.has_upa_client ≡ true
      → fetched_agents e ≡ some agents
      → (upas : List Upa) × (get_providers e s ≡ (ok upas, s))
        × Pairwise IsListing (peered_upas agents e.provider_nsa) upas
  unfolding get_providers ◌>>=◌
  get_providers_lem agents s configured fetched = (
    upas_of e (peered_upas agents e.provider_nsa),
    rw configured (rw fetched refl),
    upas_of_lem (peered_upas agents e.provider_nsa)
        (λ u m. (peered_upas_lem agents e.provider_nsa u m).3),
  )
