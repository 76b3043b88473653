-- ===== src/Providers.antt =====
-- aggregator_proxy/routers/providers.py, with get_upa_client of aggregator_proxy/dependencies.py: the
-- uPAs that the aggregator peers with, and the query of one. The state is the list of what was sent
-- to a uPA, newest first.
pub mod Reach
mod Tests
use nsi_aggregator_proxy.Common.{
  if◌then◌else◌, ◌==◌, ◌<>◌, is_empty, first, String, Bool, Option, none, some, List, [], ◌∷◌, map,
}
use nsi_aggregator_proxy.DdsProxy.{NetworkServiceAgent, peered_upas, fetch_network_service_agents}
use nsi_aggregator_proxy.Models.{UpaReservation, Upa, UpasResponse, UpaReservationsResponse}
use nsi_aggregator_proxy.NsiCallback.Answers.{answer}
use nsi_aggregator_proxy.Runtime.{
  Content, Response, is_success, Parsed, from_library, from_parser, http_exception, error, Result,
  ok, err, Act, pure, raise, lift, ◌>>=◌, ◌>>◌, attempt,
}
use nsi_aggregator_proxy.Soap.Builder.{build_query_summary_sync}
use nsi_aggregator_proxy.Soap.Messages.{QueryReservation, NsiHeader}
use nsi_aggregator_proxy.Soap.Parser.{parse_query_summary_sync}
use nsi_aggregator_proxy.Soap.Tree.{Tree}

-- What was sent: the URL, and the envelope that `_serialize` is given.
pub record Sent : Type 0 where
  pub url : String
  pub envelope : Tree

-- What the endpoints call: whether the application has a uPA client, the client's get and pydantic's
-- reading of the agents, the uPA client, and the parser, each with `none` for an exception of the library; and the
-- correlation id that NsiHeader draws.
pub record ProvidersEnv : Type 0 where
  pub provider_nsa : String
  pub has_upa_client : Bool
  pub dds_proxy_url : String
  pub get : String → Option Response
  pub validate_json : Content → Option (List NetworkServiceAgent)
  pub answer : String → Tree → Option Response
  pub parse_query_summary_sync : Content → Parsed (List QueryReservation)
  pub correlation_id : String

abbrev pub P : Type 0 → Type 0
P A = Act (List Sent) A

unfoldable pub to_upa_reservation : QueryReservation → UpaReservation
to_upa_reservation qr = record {
  connection_id = qr.connection_id;
  global_reservation_id = qr.global_reservation_id;
  description = qr.description;
  requester_nsa = qr.requester_nsa;
  reservation_state = qr.connection_states.reservation_state;
  provision_state = qr.connection_states.provision_state;
  lifecycle_state = qr.connection_states.lifecycle_state;
  data_plane_active = qr.connection_states.data_plane_active;
  capacity = qr.capacity;
  source_stp = qr.source_stp;
  dest_stp = qr.dest_stp;
}

-- `if upa.provider_url`
abbrev pub add_upa : Option String → NetworkServiceAgent → List Upa → List Upa
add_upa none upa rest = rest
add_upa (some url) upa rest =
    if is_empty url
    then rest
    else record { nsa_id = upa.id; provider_url = url; network_ids = upa.network_ids } ∷ rest

module _ (e : ProvidersEnv) where
  -- `get_upa_client`
  unfoldable pub get_upa_client : Result (Unit {0})
  get_upa_client =
      if e.has_upa_client
      then ok tt
      else err (
          http_exception 503
            "Querying uPAs needs DDS_PROXY_URL, UPA_CLIENT_CERT and UPA_CLIENT_KEY")

  abbrev pub agents_or_502 : Option (List NetworkServiceAgent) → Result (List NetworkServiceAgent)
  agents_or_502 none = err (http_exception 502 "Failed to reach dds-proxy")
  agents_or_502 (some agents) = ok (peered_upas agents e.provider_nsa)

  -- The settings have a URL of the dds-proxy wherever the uPA client is configured.
  abbrev pub fetched_agents : Option (List NetworkServiceAgent)
  fetched_agents = fetch_network_service_agents e.get e.validate_json e.dds_proxy_url

  -- `_peered_upas`
  unfoldable pub fetch_peered_upas : Result (List NetworkServiceAgent)
  fetch_peered_upas = agents_or_502 fetched_agents

  abbrev pub unknown_upa : {A : Type 0} → String → Result A
  unknown_upa nsa_id = err (
      http_exception 404
        (nsa_id <> " is not a uPA with a provider URL that " <> e.provider_nsa <> " peers with"))

  abbrev pub url_of : String → Option String → Result String
  url_of nsa_id none = unknown_upa nsa_id
  url_of nsa_id (some url) = ok url

  abbrev pub find_url : String → Option NetworkServiceAgent → Result String
  find_url nsa_id none = unknown_upa nsa_id
  find_url nsa_id (some upa) = url_of nsa_id upa.provider_url

  -- `_provider_url`, of the peered uPAs.
  abbrev pub url_among : String → Result (List NetworkServiceAgent) → Result String
  url_among nsa_id (err x) = err x
  url_among nsa_id (ok upas) = find_url nsa_id (first (λ upa. upa.id == nsa_id) upas)

  unfoldable pub provider_url : String → Result String
  unfolding fetch_peered_upas
  provider_url nsa_id = url_among nsa_id fetch_peered_upas

  abbrev pub upas_of : List NetworkServiceAgent → UpasResponse
  upas_of [] = []
  upas_of (upa ∷ upas) = add_upa upa.provider_url upa (upas_of upas)

  abbrev pub listed_upas : Result (List NetworkServiceAgent) → Result UpasResponse
  listed_upas (err x) = err x
  listed_upas (ok upas) = ok (upas_of upas)

  unfoldable pub get_providers : P UpasResponse
  unfolding get_upa_client fetch_peered_upas
  get_providers = do lift get_upa_client; lift (listed_upas fetch_peered_upas)

  -- `await upa_client.post(provider_url, …)`
  unfoldable pub post_upa : String → Tree → P Response
  post_upa url envelope sent = (
    from_library "httpx" (e.answer url envelope),
    record { url = url; envelope = envelope } ∷ sent,
  )

  abbrev pub successful : Response → Result Response
  successful response =
      if is_success response.status_code then ok response else err (error "HTTPStatusError")

  abbrev pub query_header : String → NsiHeader
  query_header nsa_id = record {
    requester_nsa = e.provider_nsa;
    provider_nsa = nsa_id;
    reply_to = none;
    correlation_id = e.correlation_id;
  }

  unfoldable pub query_upa : String → String → P (List QueryReservation)
  unfolding post_upa
  query_upa nsa_id url = do
    response ← post_upa url (build_query_summary_sync (query_header nsa_id) none none)
    answered ← lift (successful response)
    lift (from_parser (e.parse_query_summary_sync answered.content))

  abbrev pub held : String → String → List QueryReservation → P UpaReservationsResponse
  held nsa_id url reservations = pure (record {
    provider_nsa = nsa_id;
    provider_url = url;
    reservations = map to_upa_reservation reservations;
  })

  unfoldable pub query_provider : String → String → P UpaReservationsResponse
  unfolding query_upa
  query_provider nsa_id url = do
    reservations ←
        attempt (query_upa nsa_id url)
          (λ _. raise (http_exception 502 ("Failed to query " <> nsa_id)))
    held nsa_id url reservations

  unfoldable pub get_provider_reservations : String → P UpaReservationsResponse
  unfolding get_upa_client provider_url query_provider
  get_provider_reservations nsa_id = do
    lift get_upa_client
    url ← lift (provider_url nsa_id)
    query_provider nsa_id url
