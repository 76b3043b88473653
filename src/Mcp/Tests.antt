-- ===== src/Mcp/Tests.antt =====
-- The theorem on the forwarded identity, at one token.
use nsi_aggregator_proxy.Common.Dict
use nsi_aggregator_proxy.Common.Dict.{Dict}
use nsi_aggregator_proxy.App.{Endpoint, Route, AppSettings, create_app}
use nsi_aggregator_proxy.Auth.{user_header, header_value, user_groups}
use nsi_aggregator_proxy.Auth.Groups.{IsName}
use nsi_aggregator_proxy.Auth.Tests.{sample_auth}
use nsi_aggregator_proxy.Common.{All, Member, String, ◌≡◌, refl, true, false, none, some, [], ◌∷◌}
use nsi_aggregator_proxy.Common.Words.{is_space}
use nsi_aggregator_proxy.Mcp.{McpSettings, Claim, text_claim, list_claim}
use nsi_aggregator_proxy.Mcp.Identity.{forwarded, forward_user_identity-groups}
use nsi_aggregator_proxy.Mcp.ReadOnly.{IsHarmless, IsExposed, build_mcp-IsHarmless}
use nsi_aggregator_proxy.Mcp.Tools.{detail_pattern, ServerSettings, build_auth, build_mcp}
use nsi_aggregator_proxy.Mcp.Choice.{chosen, chosen-IsFastMcp}
use nsi_aggregator_proxy.Samples.{sample_env}

abbrev sample_mcp : McpSettings
sample_mcp = record {
  mcp_auth_enabled = true;
  mcp_oidc_email_claim = "email";
  mcp_oidc_groups_claim = "groups";
}

abbrev sample_claims : Dict Claim
sample_claims =
    ("email", text_claim "ann@example.org")
    ∷ ("groups", list_claim ("staff" ∷ "ops" ∷ []) "['staff', 'ops']")
    ∷ []

abbrev sent_headers : Dict String
sent_headers = ("Authorization", "Bearer t") ∷ []

email_claimed : Dict.lookup "email" sample_claims ≡ some (text_claim "ann@example.org")
unfolding Dict.lookup
email_claimed = refl

groups_claimed :
    Dict.lookup "groups" sample_claims ≡ some (list_claim ("staff" ∷ "ops" ∷ []) "['staff', 'ops']")
unfolding Dict.lookup
groups_claimed = refl

ann-IsName : IsName "ann@example.org"
unfolding is_space
ann-IsName = (refl, refl)

groups-IsName : All IsName ("staff" ∷ "ops" ∷ [])
unfolding is_space
groups-IsName = ((refl, refl), ((refl, refl), tt))

forward_user_identity-groups_example :
    let seen = forwarded sample_auth sample_mcp sample_claims sent_headers in
    (header_value sample_auth seen user_header ≡ "ann@example.org")
    × (user_groups sample_auth seen ≡ "staff" ∷ "ops" ∷ [])
    × (seen.header "Authorization" ≡ none)
forward_user_identity-groups_example =
    forward_user_identity-groups sample_auth sample_mcp sample_claims sent_headers "ann@example.org"
      "staff" ("ops" ∷ []) "['staff', 'ops']" refl email_claimed groups_claimed ann-IsName
      groups-IsName

abbrev server : ServerSettings
server = record {
  proxy_auth_enabled = true;
  mcp_auth_enabled = true;
  verifier = record { jwks_uri = "https://oidc/jwks"; issuer = "https://oidc"; audience = "nsi" };
}

abbrev mounted : AppSettings
mounted = record { root_path = ""; mcp_enabled = true; mcp_path = "/mcp" }

build_mcp-IsHarmless_example :
    IsExposed sample_env chosen chosen-IsFastMcp server mounted Endpoint.get_reservation
    × IsExposed sample_env chosen chosen-IsFastMcp server mounted Endpoint.list_reservations
    × ((r : Route)
        → Member r (chosen (build_mcp server).route_maps (create_app mounted).routes)
        → IsHarmless sample_env r)
build_mcp-IsHarmless_example =
    build_mcp-IsHarmless sample_env chosen chosen-IsFastMcp server mounted

-- Only these two shapes of path: an empty name and a longer path are no tools.
operation_path : detail_pattern "/reservations/{connectionId}/provision" ≡ false
unfolding detail_pattern
operation_path = refl

empty_name : detail_pattern "/reservations/{}" ≡ false
unfolding detail_pattern
empty_name = refl

no_verifier : build_auth (record server { mcp_auth_enabled = false }) ≡ none
unfolding build_auth
no_verifier = refl
