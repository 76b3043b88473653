-- ===== src/Mcp/Identity.antt =====
-- The identity that the REST API sees behind an MCP client.
use nsi_aggregator_proxy.Common.Dict
use nsi_aggregator_proxy.Common.Dict.{Dict}
use nsi_aggregator_proxy.Auth.{
  AuthSettings, HttpRequest, user_header, groups_header, parse_groups, header_value, user_groups,
}
use nsi_aggregator_proxy.Auth.Groups.{IsName, strip_plain, parse_groups-join}
use nsi_aggregator_proxy.Common.{
  if◌then◌else◌, or_else, prefer, ◌==◌, join, All, String, ◌≡◌, refl, ap, ◌∙◌, true, Option, none,
  some, List, ◌∷◌, arith,
}
use nsi_aggregator_proxy.Common.Words.{strip}
use nsi_aggregator_proxy.Mcp.{
  McpSettings, Claim, text_claim, list_claim, serialize_groups, email_text, set_header,
  forward_user_identity,
}

abbrev pub request_of : Dict String → HttpRequest
request_of headers = record { header = λ name. Dict.lookup name headers }

lookup-set_header :
    (k j : String) (o : Option String) (d : Dict String)
    → Dict.lookup j (set_header k o d)
      ≡ (if k == j then prefer o (Dict.lookup j d) else Dict.lookup j d)
lookup-set_header k j none d = ground arith
lookup-set_header k j (some text) d = Dict.lookup-insert k j text d ∙ ground arith

module _ (auth : AuthSettings) (settings : McpSettings) (claims : Dict Claim)
    (headers : Dict String) where
  abbrev pub forwarded : HttpRequest
  forwarded = request_of (forward_user_identity settings (some claims) headers)

  forwarded_user :
      (email : String)
      → settings.mcp_auth_enabled ≡ true
      → email_text (Dict.lookup settings.mcp_oidc_email_claim claims) ≡ some email
      → forwarded.header user_header ≡ some email
  unfolding forward_user_identity
  forwarded_user email enabled claimed = rw enabled (
      Dict.lookup-erase "Authorization" user_header _
      ∙ (lookup-set_header groups_header user_header _ _
          ∙ (lookup-set_header user_header user_header _ headers ∙ rw claimed refl)))

  forwarded_groups :
      (groups : String)
      → settings.mcp_auth_enabled ≡ true
      → serialize_groups (Dict.lookup settings.mcp_oidc_groups_claim claims) ≡ some groups
      → forwarded.header groups_header ≡ some groups
  unfolding forward_user_identity
  forwarded_groups groups enabled claimed = rw enabled (
      Dict.lookup-erase "Authorization" groups_header _
      ∙ (lookup-set_header groups_header groups_header
            (serialize_groups (Dict.lookup settings.mcp_oidc_groups_claim claims))
            (set_header user_header (email_text (Dict.lookup settings.mcp_oidc_email_claim claims))
              headers)
          ∙ rw claimed refl))

  -- If the MCP endpoint authenticates, the token claims a list of groups and an email address, and
  -- these are names without spaces and commas, then the REST API sees the user by that address with
  -- exactly those groups in their order, and no Authorization header.
  pub forward_user_identity-groups :
      (email group : String) (groups : List String) (shown : String)
      → settings.mcp_auth_enabled ≡ true
      → Dict.lookup settings.mcp_oidc_email_claim claims ≡ some (text_claim email)
      → Dict.lookup settings.mcp_oidc_groups_claim claims ≡ some (list_claim (group ∷ groups) shown)
      → IsName email
      → All IsName (group ∷ groups)
      → (header_value auth forwarded user_header ≡ email)
        × (user_groups auth forwarded ≡ group ∷ groups)
        × (forwarded.header "Authorization" ≡ none)
  unfolding forward_user_identity
  forward_user_identity-groups email group groups shown enabled claimed listed (told, clean) names =
      (
        ap (λ o. strip (or_else o "")) (forwarded_user email enabled (rw claimed (rw told refl)))
            ∙ strip_plain email clean,
        ap (λ o. parse_groups (or_else o ""))
              (forwarded_groups (join "," (group ∷ groups)) enabled (rw listed refl))
            ∙ parse_groups-join (group ∷ groups) names,
        rw enabled (Dict.lookup-erase "Authorization" "Authorization" _),
      )
