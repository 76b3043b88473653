-- ===== src/Mcp.antt =====
-- aggregator_proxy/mcp_server.py: how the identity of an MCP client reaches the REST API. The claims
-- are those of the token that fastmcp has validated; header names are compared without case, and
-- stand here as auth.py spells them.
pub mod Identity
pub mod Tools
pub mod Choice
pub mod ReadOnly
mod Tests
use nsi_aggregator_proxy.Common.Dict
use nsi_aggregator_proxy.Common.Dict.{Dict}
use nsi_aggregator_proxy.Auth.{user_header, groups_header}
use nsi_aggregator_proxy.Common.{
  if◌then◌else◌, is_empty, join, is_nil, String, Bool, not, Option, none, some, List, [], ◌∷◌,
}

pub record McpSettings : Type 0 where
  pub mcp_auth_enabled : Bool
  pub mcp_oidc_email_claim : String
  pub mcp_oidc_groups_claim : String

-- A claim of a token: a text, a list by the `str` of its items, or any other value by its truth; the
-- last two with their own `str`.
pub data Claim : Type 0 where
  text_claim : (text : String) → Claim
  list_claim : (items : List String) (shown : String) → Claim
  other_claim : (truth : Bool) (shown : String) → Claim

abbrev pub list_groups : List String → Option String
list_groups [] = none
list_groups (g ∷ gs) = some (join "," (g ∷ gs))

unfoldable pub serialize_groups : Option Claim → Option String
serialize_groups none = none
serialize_groups (some (text_claim text)) = if is_empty text then none else some text
serialize_groups (some (list_claim items shown)) = list_groups items
serialize_groups (some (other_claim truth shown)) = none

-- `str(email)` if `email` is true.
abbrev pub email_text : Option Claim → Option String
email_text none = none
email_text (some (text_claim text)) = if is_empty text then none else some text
email_text (some (list_claim items shown)) = if is_nil items then none else some shown
email_text (some (other_claim truth shown)) = if truth then some shown else none

-- `request.headers[name] = value`, unless there is no value.
abbrev pub set_header : String → Option String → Dict String → Dict String
set_header name none headers = headers
set_header name (some text) headers = Dict.insert name text headers

unfoldable pub forward_claims : McpSettings → Dict Claim → Dict String → Dict String
unfolding serialize_groups
forward_claims settings claims headers = Dict.erase "Authorization" (
    set_header groups_header (serialize_groups (Dict.lookup settings.mcp_oidc_groups_claim claims))
      (set_header user_header (email_text (Dict.lookup settings.mcp_oidc_email_claim claims))
        headers))

-- `none` where `get_access_token()` is None.
abbrev pub forward_token : McpSettings → Option (Dict Claim) → Dict String → Dict String
forward_token settings none headers = headers
forward_token settings (some claims) headers = forward_claims settings claims headers

unfoldable pub forward_user_identity : McpSettings → Option (Dict Claim) → Dict String → Dict String
unfolding forward_claims
forward_user_identity settings token headers =
    if not settings.mcp_auth_enabled then headers else forward_token settings token headers
