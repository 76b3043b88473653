-- ===== src/Config.antt =====
-- aggregator_proxy/settings.py: the validators of Settings. What pydantic-settings reads from the
-- environment is a `Configuration`; `Path.is_file` and `json.loads` are parameters. pydantic reports
-- every field that fails, here the first one.
pub mod Validated
mod Tests
use Prim.Native.Char.{Char, code}
use Prim.Native.String
use nsi_aggregator_proxy.Common.{
  ltb, eqb, if◌then◌else◌, is_some, ◌<>◌, is_empty, join, length, keep, String, Bool, false, not,
  ◌&&◌, Option, none, some, List, [], ◌∷◌, map,
}
use nsi_aggregator_proxy.Common.Words.{strip}
use nsi_aggregator_proxy.Runtime.{Parsed, value, value_error, ◌>>◌}
use nsi_aggregator_proxy.Soap.Etree.{◌>>=◌}

pub record Configuration : Type 0 where
  pub client_cert : Option String
  pub client_key : Option String
  pub ca_file : Option String
  pub dds_proxy_url : Option String
  pub upa_client_cert : Option String
  pub upa_client_key : Option String
  pub base_url : String
  pub proxy_auth_enabled : Bool
  pub mcp_enabled : Bool
  pub mcp_path : String
  pub mcp_auth_enabled : Bool

-- `upa_queries_enabled`
abbrev pub upa_queries_enabled : Configuration → Bool
upa_queries_enabled c = is_some c.upa_client_cert

-- A character before a text without its last slashes.
abbrev pub put_slash : Char → String → String
put_slash c String.[] = if eqb (code c) b'/' then String.[] else String.◌∷◌ c String.[]
put_slash c (String.◌∷◌ d s) = String.◌∷◌ c (String.◌∷◌ d s)

-- `v.rstrip("/")`
unfoldable pub rstrip_slashes : String → String
rstrip_slashes String.[] = String.[]
rstrip_slashes (String.◌∷◌ c s) = put_slash c (rstrip_slashes s)

unfoldable pub strip_trailing_slash : Option String → Option String
unfolding rstrip_slashes
strip_trailing_slash none = none
strip_trailing_slash (some v) = some (rstrip_slashes v)

-- `v.startswith("/")` and `v.endswith("/")`
abbrev pub starts_with_slash : String → Bool
starts_with_slash String.[] = false
starts_with_slash (String.◌∷◌ c s) = eqb (code c) b'/'

unfoldable pub ends_with_slash : String → Bool
ends_with_slash String.[] = false
ends_with_slash (String.◌∷◌ c String.[]) = eqb (code c) b'/'
ends_with_slash (String.◌∷◌ c (String.◌∷◌ d s)) = ends_with_slash (String.◌∷◌ d s)

-- `len(v) > 1`
abbrev pub is_longer : String → Bool
is_longer String.[] = false
is_longer (String.◌∷◌ c s) = not (is_empty s)

unfoldable pub validate_mcp_path : String → Parsed String
unfolding ends_with_slash
validate_mcp_path v =
    if not (starts_with_slash v)
    then value_error "MCP_PATH must start with '/'"
    else if is_longer v && ends_with_slash v
    then value_error "MCP_PATH must not end with '/'"
    else value v

unfoldable pub require_mcp_auth_when_proxy_auth_enabled : Configuration → Parsed Configuration
require_mcp_auth_when_proxy_auth_enabled c =
    if c.proxy_auth_enabled && c.mcp_enabled && not c.mcp_auth_enabled
    then value_error (
        "MCP_AUTH_ENABLED must be true when PROXY_AUTH_ENABLED and MCP_ENABLED are both true — "
        <> "otherwise the MCP claim-translation hook would translate unverified JWT claims into "
        <> "trusted REST headers.")
    else value c

-- `[name for name, value in upa_settings.items() if value is None]`
abbrev pub unset_names : List (String × Option String) → List String
unset_names [] = []
unset_names ((name, some v) ∷ rest) = unset_names rest
unset_names ((name, none) ∷ rest) = name ∷ unset_names rest

abbrev pub upa_settings : Configuration → List (String × Option String)
upa_settings c =
    ("DDS_PROXY_URL", c.dds_proxy_url)
    ∷ ("UPA_CLIENT_CERT", c.upa_client_cert)
    ∷ ("UPA_CLIENT_KEY", c.upa_client_key)
    ∷ []

unfoldable pub require_upa_settings_together : Configuration → Parsed Configuration
require_upa_settings_together c =
    let unset = unset_names (upa_settings c) in
    if ltb 0 (length unset) && ltb (length unset) 3
    then value_error (
        "DDS_PROXY_URL, UPA_CLIENT_CERT, UPA_CLIENT_KEY must be set together; missing "
        <> join ", " unset)
    else value c

-- A character before the texts between commas.
abbrev pub prepend : Char → List String → List String
prepend c [] = String.◌∷◌ c String.[] ∷ []
prepend c (w ∷ ws) = String.◌∷◌ c w ∷ ws

-- `v.split(",")`
unfoldable pub split_commas : String → List String
split_commas String.[] = "" ∷ []
split_commas (String.◌∷◌ c s) =
    let rest = split_commas s in if eqb (code c) b',' then "" ∷ rest else prepend c rest

abbrev pub starts_with_bracket : String → Bool
starts_with_bracket String.[] = false
starts_with_bracket (String.◌∷◌ c s) = eqb (code c) b'['

-- What `json.loads` reads, or its JSONDecodeError.
abbrev pub loaded : Option (List String) → Parsed (List String)
loaded none = value_error "Invalid JSON in OIDC_REQUIRED_GROUPS"
loaded (some groups) = value groups

-- Of a text; any other value is kept as it is.
unfoldable pub parse_comma_separated_groups :
    (String → Option (List String)) → String → Parsed (List String)
unfolding split_commas strip
parse_comma_separated_groups loads v =
    if is_empty v
    then value []
    else if starts_with_bracket v
    then loaded (loads v)
    else value (map strip (keep (λ g. not (is_empty (strip g))) (split_commas v)))

module _ (is_file : String → Bool) where
  unfoldable pub certificate_file_must_exist : Option String → Parsed (Option String)
  certificate_file_must_exist none = value none
  certificate_file_must_exist (some path) =
      if is_file path then value (some path) else value_error ("file not found: " <> path)

  -- The field validators, in the order of the fields.
  unfoldable pub validate_fields : Configuration → Parsed Configuration
  validate_fields c = do
    client_cert ← certificate_file_must_exist c.client_cert
    client_key ← certificate_file_must_exist c.client_key
    ca_file ← certificate_file_must_exist c.ca_file
    upa_client_cert ← certificate_file_must_exist c.upa_client_cert
    upa_client_key ← certificate_file_must_exist c.upa_client_key
    mcp_path ← validate_mcp_path c.mcp_path
    value (record c {
      client_cert = client_cert;
      client_key = client_key;
      ca_file = ca_file;
      dds_proxy_url = strip_trailing_slash c.dds_proxy_url;
      upa_client_cert = upa_client_cert;
      upa_client_key = upa_client_key;
      base_url = rstrip_slashes c.base_url;
      mcp_path = mcp_path;
    })

  -- `Settings()`: the fields, then the validators of the model.
  unfoldable pub validate : Configuration → Parsed Configuration
  validate c = do
    fields ← validate_fields c
    checked ← require_mcp_auth_when_proxy_auth_enabled fields
    require_upa_settings_together checked
