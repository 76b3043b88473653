-- ===== src/Config/Validated.antt =====
-- What holds of settings that pass the validators.
use Prim.Native.Char.{Char, code}
use mathlib.Core.Path.{subst}
use nsi_aggregator_proxy.Common.{
  eqb, is_some, Bool-cases, String, ◌≡◌, refl, ◌∙◌, inl, inr, Bool, true, false, not, ◌&&◌, Option,
  none, some, arith,
}
use nsi_aggregator_proxy.Config.{
  Configuration, upa_queries_enabled, put_slash, rstrip_slashes, strip_trailing_slash,
  starts_with_slash, ends_with_slash, is_longer, validate_mcp_path,
  require_mcp_auth_when_proxy_auth_enabled, require_upa_settings_together,
  certificate_file_must_exist, validate_fields, validate,
}
use nsi_aggregator_proxy.Runtime.{value}
use nsi_aggregator_proxy.Soap.Etree.Laws.{>>=-value}

ends_with_slash-put_slash :
    (c : Char) (s : String) → ends_with_slash s ≡ false → ends_with_slash (put_slash c s) ≡ false
unfolding ends_with_slash
ends_with_slash-put_slash c String.[] h = elim (Bool-cases (eqb (code c) b'/')) [
  | inl p ↦ rw p refl
  | inr q ↦ rw q q
]
ends_with_slash-put_slash c (String.◌∷◌ d s) h = h

ends_with_slash-rstrip_slashes : (s : String) → ends_with_slash (rstrip_slashes s) ≡ false
unfolding rstrip_slashes ends_with_slash
ends_with_slash-rstrip_slashes String.[] = refl
ends_with_slash-rstrip_slashes (String.◌∷◌ c s) =
    ends_with_slash-put_slash c (rstrip_slashes s) (ends_with_slash-rstrip_slashes s)

abbrev pub HasNoSlash : Option String → Type 0
HasNoSlash none = Unit {0}
HasNoSlash (some v) = ends_with_slash v ≡ false

strip_trailing_slash-HasNoSlash : (v : Option String) → HasNoSlash (strip_trailing_slash v)
unfolding strip_trailing_slash
strip_trailing_slash-HasNoSlash none = tt
strip_trailing_slash-HasNoSlash (some v) = ends_with_slash-rstrip_slashes v

abbrev pub Exists : (String → Bool) → Option String → Type 0
Exists is_file none = Unit {0}
Exists is_file (some path) = is_file path ≡ true

-- Every certificate is a file, the base URLs do not end with a slash, and the path of the MCP endpoint
-- can be mounted.
pub record HasFields (is_file : String → Bool) (c : Configuration) : Type 0 where
  pub certificate : Exists is_file c.client_cert
  pub private_key : Exists is_file c.client_key
  pub authorities : Exists is_file c.ca_file
  pub upa_certificate : Exists is_file c.upa_client_cert
  pub upa_private_key : Exists is_file c.upa_client_key
  pub base : ends_with_slash c.base_url ≡ false
  pub dds_base : HasNoSlash c.dds_proxy_url
  pub mounted : starts_with_slash c.mcp_path ≡ true
  pub mounted_end : (is_longer c.mcp_path && ends_with_slash c.mcp_path) ≡ false

-- The uPA settings are given together, so the dds-proxy is known wherever a uPA can be queried; and
-- the MCP endpoint authenticates wherever both it and authentication are enabled.
pub record IsCoherent (c : Configuration) : Type 0 where
  pub dds : is_some c.dds_proxy_url ≡ upa_queries_enabled c
  pub key : is_some c.upa_client_key ≡ upa_queries_enabled c
  pub verified : (c.proxy_auth_enabled && c.mcp_enabled && not c.mcp_auth_enabled) ≡ false

require_upa_settings_together-eq :
    (c c' : Configuration)
    → require_upa_settings_together c ≡ value c'
    → (c ≡ c')
      × (is_some c.dds_proxy_url ≡ upa_queries_enabled c)
      × (is_some c.upa_client_key ≡ upa_queries_enabled c)
unfolding require_upa_settings_together
require_upa_settings_together-eq c c' h = (ground arith, ground arith, ground arith)

require_mcp_auth-eq :
    (c c' : Configuration)
    → require_mcp_auth_when_proxy_auth_enabled c ≡ value c'
    → (c ≡ c') × ((c.proxy_auth_enabled && c.mcp_enabled && not c.mcp_auth_enabled) ≡ false)
unfolding require_mcp_auth_when_proxy_auth_enabled
require_mcp_auth-eq c c' h = (ground arith, ground arith)

validate_mcp_path-eq :
    (v v' : String)
    → validate_mcp_path v ≡ value v'
    → (starts_with_slash v' ≡ true) × ((is_longer v' && ends_with_slash v') ≡ false)
unfolding validate_mcp_path
validate_mcp_path-eq v v' h = (ground arith, ground arith)

certificate-Exists :
    (is_file : String → Bool) (v v' : Option String)
    → certificate_file_must_exist is_file v ≡ value v'
    → Exists is_file v'
unfolding certificate_file_must_exist
certificate-Exists is_file none v' h = ground arith
certificate-Exists is_file (some path) v' h = ground arith

validate_fields-HasFields :
    (is_file : String → Bool) (c c' : Configuration)
    → validate_fields is_file c ≡ value c'
    → HasFields is_file c'
unfolding validate_fields
validate_fields-HasFields is_file c c' h = record {
  certificate = ground (arith, certificate-Exists is_file c.client_cert c'.client_cert);
  private_key = ground (arith, certificate-Exists is_file c.client_key c'.client_key);
  authorities = ground (arith, certificate-Exists is_file c.ca_file c'.ca_file);
  upa_certificate = ground (arith, certificate-Exists is_file c.upa_client_cert c'.upa_client_cert);
  upa_private_key = ground (arith, certificate-Exists is_file c.upa_client_key c'.upa_client_key);
  base = ground (arith, ends_with_slash-rstrip_slashes c.base_url);
  dds_base =
      let same : strip_trailing_slash c.dds_proxy_url ≡ c'.dds_proxy_url = ground arith in
      subst HasNoSlash same (strip_trailing_slash-HasNoSlash c.dds_proxy_url);
  mounted = ground (arith, validate_mcp_path-eq c.mcp_path c'.mcp_path);
  mounted_end = ground (arith, validate_mcp_path-eq c.mcp_path c'.mcp_path);
}

-- Settings that pass the validators name certificates that are files, base URLs without a slash at
-- the end, and a path at which the MCP endpoint can be mounted. The dds-proxy URL and the two uPA
-- certificate settings are all given or none, so that uPA queries have a dds-proxy. The MCP endpoint
-- authenticates if both it and authentication are enabled.
pub validate-IsCoherent :
    (is_file : String → Bool) (c c' : Configuration)
    → validate is_file c ≡ value c'
    → HasFields is_file c' × IsCoherent c'
unfolding validate
validate-IsCoherent is_file c c' h =
    let (fields, read, later) = >>=-value (validate_fields is_file c) _ h in
    let (checked, mcp, upa) = >>=-value (require_mcp_auth_when_proxy_auth_enabled fields) _ later in
    let (same, verified) = require_mcp_auth-eq fields checked mcp in
    let (same', dds, key) = require_upa_settings_together-eq checked c' upa in
    let joined : fields ≡ c' = same ∙ same' in
    (
      subst (HasFields is_file) joined (validate_fields-HasFields is_file c fields read),
      record {
        dds = subst (λ k. is_some k.dds_proxy_url ≡ upa_queries_enabled k) same' dds;
        key = subst (λ k. is_some k.upa_client_key ≡ upa_queries_enabled k) same' key;
        verified =
            subst (λ k. (k.proxy_auth_enabled && k.mcp_enabled && not k.mcp_auth_enabled) ≡ false)
              joined verified;
      },
    )
