-- ===== src/Config/Tests.antt =====
-- The theorem on validated settings, at one configuration.
use nsi_aggregator_proxy.Common.{String, ◌≡◌, refl, Bool, true, Option, none, some, List, [], ◌∷◌}
use nsi_aggregator_proxy.Common.Words.{is_space}
use nsi_aggregator_proxy.Config.{
  Configuration, strip_trailing_slash, validate_mcp_path, require_mcp_auth_when_proxy_auth_enabled,
  require_upa_settings_together, parse_comma_separated_groups, certificate_file_must_exist,
  validate_fields, validate,
}
use nsi_aggregator_proxy.Config.Validated.{HasFields, IsCoherent, validate-IsCoherent}
use nsi_aggregator_proxy.Runtime.{value}

abbrev sample_configuration : Configuration
sample_configuration = record {
  client_cert = some "tls.crt";
  client_key = some "tls.key";
  ca_file = none;
  dds_proxy_url = some "https://dds//";
  upa_client_cert = some "upa.crt";
  upa_client_key = some "upa.key";
  base_url = "https://proxy/";
  proxy_auth_enabled = true;
  mcp_enabled = true;
  mcp_path = "/mcp";
  mcp_auth_enabled = true;
}

abbrev any_file : String → Bool
any_file path = true

abbrev validated_configuration : Configuration
validated_configuration = record sample_configuration {
  dds_proxy_url = some "https://dds";
  base_url = "https://proxy";
}

sample_validated : validate any_file sample_configuration ≡ value validated_configuration
unfolding validate validate_fields certificate_file_must_exist strip_trailing_slash
    validate_mcp_path require_mcp_auth_when_proxy_auth_enabled require_upa_settings_together
sample_validated = refl

no_json : String → Option (List String)
no_json text = none

groups_separated :
    parse_comma_separated_groups no_json "ops, net admin,," ≡ value ("ops" ∷ "net admin" ∷ [])
unfolding parse_comma_separated_groups is_space
groups_separated = refl

validate-IsCoherent_example :
    HasFields any_file validated_configuration × IsCoherent validated_configuration
validate-IsCoherent_example =
    validate-IsCoherent any_file sample_configuration validated_configuration sample_validated
