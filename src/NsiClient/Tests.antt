-- ===== src/NsiClient/Tests.antt =====
-- The theorem on the uPA client, at validated settings.
use nsi_aggregator_proxy.Common.{
  is_some, String, ◌≡◌, refl, ◌⊎◌, Bool, true, false, none, some, [], ◌∷◌,
}
use nsi_aggregator_proxy.Config.{
  Configuration, strip_trailing_slash, validate_mcp_path, require_mcp_auth_when_proxy_auth_enabled,
  require_upa_settings_together, certificate_file_must_exist, validate_fields, validate,
}
use nsi_aggregator_proxy.NsiClient.{create_nsi_client, create_upa_client, soap_headers}
use nsi_aggregator_proxy.NsiClient.Identities.{AreFiles, create_upa_client_lem}
use nsi_aggregator_proxy.Runtime.{value}

abbrev environment : Configuration
environment = record {
  client_cert = none;
  client_key = none;
  ca_file = some "ca.crt";
  dds_proxy_url = some "https://dds";
  upa_client_cert = some "upa.crt";
  upa_client_key = some "upa.key";
  base_url = "https://proxy";
  proxy_auth_enabled = false;
  mcp_enabled = false;
  mcp_path = "/mcp";
  mcp_auth_enabled = false;
}

abbrev any_file : String → Bool
any_file path = true

environment_validated : validate any_file environment ≡ value environment
unfolding validate validate_fields certificate_file_must_exist strip_trailing_slash
    validate_mcp_path require_mcp_auth_when_proxy_auth_enabled require_upa_settings_together
environment_validated = refl

create_upa_client_lem_example :
    ((is_some environment.dds_proxy_url ≡ false) × (create_upa_client environment ≡ none))
    ⊎ ((is_some environment.dds_proxy_url ≡ true)
        × (chain : String × String) × (create_upa_client environment
            ≡ some (record { cafile = environment.ca_file; cert_chain = some chain }))
        × (environment.upa_client_cert ≡ some chain.0)
        × AreFiles any_file chain)
create_upa_client_lem_example =
    create_upa_client_lem any_file environment environment environment_validated

no_key : (create_nsi_client (record environment { client_cert = some "tls.crt" })).cert_chain ≡ none
unfolding create_nsi_client
no_key = refl

reserve_headers :
    soap_headers "reserve"
    ≡ ("Content-Type", "text/xml; charset=utf-8")
      ∷ ("SOAPAction", "\"http://schemas.ogf.org/nsi/2013/12/connection/service/reserve\"")
      ∷ []
unfolding soap_headers
reserve_headers = refl
