-- ===== src/NsiClient.antt =====
-- aggregator_proxy/nsi_client.py: what the two httpx clients are created with, and the headers of a
-- SOAP request. `ssl.create_default_context` always verifies the server; a context is the trust
-- store that it is given and the certificate chain that is loaded into it.
pub mod Identities
mod Tests
use nsi_aggregator_proxy.Common.Dict.{Dict}
use nsi_aggregator_proxy.Common.{◌<>◌, if◌then◌else◌, String, not, Option, none, some, [], ◌∷◌}
use nsi_aggregator_proxy.Config.{Configuration, upa_queries_enabled}

pub record SslContext : Type 0 where
  pub cafile : Option String
  pub cert_chain : Option (String × String)

-- A certificate is presented only with its key.
abbrev pub cert_chain : Option String → Option String → Option (String × String)
cert_chain (some client_cert) (some client_key) = some (client_cert, client_key)
cert_chain _ _ = none

unfoldable pub ssl_context : Configuration → Option String → Option String → SslContext
ssl_context settings client_cert client_key = record {
  cafile = settings.ca_file;
  cert_chain = cert_chain client_cert client_key;
}

unfoldable pub create_nsi_client : Configuration → SslContext
unfolding ssl_context
create_nsi_client settings = ssl_context settings settings.client_cert settings.client_key

unfoldable pub create_upa_client : Configuration → Option SslContext
unfolding ssl_context
create_upa_client settings =
    if not (upa_queries_enabled settings)
    then none
    else some (ssl_context settings settings.upa_client_cert settings.upa_client_key)

abbrev pub soap_action_base : String
soap_action_base = "http://schemas.ogf.org/nsi/2013/12/connection/service"

unfoldable pub soap_headers : String → Dict String
soap_headers operation =
    ("Content-Type", "text/xml; charset=utf-8")
    ∷ ("SOAPAction", "\"" <> soap_action_base <> "/" <> operation <> "\"")
    ∷ []
