-- ===== src/Auth/Tests.antt =====
-- The theorems on authentication, at a request of a user in two groups.
use nsi_aggregator_proxy.Common.Dict
use nsi_aggregator_proxy.Auth.{
  AuthSettings, HttpRequest, User, user_header, groups_header, parse_groups, header_value,
  get_authenticated_user,
}
use nsi_aggregator_proxy.Auth.Admission.{
  NamesUser, HasMtls, IsEntitled, get_authenticated_user_iff, get_authenticated_user-refused,
}
use nsi_aggregator_proxy.Auth.Callback.{callback, receive, IsLetIn, receive_lem}
use nsi_aggregator_proxy.Common.{
  if◌then◌else◌, ◌==◌, is_empty, ℕ, String, ◌≡◌, refl, ◌↔◌, ◌⊎◌, true, false, Option, none, some,
  [], ◌∷◌,
}
use nsi_aggregator_proxy.Common.Words.{is_space}
use nsi_aggregator_proxy.NsiCallback.{soap_fault_response}
use nsi_aggregator_proxy.Runtime.{Content, Parsed, value, http_exception, ok, err}
use nsi_aggregator_proxy.Samples.{sample_settings}
use nsi_aggregator_proxy.Soap.Messages.{NsiMessage}
use nsi_aggregator_proxy.Store.{empty}

abbrev pub sample_auth : AuthSettings
sample_auth = record {
  proxy_auth_enabled = true;
  mtls_header = "X-Ssl-Cert";
  oidc_required_groups = "ops" ∷ "admin" ∷ [];
}

abbrev sample_request : HttpRequest
sample_request = record {
  header = λ name.
      if name == user_header
      then some "ann@example.org"
      else if name == groups_header
      then some "staff,ops"
      else none;
}

abbrev sample_user : Option User
sample_user = some (record { sub = "ann@example.org"; groups = "staff" ∷ "ops" ∷ [] })

ann_admitted : get_authenticated_user sample_auth sample_request ≡ ok sample_user
unfolding get_authenticated_user Dict.contains is_space
ann_admitted = refl

get_authenticated_user_iff_example :
    ((user : Option User) × (get_authenticated_user sample_auth sample_request ≡ ok user)) ↔ (
      (true ≡ false)
      ⊎ ((NamesUser sample_auth sample_request × IsEntitled sample_auth sample_request)
          ⊎ ((is_empty (header_value sample_auth sample_request user_header) ≡ true)
              × HasMtls sample_auth sample_request)))
get_authenticated_user_iff_example = get_authenticated_user_iff sample_auth sample_request

get_authenticated_user-refused_example :
    ((get_authenticated_user sample_auth sample_request
        ≡ err (http_exception 403 "Insufficient group membership"))
      ↔ ((true ≡ true)
          × NamesUser sample_auth sample_request
          × (¬ IsEntitled sample_auth sample_request)))
    × ((get_authenticated_user sample_auth sample_request
          ≡ err (http_exception 401 "Authentication required"))
        ↔ ((true ≡ true)
            × (is_empty (header_value sample_auth sample_request user_header) ≡ true)
            × (¬ HasMtls sample_auth sample_request)))
get_authenticated_user-refused_example = get_authenticated_user-refused sample_auth sample_request

-- A callback endpoint whose parsers know one message.
abbrev fromstring : Content → Option ℕ
fromstring content = some 7

abbrev read_id : ℕ → Parsed String
read_id n = value "7"

abbrev read_message : ℕ → Parsed NsiMessage
read_message n = value (NsiMessage.provision_confirmed "c1")

receive_lem_example :
    (IsLetIn sample_settings fromstring read_id read_message sample_auth sample_request [] empty
      × (receive sample_settings fromstring read_id read_message sample_auth sample_request [] empty
          ≡ callback sample_settings fromstring read_id read_message [] empty))
    ⊎ ((¬ IsLetIn sample_settings fromstring read_id read_message sample_auth sample_request []
          empty)
        × (receive sample_settings fromstring read_id read_message sample_auth sample_request []
              empty
            ≡ (soap_fault_response "mTLS authentication required" 401, empty)))
receive_lem_example =
    receive_lem sample_settings fromstring read_id read_message sample_auth sample_request [] empty

-- A space separates groups too.
spaced_group : parse_groups "not admin" ≡ "not" ∷ "admin" ∷ []
unfolding parse_groups is_space
spaced_group = refl
