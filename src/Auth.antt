-- ===== src/Auth.antt =====
-- aggregator_proxy/auth.py: who may call the REST API and the callback endpoint. The headers of a
-- request are starlette's lookup, which ignores case: a parameter of each request.
pub mod Admission
pub mod Callback
pub mod Groups
pub mod Tests
use nsi_aggregator_proxy.Common.Dict
use nsi_aggregator_proxy.Common.{
  if◌then◌else◌, or_else, ◌==◌, text_lt, is_empty, keep, is_nil, ℕ, String, Bool, not, ◌&&◌, Option,
  none, some, List, [], ◌∷◌, map,
}
use nsi_aggregator_proxy.Common.Words.{strip, split, commas_to_spaces}
use nsi_aggregator_proxy.Runtime.{http_exception, Result, ok, err}

-- The settings that authentication reads.
pub record AuthSettings : Type 0 where
  pub proxy_auth_enabled : Bool
  pub mtls_header : String
  pub oidc_required_groups : List String

-- `request.headers.get(name)`
pub record HttpRequest : Type 0 where
  pub header : String → Option String

pub record User : Type 0 where
  pub sub : String
  pub groups : List String

abbrev pub user_header : String
user_header = "X-Auth-Request-Email"

abbrev pub groups_header : String
groups_header = "X-Auth-Request-Groups"

abbrev pub client_dn_header : String
client_dn_header = "X-Client-DN"

unfoldable pub parse_groups : String → List String
unfolding commas_to_spaces split strip
parse_groups header_value =
    map strip (keep (λ g. not (is_empty (strip g))) (split (commas_to_spaces header_value)))

-- `sorted` of a set: in order, each once.
unfoldable pub insert_sorted : String → List String → List String
insert_sorted t [] = t ∷ []
insert_sorted t (u ∷ us) =
    let rest = u ∷ insert_sorted t us in
    if t == u then u ∷ us else if text_lt t u then t ∷ u ∷ us else rest

unfoldable pub sorted_set : List String → List String
unfolding insert_sorted
sorted_set [] = []
sorted_set (t ∷ ts) = insert_sorted t (sorted_set ts)

unfoldable pub check_groups : List String → List String → List String
unfolding sorted_set
check_groups user_groups required_groups =
    sorted_set (keep (λ g. Dict.contains g user_groups) required_groups)

module _ (settings : AuthSettings) (request : HttpRequest) where
  -- `request.headers.get(name, "").strip()`
  abbrev pub header_value : String → String
  header_value name = strip (or_else (request.header name) "")

  unfoldable pub verify_mtls : Option String
  unfolding strip
  verify_mtls =
      if is_empty settings.mtls_header
      then none
      else if is_empty (header_value settings.mtls_header)
      then none
      else some (or_else (request.header client_dn_header) "unknown")

  abbrev pub user_groups : List String
  user_groups = parse_groups (or_else (request.header groups_header) "")

  abbrev pub refused : {A : Type 0} → ℕ → String → Result A
  refused status_code detail = err (http_exception status_code detail)

  -- The branch of a request that names a user.
  unfoldable pub admit_user : String → Result (Option User)
  unfolding parse_groups check_groups
  admit_user user_id =
      let matched = check_groups user_groups settings.oidc_required_groups in
      if not (is_nil settings.oidc_required_groups) && is_nil matched
      then refused 403 "Insufficient group membership"
      else ok (some (record { sub = user_id; groups = user_groups }))

  -- The branch of a request that names none.
  abbrev pub admit_client : {A : Type 0} → A → String → Option String → Result A
  admit_client admitted detail none = refused 401 detail
  admit_client admitted detail (some client_dn) = ok admitted

  unfoldable pub get_authenticated_user : Result (Option User)
  unfolding strip verify_mtls admit_user
  get_authenticated_user =
      if not settings.proxy_auth_enabled
      then ok none
      else if not (is_empty (header_value user_header))
      then admit_user (header_value user_header)
      else admit_client none "Authentication required" verify_mtls

  unfoldable pub get_mtls_authenticated_callback : Result (Unit {0})
  unfolding verify_mtls
  get_mtls_authenticated_callback =
      if not settings.proxy_auth_enabled
      then ok tt
      else admit_client tt "mTLS authentication required" verify_mtls
