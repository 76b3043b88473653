-- ===== src/Auth/Admission.antt =====
-- Who is admitted to the REST API, and how the others are refused.
use nsi_aggregator_proxy.Common.Dict
use nsi_aggregator_proxy.Auth.{
  AuthSettings, HttpRequest, User, user_header, insert_sorted, sorted_set, check_groups,
  header_value, verify_mtls, user_groups, get_authenticated_user,
}
use nsi_aggregator_proxy.Common.{
  if◌then◌else◌, is_some, Bool-cases, is_empty, is_nil, Member, Member-keep, keep-Member, String,
  ◌≡◌, refl, ◌∙◌, ◌↔◌, ◌⊎◌, inl, inr, Bool, true, false, not, ◌&&◌, Option, none, some, List, [],
  ◌∷◌, arith, eq_iff,
}
use nsi_aggregator_proxy.Runtime.{http_exception, Result, ok, err}

-- Membership in a sorted set.
insert_sorted-Member :
    (g t : String) (ts : List String) → Member g (insert_sorted t ts) → Member g (t ∷ ts)
unfolding insert_sorted
insert_sorted-Member g t [] m = m
insert_sorted-Member g t (u ∷ us) m = ground (arith, eq_iff t u, insert_sorted-Member g t us)

Member-insert_sorted :
    (g t : String) (ts : List String) → Member g (t ∷ ts) → Member g (insert_sorted t ts)
unfolding insert_sorted
Member-insert_sorted g t [] m = m
Member-insert_sorted g t (u ∷ us) m = ground (arith, eq_iff t u, Member-insert_sorted g t us)

sorted_set-Member : (g : String) (ts : List String) → Member g (sorted_set ts) → Member g ts
unfolding sorted_set
sorted_set-Member g [] m = m
sorted_set-Member g (t ∷ ts) m =
    ground (arith, insert_sorted-Member g t (sorted_set ts), sorted_set-Member g ts)

Member-sorted_set : (g : String) (ts : List String) → Member g ts → Member g (sorted_set ts)
unfolding sorted_set
Member-sorted_set g [] m = m
Member-sorted_set g (t ∷ ts) m =
    ground (arith, Member-insert_sorted g t (sorted_set ts), Member-sorted_set g ts)

pub check_groups_iff :
    (g : String) (user required : List String)
    → Member g (check_groups user required) ↔ (Member g user × Member g required)
unfolding check_groups
check_groups_iff g user required = (there, back)
  where
    there : Member g (check_groups user required) → Member g user × Member g required
    there m =
        let (asked, found) =
          keep-Member (λ j. Dict.contains j user) g required (sorted_set-Member g _ m) in
        ((Dict.contains_iff g user).0 found, asked)

    back : Member g user × Member g required → Member g (check_groups user required)
    back (m, n) =
        Member-sorted_set g _
          (Member-keep (λ j. Dict.contains j user) g required n ((Dict.contains_iff g user).1 m))

is_nil-Member : (gs : List String) → is_nil gs ≡ false → (g : String) × Member g gs
is_nil-Member [] h = cc (h)
is_nil-Member (g ∷ gs) h = (g, inl refl)

Member-is_nil : (g : String) (gs : List String) → Member g gs → is_nil gs ≡ false
Member-is_nil g [] m = elim m [ ]
Member-is_nil g (j ∷ gs) m = refl

module _ (settings : AuthSettings) (request : HttpRequest) where
  -- The proxy in front names a user, and the mTLS header, if one is configured, says something.
  abbrev pub NamesUser : Type 0
  NamesUser = is_empty (header_value settings request user_header) ≡ false

  abbrev pub HasMtls : Type 0
  HasMtls =
      (is_empty settings.mtls_header ≡ false)
      × (is_empty (header_value settings request settings.mtls_header) ≡ false)

  -- No group is required, or the user is in one that is.
  abbrev pub IsEntitled : Type 0
  IsEntitled =
      (is_nil settings.oidc_required_groups ≡ true)
      ⊎ ((g : String) × Member g (user_groups settings request)
          × Member g settings.oidc_required_groups)

  pub verify_mtls_iff : (is_some (verify_mtls settings request) ≡ true) ↔ HasMtls
  unfolding verify_mtls
  verify_mtls_iff = (λ h. ground arith, λ h. ground arith)

  abbrev matched : List String
  matched = check_groups (user_groups settings request) settings.oidc_required_groups

  -- The test of the code on the matched groups.
  abbrev lacks_group : Bool
  lacks_group = not (is_nil settings.oidc_required_groups) && is_nil matched

  lacks_group-IsEntitled : lacks_group ≡ false → IsEntitled
  lacks_group-IsEntitled h = elim (Bool-cases (is_nil settings.oidc_required_groups)) [
    | inl p ↦ inl p
    | inr q ↦
        let (g, m) = is_nil-Member matched (rw q at h) in
        let (held, asked) =
          (check_groups_iff g (user_groups settings request) settings.oidc_required_groups).0 m in
        inr (g, held, asked)
  ]

  IsEntitled-lacks_group : IsEntitled → lacks_group ≡ false
  IsEntitled-lacks_group (inl p) = rw p refl
  IsEntitled-lacks_group (inr (g, held, asked)) =
      rw
        (Member-is_nil g matched (
          (check_groups_iff g (user_groups settings request) settings.oidc_required_groups).1
            (held, asked)))
        (ground arith)

  abbrev result : Result (Option User)
  result = get_authenticated_user settings request

  -- What the endpoint's dependency makes of the four tests.
  result_lem : result ≡ (
      if not settings.proxy_auth_enabled
      then ok none
      else if is_empty (header_value settings request user_header)
      then (if is_some (verify_mtls settings request)
          then ok none
          else err (http_exception 401 "Authentication required"))
      else if lacks_group
      then err (http_exception 403 "Insufficient group membership")
      else ok (
          some (record {
            sub = header_value settings request user_header;
            groups = user_groups settings request;
          })))
  unfolding get_authenticated_user
  result_lem = ground arith

  -- The dependency returns, or raises one of two exceptions.
  pub get_authenticated_user_cases :
      ((user : Option User) × (get_authenticated_user settings request ≡ ok user))
      ⊎ ((get_authenticated_user settings request
            ≡ err (http_exception 403 "Insufficient group membership"))
          ⊎ (get_authenticated_user settings request
              ≡ err (http_exception 401 "Authentication required")))
  unfolding verify_mtls
  get_authenticated_user_cases = elim (Bool-cases settings.proxy_auth_enabled) [
    | inr disabled ↦ inl (none, result_lem ∙ rw disabled refl)
    | inl enabled ↦ elim (Bool-cases (is_empty (header_value settings request user_header))) [
      | inl blank ↦ elim (Bool-cases (is_some (verify_mtls settings request))) [
        | inl told ↦ inl (none, result_lem ∙ rw enabled (rw blank (rw told refl)))
        | inr silent ↦ inr (inr (result_lem ∙ rw enabled (rw blank (rw silent refl))))
      ]
      | inr named ↦ elim (Bool-cases lacks_group) [
        | inl lacks ↦ inr (inl (result_lem ∙ rw enabled (rw named (rw lacks refl))))
        | inr has ↦ inl (
          some (record {
            sub = header_value settings request user_header;
            groups = user_groups settings request;
          }),
          result_lem ∙ rw enabled (rw named (rw has refl)),
        )
      ]
    ]
  ]

  -- A request is admitted exactly if authentication is disabled, or the proxy in front names a user
  -- who is in a required group, or none is required, or it names no user and the configured mTLS
  -- header is present. A user named without a required group is not admitted by the mTLS header.
  pub get_authenticated_user_iff :
      ((user : Option User) × (get_authenticated_user settings request ≡ ok user)) ↔ (
        (settings.proxy_auth_enabled ≡ false)
        ⊎ ((NamesUser × IsEntitled)
            ⊎ ((is_empty (header_value settings request user_header) ≡ true) × HasMtls)))
  unfolding verify_mtls
  get_authenticated_user_iff = (there, back)
    where
      there :
          ((user : Option User) × (get_authenticated_user settings request ≡ ok user))
          → (settings.proxy_auth_enabled ≡ false)
            ⊎ ((NamesUser × IsEntitled)
                ⊎ ((is_empty (header_value settings request user_header) ≡ true) × HasMtls))
      there (user, h) = elim (Bool-cases settings.proxy_auth_enabled) [
        | inr disabled ↦ inl disabled
        | inl enabled ↦ elim (Bool-cases (is_empty (header_value settings request user_header))) [
          | inl blank ↦ inr (inr (blank, verify_mtls_iff.0 (ground (arith, result_lem))))
          | inr named ↦ inr (inl (named, lacks_group-IsEntitled (ground (arith, result_lem))))
        ]
      ]

      back :
          (settings.proxy_auth_enabled ≡ false)
            ⊎ ((NamesUser × IsEntitled)
                ⊎ ((is_empty (header_value settings request user_header) ≡ true) × HasMtls))
          → (user : Option User) × (get_authenticated_user settings request ≡ ok user)
      back (inl disabled) = (none, result_lem ∙ rw disabled refl)
      back (inr (inl (named, entitled))) = elim (Bool-cases settings.proxy_auth_enabled) [
        | inr disabled ↦ (none, result_lem ∙ rw disabled refl)
        | inl enabled ↦ (
          some (record {
            sub = header_value settings request user_header;
            groups = user_groups settings request;
          }),
          result_lem ∙ rw enabled (rw named (rw (IsEntitled-lacks_group entitled) refl)),
        )
      ]
      back (inr (inr (blank, mtls))) = elim (Bool-cases settings.proxy_auth_enabled) [
        | inr disabled ↦ (none, result_lem ∙ rw disabled refl)
        | inl enabled ↦
            (none, result_lem ∙ rw enabled (rw blank (rw (verify_mtls_iff.1 mtls) refl)))
      ]

  -- A request is refused with 403 exactly if authentication is enabled and it names a user who is in
  -- no required group where one is required; and with 401 exactly if authentication is enabled, it
  -- names no user, and the mTLS header is not configured or not present.
  pub get_authenticated_user-refused :
      ((get_authenticated_user settings request
          ≡ err (http_exception 403 "Insufficient group membership"))
        ↔ ((settings.proxy_auth_enabled ≡ true) × NamesUser × (¬ IsEntitled)))
      × ((get_authenticated_user settings request
            ≡ err (http_exception 401 "Authentication required"))
          ↔ ((settings.proxy_auth_enabled ≡ true)
              × (is_empty (header_value settings request user_header) ≡ true)
              × (¬ HasMtls)))
  unfolding verify_mtls
  get_authenticated_user-refused = ((forbidden, forbid), (unknown, reject))
    where
      forbidden :
          result ≡ err (http_exception 403 "Insufficient group membership")
          → (settings.proxy_auth_enabled ≡ true) × NamesUser × (¬ IsEntitled)
      forbidden h = (
        ground (arith, result_lem),
        ground (arith, result_lem),
        λ entitled. ground (arith, result_lem, IsEntitled-lacks_group entitled),
      )

      forbid :
          (settings.proxy_auth_enabled ≡ true) × NamesUser × (¬ IsEntitled)
          → result ≡ err (http_exception 403 "Insufficient group membership")
      forbid (enabled, named, barred) = elim (Bool-cases lacks_group) [
        | inl lacks ↦ result_lem ∙ rw enabled (rw named (rw lacks refl))
        | inr has ↦ absurd (barred (lacks_group-IsEntitled has))
      ]

      unknown :
          result ≡ err (http_exception 401 "Authentication required")
          → (settings.proxy_auth_enabled ≡ true)
            × (is_empty (header_value settings request user_header) ≡ true)
            × (¬ HasMtls)
      unknown h = (
        ground (arith, result_lem),
        ground (arith, result_lem),
        λ mtls. ground (arith, result_lem, verify_mtls_iff.1 mtls),
      )

      reject :
          (settings.proxy_auth_enabled ≡ true)
            × (is_empty (header_value settings request user_header) ≡ true)
            × (¬ HasMtls)
          → result ≡ err (http_exception 401 "Authentication required")
      reject (enabled, blank, without) =
          elim (Bool-cases (is_some (verify_mtls settings request))) [
            | inl told ↦ absurd (without (verify_mtls_iff.0 told))
            | inr silent ↦ result_lem ∙ rw enabled (rw blank (rw silent refl))
          ]
