-- ===== src/Auth/Callback.antt =====
-- The callback endpoint behind its dependency, as main.py puts them together: a refusal is answered
-- with a SOAP Fault by soap_or_json_error_handler.
use nsi_aggregator_proxy.Auth.{
  AuthSettings, HttpRequest, header_value, verify_mtls, get_mtls_authenticated_callback,
}
use nsi_aggregator_proxy.Auth.Admission.{HasMtls, verify_mtls_iff}
use nsi_aggregator_proxy.Common.{
  is_some, Bool-cases, is_empty, String, ◌≡◌, ◌⊎◌, inl, inr, true, false, Option, arith,
}
use nsi_aggregator_proxy.NsiCallback.{CallbackResponse, soap_fault_response, nsi_callback}
use nsi_aggregator_proxy.Runtime.{Settings, Content, Parsed, http_exception, Result, ok, err}
use nsi_aggregator_proxy.Soap.Messages.{NsiMessage}
use nsi_aggregator_proxy.Store.{ReservationStore}

module _ (settings : Settings) {Element : Type 0} (fromstring : Content → Option Element)
    (parse_correlation_id : Element → Parsed String) (parse : Element → Parsed NsiMessage) where
  abbrev pub callback : Content → ReservationStore → CallbackResponse × ReservationStore
  callback = nsi_callback settings fromstring parse_correlation_id parse

  -- The dependency's result, and the endpoint after it. The dependency raises an HTTPException only.
  abbrev pub after_guard :
      Result (Unit {0}) → Content → ReservationStore → CallbackResponse × ReservationStore
  after_guard (ok admitted) body s = callback body s
  after_guard (err (http_exception status_code detail)) body s =
      (soap_fault_response detail status_code, s)
  after_guard (err _) body s = (soap_fault_response "Internal Server Error" 500, s)

  unfoldable pub receive :
      AuthSettings → HttpRequest → Content → ReservationStore → CallbackResponse × ReservationStore
  receive auth request body s = after_guard (get_mtls_authenticated_callback auth request) body s

  module _ (auth : AuthSettings) (request : HttpRequest) (body : Content)
      (s : ReservationStore) where
    receive-HasMtls :
        (auth.proxy_auth_enabled ≡ false) ⊎ HasMtls auth request
        → receive auth request body s ≡ callback body s
    unfolding receive get_mtls_authenticated_callback
    receive-HasMtls (inl disabled) = ground arith
    receive-HasMtls (inr (configured, told)) = ground arith

    receive-refused :
        auth.proxy_auth_enabled ≡ true
        → ¬ HasMtls auth request
        → receive auth request body s ≡ (soap_fault_response "mTLS authentication required" 401, s)
    unfolding receive get_mtls_authenticated_callback
    receive-refused enabled without = elim (Bool-cases (is_empty auth.mtls_header)) [
      | inl p ↦ ground arith
      | inr q ↦ elim (Bool-cases (is_empty (header_value auth request auth.mtls_header))) [
        | inl p ↦ ground arith
        | inr told ↦ absurd (without (q, told))
      ]
    ]

    abbrev pub IsLetIn : Type 0
    IsLetIn = (auth.proxy_auth_enabled ≡ false) ⊎ HasMtls auth request

    -- A callback is either let in or refused. It is let in if authentication is disabled or the
    -- configured mTLS header is present, and handled as without the guard. Any other, whatever user
    -- and groups its headers name, is answered with a SOAP Fault and 401, and the store stays as it
    -- is: no future is resolved.
    pub receive_lem :
        (IsLetIn × (receive auth request body s ≡ callback body s))
        ⊎ ((¬ IsLetIn)
            × (receive auth request body s
                ≡ (soap_fault_response "mTLS authentication required" 401, s)))
    receive_lem = elim (Bool-cases auth.proxy_auth_enabled) [
      | inr disabled ↦ inl (inl disabled, receive-HasMtls (inl disabled))
      | inl enabled ↦ elim (Bool-cases (is_some (verify_mtls auth request))) [
        | inl told ↦
            let mtls = (verify_mtls_iff auth request).0 told in
            inl (inr mtls, receive-HasMtls (inr mtls))
        | inr silent ↦
            let without : ¬ HasMtls auth request =
              λ mtls. cc (silent, (verify_mtls_iff auth request).1 mtls) in
            inr (
              (λ letin. elim letin [
                | inl disabled ↦ cc (enabled, disabled)
                | inr mtls ↦ without mtls
              ]),
              receive-refused enabled without,
            )
      ]
    ]
