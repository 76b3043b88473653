-- ===== src/NsiClient/Identities.antt =====
-- Which certificate the uPA client presents, under validated settings.
use mathlib.Core.Path.{subst}
use nsi_aggregator_proxy.Common.{
  is_some, Option-cases, String, ◌≡◌, refl, ◌∙◌, ◌⊎◌, inl, inr, Bool, true, false, none, some,
}
use nsi_aggregator_proxy.Config.{Configuration, validate}
use nsi_aggregator_proxy.Config.Validated.{Exists, validate-IsCoherent}
use nsi_aggregator_proxy.NsiClient.{ssl_context, create_upa_client}
use nsi_aggregator_proxy.Runtime.{value}

-- The certificate and the key are files.
abbrev pub AreFiles : (String → Bool) → String × String → Type 0
AreFiles is_file (certificate, private_key) =
    (is_file certificate ≡ true) × (is_file private_key ≡ true)

module _ (is_file : String → Bool) (environment settings : Configuration)
    (validated : validate is_file environment ≡ value settings) where
  -- Settings that pass the validators give a uPA client exactly if the dds-proxy is configured, so
  -- that there are uPAs to ask. This client always presents a certificate: the aggregator's own,
  -- with a key, and both are files. It trusts the configured authorities.
  pub create_upa_client_lem :
      ((is_some settings.dds_proxy_url ≡ false) × (create_upa_client settings ≡ none))
      ⊎ ((is_some settings.dds_proxy_url ≡ true)
          × (chain : String × String) × (create_upa_client settings
              ≡ some (record { cafile = settings.ca_file; cert_chain = some chain }))
          × (settings.upa_client_cert ≡ some chain.0)
          × AreFiles is_file chain)
  unfolding create_upa_client ssl_context
  create_upa_client_lem =
      let (fields, coherent) = validate-IsCoherent is_file environment settings validated in
      elim (Option-cases settings.upa_client_cert) [
        | inl unset ↦ inl (coherent.dds ∙ rw unset refl, rw unset refl)
        | inr (certificate, p) ↦ elim (Option-cases settings.upa_client_key) [
          | inl unset ↦
              let both : is_some settings.upa_client_key ≡ is_some settings.upa_client_cert =
                coherent.key in
              cc (rw (p, unset) at both)
          | inr (private_key, q) ↦ inr (
            coherent.dds ∙ rw p refl,
            (certificate, private_key),
            rw p (rw q refl),
            p,
            (
              subst (Exists is_file) p fields.upa_certificate,
              subst (Exists is_file) q fields.upa_private_key,
            ),
          )
        ]
      ]
