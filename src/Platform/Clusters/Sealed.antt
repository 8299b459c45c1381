-- ===== src/Platform/Clusters/Sealed.antt =====
-- internal/platform/service.go: credentials, sealed and opened again.
use k8s_panel.Base.{
  ◌≡◌, refl, ap, ◌∙◌, inl, inr, false, [], ◌∷◌, arith, if◌then◌else◌, Text, runes, is_empty,
}
use k8s_panel.Domain.{Cluster, Result, Result-cases, ok}
use k8s_panel.Platform.Clusters.{labelled, cluster_aad, seal_credentials, cluster_connection}

-- What the panel relies on: a ciphertext is not empty, and it opens, with the same additional data, to what was sealed.
pub record Opens (seal open_sealed : Text → Text → Result Text) : Type 0 where
  pub is_filled : (plain aad sealed : Text) → seal plain aad ≡ ok sealed → is_empty sealed ≡ false
  pub opens :
      (plain aad sealed : Text) → seal plain aad ≡ ok sealed → open_sealed sealed aad ≡ ok plain

module _ (seal open_sealed : Text → Text → Result Text) (cipher : Opens seal open_sealed) where
  -- The field of a certificate, which is not sealed where it is empty.
  abbrev sealed_ca : Text → Text → Result Text
  sealed_ca id ca =
      if is_empty ca
      then ok []
      else labelled (runes "encrypt cluster CA") (seal ca (cluster_aad id (runes "ca_cert")))

  abbrev opened_ca : Text → Text → Result Text
  opened_ca id ca =
      if is_empty ca
      then ok []
      else labelled (runes "decrypt cluster CA") (open_sealed ca (cluster_aad id (runes "ca_cert")))

  opened_ca-sealed_ca :
      (id ca sealed : Text) → sealed_ca id ca ≡ ok sealed → opened_ca id sealed ≡ ok ca
  opened_ca-sealed_ca id [] sealed h = let e : [] ≡ sealed = ground arith in rw (← e) refl
  opened_ca-sealed_ca id (c ∷ ca) sealed h =
      elim (Result-cases (seal (c ∷ ca) (cluster_aad id (runes "ca_cert")))) [
        | inr (x, e) ↦ absurd (ground (arith, e))
        | inl (t, e) ↦
            let p : t ≡ sealed = ground (arith, e) in
            let f : seal (c ∷ ca) (cluster_aad id (runes "ca_cert")) ≡ ok sealed =
              e ∙ ap (λ (t : Text). ok t) p in
            rw (cipher.is_filled _ _ sealed f, cipher.opens _ _ sealed f) refl
      ]

  -- A cluster is connected to with the credentials that were sealed for it.
  pub connection-credentials :
      (token ca : Text) (c : Cluster)
      → seal_credentials seal c.id token ca ≡ ok (c.bearer_token_ciphertext, c.ca_cert_ciphertext)
      → cluster_connection open_sealed c
        ≡ ok (record { server = c.server; ca_cert = ca; bearer_token = token })
  unfolding seal_credentials cluster_connection
  connection-credentials token ca c h =
      let aad = cluster_aad c.id (runes "bearer_token") in
      elim (Result-cases (seal token aad)) [
        | inr (x, e) ↦ absurd (ground (arith, e))
        | inl (t, e) ↦ elim (Result-cases (sealed_ca c.id ca)) [
          | inr (x, k) ↦ absurd (ground (arith, e, k))
          | inl (s, k) ↦
              let p : t ≡ c.bearer_token_ciphertext = ground (arith, e, k, h) in
              let q : s ≡ c.ca_cert_ciphertext = ground (arith, e, k, h) in
              let a =
                cipher.opens token aad c.bearer_token_ciphertext (e ∙ ap (λ (t : Text). ok t) p) in
              let b =
                opened_ca-sealed_ca c.id ca c.ca_cert_ciphertext (k ∙ ap (λ (t : Text). ok t) q) in
              rw (a, b, cluster_connection) refl
        ]
      ]
