-- ===== src/Secure/Opened.antt =====
-- internal/secure/cipher.go and internal/platform/service.go: stored credentials, opened again.
use k8s_panel.Base.{
  ◌≡◌, refl, ap, ◌∙◌, false, [], ◌∷◌, ◌++◌, arith, leb, length, length-append, take, drop, Text,
  has_prefix,
}
use k8s_panel.Domain.{Cluster, Result, ok, err}
use k8s_panel.Secure.{Aead, seal_string, open_payload, open_string, ciphertext_version}
use k8s_panel.Platform.Clusters.{seal_credentials, cluster_connection}
use k8s_panel.Platform.Clusters.Sealed.{Opens}
use k8s_panel.Platform.Clusters.Sealed

take-append : (xs ys : Text) → take (length xs) (xs ++ ys) ≡ xs
take-append [] ys = refl
take-append (x ∷ xs) ys = ap (◌∷◌ x) (take-append xs ys)

drop-append : (xs ys : Text) → drop (length xs) (xs ++ ys) ≡ ys
drop-append [] ys = refl
drop-append (x ∷ xs) ys = drop-append xs ys

module _ (aead : Aead) where
  -- A random source that, where it gives a nonce, gives one of the right size.
  abbrev pub IsSized : (Text → Text → Result Text) → Type 0
  IsSized nonces =
      (plain aad nonce : Text) → nonces plain aad ≡ ok nonce → length nonce ≡ aead.nonce_size

  open_payload-append :
      (nonce plain aad : Text)
      → length nonce ≡ aead.nonce_size
      → open_payload aead (nonce ++ aead.gcm_seal nonce plain aad) aad ≡ ok plain
  unfolding open_payload
  open_payload-append nonce plain aad h =
      let s = aead.gcm_seal nonce plain aad in
      let l : leb (length (nonce ++ s)) aead.nonce_size ≡ false =
        ground (arith, length-append nonce s, aead.gcm_seal-pos nonce plain aad) in
      let t : take aead.nonce_size (nonce ++ s) ≡ nonce = rw (← h) (take-append nonce s) in
      let d : drop aead.nonce_size (nonce ++ s) ≡ s = rw (← h) (drop-append nonce s) in
      rw (l, t, d, aead.gcm_open-gcm_seal nonce plain aad) refl

  seal_string-ok :
      (r : Result Text) (plain aad sealed : Text)
      → seal_string aead r plain aad ≡ ok sealed
      → (nonce : Text) × (r ≡ ok nonce)
        × (ciphertext_version ++ aead.encode (nonce ++ aead.gcm_seal nonce plain aad) ≡ sealed)
  unfolding seal_string
  seal_string-ok (err e) plain aad sealed h = cc
  seal_string-ok (ok nonce) plain aad sealed h = (nonce, refl, ground (arith, h))

  open_string-encode :
      (payload aad : Text)
      → open_string aead (ciphertext_version ++ aead.encode payload) aad
        ≡ open_payload aead payload aad
  unfolding open_string has_prefix
  open_string-encode payload aad = rw (aead.decode-encode payload) refl

  pub seal_string-Opens :
      (nonces : Text → Text → Result Text)
      → IsSized nonces
      → Opens (λ plain aad. seal_string aead (nonces plain aad) plain aad) (open_string aead)
  unfolding ciphertext_version
  seal_string-Opens nonces sized = record {
    is_filled = λ plain aad sealed h.
        let (nonce, e, k) = seal_string-ok (nonces plain aad) plain aad sealed h in rw (← k) refl;
    opens = λ plain aad sealed h.
        let (nonce, e, k) = seal_string-ok (nonces plain aad) plain aad sealed h in
        rw (← k) (
          open_string-encode _ aad ∙ open_payload-append nonce plain aad (sized plain aad nonce e));
  }

  -- The credentials of a cluster survive being stored: where each nonce that is drawn has the size that the
  -- cipher wants, and sealing a token and a certificate, which may be empty, for an identifier gave two ciphertexts, a cluster of that
  -- identifier that holds them is connected to with its own server, that token and that certificate.
  pub cluster_connection-seal_credentials :
      (nonces : Text → Text → Result Text) (token ca : Text) (c : Cluster)
      → IsSized nonces
      → seal_credentials (λ plain aad. seal_string aead (nonces plain aad) plain aad) c.id token ca
        ≡ ok (c.bearer_token_ciphertext, c.ca_cert_ciphertext)
      → cluster_connection (open_string aead) c
        ≡ ok (record { server = c.server; ca_cert = ca; bearer_token = token })
  cluster_connection-seal_credentials nonces token ca c sized h =
      Sealed.connection-credentials (λ plain aad. seal_string aead (nonces plain aad) plain aad)
        (open_string aead) (seal_string-Opens nonces sized) token ca c h
