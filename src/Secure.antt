-- ===== src/Secure.antt =====
-- internal/secure/cipher.go: secrets as they are stored. AES-GCM and base64 are parameters, with the laws that
-- their packages promise; the bytes of a string stand for the string.
pub mod Opened
use k8s_panel.Base.{
  ℕ, ◌≡◌, ◌<◌, ◌≤◌, Bool, true, false, not, Option, none, some, List, [], ◌∷◌, ◌++◌, leb,
  if◌then◌else◌, length, take, drop, Text, runes, has_prefix,
}
use k8s_panel.Domain.{Result, Error, ok, err, other, wrapped}

-- `cipher.AEAD` under a key, and `base64.RawURLEncoding`.
pub record Aead : Type 0 where
  pub nonce_size : ℕ
  pub gcm_seal : Text → Text → Text → Text
  pub gcm_open : Text → Text → Text → Option Text
  pub encode : Text → Text
  pub decode : Text → Option Text
  pub gcm_open-gcm_seal :
      (nonce plain aad : Text) → gcm_open nonce (gcm_seal nonce plain aad) aad ≡ some plain
  pub gcm_seal-pos : (nonce plain aad : Text) → 0 < length (gcm_seal nonce plain aad)
  pub decode-encode : (payload : Text) → decode (encode payload) ≡ some payload

abbrev pub ciphertext_version : Text
unfolding runes
ciphertext_version = runes "v1."

module _ (aead : Aead) where
  -- `nonce` is what the random source gave, `none` where it failed with the error.
  unfoldable pub seal_string : Result Text → Text → Text → Result Text
  unfolding runes
  seal_string (err e) plaintext associated_data = err (wrapped (runes "create encryption nonce") e)
  seal_string (ok nonce) plaintext associated_data =
      ok
        (ciphertext_version ++ aead.encode (nonce ++ aead.gcm_seal nonce plaintext associated_data))

  unfoldable pub open_payload : Text → Text → Result Text
  unfolding runes
  open_payload payload associated_data =
      if leb (length payload) aead.nonce_size
      then err (other (runes "invalid ciphertext length"))
      else elim (aead.gcm_open (take aead.nonce_size payload) (drop aead.nonce_size payload)
          associated_data) [
            | none ↦ err (other (runes "ciphertext authentication failed"))
            | some plaintext ↦ ok plaintext
          ]

  unfoldable pub open_string : Text → Text → Result Text
  unfolding runes
  open_string encoded associated_data =
      if not (has_prefix encoded ciphertext_version)
      then err (other (runes "unsupported ciphertext version"))
      else elim (aead.decode (drop (length ciphertext_version) encoded)) [
        | none ↦ err (other (runes "invalid ciphertext encoding"))
        | some payload ↦ open_payload payload associated_data
      ]
