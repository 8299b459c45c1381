-- ===== src/Tests/Secrets.antt =====
-- internal/secure/cipher.go with a cipher that puts the text behind a mark, and an encoding that changes nothing.
use k8s_panel.Base.{Option, ◌≡◌, refl, none, some, [], ◌∷◌, arith, Text}
use k8s_panel.Domain.{Cluster, Result, ok}
use k8s_panel.Secure.{Aead, seal_string, open_string}
use k8s_panel.Platform.Clusters.Lifecycle.{trim_right}
use k8s_panel.Platform.Clusters.{seal_credentials, cluster_connection}
use k8s_panel.Tests.Stores.{cluster}
use k8s_panel.Secure.Opened
use k8s_panel.Validation.Origins.{RepositoryInput}
use k8s_panel.Platform.Repositories.{
  sealed_field, repository_connection, repository_credentials, new_repository,
}
use k8s_panel.Platform.Repositories.Sealed

abbrev without_mark : Text → Option Text
without_mark [] = none
without_mark (c ∷ s) = some s

abbrev aead : Aead
aead = record {
  nonce_size = 2;
  gcm_seal = λ nonce plain aad. b'#' ∷ plain;
  gcm_open = λ nonce sealed aad. without_mark sealed;
  encode = λ s. s;
  decode = λ s. some s;
  gcm_open-gcm_seal = λ nonce plain aad. refl;
  gcm_seal-pos = λ nonce plain aad. omega arith;
  decode-encode = λ s. refl;
}

abbrev nonces : Text → Text → Result Text
nonces plain aad = ok (7 ∷ 8 ∷ [])

abbrev sealed_text : Text → Text
sealed_text s = b'v' ∷ b'1' ∷ b'.' ∷ 7 ∷ 8 ∷ b'#' ∷ s

abbrev holder : Cluster
holder = record cluster {
  bearer_token_ciphertext = sealed_text (b't' ∷ []);
  ca_cert_ciphertext = sealed_text (b'c' ∷ []);
}

cluster_connection-seal_credentials_example :
    cluster_connection (open_string aead) holder
    ≡ ok (record { server = []; ca_cert = b'c' ∷ []; bearer_token = b't' ∷ [] })
unfolding seal_credentials seal_string
cluster_connection-seal_credentials_example =
    Opened.cluster_connection-seal_credentials aead nonces (b't' ∷ []) (b'c' ∷ []) holder
      (λ plain aad nonce h. ground arith) refl

-- A repository with a name and no password.
abbrev charts : RepositoryInput
charts = record { name = b'c' ∷ []; url = b'u' ∷ b'/' ∷ []; username = b'n' ∷ []; password = [] }

repository_connection-new_repository_example :
    repository_connection
      (open_string aead)
      (new_repository (b'i' ∷ []) charts (sealed_text (b'n' ∷ []), []) 5)
    ≡ ok (record { url = b'u' ∷ []; username = b'n' ∷ []; password = [] })
unfolding repository_credentials sealed_field seal_string trim_right
repository_connection-new_repository_example =
    Sealed.repository_connection-new_repository
      (λ plain aad. seal_string aead (nonces plain aad) plain aad) (open_string aead)
      (Opened.seal_string-Opens aead nonces (λ plain aad nonce h. ground arith)) (b'i' ∷ []) charts
      5 (sealed_text (b'n' ∷ []), []) refl
