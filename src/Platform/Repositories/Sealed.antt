-- ===== src/Platform/Repositories/Sealed.antt =====
-- internal/platform/repositories.go: what a stored repository is connected to with.
use k8s_panel.Base.{◌≡◌, refl, ap, ◌∙◌, inl, inr, ℕ, [], ◌∷◌, arith, Text, runes}
use k8s_panel.Domain.{Result, Result-cases, ok}
use k8s_panel.Validation.Origins.{RepositoryInput}
use k8s_panel.Platform.Clusters.Sealed.{Opens}
use k8s_panel.Platform.Clusters.Lifecycle.{trim_right}
use k8s_panel.Platform.Repositories.{
  sealed_field, repository_aad, repository_connection, repository_credentials, new_repository,
}

module _ (seal open_sealed : Text → Text → Result Text) (cipher : Opens seal open_sealed) where
  opened-sealed_field :
      (l m id field value : Text) {sealed : Text}
      → sealed_field seal l id field value ≡ ok sealed
      → sealed_field open_sealed m id field sealed ≡ ok value
  unfolding sealed_field
  opened-sealed_field l m id field [] {sealed} h =
      let e : [] ≡ sealed = ground arith in rw (← e) refl
  opened-sealed_field l m id field (c ∷ cs) {sealed} h =
      elim (Result-cases (seal (c ∷ cs) (repository_aad id field))) [
        | inr (x, e) ↦ absurd (ground (arith, e))
        | inl (t, e) ↦
            let p : t ≡ sealed = ground (arith, e) in
            let f : seal (c ∷ cs) (repository_aad id field) ≡ ok sealed =
              e ∙ ap (λ (t : Text). ok t) p in
            rw (cipher.is_filled _ _ sealed f, cipher.opens _ _ sealed f) refl
      ]

  -- A repository that is made of an input, with credentials that were sealed for it, is connected to
  -- at the URL of the input without the slashes at its end and with the name and password of the
  -- input, of which either may be empty; the cipher opens what it sealed.
  pub repository_connection-new_repository :
      (id : Text) (input : RepositoryInput) (now : ℕ) (sealed : Text × Text)
      → repository_credentials seal id input ≡ ok sealed
      → repository_connection open_sealed (new_repository id input sealed now)
        ≡ ok (record {
          url = trim_right b'/' input.url;
          username = input.username;
          password = input.password;
        })
  unfolding repository_credentials repository_connection new_repository runes
  repository_connection-new_repository id input now sealed h =
      elim (Result-cases (
        sealed_field seal (runes "encrypt repository username") id (runes "username")
          input.username)) [
            | inr (x, e) ↦ absurd (ground (arith, e))
            | inl (u, e) ↦
                elim (Result-cases (
                  sealed_field seal (runes "encrypt repository password") id (runes "password")
                    input.password)) [
                      | inr (x, k) ↦ absurd (ground (arith, e, k))
                      | inl (s, k) ↦
                          let p : (u, s) ≡ sealed = ground (arith, e, k, h) in
                          rw (← p) (
                            rw
                              (
                                opened-sealed_field _ (runes "decrypt repository username") id
                                    (runes "username") input.username e,
                                opened-sealed_field _ (runes "decrypt repository password") id
                                    (runes "password") input.password k,
                              )
                              refl)
                    ]
          ]
