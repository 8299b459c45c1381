-- ===== src/Platform/Repositories.antt =====
-- internal/platform/repositories.go: the methods on chart repositories. `seal` and `open_sealed` are the
-- calls of the cipher, and the answer of the checker of a repository is an argument.
pub mod Sealed
use k8s_panel.Base.{
  ℕ, Bool, true, false, not, ◌&&◌, ◌||◌, Option, none, some, List, [], ◌∷◌, ◌++◌, map,
  if◌then◌else◌, Text, runes, same, is_empty,
}
use k8s_panel.Domain.{
  Repository, AuditEvent, Error, Failure, Result, ok, err, wrapped, invalid, invalid_state, guard,
  ◌>>=◌, ◌>>◌,
}
use k8s_panel.Store.State.{State}
use k8s_panel.Store.Disk.{Codec, Call}
use k8s_panel.Store.File.{
  File, write, get_repository, creates_repository, updates_repository, deletes_repository,
}
use k8s_panel.Store.Listing.{list_repositories}
use k8s_panel.Validation.Origins.{Url, RepositoryInput, validate_repository_input}
use k8s_panel.Operations.{audit}
use k8s_panel.Platform.Clusters.{Caller, Note, cluster_event, labelled}
use k8s_panel.Platform.Clusters.Lifecycle.{trim_right, enabled_text}

pub record RepositoryView : Type 0 where
  pub id : Text
  pub name : Text
  pub url : Text
  pub enabled : Bool
  pub status : Text
  pub last_error_code : Text
  pub credentials_configured : Bool
  pub last_checked_at : ℕ
  pub created_at : ℕ
  pub updated_at : ℕ

unfoldable pub repository_view : Repository → RepositoryView
repository_view r = record {
  id = r.id;
  name = r.name;
  url = r.url;
  enabled = r.enabled;
  status = r.status;
  last_error_code = r.last_error_code;
  credentials_configured =
      not (is_empty r.username_ciphertext) || not (is_empty r.password_ciphertext);
  last_checked_at = r.last_checked_at;
  created_at = r.created_at;
  updated_at = r.updated_at;
}

unfoldable pub repository_aad : Text → Text → Text
unfolding runes
repository_aad id field = runes "repository:" ++ id ++ runes ":" ++ field

-- A field of the credentials, which is sealed and opened only where it is not empty.
unfoldable pub sealed_field : (Text → Text → Result Text) → Text → Text → Text → Text → Result Text
sealed_field cipher label id field value =
    if is_empty value then ok [] else labelled label (cipher value (repository_aad id field))

pub record RepositoryConnection : Type 0 where
  pub url : Text
  pub username : Text
  pub password : Text

unfoldable pub repository_connection :
    (Text → Text → Result Text) → Repository → Result RepositoryConnection
unfolding runes
repository_connection open_sealed r = do
  username ←
      sealed_field open_sealed (runes "decrypt repository username") r.id (runes "username")
        r.username_ciphertext
  password ←
      sealed_field open_sealed (runes "decrypt repository password") r.id (runes "password")
        r.password_ciphertext
  ok (record { url = r.url; username = username; password = password })

-- The ciphertexts of the name and of the password of a user.
unfoldable pub repository_credentials :
    (Text → Text → Result Text) → Text → RepositoryInput → Result (Text × Text)
unfolding runes
repository_credentials seal id input = do
  username ←
      sealed_field seal (runes "encrypt repository username") id (runes "username") input.username
  password ←
      sealed_field seal (runes "encrypt repository password") id (runes "password") input.password
  ok (username, password)

unfoldable pub new_repository : Text → RepositoryInput → Text × Text → ℕ → Repository
unfolding runes
new_repository id input (username, password) now = record {
  id = id;
  name = input.name;
  url = trim_right b'/' input.url;
  enabled = true;
  username_ciphertext = username;
  password_ciphertext = password;
  status = runes "pending";
  last_error_code = [];
  last_checked_at = 0;
  created_at = now;
  updated_at = now;
}

-- The repository after a check, by the error of the check.
unfoldable pub checked : Failure → ℕ → Repository → Repository
unfolding runes
checked none now r = record r {
  status = runes "connected";
  last_error_code = [];
  last_checked_at = now;
  updated_at = now;
}
checked (some e) now r = record r {
  status = runes "unreachable";
  last_error_code = runes "repository_unavailable";
  last_checked_at = now;
  updated_at = now;
}

unfoldable pub check_result : Failure → Text
unfolding runes
check_result none = runes "succeeded"
check_result (some e) = runes "failed"

unfoldable pub toggled : Bool → ℕ → Repository → Repository
unfolding runes
toggled enabled now r = record r {
  enabled = enabled;
  status = if enabled then runes "pending" else runes "disabled";
  updated_at = now;
}

-- What a method on a repository is answered: the context, the clock, the calls of the store and of
-- the audit, and what others do before the store is written and between the write and the audit.
pub record Steps (C : Type 0) : Type 0 where
  pub at_store : Failure
  pub meanwhile : File C → File C
  pub now : ℕ
  pub at_write : Failure
  pub write_fails : Call → Bool
  pub between : File C → File C
  pub note : Note

pub record Making (C : Type 0) : Type 0 where
  pub target_failure : Failure
  pub repository_id : Result Text
  pub steps : Steps C
  pub before_test : File C → File C
  pub check : RepositoryConnection → Failure
  pub test : Steps C

unfoldable pub list_repository_views : Failure → State → Result (List RepositoryView)
list_repository_views ctx s = do
  repositories ← list_repositories ctx s
  ok (map repository_view repositories)

module _ (codec : Codec) where
  open codec use {Contents}

  -- The audit of an action on a repository, whose error is returned as it is.
  unfoldable pub audit_repository :
      Note → Caller → Text → Text → Text → Text → File Contents → File Contents × Failure
  audit_repository note caller action result name summary =
      audit codec note.at_audit note.audit_id note.audit_fails
        (cluster_event caller action result [] name summary note.audited_at)

  -- A repository is written, and then the action is audited.
  unfoldable pub store_repository :
      Steps Contents
      → Caller
      → Text
      → Text
      → Repository
      → Text
      → File Contents
      → File Contents × Failure
  store_repository a caller action result r summary f =
      let (f', failure) = write codec a.write_fails (updates_repository a.at_write r) f in
      elim failure [
        | some e ↦ (f', some e)
        | none ↦ audit_repository a.note caller action result r.name summary (a.between f')
      ]

  module _ (open_sealed : Text → Text → Result Text) where
    -- `testRepository`: the file, the view, `none` where it is the empty one, and the error.
    unfoldable pub test_repository :
        Steps Contents
        → (RepositoryConnection → Failure)
        → Caller
        → Text
        → File Contents
        → File Contents × Option RepositoryView × Failure
    unfolding runes
    test_repository a check caller id f = elim (get_repository a.at_store id f.state) [
      | err e ↦ (f, none, some e)
      | ok r ↦
          if not r.enabled
          then (f, none, some invalid_state)
          else elim (repository_connection open_sealed r) [
            | err e ↦ (f, none, some e)
            | ok connection ↦
                let failure = check connection in
                let r' = checked failure a.now r in
                let (f', stored) =
                  store_repository a caller (runes "chart_repository.connection_test")
                    (check_result failure) r' r'.last_error_code (a.meanwhile f) in
                elim stored [
                  | some e ↦ (f', none, some e)
                  | none ↦ (f', some (repository_view r'), failure)
                ]
          ]
    ]

    -- A creation once its repository is made.
    unfoldable pub create_stored_repository :
        Making Contents
        → Caller
        → Repository
        → File Contents
        → File Contents × Result (Option RepositoryView)
    unfolding runes
    create_stored_repository a caller r f =
        let (f', failure) =
          write codec a.steps.write_fails (creates_repository a.steps.at_write r) f in
        elim failure [
          | some e ↦ (f', err e)
          | none ↦
              let (f'', failure') =
                audit_repository a.steps.note caller (runes "chart_repository.create")
                  (runes "succeeded") r.name (runes "repository metadata created")
                  (a.steps.between f') in
              elim failure' [
                | some e ↦ (f'', err e)
                | none ↦
                    let (g, view, _) =
                      test_repository a.test a.check caller r.id (a.before_test f'') in
                    (g, ok view)
              ]
        ]

    module _ (parse_request_uri : Text → Result Url) (seal : Text → Text → Result Text) where
      unfoldable pub create_repository :
          Making Contents
          → Caller
          → RepositoryInput
          → File Contents
          → File Contents × Result (Option RepositoryView)
      unfolding runes
      create_repository a caller input f =
          elim (validate_repository_input parse_request_uri input) [
            | some e ↦ (f, err e)
            | none ↦ elim (a.target_failure) [
              | some e ↦
                  (f, err (invalid (runes "url") (runes "target is blocked or cannot be resolved")))
              | none ↦ elim (a.repository_id) [
                | err e ↦ (f, err (wrapped (runes "create repository ID") e))
                | ok id ↦ elim (repository_credentials seal id input) [
                  | err e ↦ (f, err e)
                  | ok sealed ↦
                      create_stored_repository a caller (new_repository id input sealed a.steps.now)
                        (a.steps.meanwhile f)
                ]
              ]
            ]
          ]

  unfoldable pub set_repository_enabled :
      Steps Contents → Caller → Text → Bool → File Contents → File Contents × Result RepositoryView
  unfolding runes
  set_repository_enabled a caller id enabled f = elim (get_repository a.at_store id f.state) [
    | err e ↦ (f, err e)
    | ok r ↦
        let r' = toggled enabled a.now r in
        let (f', failure) =
          store_repository a caller (runes "chart_repository.update") (runes "succeeded") r'
            (enabled_text enabled) (a.meanwhile f) in
        elim failure [ some e ↦ (f', err e) | none ↦ (f', ok (repository_view r')) ]
  ]

  -- `DeleteRepository` is audited first.
  unfoldable pub delete_repository_of :
      Steps Contents → Caller → Text → File Contents → File Contents × Failure
  unfolding runes
  delete_repository_of a caller id f = elim (get_repository a.at_store id f.state) [
    | err e ↦ (f, some e)
    | ok r ↦
        let (f', failure) =
          audit_repository a.note caller (runes "chart_repository.delete") (runes "succeeded")
            r.name (runes "repository metadata deleted") (a.meanwhile f) in
        elim failure [
          | some e ↦ (f', some e)
          | none ↦ write codec a.write_fails (deletes_repository a.at_write id) (a.between f')
        ]
  ]
