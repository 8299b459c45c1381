-- ===== src/Validation/Origins.antt =====
-- internal/domain/validation.go: the tests on clusters and repositories, whose addresses are URLs. What
-- `url.ParseRequestURI` finds is an argument.
use k8s_panel.Base.{
  Bool, true, false, not, ◌&&◌, ◌||◌, Option, none, some, Text, runes, same, is_empty, trim_space,
}
use k8s_panel.Domain.{Environment, Failure, Result, ok, err, invalid, guard, ◌>>=◌, ◌>>◌}
use k8s_panel.Names.{resource_name_pattern}
use k8s_panel.Validation.Names.{require, ◌then_check◌}
use k8s_panel.Validation.Inputs.{validate_cluster_credentials}

-- The parts of a URL that the tests read.
pub record Url : Type 0 where
  pub scheme : Text
  pub host : Text
  pub has_user : Bool
  pub path : Text
  pub raw_query : Text
  pub fragment : Text

-- An environment outside the three is `none`.
pub record ClusterInput : Type 0 where
  pub name : Text
  pub environment : Option Environment
  pub server : Text
  pub ca_cert : Text
  pub bearer_token : Text

pub record RepositoryInput : Type 0 where
  pub name : Text
  pub url : Text
  pub username : Text
  pub password : Text

unfoldable pub is_root_path : Text → Bool
unfolding runes
is_root_path path = is_empty path || same path (runes "/")

module _ (parse_request_uri : Text → Result Url) where
  unfoldable pub validate_https_url : Text → Bool → Result Url
  unfolding runes
  validate_https_url raw allow_path = do
    parsed ← parse_request_uri (trim_space raw)
    guard
        (not (
          not (same parsed.scheme (runes "https"))
          || is_empty parsed.host
          || parsed.has_user
          || not (is_empty parsed.raw_query)
          || not (is_empty parsed.fragment)))
        (invalid (runes "url") (runes "invalid HTTPS URL"))
    guard (not (not allow_path && not (is_root_path parsed.path)))
        (invalid (runes "url") (runes "path is not allowed"))
    ok parsed

  unfoldable pub is_origin : Result Url → Bool
  is_origin (err e) = false
  is_origin (ok parsed) = is_root_path parsed.path

  abbrev pub is_valid : Result Url → Bool
  is_valid (err e) = false
  is_valid (ok parsed) = true

  abbrev pub is_known : Option Environment → Bool
  is_known none = false
  is_known (some e) = true

  unfoldable pub validate_cluster_input : ClusterInput → Failure
  unfolding runes
  validate_cluster_input input =
      require (resource_name_pattern input.name) (runes "name")
        (runes "must be 1-64 letters, numbers, dots, underscores or hyphens")
      then_check require (is_known input.environment) (runes "environment")
          (runes "must be development, staging or production")
      then_check require (is_origin (validate_https_url input.server false)) (runes "server")
          (runes "must be an HTTPS origin without credentials, path, query or fragment")
      then_check validate_cluster_credentials input.ca_cert input.bearer_token

  unfoldable pub validate_repository_input : RepositoryInput → Failure
  unfolding runes
  validate_repository_input input =
      require (resource_name_pattern input.name) (runes "name")
        (runes "must be 1-64 letters, numbers, dots, underscores or hyphens")
      then_check require (is_valid (validate_https_url input.url true)) (runes "url")
          (runes "must be an HTTPS URL without credentials, query or fragment")
      then_check require (is_empty input.password || not (is_empty (trim_space input.username)))
          (runes "username") (runes "is required when a password is configured")
