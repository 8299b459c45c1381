-- ===== src/Domain.antt =====
-- internal/domain: the records of models.go that the panel stores, and the errors of errors.go.
-- A time is a number of nanoseconds, 0 standing for the zero time.
use k8s_panel.Base.{◌≡◌, refl, ◌⊎◌, inl, inr, ℕ, Bool, true, false, Text, Option}

pub data Environment : Type 0 where
  development staging production : Environment

pub data ClusterStatus : Type 0 where
  pending connected degraded unreachable disabled : ClusterStatus

pub record Cluster : Type 0 where
  pub id : Text
  pub name : Text
  pub environment : Environment
  pub server : Text
  pub status : ClusterStatus
  pub version : Text
  pub last_error_code : Text
  pub ca_cert_ciphertext : Text
  pub bearer_token_ciphertext : Text
  pub last_checked_at : ℕ
  pub created_at : ℕ
  pub updated_at : ℕ

pub record Repository : Type 0 where
  pub id : Text
  pub name : Text
  pub url : Text
  pub enabled : Bool
  pub username_ciphertext : Text
  pub password_ciphertext : Text
  pub status : Text
  pub last_error_code : Text
  pub last_checked_at : ℕ
  pub created_at : ℕ
  pub updated_at : ℕ

pub data OperationKind : Type 0 where
  helm_install helm_upgrade helm_rollback helm_uninstall : OperationKind
  workload_scale workload_restart workload_image : OperationKind

pub data OperationState : Type 0 where
  queued running succeeded failed canceled unknown : OperationState

pub record Operation : Type 0 where
  pub id : Text
  pub request_id : Text
  pub kind : OperationKind
  pub state : OperationState
  pub cluster_id : Text
  pub namespace : Text
  pub target : Text
  pub submitted_by : Text
  pub summary : Text
  pub error_code : Text
  pub error_message : Text
  pub created_at : ℕ
  pub started_at : ℕ
  pub finished_at : ℕ
  pub updated_at : ℕ

pub record AuditEvent : Type 0 where
  pub id : Text
  pub request_id : Text
  pub operation_id : Text
  pub actor : Text
  pub action : Text
  pub result : Text
  pub cluster_id : Text
  pub namespace : Text
  pub target : Text
  pub summary : Text
  pub created_at : ℕ

-- The sentinel errors, the two of `context`, a validation error with its field and message, any
-- other error, and `fmt.Errorf("…: %w", err)`.
pub data Error : Type 0 where
  not_found conflict unauthorized forbidden invalid_state busy upstream timeout : Error
  context_canceled deadline_exceeded : Error
  invalid : Text → Text → Error
  other : Text → Error
  wrapped : Text → Error → Error

pub data Result {ℓ} (A : Type ℓ) : Type ℓ where
  err : Error → Result A
  ok : A → Result A

pub Result-cases {ℓ} :
    {A : Type ℓ} (r : Result A) → ((a : A) × (r ≡ ok a)) ⊎ ((e : Error) × (r ≡ err e))
Result-cases (ok a) = inl (a, refl)
Result-cases (err e) = inr (e, refl)

-- `nil` or an error.
abbrev pub Failure : Type 0
Failure = Option Error

-- `if !test { return err }`
abbrev pub guard : Bool → Error → Result (Unit {0})
guard false e = err e
guard true e = ok tt

infixl 5 ◌>>=◌
abbrev pub ◌>>=◌ {ℓ κ} : {A : Type ℓ} {B : Type κ} → Result A → (A → Result B) → Result B
err e >>= f = err e
ok a >>= f = f a

infixl 5 ◌>>◌
abbrev pub ◌>>◌ {ℓ} : {B : Type ℓ} → Result (Unit {0}) → Result B → Result B
m >> k = m >>= λ _. k

-- What is under the wrappings, which is what `errors.Is` compares with a sentinel.
unfoldable pub root : Error → Error
root (wrapped m e) = root e
root e = e

unfoldable pub State-dec : Discrete OperationState
State-dec = hlevel

unfoldable pub Environment-dec : Discrete Environment
Environment-dec = hlevel

unfoldable pub ClusterStatus-dec : Discrete ClusterStatus
ClusterStatus-dec = hlevel
