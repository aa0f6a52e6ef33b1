-- ===== src/Execution/Store.antt =====
-- The rows of db/schema.ts that external execution reads and writes, and the selections that its
-- transactions share. Rows are kept newest first; ids of event rows are left out.
use vigilo.Prelude.{ℕ, String, Bool, true, false, List, Option}
use vigilo.Execution.Types.{FailureCode, Category, Scope, Amounts, ProviderAccount, CleanupKind}

pub data GrantScope : Type 0 where
  account operation one_shot : GrantScope

-- `execution_budget_grant`; `limits` are its `max…` columns with its resource class.
pub record Grant : Type 0 where
  pub id : String
  pub version : ℕ
  pub scope : GrantScope
  pub workspace_id : Option String
  pub repair_run_id : Option String
  pub github_repository_id : Option ℕ
  pub base_commit_sha : Option String
  pub operation_category : Option Category
  pub provider_id : Option String
  pub model_id : Option String
  pub acceptance_purpose : Option String
  pub limits : Amounts
  pub max_concurrent_external_operations : ℕ
  pub expires_at : ℕ
  pub authorized_by : String
  pub authorized_release_sha : Option String
  pub authorized_provider_account_identity : Option ProviderAccount
  pub grant_identity : String

-- `external_execution_reservation`; `amounts` are its `reserved…` columns.
pub record Reservation : Type 0 where
  pub id : String
  pub version : ℕ
  pub grant_id : String
  pub account_grant_id : String
  pub scope : Scope
  pub executing_release_sha : Option String
  pub executing_provider_account_identity : Option ProviderAccount
  pub operation_key : String
  pub amounts : Amounts
  pub fence : ℕ
  pub created_at : ℕ

pub data LeaseState : Type 0 where
  active succeeded failed ambiguous expired : LeaseState

pub record Lease : Type 0 where
  pub reservation_id : String
  pub ownership_token : String
  pub fence : ℕ
  pub state : LeaseState
  pub heartbeat_at : ℕ
  pub lease_expires_at : ℕ
  pub completed_at : Option ℕ
  pub failure_code : Option FailureCode

pub data EventType : Type 0 where
  reserved attempt_started attempt_succeeded attempt_failed attempt_ambiguous : EventType
  lease_renewed completed failed expired : EventType

pub record Event : Type 0 where
  pub reservation_id : String
  pub event_type : EventType
  pub attempt_ordinal : Option ℕ
  pub failure_code : Option FailureCode
  pub input_tokens : Option ℕ
  pub output_tokens : Option ℕ
  pub created_at : ℕ

-- A row of `ai_investigation` or of `ai_candidate_generation`.
pub record History : Type 0 where
  pub workspace_id : String
  pub repair_run_id : String
  pub failure_code : Option String

pub data CheckpointState : Type 0 where
  pending matched mismatched : CheckpointState

pub record Checkpoint : Type 0 where
  pub repair_run_id : String
  pub state : CheckpointState

-- A row of `repair_run_attempt` joined with its run, or of `candidate_verification_attempt` joined
-- with its verification.
pub record AttemptRow : Type 0 where
  pub kind : CleanupKind
  pub id : String
  pub name : Option String
  pub session_id : Option String
  pub workspace_id : String
  pub repair_run_id : String
  pub github_repository_id : ℕ
  pub base_commit_sha : String

-- `next_fence` is the semaphore row 'global', `none` while there is no such row.
pub record Database : Type 0 where
  pub next_fence : Option ℕ
  pub grants : List Grant
  pub revocations : List String
  pub reservations : List Reservation
  pub leases : List Lease
  pub events : List Event
  pub investigations : List History
  pub generations : List History
  pub checkpoints : List Checkpoint
  pub attempts : List AttemptRow

abbrev pub is_active : LeaseState → Bool
is_active active = true
is_active _ = false

abbrev pub is_account : GrantScope → Bool
is_account account = true
is_account _ = false

abbrev pub is_started : EventType → Bool
is_started attempt_started = true
is_started _ = false

abbrev pub is_ambiguous : EventType → Bool
is_ambiguous attempt_ambiguous = true
is_ambiguous _ = false

-- `['attempt_succeeded', 'attempt_failed', 'attempt_ambiguous'].includes(eventType)`
abbrev pub is_outcome : EventType → Bool
is_outcome attempt_succeeded = true
is_outcome attempt_failed = true
is_outcome attempt_ambiguous = true
is_outcome _ = false

abbrev pub is_ambiguous_lease : LeaseState → Bool
is_ambiguous_lease ambiguous = true
is_ambiguous_lease _ = false

-- The readings of clocks in one transaction: `freshDatabaseTime` under the locks, the one of
-- `assertRunBusinessAllowed`, `clock_timestamp()` of its later statements, and the caller's clock.
-- `commit` stands for all calls of `clock_timestamp()`, as if they gave one time, and `caller` for all
-- of `clock()`; nothing is assumed of how the four compare.
pub record Times : Type 0 where
  pub authority : ℕ
  pub fence : ℕ
  pub commit : ℕ
  pub caller : ℕ

-- What the authorizer is given: its release, its lease time, and what it does not implement.
-- `grant_identity` is SHA-256 over the canonical text of a grant's authority, and
-- `reviewed_plan` the check of a run against its reviewed plan, which reads and may throw.
pub record Authorizer : Type 0 where
  pub runtime_release_sha : Option String
  pub lease_ms : ℕ
  pub grant_identity : Grant → Option String
  pub reviewed_plan : Database → String → Option String → ℕ → Option FailureCode
