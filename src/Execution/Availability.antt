-- ===== src/Execution/Availability.antt =====
-- lib/external-execution/availability.ts: the answer that pages show, from rows that are read one
-- after another.
pub mod Usages
pub mod Choices
mod Refusals
pub mod Openness
pub mod Refinement
mod Tests
use vigilo.Prelude.{
  ℕ, ◌+◌, String, Bool, true, false, not, ◌&&◌, ◌||◌, List, [], ◌∷◌, Option, none, some, ltb, leb,
  if◌then◌else◌, any, all, keep, length, contains, is_some, is_git_sha, ◌==◌, string_eq, nat_eq,
  option_eq,
}
use vigilo.Prelude.Checks.{Checked, refused, passed, ◌>>=◌, ◌>>◌, refuse_if, present_or}
use vigilo.Execution.Types.{
  Category, gemini_investigation, gemini_candidate_generation, sandbox_baseline,
  sandbox_verification, repair_loop_iteration, release_acceptance_one_shot, category_eq,
  resource_class_eq, Dimension, logical_requests, provider_attempts, input_tokens, output_tokens,
  sandbox_identities, sandbox_runtime_ms, verification_attempts, repair_loop_iterations, Amounts,
  amount,
}
use vigilo.Execution.Account.{account_identity_matches}
use vigilo.Execution.Store.{Grant, GrantScope, Reservation, Lease, Database, is_account}
use vigilo.Execution.Fence.{is_live}
use vigilo.Execution.Reserve.{is_unexpired, on_grant, on_account}

pub data Status : Type 0 where
  available capacity_unavailable exhausted invalid_or_expired no_authority : Status
  operational_unavailable unknown : Status

-- What the queries return; `none` for one that fails.
pub record Reads : Type 0 where
  pub semaphore : Option Bool
  pub grants : Option (List Grant)
  pub revocations : Option (List String)
  pub reservations : Option (List Reservation)
  pub leases : Option (List Lease)

-- The amounts of a `Usage`, which has no resource class.
abbrev pub empty_usage : Amounts
empty_usage = record {
  logical_requests = 0;
  provider_attempts = 0;
  input_tokens = 0;
  output_tokens = 0;
  sandbox_identities = 0;
  sandbox_runtime_ms = 0;
  sandbox_resource_class = none;
  verification_attempts = 0;
  repair_loop_iterations = 0;
}

unfoldable pub add_reservation : Amounts → Reservation → Amounts
add_reservation usage row = record usage {
  logical_requests = usage.logical_requests + row.amounts.logical_requests;
  provider_attempts = usage.provider_attempts + row.amounts.provider_attempts;
  input_tokens = usage.input_tokens + row.amounts.input_tokens;
  output_tokens = usage.output_tokens + row.amounts.output_tokens;
  sandbox_identities = usage.sandbox_identities + row.amounts.sandbox_identities;
  sandbox_runtime_ms = usage.sandbox_runtime_ms + row.amounts.sandbox_runtime_ms;
  verification_attempts = usage.verification_attempts + row.amounts.verification_attempts;
  repair_loop_iterations = usage.repair_loop_iterations + row.amounts.repair_loop_iterations;
}

-- `for (const row of reservations) if (p row) addReservation(usage, row);`
unfoldable pub add_reservations : (Reservation → Bool) → List Reservation → Amounts → Amounts
add_reservations p [] usage = usage
add_reservations p (row ∷ rows) usage =
    add_reservations p rows (if p row then add_reservation usage row else usage)

-- The amounts that `hasUsefulCapacity` compares for a category.
abbrev pub compared : Option Category → List Dimension
compared none = logical_requests ∷ []
compared (some gemini_investigation) =
    logical_requests ∷ provider_attempts ∷ input_tokens ∷ output_tokens ∷ []
compared (some gemini_candidate_generation) =
    logical_requests ∷ provider_attempts ∷ input_tokens ∷ output_tokens ∷ []
compared (some sandbox_baseline) =
    logical_requests ∷ provider_attempts ∷ sandbox_identities ∷ sandbox_runtime_ms ∷ []
compared (some sandbox_verification) =
    logical_requests ∷ provider_attempts ∷ sandbox_identities ∷ sandbox_runtime_ms
    ∷ verification_attempts ∷ []
compared (some repair_loop_iteration) = logical_requests ∷ repair_loop_iterations ∷ []
compared (some release_acceptance_one_shot) = logical_requests ∷ []

unfoldable pub has_useful_capacity : Option Category → Amounts → Amounts → Bool
has_useful_capacity category limits used =
    all (λ d. ltb (amount d used) (amount d limits)) (compared category)

abbrev same_grant_scope : GrantScope → GrantScope → Bool
same_grant_scope GrantScope.account GrantScope.account = true
same_grant_scope GrantScope.operation GrantScope.operation = true
same_grant_scope GrantScope.one_shot GrantScope.one_shot = true
same_grant_scope _ _ = false

-- Do two grants have the same key in `duplicateOperationScope`?
abbrev pub same_key : Grant → Grant → Bool
same_key g h =
    same_grant_scope g.scope h.scope
    && g.workspace_id == h.workspace_id
    && g.repair_run_id == h.repair_run_id
    && g.github_repository_id == h.github_repository_id
    && g.base_commit_sha == h.base_commit_sha
    && g.operation_category == h.operation_category
    && g.provider_id == h.provider_id
    && g.model_id == h.model_id
    && g.acceptance_purpose == h.acceptance_purpose
    && g.limits.sandbox_resource_class == h.limits.sandbox_resource_class

unfoldable pub duplicate_scope : List Grant → List Grant → Bool
duplicate_scope scopes [] = false
duplicate_scope scopes (g ∷ gs) = any (same_key g) scopes || duplicate_scope (g ∷ scopes) gs

abbrev pub duplicate_operation_scope : List Grant → Bool
duplicate_operation_scope = duplicate_scope []

abbrev is_operation : GrantScope → Bool
is_operation GrantScope.operation = true
is_operation _ = false

-- `value ?? ''`
abbrev or_empty : Option String → String
or_empty none = ""
or_empty (some text) = text

unfoldable pub is_operation_candidate : String → Grant → Bool
is_operation_candidate workspace_id g =
    is_operation g.scope
    && g.workspace_id == some workspace_id
    && g.version == 2
    && is_some g.repair_run_id
    && is_some g.github_repository_id
    && is_some g.base_commit_sha
    && is_git_sha (or_empty g.authorized_release_sha)
    && account_identity_matches (or_empty g.provider_id) g.authorized_provider_account_identity

abbrev pub is_empty : List Grant → Bool
is_empty [] = true
is_empty (g ∷ gs) = false

-- `executionGrantIdentityMatches` of each grant, up to the first that does not match; `unknown`
-- where it throws.
unfoldable pub all_match : (Grant → Option String) → List Grant → Checked Status Bool
all_match identity [] = passed true
all_match identity (g ∷ gs) = do
  computed ← present_or (identity g) unknown
  let rest = all_match identity gs in if g.grant_identity == computed then rest else passed false

abbrev pub the_account : List Grant → Checked Status Grant
the_account (account ∷ []) = passed account
the_account _ = refused invalid_or_expired

-- The account grant and the operation grants that count.
unfoldable pub authority :
    (Grant → Option String)
    → ℕ
    → String
    → List Grant
    → List String
    → Checked Status (Grant × List Grant)
authority identity now workspace_id grants revocations = do
  let unrevoked = keep (λ (g : Grant). not (contains revocations g.id)) grants
  let account_candidates = keep (λ (g : Grant). is_account g.scope) unrevoked
  let operation_candidates = keep (is_operation_candidate workspace_id) unrevoked
  refuse_if (is_empty account_candidates || is_empty operation_candidates) no_authority
  refuse_if
      (any (λ (g : Grant). leb g.expires_at now) account_candidates
        || all (λ (g : Grant). leb g.expires_at now) operation_candidates)
      invalid_or_expired
  account ← the_account (keep (is_unexpired now) account_candidates)
  let operations = keep (is_unexpired now) operation_candidates
  refuse_if (is_empty operations || duplicate_operation_scope operations) invalid_or_expired
  same ← all_match identity (account ∷ operations)
  refuse_if (not same) invalid_or_expired
  passed (account, operations)

abbrev pub has_capacity : Grant → List Reservation → Grant → Bool
has_capacity account reservations g =
    has_useful_capacity g.operation_category g.limits
      (add_reservations (on_grant g.id) reservations empty_usage)
    && has_useful_capacity g.operation_category account.limits
        (add_reservations (on_account account.id) reservations empty_usage)

abbrev pub operations_with_capacity : Grant → List Reservation → List Grant → List Grant
operations_with_capacity account reservations = keep (has_capacity account reservations)

-- `options.operationalReady`
unfoldable pub readiness : Option Bool → Checked Status Status
readiness none = refused unknown
readiness (some false) = refused operational_unavailable
readiness (some true) = passed available

-- There is no query for the revocations of no grants.
abbrev pub revocations_of : List Grant → Option (List String) → Option (List String)
revocations_of [] answer = some []
revocations_of (g ∷ gs) answer = answer

unfoldable pub checked_availability :
    (Grant → Option String) → ℕ → String → Option Bool → Reads → Checked Status Status
checked_availability identity now workspace_id operational_ready reads = do
  semaphore ← present_or reads.semaphore unknown
  refuse_if (not semaphore) operational_unavailable
  grants ← present_or reads.grants unknown
  revocations ← present_or (revocations_of grants reads.revocations) unknown
  (account, operations) ← authority identity now workspace_id grants revocations
  reservations ← present_or reads.reservations unknown
  refuse_if (is_empty (operations_with_capacity account reservations operations)) exhausted
  leases ← present_or reads.leases unknown
  refuse_if (leb account.max_concurrent_external_operations (length (keep (is_live now) leases)))
      capacity_unavailable
  readiness operational_ready

abbrev pub status_of : Checked Status Status → Status
status_of (refused status) = status
status_of (passed status) = status

unfoldable pub resolve_execution_availability :
    (Grant → Option String) → ℕ → String → Option Bool → Reads → Status
resolve_execution_availability identity now workspace_id operational_ready reads =
    status_of (checked_availability identity now workspace_id operational_ready reads)

-- The queries, when they all see the same database.
abbrev pub snapshot : Database → Reads
snapshot db = record {
  semaphore = some (is_some db.next_fence);
  grants = some db.grants;
  revocations = some db.revocations;
  reservations = some db.reservations;
  leases = some db.leases;
}
