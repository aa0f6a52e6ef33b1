-- ===== src/Execution/Reserve.antt =====
-- `DurableExternalExecutionAuthorizer.reserve` of lib/external-execution/authority.ts: one
-- transaction, whose first part reads and may throw, and whose last part writes.
use vigilo.Prelude.{
  ℕ, String, Bool, true, false, not, ◌&&◌, ◌||◌, List, [], ◌∷◌, map, Option, none, some, ◌==◌,
  string_eq, option_eq, nat_eq, if◌then◌else◌, ltb, leb, any, keep, find, is_some, truthy, length,
  contains, is_git_sha, min, ◌+◌,
}
use vigilo.Execution.Types.{
  FailureCode, execution_authority_missing, execution_authority_expired,
  execution_authority_mismatch, execution_budget_exhausted, external_concurrency_unavailable,
  Category, sandbox_baseline, sandbox_verification, category_eq, resource_class_eq, Scope, Amounts,
  Dimension, dimensions, amount, ProviderAccount, vercel_team_project, SandboxBinding, CleanupKind,
  baseline, verification, Cleanup, Request, Result, ok, err, ◌>>=◌, ◌>>◌, throw_if, or_throw,
}
use vigilo.Execution.Account.{
  account_eq, canonical_provider_account_identity, account_identity_matches,
}
use vigilo.Execution.Store.{
  Grant, Reservation, Lease, LeaseState, Event, EventType, AttemptRow, Database, Times, Authorizer,
  is_account, is_active,
}
use vigilo.Execution.Fence.{lock_external_execution, is_live, assert_business}

-- `!wanted || id === wanted`
abbrev pub unset_or : Option String → String → Bool
unset_or wanted id = not (truthy wanted) || some id == wanted

abbrev pub is_revoked : Database → Grant → Bool
is_revoked db g = contains db.revocations g.id

abbrev pub is_unexpired : ℕ → Grant → Bool
is_unexpired now g = ltb now g.expires_at

abbrev cleanup_category : CleanupKind → Category
cleanup_category baseline = sandbox_baseline
cleanup_category verification = sandbox_verification

abbrev same_kind : CleanupKind → CleanupKind → Bool
same_kind baseline baseline = true
same_kind verification verification = true
same_kind _ _ = false

-- Is the attempt's row another than the request says?
abbrev differs : AttemptRow → SandboxBinding → Scope → Bool
differs row b s =
    not (truthy row.name)
    || not (row.name == some b.name)
    || not (row.workspace_id == s.workspace_id)
    || not (some row.repair_run_id == s.repair_run_id)
    || not (some row.github_repository_id == s.github_repository_id)
    || not (some row.base_commit_sha == s.base_commit_sha)

abbrev spends : Amounts → Bool
spends a =
    not (a.sandbox_identities == 0)
    || not (a.verification_attempts == 0)
    || not (a.repair_loop_iterations == 0)
    || not (a.input_tokens == 0)
    || not (a.output_tokens == 0)

-- A cleanup is resolved against the row of the attempt, whose session it binds.
unfoldable pub admit_cleanup : Database → Request → Cleanup → Result (Option SandboxBinding)
admit_cleanup db q c = do
  binding ← or_throw q.sandbox execution_authority_mismatch
  throw_if
      (not (truthy q.scope.repair_run_id)
        || spends q.amounts
        || not (q.scope.operation_category == cleanup_category c.kind))
      execution_authority_mismatch
  row ←
      or_throw (find (λ row. same_kind row.kind c.kind && row.id == c.attempt_id) db.attempts)
        execution_authority_mismatch
  throw_if (differs row binding q.scope) execution_authority_mismatch
  ok (some (record binding { session_id = row.session_id }))

unfoldable pub admit : Authorizer → Times → Database → Request → Result (Option SandboxBinding)
admit auth t db q = elim q.cleanup [
  | some c ↦ admit_cleanup db q c
  | none ↦ assert_business auth db q.scope t.fence t.authority >> ok q.sandbox
]

abbrev pub is_account_choice : Request → Grant → Bool
is_account_choice q g = is_account g.scope && unset_or q.account_grant_id g.id

abbrev pub is_operation_choice : Request → Grant → Bool
is_operation_choice q g = not (is_account g.scope) && unset_or q.grant_id g.id

-- Is the grant for exactly the scope and the resource class of the request?
abbrev pub is_in_scope : Request → Grant → Bool
is_in_scope q g =
    is_operation_choice q g
    && g.workspace_id == some q.scope.workspace_id
    && g.repair_run_id == q.scope.repair_run_id
    && g.github_repository_id == q.scope.github_repository_id
    && g.base_commit_sha == q.scope.base_commit_sha
    && g.operation_category == some q.scope.operation_category
    && g.provider_id == some q.scope.provider_id
    && g.model_id == q.scope.model_id
    && g.acceptance_purpose == q.scope.acceptance_purpose
    && g.limits.sandbox_resource_class == q.amounts.sandbox_resource_class

abbrev pub the_only : FailureCode → List Grant → Result Grant
the_only e [] = err e
the_only e (g ∷ []) = ok g
the_only e (g ∷ h ∷ gs) = err execution_authority_mismatch

unfoldable pub select_account : ℕ → Request → List Grant → Result Grant
select_account now q unrevoked =
    the_only
      (if any (is_account_choice q) unrevoked
        then execution_authority_expired
        else execution_authority_missing)
      (keep (is_account_choice q) (keep (is_unexpired now) unrevoked))

unfoldable pub select_operation : ℕ → Request → List Grant → Result Grant
select_operation now q unrevoked =
    the_only
      (if any (λ g. is_in_scope q g && leb g.expires_at now) unrevoked
        then execution_authority_expired
        else if any (is_operation_choice q) unrevoked
        then execution_authority_mismatch
        else execution_authority_missing)
      (keep (is_in_scope q) (keep (is_unexpired now) unrevoked))

abbrev pub identity_matches : Authorizer → Grant → Bool
identity_matches auth g = some g.grant_identity == auth.grant_identity g

-- Two accounts are the same by their canonical texts; a text that cannot be made throws.
unfoldable pub same_account : Option ProviderAccount → Option ProviderAccount → Bool
same_account none authorized = not (is_some authorized)
same_account (some a) authorized =
    is_some (canonical_provider_account_identity (some a))
    && canonical_provider_account_identity (some a)
      == canonical_provider_account_identity authorized

abbrev is_release : Option String → Bool
is_release none = false
is_release (some sha) = is_git_sha sha

abbrev is_vercel : String → Bool
is_vercel p = p == "vercel" || p == "vercel-sandbox"

abbrev binding_account : SandboxBinding → ProviderAccount
binding_account b = vercel_team_project b.team_id b.project_id

abbrev in_account : Option SandboxBinding → Option ProviderAccount → Bool
in_account none a = false
in_account (some b) a = same_account (some (binding_account b)) a

-- `request.scope.providerId === 'vigilo' ? null : request.providerAccountIdentity ?? null`
abbrev pub executing_account : Request → Option ProviderAccount
executing_account q = if q.scope.provider_id == "vigilo" then none else q.provider_account_identity

-- Does the release and the provider account of the process fit the grant?
unfoldable pub has_provenance : Authorizer → Request → Grant → Bool
has_provenance auth q g =
    is_release auth.runtime_release_sha
    && g.version == 2
    && g.authorized_release_sha == auth.runtime_release_sha
    && account_identity_matches q.scope.provider_id (executing_account q)
    && account_identity_matches q.scope.provider_id g.authorized_provider_account_identity
    && same_account (executing_account q) g.authorized_provider_account_identity
    && (not (is_vercel q.scope.provider_id) || in_account q.sandbox (executing_account q))

-- `coalesce(sum(column), 0)` over the rows that a condition selects.
unfoldable pub used : (Reservation → Bool) → Dimension → List Reservation → ℕ
used p d [] = 0
used p d (r ∷ rs) = (if p r then amount d r.amounts else 0) + used p d rs

abbrev pub on_grant : String → Reservation → Bool
on_grant id r = r.grant_id == id

abbrev pub on_account : String → Reservation → Bool
on_account id r = r.account_grant_id == id

unfoldable pub exhausts : (Reservation → Bool) → List Reservation → Amounts → Amounts → Bool
exhausts p rs wanted limits =
    any (λ d. ltb (amount d limits) (used p d rs + amount d wanted)) dimensions

abbrev pub is_overdue : ℕ → Lease → Bool
is_overdue now l = is_active l.state && leb l.lease_expires_at now

abbrev pub expire : ℕ → Lease → Lease
expire now l =
    if is_overdue now l
    then record l {
      state = LeaseState.expired;
      completed_at = some now;
      failure_code = some execution_authority_expired;
    }
    else l

abbrev pub expired_event : ℕ → Lease → Event
expired_event now l = record {
  reservation_id = l.reservation_id;
  event_type = EventType.expired;
  attempt_ordinal = none;
  failure_code = some execution_authority_expired;
  input_tokens = none;
  output_tokens = none;
  created_at = now;
}

abbrev pub expiries : ℕ → List Lease → List Event → List Event
expiries now [] es = es
expiries now (l ∷ ls) es =
    let rest = expiries now ls es in if is_overdue now l then expired_event now l ∷ rest else rest

-- Overdue leases are marked expired, with an event for each.
unfoldable pub expire_leases : ℕ → Database → Database
expire_leases now db = record db {
  leases = map (expire now) db.leases;
  events = expiries now db.leases db.events;
}

-- The ids that `randomId` gives.
pub record Ids : Type 0 where
  pub reservation : String
  pub operation : String
  pub token : String

pub record Granted : Type 0 where
  pub reservation : Reservation
  pub ownership_token : String
  pub binding : Option SandboxBinding

abbrev pub new_reservation : Authorizer → Ids → Request → Grant → Grant → ℕ → ℕ → Reservation
new_reservation auth ids q account grant fence now = record {
  id = ids.reservation;
  version = 2;
  grant_id = grant.id;
  account_grant_id = account.id;
  scope = q.scope;
  executing_release_sha = auth.runtime_release_sha;
  executing_provider_account_identity = executing_account q;
  operation_key = elim q.operation_key [ none ↦ ids.operation | some k ↦ k ];
  amounts = q.amounts;
  fence = fence;
  created_at = now;
}

abbrev pub new_lease : Authorizer → Ids → Grant → Grant → ℕ → ℕ → Lease
new_lease auth ids account grant fence now = record {
  reservation_id = ids.reservation;
  ownership_token = ids.token;
  fence = fence;
  state = LeaseState.active;
  heartbeat_at = now;
  lease_expires_at = min (now + auth.lease_ms) (min grant.expires_at account.expires_at);
  completed_at = none;
  failure_code = none;
}

abbrev pub reserved_event : Ids → ℕ → Event
reserved_event ids now = record {
  reservation_id = ids.reservation;
  event_type = EventType.reserved;
  attempt_ordinal = none;
  failure_code = none;
  input_tokens = none;
  output_tokens = none;
  created_at = now;
}

-- The writes of a reservation, after the overdue leases.
unfoldable pub record_reservation : Reservation → Lease → Event → Database → Database
record_reservation r l e db = record db {
  next_fence = some r.fence;
  reservations = r ∷ db.reservations;
  leases = l ∷ db.leases;
  events = e ∷ db.events;
}

-- What the checks of a reservation find.
pub record Decision : Type 0 where
  pub fence : ℕ
  pub binding : Option SandboxBinding
  pub account : Grant
  pub grant : Grant

unfoldable pub decide_reservation : Authorizer → Times → Request → Database → Result Decision
decide_reservation auth t q db = do
  next ← lock_external_execution db
  binding ← admit auth t db q
  let unrevoked = keep (λ g. not (is_revoked db g)) db.grants
  account ← select_account t.authority q unrevoked
  grant ← select_operation t.authority q unrevoked
  throw_if (not (identity_matches auth account && identity_matches auth grant))
      execution_authority_mismatch
  throw_if (not (has_provenance auth q grant)) execution_authority_mismatch
  throw_if
      (exhausts (on_grant grant.id) db.reservations q.amounts grant.limits
        || exhausts (on_account account.id) db.reservations q.amounts account.limits)
      execution_budget_exhausted
  throw_if
      (leb account.max_concurrent_external_operations
        (length (keep (is_live t.authority) (map (expire t.authority) db.leases))))
      external_concurrency_unavailable
  ok (record { fence = next + 1; binding = binding; account = account; grant = grant })

abbrev pub perform : Authorizer → Times → Ids → Request → Database → Decision → Granted × Database
perform auth t ids q db d =
    let r = new_reservation auth ids q d.account d.grant d.fence t.commit in
    (
      record { reservation = r; ownership_token = ids.token; binding = d.binding },
      record_reservation r (new_lease auth ids d.account d.grant d.fence t.commit)
          (reserved_event ids t.commit) (expire_leases t.authority db),
    )

-- The transaction of `reserve`, where the tables accept its rows. `this.permit`, which comes after it,
-- may still throw: `new SandboxTransportPolicy` tests the binding of a sandbox.
unfoldable pub reserve : Authorizer → Times → Ids → Request → Database → Result (Granted × Database)
reserve auth t ids q db = decide_reservation auth t q db >>= λ d. ok (perform auth t ids q db d)
