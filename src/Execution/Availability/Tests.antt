-- ===== src/Execution/Availability/Tests.antt =====
-- The answer for a workspace with one operation grant, and for the same under other circumstances.
use vigilo.Prelude.{
  ℕ, String, ◌<◌, ◌≡◌, ◌≢◌, refl, sym, ap, ◌∙◌, inl, inr, true, [], ◌∷◌, none, some, Memᴰ, arith,
  ◌==◌, string_eq,
}
use text.Mathlib.TextEquality.{eq_iff}
use vigilo.Prelude.Checks.{◌>>=◌, ◌>>◌, refuse_if, present_or}
use vigilo.Execution.Types.{
  repair_loop_iteration, Amounts, Request, ok, ◌>>=◌ as ok_bind, ◌>>◌ as ok_then, throw_if,
  or_throw, Dimension,
}
use vigilo.Execution.Account.{account_identity_matches, canonical_provider_account_identity}
use vigilo.Execution.Store.{Grant, GrantScope, Database, Times, Authorizer}
use vigilo.Execution.Fence.{
  is_uncertain, assert_run_business_allowed, assert_matched_source_checkpoint, assert_reviewed_plan,
  assert_source_checkpoint, assert_business,
}
use vigilo.Execution.Reserve.{
  Decision, admit, has_provenance, same_account, used, decide_reservation,
}
use vigilo.Execution.Budget.{WithinBudget}
use vigilo.Execution.Availability.{
  Status, available, no_authority, invalid_or_expired, unknown, add_reservation, add_reservations,
  has_useful_capacity, duplicate_scope, is_operation_candidate, all_match, authority, readiness,
  checked_availability, resolve_execution_availability, snapshot,
}
use vigilo.Execution.Availability.Usages.{IsLeast}
use vigilo.Execution.Availability.Choices.{Keyed, Keyed-keys}
use vigilo.Execution.Availability.Refinement.{IsAsk, available-decide_reservation}

runs : Unit {0}
unfolding ◌>>=◌ ◌>>◌ refuse_if present_or ok_bind ok_then throw_if or_throw account_identity_matches
    canonical_provider_account_identity is_uncertain assert_run_business_allowed
    assert_matched_source_checkpoint assert_reviewed_plan assert_source_checkpoint assert_business
    admit has_provenance same_account used add_reservation add_reservations has_useful_capacity
    duplicate_scope is_operation_candidate all_match authority readiness checked_availability
    resolve_execution_availability
runs = tt

abbrev release : String
release = "0123456789abcdef0123456789abcdef01234567"

abbrev auth : Authorizer
auth = record {
  runtime_release_sha = some release;
  lease_ms = 900000;
  grant_identity = λ g. some g.grant_identity;
  reviewed_plan = λ db run sha now. none;
}

abbrev limits : Amounts
limits = record {
  logical_requests = 1;
  provider_attempts = 0;
  input_tokens = 0;
  output_tokens = 0;
  sandbox_identities = 0;
  sandbox_runtime_ms = 0;
  sandbox_resource_class = none;
  verification_attempts = 0;
  repair_loop_iterations = 1;
}

abbrev account_grant : Grant
account_grant = record {
  id = "account";
  version = 2;
  scope = GrantScope.account;
  workspace_id = none;
  repair_run_id = none;
  github_repository_id = none;
  base_commit_sha = none;
  operation_category = none;
  provider_id = none;
  model_id = none;
  acceptance_purpose = none;
  limits = limits;
  max_concurrent_external_operations = 1;
  expires_at = 5000;
  authorized_by = "owner";
  authorized_release_sha = some release;
  authorized_provider_account_identity = none;
  grant_identity = "a";
}

abbrev operation_grant : Grant
operation_grant = record account_grant {
  id = "operation";
  scope = GrantScope.operation;
  workspace_id = some "w";
  repair_run_id = some "run";
  github_repository_id = some 7;
  base_commit_sha = some release;
  operation_category = some repair_loop_iteration;
  provider_id = some "vigilo";
  grant_identity = "o";
}

abbrev database : Database
database = record {
  next_fence = some 0;
  grants = operation_grant ∷ account_grant ∷ [];
  revocations = [];
  reservations = [];
  leases = [];
  events = [];
  investigations = [];
  generations = [];
  checkpoints = [];
  attempts = [];
}

abbrev request : Request
request = record {
  scope = record {
    workspace_id = "w";
    repair_run_id = some "run";
    github_repository_id = some 7;
    base_commit_sha = some release;
    operation_category = repair_loop_iteration;
    provider_id = "vigilo";
    model_id = none;
    acceptance_purpose = none;
  };
  amounts = limits;
  provider_account_identity = none;
  operation_key = none;
  grant_id = some "operation";
  account_grant_id = none;
  sandbox = none;
  cleanup = none;
}

abbrev times : Times
times = record { authority = 100; fence = 100; commit = 101; caller = 102 }

abbrev answer : ℕ → Database → Status
answer now db = resolve_execution_availability auth.grant_identity now "w" (some true) (snapshot db)

is_available : answer 100 database ≡ available
unfolding runs
is_available = refl

after_expiry : answer 5000 database ≡ invalid_or_expired
unfolding runs
after_expiry = refl

after_revocation : answer 100 (record database { revocations = "operation" ∷ [] }) ≡ no_authority
unfolding runs
after_revocation = refl

failed_query :
    resolve_execution_availability auth.grant_identity 100 "w"
      (some true)
      (record (snapshot database) { leases = none })
    ≡ unknown
unfolding runs
failed_query = refl

least : IsLeast (some repair_loop_iteration) limits
least Dimension.logical_requests = inr (Memᴰ.head refl, omega arith)
least Dimension.provider_attempts = inl refl
least Dimension.input_tokens = inl refl
least Dimension.output_tokens = inl refl
least Dimension.sandbox_identities = inl refl
least Dimension.sandbox_runtime_ms = inl refl
least Dimension.verification_attempts = inl refl
least Dimension.repair_loop_iterations = inr (Memᴰ.tail (Memᴰ.head refl), omega arith)

request-IsAsk :
    (g : Grant)
    → Memᴰ g database.grants
    → is_operation_candidate "w" g ≡ true
    → IsAsk auth times database request g
unfolding runs
request-IsAsk g (Memᴰ.head e) h = rw e (record {
  named = refl;
  real = refl;
  any_account = refl;
  scoped = refl;
  least = least;
  binding = none;
  admitted = refl;
  provenance = refl;
})
request-IsAsk g (Memᴰ.tail (Memᴰ.head e)) h =
    let clash : is_operation_candidate "w" account_grant ≡ true = rw e at h in cc
request-IsAsk g (Memᴰ.tail (Memᴰ.tail m)) h = elim m [ ]

database-Keyed : Keyed database.grants
database-Keyed = (new, ((λ h m. elim m [ ]), tt))
  where
    new : (h : Grant) → Memᴰ h (account_grant ∷ []) → h.id ≢ "operation"
    new h (Memᴰ.head e) same =
        let clash : ◌==◌ {A = String} "account" "operation" ≡ true =
          (eq_iff "account" "operation").1 (sym (ap (λ (g : Grant). g.id) e) ∙ same) in
        cc
    new h (Memᴰ.tail m) same = elim m [ ]

database-WithinBudget : WithinBudget database
unfolding runs
database-WithinBudget = record {
  keys = Keyed-keys database.grants database-Keyed;
  operation = λ g d m. omega arith;
  account = λ g d m. omega arith;
}

available-decide_reservation_example :
    (g : Grant) × (d : Decision) × (Memᴰ g database.grants
      × (is_operation_candidate "w" g ≡ true)
      × (d.grant ≡ g))
    × ((times.authority < g.expires_at) × (times.authority < d.account.expires_at))
    × (decide_reservation auth times request database ≡ ok d)
available-decide_reservation_example =
    available-decide_reservation auth times "w" (some true) database (λ g. request) database-Keyed
      database-WithinBudget request-IsAsk is_available
