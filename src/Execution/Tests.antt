-- ===== src/Execution/Tests.antt =====
-- One run from an empty database: two grants are staged, a reservation is made, an attempt is
-- started and left ambiguous. The theorems at these states.
use vigilo.Prelude.{
  ℕ, String, ◌≡◌, ◌≢◌, refl, sym, ap, ◌∙◌, inr, false, [], ◌∷◌, Option, none, some, Memᴰ, arith,
  length, keep, ◌≤◌,
}
use text.Mathlib.TextEquality.{eq_iff}
use vigilo.Execution.Types.{
  repair_loop_iteration, Scope, Amounts, Request, ok, err, provider_attempt_ambiguous, ambiguous,
  succeeded, ◌>>=◌, ◌>>◌, throw_if, or_throw, FailureCode,
}
use vigilo.Execution.Account.{account_identity_matches, canonical_provider_account_identity}
use vigilo.Execution.Store.{
  Grant, GrantScope, Database, Times, Authorizer, Reservation, Lease, LeaseState, Event, EventType,
  is_outcome,
}
use vigilo.Execution.Fence.{
  lock_external_execution, is_uncertain, assert_run_business_allowed,
  assert_matched_source_checkpoint, assert_reviewed_plan, assert_source_checkpoint, assert_business,
  is_live,
}
use vigilo.Execution.Reserve.{
  Ids, Granted, admit, admit_cleanup, select_account, select_operation, has_provenance,
  same_account, used, exhausts, expire_leases, record_reservation, decide_reservation, reserve,
  is_revoked, new_reservation, new_lease, reserved_event,
}
use vigilo.Execution.Permit.{
  Permit, TransportKind, business, cleanup, live_grants, grant_provenance, assert_grants, owned,
  insert_event, insert_active_event, admit_attempt, begin, assert_settleable, finish,
  assert_ownership, renew, write_completion, complete_as, complete, is_unsettled, Usage,
}
use vigilo.Execution.Steps.Relation.{Reach, here, next, reserves, begins, finishes, stages, revokes}
use vigilo.Execution.Budget.{WithinBudget, Reach-WithinBudget}
use vigilo.Execution.Fencing.{IsFenced, Reach-IsFenced, reserve-concurrency}
use vigilo.Execution.Attempts.{IsMetered, Reach-IsMetered}
use vigilo.Execution.Ambiguity.{IsAmbiguousRun, ambiguity_permanent}
use vigilo.Execution.Completion.{IsOpen, complete-ambiguous, Step-ended}
use vigilo.Execution.Revocation.{revocation_permanent}

runs : Unit {0}
unfolding ◌>>=◌ ◌>>◌ throw_if or_throw account_identity_matches canonical_provider_account_identity
    lock_external_execution is_uncertain assert_run_business_allowed
    assert_matched_source_checkpoint assert_reviewed_plan assert_source_checkpoint assert_business
    admit admit_cleanup select_account select_operation has_provenance same_account used exhausts
    expire_leases record_reservation decide_reservation reserve live_grants grant_provenance
    assert_grants owned insert_event insert_active_event admit_attempt begin assert_settleable
    finish assert_ownership renew write_completion complete_as complete is_unsettled
runs = tt

abbrev release : String
release = "0123456789abcdef0123456789abcdef01234567"

abbrev pub auth : Authorizer
auth = record {
  runtime_release_sha = some release;
  lease_ms = 900000;
  grant_identity = λ g. some g.grant_identity;
  reviewed_plan = λ db run sha now. none;
}

abbrev limits : ℕ → Amounts
limits n = record {
  logical_requests = n;
  provider_attempts = n;
  input_tokens = 0;
  output_tokens = 0;
  sandbox_identities = 0;
  sandbox_runtime_ms = 0;
  sandbox_resource_class = none;
  verification_attempts = 0;
  repair_loop_iterations = n;
}

abbrev account_grant : Grant
account_grant = record {
  id = "account";
  version = 2;
  scope = GrantScope.account;
  workspace_id = none;
  repair_run_id = none;
  github_repository_id = none;
  base_commit_sha = none;
  operation_category = none;
  provider_id = none;
  model_id = none;
  acceptance_purpose = none;
  limits = limits 5;
  max_concurrent_external_operations = 1;
  expires_at = 5000;
  authorized_by = "owner";
  authorized_release_sha = some release;
  authorized_provider_account_identity = none;
  grant_identity = "a";
}

abbrev operation_grant : Grant
operation_grant = record account_grant {
  id = "operation";
  scope = GrantScope.operation;
  workspace_id = some "w";
  repair_run_id = some "run";
  operation_category = some repair_loop_iteration;
  provider_id = some "vigilo";
  limits = limits 2;
  grant_identity = "o";
}

abbrev scope : Scope
scope = record {
  workspace_id = "w";
  repair_run_id = some "run";
  github_repository_id = none;
  base_commit_sha = none;
  operation_category = repair_loop_iteration;
  provider_id = "vigilo";
  model_id = none;
  acceptance_purpose = none;
}

abbrev request : Request
request = record {
  scope = scope;
  amounts = limits 1;
  provider_account_identity = none;
  operation_key = none;
  grant_id = none;
  account_grant_id = none;
  sandbox = none;
  cleanup = none;
}

abbrev pub at : ℕ → Times
at n = record { authority = n; fence = n; commit = n; caller = n }

abbrev ids : Ids
ids = record { reservation = "r1"; operation = "k1"; token = "t1" }

abbrev empty : Database
empty = record {
  next_fence = some 0;
  grants = [];
  revocations = [];
  reservations = [];
  leases = [];
  events = [];
  investigations = [];
  generations = [];
  checkpoints = [];
  attempts = [];
}

abbrev staged : Database
staged = record empty { grants = operation_grant ∷ account_grant ∷ [] }

abbrev first : Reservation
first = new_reservation auth ids request account_grant operation_grant 1 100

abbrev lease : Lease
lease = new_lease auth ids account_grant operation_grant 1 100

abbrev granted : Granted
granted = record { reservation = first; ownership_token = "t1"; binding = none }

abbrev pub reserved : Database
reserved = record staged {
  next_fence = some 1;
  reservations = first ∷ [];
  leases = lease ∷ [];
  events = reserved_event ids 100 ∷ [];
}

abbrev pub permit : Permit
permit = record {
  reservation = first;
  ownership_token = "t1";
  recovery = false;
  has_policy = false;
}

abbrev attempt : EventType → Option FailureCode → ℕ → Event
attempt kind code now = record {
  reservation_id = "r1";
  event_type = kind;
  attempt_ordinal = some 1;
  failure_code = code;
  input_tokens = none;
  output_tokens = none;
  created_at = now;
}

abbrev pub started : Database
started = record reserved {
  events = attempt EventType.attempt_started none 200 ∷ reserved_event ids 100 ∷ [];
}

abbrev uncertain : Database
uncertain = record started {
  events =
      attempt EventType.attempt_ambiguous (some provider_attempt_ambiguous) 300
      ∷ attempt EventType.attempt_started none 200
      ∷ reserved_event ids 100
      ∷ [];
}

abbrev no_usage : Usage
no_usage = record { input_tokens = none; output_tokens = none }

account_is_not : ◌≢◌ {A = String} "account" "operation"
account_is_not = ground (arith, eq_iff "account" "operation")

empty-WithinBudget : WithinBudget empty
empty-WithinBudget = record {
  keys = λ g h m. elim m [ ];
  operation = λ g d m. elim m [ ];
  account = λ g d m. elim m [ ];
}

empty-IsFenced : IsFenced empty
empty-IsFenced n e = tt

empty-IsMetered : IsMetered empty
empty-IsMetered = record {
  keys = λ r s m. elim m [ ];
  numbered = λ r m. elim m [ ];
  bounded = λ r m. elim m [ ];
}

reserves_first : reserve auth (at 100) ids request staged ≡ ok (granted, reserved)
unfolding runs
reserves_first = refl

begins_first : begin auth permit (at 200) business reserved ≡ ok (1, started)
unfolding runs
begins_first = refl

finishes_first : finish auth permit (at 300) 1 ambiguous no_usage business started ≡ ok uncertain
unfolding runs
finishes_first = refl

-- With two attempts left, a second reservation is refused, since one operation may run at a time.
refuses_second :
    (reserve auth (at 150) (record ids { reservation = "r2" }) request reserved
      ≡ err FailureCode.external_concurrency_unavailable)
    × (reserve auth (at 6000) ids request staged ≡ err FailureCode.execution_authority_expired)
    × (begin auth permit (at 300) business started ≡ err FailureCode.execution_budget_exhausted)
    × (begin auth permit (at 300) business uncertain ≡ err provider_attempt_ambiguous)
unfolding runs
refuses_second = (refl, refl, refl, refl)

history : Reach auth empty reserved
history =
    next
      (next (next here (stages account_grant (λ h m. elim m [ ]) (λ r m. elim m [ ]) refl))
        (stages operation_grant (λ h m. only_account h m) (λ r m. elim m [ ]) refl))
      (reserves (at 100) ids request granted
        (record {
          reservation = λ r m. elim m [ ];
          lease = λ l m. elim m [ ];
          event = λ e m. elim m [ ];
        })
        reserves_first)
  where
    only_account : (h : Grant) → Memᴰ h (account_grant ∷ []) → h.id ≢ "operation"
    only_account h (Memᴰ.head e) f = account_is_not (sym (ap (λ (g : Grant). g.id) e) ∙ f)
    only_account h (Memᴰ.tail m) f = elim m [ ]

later : Reach auth reserved uncertain
later =
    next (next here (begins permit (at 200) business 1 (Memᴰ.head refl) begins_first))
      (finishes permit (at 300) 1 ambiguous no_usage business (Memᴰ.head refl) finishes_first)

Reach-WithinBudget_example : WithinBudget reserved
Reach-WithinBudget_example = Reach-WithinBudget history empty-WithinBudget

Reach-IsFenced_example : IsFenced reserved
Reach-IsFenced_example = Reach-IsFenced history empty-IsFenced

reserve-concurrency_example :
    (account : Grant) × Memᴰ account reserved.grants
    × (account.id ≡ "account")
    × (is_revoked reserved account ≡ false)
    × (length (keep (is_live 100) reserved.leases) ≤ account.max_concurrent_external_operations)
reserve-concurrency_example = reserve-concurrency auth (at 100) ids request staged reserves_first

Reach-IsMetered_example : IsMetered uncertain
Reach-IsMetered_example = Reach-IsMetered later (Reach-IsMetered history empty-IsMetered)

uncertain_run : IsAmbiguousRun scope uncertain
uncertain_run = record {
  reservation = first;
  event = attempt EventType.attempt_ambiguous (some provider_attempt_ambiguous) 300;
  issued = Memᴰ.head refl;
  recorded = Memᴰ.head refl;
  in_run = refl;
  attempt = refl;
  kind = refl;
}

ambiguity_permanent_example :
    ((now : ℕ) → assert_run_business_allowed uncertain scope now ≡ err provider_attempt_ambiguous)
    × ((t : Times) (is : Ids) (q : Request) (x : Granted × Database)
        → q.scope ≡ scope
        → q.cleanup ≡ none
        → reserve auth t is q uncertain ≢ ok x)
    × ((p : Permit) (t : Times) (kind : TransportKind) (x : ℕ × Database)
        → p.reservation.scope ≡ scope
        → kind ≢ cleanup
        → begin auth p t kind uncertain ≢ ok x)
ambiguity_permanent_example = ambiguity_permanent {auth = auth} scope refl uncertain_run here

first-IsOpen : IsOpen first started
first-IsOpen = record {
  event = attempt EventType.attempt_started none 200;
  recorded = Memᴰ.head refl;
  attempt = refl;
  started = refl;
  unmatched = no_outcome;
}
  where
    no_outcome :
        (o : Event)
        → Memᴰ o started.events
        → o.reservation_id ≡ "r1"
        → o.attempt_ordinal ≡ some 1
        → is_outcome o.event_type ≡ false
    no_outcome o (Memᴰ.head e) _ _ = rw e
    no_outcome o (Memᴰ.tail (Memᴰ.head e)) _ _ = rw e
    no_outcome o (Memᴰ.tail (Memᴰ.tail m)) _ _ = elim m [ ]

abbrev ended : Lease
ended = record lease {
  state = LeaseState.ambiguous;
  completed_at = some 400;
  failure_code = some provider_attempt_ambiguous;
}

abbrev completed : Database
completed = record started {
  leases = ended ∷ [];
  events =
      record (attempt EventType.failed (some provider_attempt_ambiguous) 400) {
        attempt_ordinal = none;
      }
      ∷ started.events;
}

completes_first : complete auth permit (at 400) succeeded none started ≡ ok completed
unfolding runs
completes_first = refl

complete-ambiguous_example : completed.leases ≡ ended ∷ []
complete-ambiguous_example =
    complete-ambiguous auth permit (at 400) succeeded none first-IsOpen completes_first

Step-ended_example : Memᴰ ended (record completed { revocations = "account" ∷ [] }).leases
Step-ended_example =
    Step-ended {auth = auth} {db = completed} ended (Memᴰ.head refl) refl (revokes "account" refl)

abbrev revoked : Database
revoked = record reserved { revocations = "account" ∷ [] }

revocation_permanent_example :
    ((kind : TransportKind) (x : ℕ × Database) → begin auth permit (at 200) kind revoked ≢ ok x)
    × ((n : ℕ) (u : Usage) (kind : TransportKind) (x : Database)
        → finish auth permit (at 200) n succeeded u kind revoked ≢ ok x)
    × ((x : Database) → renew auth permit (at 200) revoked ≢ ok x)
revocation_permanent_example =
    revocation_permanent {auth = auth} {db = revoked} permit (inr refl) here (at 200)
