-- ===== src/Execution/Creation/Tests.antt =====
-- The creation of a sandbox, confirmed and lost, and the theorem on it.
use vigilo.Prelude.{◌≡◌, refl, true, false, ◌∷◌, none, some}
use vigilo.Prelude.Options.{◌>>=◌ as option_bind, ◌>>◌ as option_then, reject_if}
use vigilo.Transport.Policy.{Policy, confirm}
use vigilo.Execution.Types.{execution_authority_mismatch, ok, err, ◌>>=◌, ◌>>◌, throw_if, or_throw}
use vigilo.Execution.Account.{account_identity_matches, canonical_provider_account_identity}
use vigilo.Execution.Store.{Database}
use vigilo.Execution.Fence.{
  lock_external_execution, is_uncertain, assert_run_business_allowed, assert_reviewed_plan,
}
use vigilo.Execution.Reserve.{same_account}
use vigilo.Execution.Permit.{
  Permit, live_grants, grant_provenance, assert_grants, owned, insert_event, insert_active_event,
}
use vigilo.Execution.Tests.{auth, permit, reserved, started, at}
use vigilo.Execution.Creation.{
  SandboxIdentity, accept_outcome, or_mismatch, confirm_creation, success, record_success,
  settle_creation, with_policy, resolve_created, unknown_outcome, record_unknown, resolve_unknown,
}
use vigilo.Execution.Creation.Resolution.{IsConfirmed, resolve-IsConfirmed}

runs : Unit {0}
unfolding option_bind option_then reject_if confirm ◌>>=◌ ◌>>◌ throw_if or_throw
    account_identity_matches canonical_provider_account_identity lock_external_execution
    is_uncertain assert_run_business_allowed assert_reviewed_plan same_account live_grants
    grant_provenance assert_grants owned insert_event insert_active_event accept_outcome or_mismatch
    confirm_creation record_success settle_creation with_policy resolve_created record_unknown
    resolve_unknown
runs = tt

abbrev sandbox_permit : Permit
sandbox_permit = record permit { has_policy = true }

abbrev policy : Policy
policy = record {
  binding = record { name = "box"; project_id = "prj"; team_id = "team"; session_id = none };
  recovery = false;
  runtime_ms = 60000;
  vcpus = 2;
  session_id = none;
}

abbrev identity : SandboxIdentity
identity = record { name = "box"; session_id = "s1" }

abbrev confirmed_database : Database
confirmed_database = record started { events = success sandbox_permit (at 300) ∷ started.events }

resolves :
    resolve_created auth sandbox_permit (at 300) identity policy started
    ≡ (ok confirmed_database, record policy { session_id = some "s1" })
unfolding runs
resolves = refl

another_name :
    resolve_created auth sandbox_permit (at 300) (record identity { name = "other" }) policy started
    ≡ (err execution_authority_mismatch, policy)
unfolding runs
another_name = refl

never_started :
    resolve_created auth sandbox_permit (at 300) identity policy reserved
    ≡ (err execution_authority_mismatch, policy)
unfolding runs
never_started = refl

unknown :
    resolve_unknown auth sandbox_permit (at 300) started
    ≡ ok (record started { events = unknown_outcome sandbox_permit (at 300) ∷ started.events })
unfolding runs
unknown = refl

returns :
    (resolve_created auth sandbox_permit (at 300) identity policy started).0 ≡ ok confirmed_database
unfolding runs
returns = refl

resolve-IsConfirmed_example :
    IsConfirmed sandbox_permit identity policy started confirmed_database
      (resolve_created auth sandbox_permit (at 300) identity policy started).1
resolve-IsConfirmed_example =
    resolve-IsConfirmed auth sandbox_permit (at 300) identity policy started confirmed_database
      returns
