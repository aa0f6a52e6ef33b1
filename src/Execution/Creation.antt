-- ===== src/Execution/Creation.antt =====
-- `resolveSandboxCreation` of a permit in lib/external-execution/authority.ts: what becomes of the
-- first attempt of a permit for a sandbox.
pub mod Resolution
mod Tests
use vigilo.Prelude.{
  ℕ, Bool, true, false, not, ◌&&◌, ◌||◌, String, List, [], ◌∷◌, Option, none, some, any, find, keep,
  if◌then◌else◌, is_some, ◌==◌, nat_eq, option_eq,
}
use vigilo.Transport.Policy.{Policy, confirm}
use vigilo.Execution.Types.{
  FailureCode, execution_authority_mismatch, provider_attempt_ambiguous, sandbox_creation_failed,
  Result, ok, err, ◌>>=◌, ◌>>◌, throw_if,
}
use vigilo.Execution.Store.{
  Database, Authorizer, Times, Event, EventType, is_started, is_outcome, is_ambiguous,
}
use vigilo.Execution.Fence.{
  lock_external_execution, assert_run_business_allowed, assert_reviewed_plan,
}
use vigilo.Execution.Permit.{
  Permit, of_reservation, owned, event_of, insert_event, insert_active_event,
}

-- The name and the session that the response to a creation gave.
pub record SandboxIdentity : Type 0 where
  pub name : String
  pub session_id : String

abbrev pub is_first : Event → Bool
is_first e = e.attempt_ordinal == some 1

abbrev pub has_started : Permit → Database → Bool
has_started p db =
    any (λ e. of_reservation p.reservation e && is_first e && is_started e.event_type) db.events

abbrev pub first_outcome : Permit → Database → Option Event
first_outcome p db =
    find (λ e. of_reservation p.reservation e && is_first e && is_outcome e.event_type) db.events

abbrev pub is_success : EventType → Bool
is_success EventType.attempt_succeeded = true
is_success _ = false

-- An outcome that is there already must be a success.
unfoldable pub accept_outcome : Option Event → Result (Unit {0})
accept_outcome none = ok tt
accept_outcome (some e) =
    if is_success e.event_type
    then ok tt
    else err
        (if is_ambiguous e.event_type then provider_attempt_ambiguous else sandbox_creation_failed)

-- `policy.confirm(identity)`
unfoldable pub or_mismatch : Option Policy → Result Policy
or_mismatch none = err execution_authority_mismatch
or_mismatch (some policy) = ok policy

-- The checks up to the confirmation of the identity.
unfoldable pub confirm_creation :
    Authorizer → Permit → Times → SandboxIdentity → Policy → Database → Result Policy
confirm_creation auth p t identity policy db = do
  throw_if (not p.has_policy || p.recovery) execution_authority_mismatch
  _ ← lock_external_execution db
  owned auth p t true db
  throw_if (not (has_started p db)) execution_authority_mismatch
  accept_outcome (first_outcome p db)
  or_mismatch (confirm identity.name identity.session_id policy)

abbrev pub success : Permit → Times → Event
success p t = event_of p.reservation EventType.attempt_succeeded (some 1) none none none t.commit

unfoldable pub record_success : Permit → Times → Database → Result Database
record_success p t db =
    if is_some (first_outcome p db) then ok db else insert_active_event p t.commit (success p t) db

-- The rest of the transaction, after the confirmation.
unfoldable pub settle_creation : Authorizer → Permit → Times → Database → Result Database
settle_creation auth p t db = do
  assert_run_business_allowed db p.reservation.scope t.fence
  assert_reviewed_plan auth db p.reservation.scope t.caller
  record_success p t db

-- The policy keeps what it has confirmed, whether the rest succeeds or not.
unfoldable pub with_policy :
    Authorizer → Permit → Times → Policy → Database → Result Policy → Result Database × Policy
with_policy auth p t before db (err code) = (err code, before)
with_policy auth p t before db (ok policy) = (settle_creation auth p t db, policy)

-- `resolveSandboxCreation(identity)`
unfoldable pub resolve_created :
    Authorizer → Permit → Times → SandboxIdentity → Policy → Database → Result Database × Policy
resolve_created auth p t identity policy db =
    with_policy auth p t policy db (confirm_creation auth p t identity policy db)

abbrev pub unknown_outcome : Permit → Times → Event
unknown_outcome p t =
    event_of p.reservation EventType.attempt_ambiguous (some 1) (some provider_attempt_ambiguous)
      none none t.commit

unfoldable pub record_unknown : Permit → Times → Database → Database
record_unknown p t db =
    if has_started p db && not (is_some (first_outcome p db))
    then insert_event (unknown_outcome p t) db
    else db

-- `resolveSandboxCreation(undefined)`
unfoldable pub resolve_unknown : Authorizer → Permit → Times → Database → Result Database
resolve_unknown auth p t db = do
  throw_if (not p.has_policy || p.recovery) execution_authority_mismatch
  _ ← lock_external_execution db
  owned auth p t false db
  ok (record_unknown p t db)
