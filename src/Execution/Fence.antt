-- ===== src/Execution/Fence.antt =====
-- lib/external-execution/business-fence.ts and `assertMatchedSourceCheckpoint` of
-- source-checkpoint.ts.
use vigilo.Prelude.{
  ℕ, String, Bool, true, false, not, ◌&&◌, ◌||◌, List, Option, none, some, ◌==◌, string_eq,
  option_eq, nat_eq, if◌then◌else◌, ltb, any, keep, find, truthy,
}
use vigilo.Execution.Types.{
  FailureCode, execution_authority_missing, execution_authority_mismatch,
  execution_budget_exhausted, provider_attempt_ambiguous, Scope, is_gemini, Result, ok, err, ◌>>◌,
  throw_if, or_throw,
}
use vigilo.Execution.Store.{
  Reservation, Lease, Event, History, Checkpoint, CheckpointState, Database, Authorizer, is_active,
  is_started, is_ambiguous, is_outcome, is_ambiguous_lease,
}

unfoldable pub lock_external_execution : Database → Result ℕ
lock_external_execution db = or_throw db.next_fence execution_authority_missing

-- The reservations of a run.
abbrev pub of_run : Scope → Reservation → Bool
of_run scope r =
    r.scope.workspace_id == scope.workspace_id && r.scope.repair_run_id == scope.repair_run_id

-- Does an event or a lease belong to one of these reservations?
abbrev pub belongs : List Reservation → String → Bool
belongs rs id = any (λ r. r.id == id) rs

abbrev pub settles : Event → Event → Bool
settles event outcome =
    outcome.reservation_id == event.reservation_id
    && outcome.attempt_ordinal == event.attempt_ordinal
    && is_outcome outcome.event_type

abbrev pub is_live : ℕ → Lease → Bool
is_live now l = is_active l.state && ltb now l.lease_expires_at

-- An attempt that was started, has no outcome, and whose lease does not live.
abbrev pub is_lost : ℕ → List Lease → List Event → Event → Bool
is_lost now leases events e =
    is_started e.event_type
    && not (any (settles e) events)
    && not (any (λ l. l.reservation_id == e.reservation_id && is_live now l) leases)

unfoldable pub is_uncertain : ℕ → List Lease → List Event → Bool
is_uncertain now leases events =
    any (λ l. is_ambiguous_lease l.state) leases
    || any (λ e. is_ambiguous e.event_type) events
    || any (is_lost now leases events) events

-- `eq(table.failureCode, 'execution_budget_exhausted')` among the rows of the run.
abbrev pub is_exhausted_history : Scope → History → Bool
is_exhausted_history scope h =
    h.workspace_id == scope.workspace_id
    && some h.repair_run_id == scope.repair_run_id
    && h.failure_code == some "execution_budget_exhausted"

unfoldable pub assert_run_business_allowed : Database → Scope → ℕ → Result (Unit {0})
assert_run_business_allowed db scope now = if not (truthy scope.repair_run_id) then ok tt else do
  let rs = keep (of_run scope) db.reservations
  throw_if
      (is_uncertain now (keep (λ l. belongs rs l.reservation_id) db.leases)
        (keep (λ e. belongs rs e.reservation_id) db.events))
      provider_attempt_ambiguous
  throw_if (any (is_exhausted_history scope) db.investigations) execution_budget_exhausted
  throw_if (any (is_exhausted_history scope) db.generations) execution_budget_exhausted

abbrev is_unmatched : Checkpoint → Bool
is_unmatched c = elim c.state [ CheckpointState.matched ↦ false | _ ↦ true ]

unfoldable pub assert_matched_source_checkpoint : Database → String → Result (Unit {0})
assert_matched_source_checkpoint db run = elim (find (λ c. c.repair_run_id == run) db.checkpoints) [
  | none ↦ ok tt
  | some c ↦ throw_if (is_unmatched c) execution_authority_mismatch
]

abbrev raise : Option FailureCode → Result (Unit {0})
raise none = ok tt
raise (some e) = err e

-- `if (repairRunId) await assertReviewedPlanIntegrity(…)`
unfoldable pub assert_reviewed_plan : Authorizer → Database → Scope → ℕ → Result (Unit {0})
assert_reviewed_plan auth db scope now = elim scope.repair_run_id [
  | none ↦ ok tt
  | some run ↦
      if run == "" then ok tt else raise (auth.reviewed_plan db run auth.runtime_release_sha now)
]

-- `if (repairRunId && operationCategory.startsWith('gemini_')) await assertMatchedSourceCheckpoint(…)`
unfoldable pub assert_source_checkpoint : Database → Scope → Result (Unit {0})
assert_source_checkpoint db scope = elim scope.repair_run_id [
  | none ↦ ok tt
  | some run ↦
      if run == "" || not (is_gemini scope.operation_category)
      then ok tt
      else assert_matched_source_checkpoint db run
]

-- The checks of a business operation, in a reservation and before a provider attempt.
unfoldable pub assert_business : Authorizer → Database → Scope → ℕ → ℕ → Result (Unit {0})
assert_business auth db scope fence_time plan_time = do
  assert_run_business_allowed db scope fence_time
  assert_reviewed_plan auth db scope plan_time
  assert_source_checkpoint db scope
