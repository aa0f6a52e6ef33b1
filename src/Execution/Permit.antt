-- ===== src/Execution/Permit.antt =====
-- The permit that `DurableExternalExecutionAuthorizer.permit` of
-- lib/external-execution/authority.ts returns: each method is one transaction over the database.
use vigilo.Prelude.{
  ℕ, String, Bool, true, false, not, ◌&&◌, ◌||◌, List, ◌∷◌, map, Option, none, some, ◌==◌,
  string_eq, option_eq, nat_eq, if◌then◌else◌, ltb, leb, any, keep, find, length, contains, min,
  ◌+◌,
}
use vigilo.Execution.Types.{
  FailureCode, execution_authority_missing, execution_authority_expired,
  execution_authority_mismatch, execution_budget_exhausted, provider_attempt_ambiguous,
  sandbox_creation_failed, is_sandbox, AttemptOutcome, succeeded, failed, ambiguous, Result, ok,
  ◌>>=◌, ◌>>◌, throw_if, or_throw,
}
use vigilo.Execution.Account.{account_identity_matches}
use vigilo.Execution.Store.{
  Grant, Reservation, Lease, LeaseState, Event, EventType, Database, Times, Authorizer, is_active,
  is_started, is_ambiguous, is_outcome,
}
use vigilo.Execution.Fence.{
  lock_external_execution, assert_run_business_allowed, assert_reviewed_plan, assert_business,
}
use vigilo.Execution.Reserve.{identity_matches, same_account}

-- `recovery` holds for a permit that was reserved for a cleanup, `has_policy` where a sandbox
-- binding gave it a transport policy.
pub record Permit : Type 0 where
  pub reservation : Reservation
  pub ownership_token : String
  pub recovery : Bool
  pub has_policy : Bool

pub data TransportKind : Type 0 where
  create cleanup business : TransportKind

abbrev pub is_create : TransportKind → Bool
is_create create = true
is_create _ = false

abbrev pub is_cleanup : TransportKind → Bool
is_cleanup cleanup = true
is_cleanup _ = false

abbrev pub is_succeeded : AttemptOutcome → Bool
is_succeeded succeeded = true
is_succeeded _ = false

abbrev pub of_reservation : Reservation → Event → Bool
of_reservation r e = e.reservation_id == r.id

-- The two grants under the reservation.
abbrev pub held : Reservation → Grant → Bool
held r g = g.id == r.account_grant_id || g.id == r.grant_id

-- The exists condition `liveGrants`.
unfoldable pub live_grants : Reservation → ℕ → Database → Bool
live_grants r now db =
    any
      (λ g.
        g.id == r.grant_id
        && g.version == 2
        && g.authorized_release_sha == r.executing_release_sha
        && ltb now g.expires_at)
      db.grants
    && any (λ g. g.id == r.account_grant_id && ltb now g.expires_at) db.grants
    && not (contains db.revocations r.grant_id || contains db.revocations r.account_grant_id)

-- The lease row that the permit owns, while it is active.
abbrev pub owns : Permit → Lease → Bool
owns p l =
    l.reservation_id == p.reservation.id
    && l.ownership_token == p.ownership_token
    && l.fence == p.reservation.fence
    && is_active l.state

-- Does that lease last beyond a time?
abbrev pub has_fresh_lease : Permit → ℕ → Database → Bool
has_fresh_lease p now db = any (λ l. owns p l && ltb now l.lease_expires_at) db.leases

unfoldable pub grant_provenance : Authorizer → Reservation → Grant → Bool
grant_provenance auth r g =
    g.version == 2
    && r.version == 2
    && g.authorized_release_sha == r.executing_release_sha
    && r.executing_release_sha == auth.runtime_release_sha
    && account_identity_matches r.scope.provider_id g.authorized_provider_account_identity
    && account_identity_matches r.scope.provider_id r.executing_provider_account_identity
    && same_account r.executing_provider_account_identity g.authorized_provider_account_identity

-- The part of `owned` under `requireGrant`.
unfoldable pub assert_grants : Authorizer → Reservation → ℕ → Database → Result (Unit {0})
assert_grants auth r now db = do
  let grants = keep (held r) db.grants
  throw_if (not (length grants == 2)) execution_authority_missing
  throw_if (any (λ g. not (identity_matches auth g)) grants) execution_authority_mismatch
  operation ← or_throw (find (λ g. g.id == r.grant_id) grants) execution_authority_mismatch
  throw_if (not (grant_provenance auth r operation)) execution_authority_mismatch
  throw_if (contains db.revocations r.account_grant_id || contains db.revocations r.grant_id)
      execution_authority_missing
  throw_if (any (λ g. leb g.expires_at now) grants) execution_authority_expired

-- `owned(transaction, { requireFresh: strict, requireGrant: strict })`
unfoldable pub owned : Authorizer → Permit → Times → Bool → Database → Result (Unit {0})
owned auth p t true db = do
  assert_grants auth p.reservation t.authority db
  throw_if (not (has_fresh_lease p t.commit db && live_grants p.reservation t.commit db))
      execution_authority_expired
owned auth p t false db = throw_if (not (any (owns p) db.leases)) execution_authority_expired

abbrev pub event_of :
    Reservation → EventType → Option ℕ → Option FailureCode → Option ℕ → Option ℕ → ℕ → Event
event_of r kind ordinal code input output now = record {
  reservation_id = r.id;
  event_type = kind;
  attempt_ordinal = ordinal;
  failure_code = code;
  input_tokens = input;
  output_tokens = output;
  created_at = now;
}

unfoldable pub insert_event : Event → Database → Database
insert_event e db = record db { events = e ∷ db.events }

-- The insert that selects from the lease at the time of the write.
unfoldable pub insert_active_event : Permit → ℕ → Event → Database → Result Database
insert_active_event p now e db =
    throw_if (not (has_fresh_lease p now db && live_grants p.reservation now db))
      execution_authority_expired
    >> ok (insert_event e db)

abbrev pub starts : Reservation → List Event → List Event
starts r = keep (λ e. of_reservation r e && is_started e.event_type)

-- Must a cleanup show that it is a business operation after all? Cleanup requires a recovery
-- permit or a recorded dispatch.
abbrev pub unproven_cleanup : Permit → ℕ → Bool
unproven_cleanup p started =
    not p.has_policy
    || (not p.recovery && (not (p.reservation.amounts.sandbox_identities == 1) || started == 0))

unfoldable pub admit_attempt :
    Authorizer → Permit → Times → TransportKind → ℕ → Database → Result (Unit {0})
admit_attempt auth p t cleanup started db =
    if unproven_cleanup p started
    then assert_run_business_allowed db p.reservation.scope t.fence
    else ok tt
admit_attempt auth p t kind started db = do
  throw_if p.recovery execution_authority_mismatch
  assert_business auth db p.reservation.scope t.fence t.caller

-- `beginProviderAttempt`, and `begin(kind)` of `meteredFetch`.
unfoldable pub begin :
    Authorizer → Permit → Times → TransportKind → Database → Result (ℕ × Database)
begin auth p t kind db = do
  _ ← lock_external_execution db
  owned auth p t true db
  let started = length (starts p.reservation db.events)
  admit_attempt auth p t kind started db
  let ordinal = started + 1
  let creates = p.reservation.amounts.sandbox_identities == 1
  throw_if
      (is_sandbox p.reservation.scope.operation_category
        && not p.recovery
        && creates
        && ordinal == 1
        && not (is_create kind))
      execution_authority_mismatch
  throw_if (is_create kind && (not creates || not (ordinal == 1))) sandbox_creation_failed
  throw_if (ltb p.reservation.amounts.provider_attempts ordinal) execution_budget_exhausted
  after ←
      insert_active_event p t.commit
        (event_of p.reservation EventType.attempt_started (some ordinal) none none none t.commit) db
  ok (ordinal, after)

pub record Usage : Type 0 where
  pub input_tokens : Option ℕ
  pub output_tokens : Option ℕ

abbrev pub terminal_event : AttemptOutcome → EventType
terminal_event succeeded = EventType.attempt_succeeded
terminal_event failed = EventType.attempt_failed
terminal_event ambiguous = EventType.attempt_ambiguous

abbrev ambiguous_code : AttemptOutcome → Option FailureCode
ambiguous_code ambiguous = some provider_attempt_ambiguous
ambiguous_code _ = none

-- The check before a success is recorded: the run's fence, and its reviewed plan.
unfoldable pub assert_settleable : Authorizer → Permit → Times → Database → Result (Unit {0})
assert_settleable auth p t db = do
  assert_run_business_allowed db p.reservation.scope t.fence
  assert_reviewed_plan auth db p.reservation.scope t.caller

-- `finishProviderAttempt`, and `finish(…, kind)` of `meteredFetch`.
unfoldable pub finish :
    Authorizer
    → Permit
    → Times
    → ℕ
    → AttemptOutcome
    → Usage
    → TransportKind
    → Database
    → Result Database
finish auth p t ordinal succeeded usage kind db = do
  _ ← lock_external_execution db
  owned auth p t true db
  if is_cleanup kind then ok tt else assert_settleable auth p t db
  insert_active_event p t.commit
      (event_of p.reservation EventType.attempt_succeeded (some ordinal) none usage.input_tokens
        usage.output_tokens t.commit)
      db
finish auth p t ordinal outcome usage kind db = do
  _ ← lock_external_execution db
  owned auth p t false db
  ok (
      insert_event
        (event_of p.reservation (terminal_event outcome) (some ordinal) (ambiguous_code outcome)
          usage.input_tokens usage.output_tokens t.commit)
        db)

unfoldable pub assert_ownership : Authorizer → Permit → Times → Database → Result (Unit {0})
assert_ownership auth p t db = do _ ← lock_external_execution db; owned auth p t true db

-- `least(…)` over the two grants' expiries; a grant that is missing gives null, which `least` skips.
abbrev least_expiry : List Grant → String → ℕ → ℕ
least_expiry grants id limit = elim (find (λ g. g.id == id) grants) [
  | none ↦ limit
  | some g ↦ min limit g.expires_at
]

abbrev pub renewed_expiry : Authorizer → Reservation → ℕ → Database → ℕ
renewed_expiry auth r now db =
    least_expiry db.grants r.grant_id
      (least_expiry db.grants r.account_grant_id (now + auth.lease_ms))

abbrev pub renew_lease : Permit → ℕ → ℕ → Lease → Lease
renew_lease p now expiry l =
    if owns p l && ltb now l.lease_expires_at
    then record l { heartbeat_at = now; lease_expires_at = expiry }
    else l

unfoldable pub renew : Authorizer → Permit → Times → Database → Result Database
renew auth p t db = do
  _ ← lock_external_execution db
  owned auth p t true db
  throw_if
      (not (
        length (keep (λ l. owns p l && ltb t.commit l.lease_expires_at) db.leases) == 1
        && live_grants p.reservation t.commit db))
      execution_authority_expired
  insert_active_event p t.commit
      (event_of p.reservation EventType.lease_renewed none none none none t.commit)
      (record db {
        leases =
            map (renew_lease p t.commit (renewed_expiry auth p.reservation t.commit db)) db.leases;
      })

-- An attempt without an outcome, or with an ambiguous one, leaves the operation uncertain.
abbrev pub has_outcome : List Event → Event → Bool
has_outcome audit e =
    any (λ o. o.attempt_ordinal == e.attempt_ordinal && is_outcome o.event_type) audit

unfoldable pub is_unsettled : List Event → Bool
is_unsettled audit =
    any (λ e. is_ambiguous e.event_type) audit
    || any (λ e. is_started e.event_type && not (has_outcome audit e)) audit

abbrev pub lease_state : AttemptOutcome → LeaseState
lease_state succeeded = LeaseState.succeeded
lease_state failed = LeaseState.failed
lease_state ambiguous = LeaseState.ambiguous

abbrev or_default : Option FailureCode → FailureCode → FailureCode
or_default none d = d
or_default (some c) d = c

abbrev pub completion_code : AttemptOutcome → Option FailureCode → Option FailureCode
completion_code succeeded code = none
completion_code failed code = some (or_default code execution_authority_mismatch)
completion_code ambiguous code = some (or_default code provider_attempt_ambiguous)

abbrev pub complete_lease : (Lease → Bool) → LeaseState → ℕ → Option FailureCode → Lease → Lease
complete_lease mine state now code l =
    if mine l then record l { state = state; completed_at = some now; failure_code = code } else l

abbrev pub completion_event : AttemptOutcome → EventType
completion_event succeeded = EventType.completed
completion_event _ = EventType.failed

-- The last part of `complete`: the update of the lease, and its event.
unfoldable pub write_completion :
    Permit → Times → AttemptOutcome → Option FailureCode → Database → Result Database
write_completion p t outcome code db = do
  let strict = is_succeeded outcome
  let mine = λ (l : Lease). owns p l && (not strict || ltb t.commit l.lease_expires_at)
  throw_if
      (not (
        length (keep mine db.leases) == 1 && (not strict || live_grants p.reservation t.commit db)))
      execution_authority_expired
  ok (
      insert_event
        (event_of p.reservation (completion_event outcome) none (completion_code outcome code) none
          none t.caller)
        (record db {
          leases =
              map
                (complete_lease mine (lease_state outcome) t.caller (completion_code outcome code))
                db.leases;
        }))

unfoldable pub complete_as :
    Authorizer → Permit → Times → AttemptOutcome → Option FailureCode → Database → Result Database
complete_as auth p t outcome code db = do
  owned auth p t (is_succeeded outcome) db
  if is_succeeded outcome && not p.recovery then assert_settleable auth p t db else ok tt
  write_completion p t outcome code db

-- `complete(outcome, failureCode)`: an uncertain audit overrides the outcome.
unfoldable pub complete :
    Authorizer → Permit → Times → AttemptOutcome → Option FailureCode → Database → Result Database
complete auth p t outcome code db = do
  _ ← lock_external_execution db
  if is_unsettled (keep (of_reservation p.reservation) db.events)
      then complete_as auth p t ambiguous (some provider_attempt_ambiguous) db
      else complete_as auth p t outcome code db
