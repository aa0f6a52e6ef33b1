-- ===== src/Execution/Metered.antt =====
-- `meteredFetch` of a permit in lib/external-execution/authority.ts: one request under one attempt.
pub mod Dispatch
pub mod Settlement
mod Tests
use vigilo.Prelude.{
  ℕ, Bool, true, false, not, ◌&&◌, ◌||◌, String, List, [], ◌∷◌, Option, none, some, ltb, leb,
  if◌then◌else◌, is_some, ◌==◌, string_eq,
}
use vigilo.Prelude.Checks.{Checked, refused, passed}
use vigilo.Transport.Policy.{
  Policy, Kind, Call, Body, classify, observe_lookup, observe_network_policy_update,
}
use vigilo.Execution.Types.{
  FailureCode, execution_authority_mismatch, provider_attempt_ambiguous, sandbox_creation_failed,
  AttemptOutcome, succeeded, failed, ambiguous, Result, ok, err,
}
use vigilo.Execution.Store.{Database, Authorizer, Times}
use vigilo.Execution.Permit.{
  Permit, TransportKind, create, cleanup, business, is_create, is_cleanup, begin, finish,
  assert_ownership, Usage,
}

-- A failure of the authority, a redirect, an aborted signal, a call that throws.
pub data Failure : Type 0 where
  authority : FailureCode → Failure
  transport aborted network : Failure

pub record Response : Type 0 where
  pub status : ℕ
  pub body : Option Body

pub data Ending : Type 0 where
  returned : Response → Ending
  threw : Failure → Ending

-- The database, the requests that have left, each with its attempt, the newest first, and the
-- transport policy of a permit for a sandbox.
pub record World : Type 0 where
  pub database : Database
  pub sent : List (Call × ℕ)
  pub policy : Option Policy

-- What one call meets: `aborted` tells for each of the three tests of the signal what it finds,
-- `fetch` what the provider answers (`none` if the call throws), and the rest which clocks its
-- transactions read and what other transactions do to the database between them.
pub record Surroundings : Type 0 where
  pub auth : Authorizer
  pub permit : Permit
  pub sandbox : Bool
  pub encode : String → List ℕ
  pub aborted_first : Bool
  pub aborted_second : Bool
  pub aborted_third : Bool
  pub fetch : Call → Option Response
  pub begin_times : Times
  pub check_times : Times
  pub settle_times : Times
  pub after_begin : Database → Database
  pub after_fetch : Database → Database

abbrev pub is_ok : Response → Bool
is_ok r = leb 200 r.status && ltb r.status 300

abbrev pub is_redirect : Response → Bool
is_redirect r = leb 300 r.status && ltb r.status 400

abbrev no_usage : Usage
no_usage = record { input_tokens = none; output_tokens = none }

abbrev kind_of : Kind → TransportKind
kind_of Kind.create = create
kind_of Kind.cleanup = cleanup
kind_of Kind.business = business

abbrev allowed : Option Kind → Checked Failure TransportKind
allowed none = refused (authority execution_authority_mismatch)
allowed (some kind) = passed (kind_of kind)

unfoldable pub kind_for : Surroundings → Call → Option Policy → Checked Failure TransportKind
kind_for s c none =
    if s.sandbox then refused (authority execution_authority_mismatch) else passed business
kind_for s c (some policy) = allowed (classify s.encode policy c)

-- `finish`; only a cleanup is settled as one.
abbrev pub settle : Surroundings → TransportKind → ℕ → AttemptOutcome → Database → Result Database
settle s kind ordinal outcome db =
    finish s.auth s.permit s.settle_times ordinal outcome no_usage
      (if is_cleanup kind then cleanup else business) db

-- A failure before the request leaves.
unfoldable pub unsent : Failure → World → Result Database → Ending × World
unsent failure w (ok db) = (threw failure, record w { database = db })
unsent failure w (err code) = (threw (authority provider_attempt_ambiguous), w)

-- `finally { throw … }`: the attempt is ambiguous, whether that can be recorded or not.
unfoldable pub unresolved : World → Result Database → Ending × World
unresolved w (ok db) = (threw (authority provider_attempt_ambiguous), record w { database = db })
unresolved w (err code) = (threw (authority provider_attempt_ambiguous), w)

unfoldable pub rethrown : Failure → World → Result Database → Ending × World
rethrown failure w (ok db) = (threw failure, record w { database = db })
rethrown failure w (err code) = (threw (authority code), w)

-- The call of the provider has thrown.
unfoldable pub lost : Surroundings → TransportKind → ℕ → Failure → World → Ending × World
lost s kind ordinal failure w =
    let settled = settle s business ordinal ambiguous w.database in
    if is_create kind then unresolved w settled else rethrown failure w settled

unfoldable pub observe_network : Call → Response → World → Option Policy → Ending × World
observe_network c r w none = (returned r, w)
observe_network c r w (some policy) =
    if c.method == "PATCH" && is_ok r && not (is_some (observe_network_policy_update r.body policy))
    then (threw (authority execution_authority_mismatch), w)
    else (returned r, w)

unfoldable pub observed : Call → Response → World → Option Policy → Ending × World
observed c r w none = (threw (authority execution_authority_mismatch), w)
observed c r w (some policy) = observe_network c r (record w { policy = some policy }) (some policy)

-- What the policy takes from a response.
unfoldable pub observe : TransportKind → Call → Response → World → Option Policy → Ending × World
observe kind c r w none = (returned r, w)
observe kind c r w (some policy) =
    if is_cleanup kind && c.method == "GET"
    then observed c r w (if is_ok r then observe_lookup r.body policy else some policy)
    else observe_network c r w (some policy)

-- After the attempt is settled, or left to the confirmation of a creation.
unfoldable pub answered : Surroundings → TransportKind → Call → Response → World → Ending × World
answered s kind c r w =
    if s.sandbox && is_redirect r
    then (threw transport, w)
    else if is_create kind && not (is_ok r)
    then (threw (authority sandbox_creation_failed), w)
    else observe kind c r w w.policy

unfoldable pub settled :
    Surroundings → TransportKind → Call → Response → World → Result Database → Ending × World
settled s kind c r w (err code) = (threw (authority code), w)
settled s kind c r w (ok db) = answered s kind c r (record w { database = db })

unfoldable pub responded :
    Surroundings → TransportKind → ℕ → Call → Response → World → Ending × World
responded s kind ordinal c r w =
    if is_create kind && leb 500 r.status
    then unresolved w (settle s business ordinal ambiguous w.database)
    else if is_create kind && is_ok r
    then answered s kind c r w
    else settled s kind c r w
        (settle s kind ordinal (if is_ok r then succeeded else failed) w.database)

abbrev pub received :
    Surroundings → TransportKind → ℕ → Call → World → Option Response → Ending × World
received s kind ordinal c w none = lost s kind ordinal network w
received s kind ordinal c w (some r) = responded s kind ordinal c r w

-- The request leaves, unless the signal is aborted.
unfoldable pub send : Surroundings → TransportKind → ℕ → Call → World → Ending × World
send s kind ordinal c w =
    if s.aborted_third
    then lost s kind ordinal aborted w
    else received s kind ordinal c
        (record w { database = s.after_fetch w.database; sent = (c, ordinal) ∷ w.sent }) (s.fetch c)

unfoldable pub held : Result (Unit {0}) → Checked Failure (Unit {0})
held (ok _) = passed tt
held (err code) = refused (authority code)

-- `signal?.throwIfAborted(); await permit.assertOwnership();`
unfoldable pub check : Surroundings → Database → Checked Failure (Unit {0})
check s db =
    if s.aborted_second
    then refused aborted
    else held (assert_ownership s.auth s.permit s.check_times db)

unfoldable pub dispatch :
    Surroundings → TransportKind → ℕ → Call → World → Checked Failure (Unit {0}) → Ending × World
dispatch s kind ordinal c w (refused failure) =
    unsent failure w (settle s kind ordinal failed w.database)
dispatch s kind ordinal c w (passed _) = send s kind ordinal c w

unfoldable pub begun :
    Surroundings → TransportKind → Call → World → Result (ℕ × Database) → Ending × World
begun s kind c w (err code) = (threw (authority code), w)
begun s kind c w (ok (ordinal, db)) =
    dispatch s kind ordinal c (record w { database = s.after_begin db })
      (check s (s.after_begin db))

unfoldable pub classified :
    Surroundings → Call → World → Checked Failure TransportKind → Ending × World
classified s c w (refused failure) = (threw failure, w)
classified s c w (passed kind) =
    if s.aborted_first
    then (threw aborted, w)
    else begun s kind c w (begin s.auth s.permit s.begin_times kind w.database)

unfoldable pub metered_fetch : Surroundings → Call → World → Ending × World
metered_fetch s c w = classified s c w (kind_for s c w.policy)
