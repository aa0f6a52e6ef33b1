-- ===== src/Execution/Metered/Tests.antt =====
-- A request of a permit without a sandbox, and the theorems on its call.
use vigilo.Prelude.{◌≡◌, ◌⊎◌, refl, true, false, List, [], ◌∷◌, none, some, codes}
use vigilo.Transport.Policy.{Call}
use vigilo.Execution.Types.{execution_authority_missing, ◌>>=◌, ◌>>◌, throw_if, or_throw}
use vigilo.Execution.Account.{account_identity_matches, canonical_provider_account_identity}
use vigilo.Execution.Store.{EventType, Event}
use vigilo.Execution.Fence.{
  lock_external_execution, is_uncertain, assert_run_business_allowed,
  assert_matched_source_checkpoint, assert_reviewed_plan, assert_source_checkpoint, assert_business,
}
use vigilo.Execution.Reserve.{same_account}
use vigilo.Execution.Permit.{
  live_grants, grant_provenance, assert_grants, owned, insert_event, insert_active_event,
  admit_attempt, begin, assert_settleable, finish, assert_ownership,
}
use vigilo.Execution.Tests.{auth, permit, reserved, at}
use vigilo.Execution.Metered.{
  Response, Ending, returned, threw, aborted, network, authority, World, Surroundings, kind_for,
  unsent, unresolved, rethrown, lost, observe_network, observed, observe, answered, settled,
  responded, send, held, check, dispatch, begun, classified, metered_fetch,
}
use vigilo.Execution.Metered.Dispatch.{IsDispatched, metered-IsDispatched}
use vigilo.Execution.Metered.Settlement.{IsAnswered, metered-IsAnswered}

runs : Unit {0}
unfolding ◌>>=◌ ◌>>◌ throw_if or_throw account_identity_matches canonical_provider_account_identity
    lock_external_execution is_uncertain assert_run_business_allowed
    assert_matched_source_checkpoint assert_reviewed_plan assert_source_checkpoint assert_business
    same_account live_grants grant_provenance assert_grants owned insert_event insert_active_event
    admit_attempt begin assert_settleable finish assert_ownership kind_for unsent unresolved
    rethrown lost observe_network observed observe answered settled responded send held check
    dispatch begun classified metered_fetch
runs = tt

abbrev call : Call
call = record {
  url = record {
    origin = "https://example.com";
    username = "";
    password = "";
    hash = "";
    pathname = codes "/";
    params = [];
  };
  method = "POST";
  body = none;
}

abbrev response : Response
response = record { status = 200; body = none }

abbrev surroundings : Surroundings
surroundings = record {
  auth = auth;
  permit = permit;
  sandbox = false;
  encode = codes;
  aborted_first = false;
  aborted_second = false;
  aborted_third = false;
  fetch = λ c. some response;
  begin_times = at 200;
  check_times = at 201;
  settle_times = at 202;
  after_begin = λ db. db;
  after_fetch = λ db. db;
}

abbrev world : World
world = record { database = reserved; sent = []; policy = none }

abbrev result : Ending × World
result = metered_fetch surroundings call world

answers : result.0 ≡ returned response
unfolding runs
answers = refl

leaves : result.1.sent ≡ (call, 1) ∷ []
unfolding runs
leaves = refl

abbrev event_types : List Event → List EventType
event_types [] = []
event_types (e ∷ es) = e.event_type ∷ event_types es

records :
    event_types result.1.database.events
    ≡ EventType.attempt_succeeded ∷ EventType.attempt_started ∷ EventType.reserved ∷ []
unfolding runs
records = refl

aborts :
    metered_fetch (record surroundings { aborted_first = true }) call world ≡ (threw aborted, world)
unfolding runs
aborts = refl

aborts_late : (metered_fetch (record surroundings { aborted_second = true }) call world).1.sent ≡ []
unfolding runs
aborts_late = refl

loses_connection :
    (metered_fetch (record surroundings { fetch = λ c. none }) call world).0 ≡ threw network
unfolding runs
loses_connection = refl

revoked_meanwhile :
    (metered_fetch
      (record surroundings { after_fetch = λ db. record db { revocations = "operation" ∷ [] } })
      call
      world).0
    ≡ threw (authority execution_authority_missing)
unfolding runs
revoked_meanwhile = refl

metered-IsDispatched_example : (result.1.sent ≡ []) ⊎ IsDispatched surroundings call world result.1
metered-IsDispatched_example = metered-IsDispatched surroundings call world

metered-IsAnswered_example : IsAnswered surroundings call world response result.1
metered-IsAnswered_example = metered-IsAnswered surroundings call world response answers
