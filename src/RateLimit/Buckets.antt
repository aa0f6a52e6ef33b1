-- ===== src/RateLimit/Buckets.antt =====
-- `consumeRateLimit` of lib/operations/http-rate-limit.ts on the rows of its table. Times are in
-- microseconds since the epoch, as the database keeps them.
use vigilo.Prelude.{
  ℕ, zero, suc, ◌+◌, ◌-◌, ◌*◌, ◌/◌, Bool, true, false, ◌&&◌, List, [], ◌∷◌, Option, none, some,
  String, eqb, ltb, if◌then◌else◌, ◌==◌, string_eq,
}

pub data Action : Type 0 where
  auth oauth_callback repository_connect repository_select profile_detect repair_start : Action
  workflow_start human_review publication poll health readiness : Action

abbrev pub action_code : Action → ℕ
action_code auth = 0
action_code oauth_callback = 1
action_code repository_connect = 2
action_code repository_select = 3
action_code profile_detect = 4
action_code repair_start = 5
action_code workflow_start = 6
action_code human_review = 7
action_code publication = 8
action_code poll = 9
action_code health = 10
action_code readiness = 11

unfoldable pub limit : Action → ℕ
limit auth = 10
limit oauth_callback = 30
limit repository_connect = 20
limit repository_select = 20
limit profile_detect = 10
limit repair_start = 10
limit workflow_start = 20
limit human_review = 20
limit publication = 10
limit poll = 120
limit health = 120
limit readiness = 60

unfoldable pub window_seconds : Action → ℕ
window_seconds auth = 15 * 60
window_seconds oauth_callback = 15 * 60
window_seconds _ = 60

abbrev pub second : ℕ
second = 1000000

unfoldable pub window : Action → ℕ
window a = window_seconds a * second

pub record Bucket : Type 0 where
  pub action : Action
  pub subject_hash : String
  pub window_started_at : ℕ
  pub expires_at : ℕ
  pub request_count : ℕ

-- `to_timestamp(floor(epoch / window) * window)`
abbrev pub window_start : Action → ℕ → ℕ
window_start a now = now / window a * window a

-- The primary key of the table.
unfoldable pub has_key : Action → String → ℕ → Bucket → Bool
has_key a subject start b =
    eqb (action_code b.action) (action_code a)
    && b.subject_hash == subject
    && eqb b.window_started_at start

-- `greatest(1, ceil(extract(epoch from (expires_at - statement_timestamp()))))`
abbrev pub retry_after : ℕ → ℕ → ℕ
retry_after expires_at now =
    let seconds = (expires_at - now + (second - 1)) / second in if ltb seconds 1 then 1 else seconds

abbrev pub is_expired : ℕ → Bucket → Bool
is_expired now b = ltb b.expires_at now

abbrev earlier : Bucket → Option ℕ → Option ℕ
earlier b none = some b.expires_at
earlier b (some e) = if ltb b.expires_at e then some b.expires_at else some e

-- The earliest end of an expired window.
unfoldable pub oldest : ℕ → List Bucket → Option ℕ
oldest now [] = none
oldest now (b ∷ bs) = let rest = oldest now bs in if is_expired now b then earlier b rest else rest

-- One row that is expired and ends at a time is deleted.
unfoldable pub delete_one : ℕ → ℕ → List Bucket → List Bucket
delete_one now e [] = []
delete_one now e (b ∷ bs) =
    let rest = delete_one now e bs in
    if is_expired now b && eqb b.expires_at e then bs else b ∷ rest

abbrev pub delete_at : ℕ → Option ℕ → List Bucket → List Bucket
delete_at now none bs = bs
delete_at now (some e) bs = delete_one now e bs

-- `delete ... where expires_at < now order by expires_at limit n`
unfoldable pub sweep : ℕ → ℕ → List Bucket → List Bucket
sweep zero now bs = bs
sweep (suc n) now bs = sweep n now (delete_at now (oldest now bs) bs)

unfoldable pub put_back : Bucket → Option (ℕ × List Bucket) → Option (ℕ × List Bucket)
put_back b none = none
put_back b (some (expires, after)) = some (expires, b ∷ after)

-- `on conflict ... do update set request_count = request_count + 1 where request_count < limit`:
-- `none` when no row is returned.
unfoldable pub count_in : Action → String → ℕ → List Bucket → Option (ℕ × List Bucket)
count_in a subject now [] =
    let start = window_start a now in
    let new : Bucket = record {
      action = a;
      subject_hash = subject;
      window_started_at = start;
      expires_at = start + window a;
      request_count = 1;
    } in
    some (new.expires_at, new ∷ [])
count_in a subject now (b ∷ bs) =
    let rest = count_in a subject now bs in
    if has_key a subject (window_start a now) b
    then if ltb b.request_count (limit a)
      then some (b.expires_at, record b { request_count = b.request_count + 1 } ∷ bs)
      else none
    else put_back b rest

pub record Answer : Type 0 where
  pub allowed : Bool
  pub retry_after_seconds : ℕ

-- The row of the latest window of a subject.
unfoldable pub latest : Action → String → List Bucket → Option Bucket
latest a subject [] = none
latest a subject (b ∷ bs) =
    let rest = latest a subject bs in
    if eqb (action_code b.action) (action_code a) && b.subject_hash == subject
    then elim rest [
      | none ↦ some b
      | some c ↦ if ltb b.window_started_at c.window_started_at then some c else some b
    ]
    else rest

abbrev blocked_for : Action → ℕ → Option Bucket → ℕ
blocked_for a now none = window_seconds a
blocked_for a now (some b) = retry_after b.expires_at now

abbrev pub answer :
    Action → String → ℕ → List Bucket → Option (ℕ × List Bucket) → Answer × List Bucket
answer a subject now bs (some (expires, after)) =
    (record { allowed = true; retry_after_seconds = retry_after expires now }, after)
answer a subject now bs none =
    (record { allowed = false; retry_after_seconds = blocked_for a now (latest a subject bs) }, bs)

-- `sweeps` tells whether the hash of the subject ends with `00`. The statements of one call are taken
-- as one step, at one time.
unfoldable pub consume_rate_limit :
    (String → Bool) → Action → String → ℕ → List Bucket → Answer × List Bucket
consume_rate_limit sweeps a subject now bs =
    let swept = if sweeps subject then sweep 100 now bs else bs in
    answer a subject now swept (count_in a subject now swept)
