-- ===== src/RateLimit/Tests.antt =====
-- Two requests of one subject and one of another, and the theorem on them.
use vigilo.Prelude.{ℕ, ◌≤◌, refl, arith, Bool, List, [], String, ◌==◌, string_eq}
use vigilo.RateLimit.Buckets.{
  auth, limit, window_seconds, window, has_key, oldest, delete_one, sweep, put_back, count_in,
  latest, consume_rate_limit, Bucket,
}
use vigilo.RateLimit.Bound.{Served, nothing, any_request, let_through, Served-bound}

runs : Unit {0}
unfolding limit window_seconds window has_key oldest delete_one sweep put_back count_in latest
    consume_rate_limit
runs = tt

abbrev sweeps : String → Bool
sweeps s = s == "b"

abbrev after : List Bucket → ℕ → String → List Bucket
after bs now s = (consume_rate_limit sweeps auth s now bs).1

abbrev rows : List Bucket
rows = after (after (after [] 1000000 "a") 2000000 "b") 3000000 "a"

two : Served sweeps auth "a" 0 3000000 rows 2
unfolding runs
two = let_through 3000000 (omega arith) refl refl (
    any_request auth "b" 2000000 (omega arith)
      (let_through 1000000 (omega arith) refl refl nothing))

Served-bound_example : 2 ≤ limit auth
Served-bound_example = Served-bound two
