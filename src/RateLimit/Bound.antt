-- ===== src/RateLimit/Bound.antt =====
-- The requests that `consumeRateLimit` of lib/operations/http-rate-limit.ts serves one after another.
use vigilo.Prelude.{
  ℕ, ◌+◌, ◌≤◌, ◌≡◌, arith, inl, inr, Bool, true, false, List, [], String, if◌then◌else◌, Bool-cases,
  Option-cases, All, string_eq,
}
use vigilo.RateLimit.Buckets.{
  Action, limit, window, Bucket, window_start, sweep, count_in, answer, consume_rate_limit,
}
use vigilo.RateLimit.Sweeping.{IsDated, stored, sweep-stored}
use vigilo.RateLimit.Counting.{count_in-Counts, window-end}

-- The requests that the database serves one after another, with the count of those of a subject
-- that are let through in the window of one start. Any other request may come in between.
pub data Served (sweeps : String → Bool) (a : Action) (s : String) (start : ℕ)
    : (now : ℕ) (bs : List Bucket) (n : ℕ) → Type 0 where
  nothing : Served sweeps a s start 0 [] 0
  any_request :
      (b : Action) (t : String) (later : ℕ) {now n : ℕ} {bs : List Bucket}
      → now ≤ later
      → Served sweeps a s start now bs n
      → Served sweeps a s start later (consume_rate_limit sweeps b t later bs).1 n
  let_through :
      (later : ℕ) {now n : ℕ} {bs : List Bucket}
      → now ≤ later
      → window_start a later ≡ start
      → (consume_rate_limit sweeps a s later bs).0.allowed ≡ true
      → Served sweeps a s start now bs n
      → Served sweeps a s start later (consume_rate_limit sweeps a s later bs).1 (n + 1)

record Serving (a : Action) (s : String) (start now : ℕ) (bs : List Bucket) (n : ℕ) : Type 0 where
  most : n ≤ limit a
  covered : now ≤ start + window a → n ≤ stored a s start bs
  dated : All IsDated bs

swept : (String → Bool) → String → ℕ → List Bucket → List Bucket
swept sweeps t now bs = if sweeps t then sweep 100 now bs else bs

swept-Serving :
    (sweeps : String → Bool) (t : String) (later : ℕ) {a : Action} {s : String} {start now : ℕ}
    {bs : List Bucket} {n : ℕ}
    → now ≤ later
    → Serving a s start now bs n
    → Serving a s start later (swept sweeps t later bs) n
unfolding swept
swept-Serving sweeps t later {a} {s} {start} {now} {bs} le v = elim (Bool-cases (sweeps t)) [
  | inl e ↦ rw e (record {
    most = v.most;
    covered = λ h. omega (
      arith,
      v.covered (omega (arith, le, h)),
      (sweep-stored a s start later 100 bs v.dated h).0,
    );
    dated = (sweep-stored a s later later 100 bs v.dated (omega arith)).1;
  })
  | inr e ↦
      rw e
        (record { most = v.most; covered = λ h. v.covered (omega (arith, le, h)); dated = v.dated })
]

any-Serving :
    (b : Action) (t : String) (later : ℕ) (rows : List Bucket) {a : Action} {s : String} {start : ℕ}
    {n : ℕ}
    → Serving a s start later rows n
    → Serving a s start later (answer b t later rows (count_in b t later rows)).1 n
any-Serving b t later rows {a} {s} {start} v = elim (Option-cases (count_in b t later rows)) [
  | inl e ↦ rw e v
  | inr ((expires, after), e) ↦
      let c = count_in-Counts b t later rows v.dated e in
      rw e (record {
        most = v.most;
        covered = λ h. omega (arith, v.covered h, c.grows a s start);
        dated = c.dated;
      })
]

through-Serving :
    (later : ℕ) (rows : List Bucket) {a : Action} {s : String} {start n : ℕ}
    → window_start a later ≡ start
    → (answer a s later rows (count_in a s later rows)).0.allowed ≡ true
    → Serving a s start later rows n
    → Serving a s start later (answer a s later rows (count_in a s later rows)).1 (n + 1)
through-Serving later rows {a} {s} {start} {n} same passed v =
    elim (Option-cases (count_in a s later rows)) [
      | inl e ↦ absurd (clash (rw e at passed))
      | inr ((expires, after), e) ↦
          let c = count_in-Counts a s later rows v.dated e in
          let in_window : later ≤ start + window a = rw (← same) (window-end a later) in
          let held = v.covered in_window in
          let grown : stored a s start rows + 1 ≤ stored a s start after = rw (← same) c.counted in
          let room : stored a s start rows + 1 ≤ limit a = rw (← same) c.fits in
          rw e (record {
            most = omega (arith, held, room);
            covered = λ h. omega (arith, held, grown);
            dated = c.dated;
          })
    ]
  where
    clash : ¬ (◌≡◌ {A = Bool} false true)
    clash h = cc

Served-Serving :
    {sweeps : String → Bool} {a : Action} {s : String} {start now n : ℕ} {bs : List Bucket}
    → Served sweeps a s start now bs n
    → Serving a s start now bs n
unfolding consume_rate_limit swept
Served-Serving nothing = record { most = omega arith; covered = λ h. omega arith; dated = tt }
Served-Serving {sweeps} (any_request b t later {bs = rows} le v) =
    any-Serving b t later (swept sweeps t later rows)
      (swept-Serving sweeps t later le (Served-Serving v))
Served-Serving {sweeps} {s = s} (let_through later {bs = rows} le same passed v) =
    through-Serving later (swept sweeps s later rows) same passed
      (swept-Serving sweeps s later le (Served-Serving v))

-- However requests follow one another, with a clock that does not go back and rows deleted by any of
-- them, the requests of one subject that are let through in one window are at most its limit.
pub Served-bound :
    {sweeps : String → Bool} {a : Action} {s : String} {start now n : ℕ} {bs : List Bucket}
    → Served sweeps a s start now bs n
    → n ≤ limit a
Served-bound v = (Served-Serving v).most
