-- ===== src/RateLimit/Counting.antt =====
-- The upsert that counts a request in lib/operations/http-rate-limit.ts.
use mathlib.Core.Path.{subst}
use vigilo.Prelude.{
  ℕ, ◌+◌, ◌≤◌, ◌≡◌, refl, ap, arith, inl, inr, true, List, [], ◌∷◌, Option, none, some, String, ltb,
  if-eq, Bool-cases, ltb→lt, All, string_eq, ==_refl,
}
use vigilo.Prelude.Options.{some-injective}
use vigilo.RateLimit.Buckets.{
  Action, auth, oauth_callback, repository_connect, repository_select, profile_detect, repair_start,
  workflow_start, human_review, publication, poll, health, readiness, limit, window_seconds, window,
  Bucket, window_start, has_key, count_in, put_back,
}
use vigilo.RateLimit.Sweeping.{IsDated, stored}

limit-pos : (a : Action) → 1 ≤ limit a
unfolding limit
limit-pos auth = omega arith
limit-pos oauth_callback = omega arith
limit-pos repository_connect = omega arith
limit-pos repository_select = omega arith
limit-pos profile_detect = omega arith
limit-pos repair_start = omega arith
limit-pos workflow_start = omega arith
limit-pos human_review = omega arith
limit-pos publication = omega arith
limit-pos poll = omega arith
limit-pos health = omega arith
limit-pos readiness = omega arith

-- A time is within its window.
pub window-end : (a : Action) (now : ℕ) → now ≤ window_start a now + window a
unfolding window window_seconds
window-end auth now = omega arith
window-end oauth_callback now = omega arith
window-end repository_connect now = omega arith
window-end repository_select now = omega arith
window-end profile_detect now = omega arith
window-end repair_start now = omega arith
window-end workflow_start now = omega arith
window-end human_review now = omega arith
window-end publication now = omega arith
window-end poll now = omega arith
window-end health now = omega arith
window-end readiness now = omega arith

has_key-new :
    (a : Action) (s : String) (start expires n : ℕ)
    → has_key a s start (record {
      action = a;
      subject_hash = s;
      window_started_at = start;
      expires_at = expires;
      request_count = n;
    })
      ≡ true
unfolding has_key
has_key-new a s start expires n = rw (==_refl s) (ground arith)

-- What counting a request does: no count gets smaller, rows stay dated, and the count of the request
-- itself grows by one, up to the limit.
pub record Counts (a : Action) (s : String) (now : ℕ) (bs after : List Bucket) : Type 0 where
  pub grows : (b : Action) (t : String) (start : ℕ) → stored b t start bs ≤ stored b t start after
  pub dated : All IsDated after
  pub counted : stored a s (window_start a now) bs + 1 ≤ stored a s (window_start a now) after
  pub fits : stored a s (window_start a now) bs + 1 ≤ limit a

put_back-eq-some :
    (b : Bucket) (rest : Option (ℕ × List Bucket)) {e : ℕ} {after : List Bucket}
    → put_back b rest ≡ some (e, after)
    → (bs : List Bucket) × (rest ≡ some (e, bs)) × (b ∷ bs ≡ after)
unfolding put_back
put_back-eq-some b none h = cc
put_back-eq-some b (some (expires, bs)) h =
    let same = some-injective h in
    (bs, ap (λ x. some (x, bs)) (ap (λ x. x.0) same), ap (λ x. x.1) same)

has_key-count :
    (a : Action) (s : String) (start n : ℕ) (b : Bucket)
    → has_key a s start (record b { request_count = n }) ≡ has_key a s start b
unfolding has_key
has_key-count a s start n b = refl

stored-cons :
    (a : Action) (s : String) (start : ℕ) (b : Bucket) (bs cs : List Bucket)
    → stored a s start bs ≤ stored a s start cs
    → stored a s start (b ∷ bs) ≤ stored a s start (b ∷ cs)
unfolding stored
stored-cons a s start b bs cs h = elim (Bool-cases (has_key a s start b)) [
  | inl k ↦ rw k (omega arith)
  | inr k ↦ rw k h
]

stored-raised :
    (a : Action) (s : String) (start : ℕ) (b : Bucket) (bs : List Bucket)
    → stored a s start (b ∷ bs)
      ≤ stored a s start (record b { request_count = b.request_count + 1 } ∷ bs)
unfolding stored
stored-raised a s start b bs = elim (Bool-cases (has_key a s start b)) [
  | inl k ↦ rw (has_key-count a s start (b.request_count + 1) b, k) (omega arith)
  | inr k ↦ rw (has_key-count a s start (b.request_count + 1) b, k) (omega arith)
]

pub count_in-Counts :
    (a : Action) (s : String) (now : ℕ) (bs : List Bucket) {e : ℕ} {after : List Bucket}
    → All IsDated bs
    → count_in a s now bs ≡ some (e, after)
    → Counts a s now bs after
unfolding count_in stored IsDated
count_in-Counts a s now [] {e} {after} d h =
    subst (Counts a s now []) (ap (λ x. x.1) (some-injective h)) (record {
      grows = λ b t start. omega arith;
      dated = (refl, tt);
      counted =
          rw (has_key-new a s (window_start a now) (window_start a now + window a) 1) (omega arith);
      fits = limit-pos a;
    })
count_in-Counts a s now (b ∷ bs) {e} {after} (d, ds) h =
    elim (if-eq (has_key a s (window_start a now) b) _ _ h) [
      | inl (same, g) ↦ elim (if-eq (ltb b.request_count (limit a)) _ none g) [
        | inl (below, f) ↦
            subst (Counts a s now (b ∷ bs)) (ap (λ x. x.1) (some-injective f)) (record {
              grows = λ c t start. stored-raised c t start b bs;
              dated = (d, ds);
              counted =
                  rw (has_key-count a s (window_start a now) (b.request_count + 1) b, same)
                    (omega arith);
              fits = rw same (omega (arith, ltb→lt _ _ below));
            })
        | inr (_, f) ↦ cc
      ]
      | inr (other, g) ↦
          let (rest, found, same) = put_back-eq-some b (count_in a s now bs) g in
          let ih = count_in-Counts a s now bs ds found in
          subst (Counts a s now (b ∷ bs)) same (record {
            grows = λ c t start. stored-cons c t start b bs rest (ih.grows c t start);
            dated = (d, ih.dated);
            counted = rw other ih.counted;
            fits = rw other ih.fits;
          })
    ]
