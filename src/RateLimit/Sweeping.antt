-- ===== src/RateLimit/Sweeping.antt =====
-- The deletion of expired rows in lib/operations/http-rate-limit.ts.
use vigilo.Prelude.{
  ℕ, zero, suc, ◌+◌, ◌≤◌, ◌≡◌, refl, sym, ap, ◌∙◌, arith, inl, inr, true, false, ◌&&◌, List, [],
  ◌∷◌, Option, none, some, String, eqb, if◌then◌else◌, Bool-cases, and-eq-true, ltb→lt, get_elem?,
  All, string_eq,
}
use vigilo.Prelude.Options.{some-injective}
use vigilo.RateLimit.Buckets.{
  Action, auth, oauth_callback, repository_connect, repository_select, profile_detect, repair_start,
  workflow_start, human_review, publication, poll, health, readiness, action_code, window, Bucket,
  has_key, is_expired, oldest, delete_one, delete_at, sweep,
}

actions : List Action
actions =
    auth ∷ oauth_callback ∷ repository_connect ∷ repository_select ∷ profile_detect ∷ repair_start
    ∷ workflow_start ∷ human_review ∷ publication ∷ poll ∷ health ∷ readiness ∷ []

get_elem-action_code : (a : Action) → get_elem? actions (action_code a) ≡ some a
unfolding actions
get_elem-action_code auth = refl
get_elem-action_code oauth_callback = refl
get_elem-action_code repository_connect = refl
get_elem-action_code repository_select = refl
get_elem-action_code profile_detect = refl
get_elem-action_code repair_start = refl
get_elem-action_code workflow_start = refl
get_elem-action_code human_review = refl
get_elem-action_code publication = refl
get_elem-action_code poll = refl
get_elem-action_code health = refl
get_elem-action_code readiness = refl

action_code-injective : (a b : Action) → action_code a ≡ action_code b → a ≡ b
action_code-injective a b h =
    some-injective
      (sym (get_elem-action_code a) ∙ ap (get_elem? actions) h ∙ get_elem-action_code b)

-- A row ends one window after its start.
unfoldable pub IsDated : Bucket → Type 0
IsDated b = b.expires_at ≡ b.window_started_at + window b.action

-- The requests counted for a key.
unfoldable pub stored : Action → String → ℕ → List Bucket → ℕ
stored a s start [] = 0
stored a s start (b ∷ bs) = if has_key a s start b then b.request_count else stored a s start bs

-- A row of a window that has not ended is not expired.
expired-has_key :
    (a : Action) (s : String) (start now : ℕ) (b : Bucket)
    → IsDated b
    → now ≤ start + window a
    → is_expired now b ≡ true
    → has_key a s start b ≡ false
unfolding has_key IsDated
expired-has_key a s start now b dated h e = elim (Bool-cases (has_key a s start b)) [
  | inr f ↦ f
  | inl f ↦
      let (ab, started) = and-eq-true _ (eqb b.window_started_at start) f in
      let (code, _) = and-eq-true (eqb (action_code b.action) (action_code a)) _ ab in
      let same : window b.action ≡ window a =
        ap window (action_code-injective _ _ (ground (arith, code))) in
      let start_is : b.window_started_at ≡ start = ground (arith, started) in
      absurd (omega (arith, dated, h, same, start_is, ltb→lt _ _ e))
]

delete_one-stored :
    (a : Action) (s : String) (start now e : ℕ) (bs : List Bucket)
    → All IsDated bs
    → now ≤ start + window a
    → (stored a s start (delete_one now e bs) ≡ stored a s start bs)
      × All IsDated (delete_one now e bs)
unfolding delete_one stored
delete_one-stored a s start now e [] d h = (refl, tt)
delete_one-stored a s start now e (b ∷ bs) (d, ds) h =
    let (same, kept) = delete_one-stored a s start now e bs ds h in
    elim (Bool-cases (is_expired now b && eqb b.expires_at e)) [
      | inl f ↦
          let gone = expired-has_key a s start now b d h (and-eq-true (is_expired now b) _ f).0 in
          rw (f, gone) (refl, ds)
      | inr f ↦ rw f (ap (λ n. if has_key a s start b then b.request_count else n) same, (d, kept))
    ]

pub sweep-stored :
    (a : Action) (s : String) (start now n : ℕ) (bs : List Bucket)
    → All IsDated bs
    → now ≤ start + window a
    → (stored a s start (sweep n now bs) ≡ stored a s start bs) × All IsDated (sweep n now bs)
unfolding sweep
sweep-stored a s start now zero bs d h = (refl, d)
sweep-stored a s start now (suc n) bs d h =
    let (same, kept) = deleted (oldest now bs) in
    let (rest, kept_too) = sweep-stored a s start now n _ kept h in (rest ∙ same, kept_too)
  where
    deleted :
        (e : Option ℕ)
        → (stored a s start (delete_at now e bs) ≡ stored a s start bs)
          × All IsDated (delete_at now e bs)
    deleted none = (refl, d)
    deleted (some e) = delete_one-stored a s start now e bs d h
