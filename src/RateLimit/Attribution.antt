-- ===== src/RateLimit/Attribution.antt =====
-- What `resolveRateLimitSubject` and `classifyRateLimitAction` take from a request.
use mathlib.Core.Path.{subst}
use vigilo.Prelude.{
  ℕ, suc, ◌+◌, ◌-◌, ◌≤◌, ◌≡◌, ◌≢◌, ◌⊎◌, refl, sym, ap, ◌∙◌, inl, inr, Bool, true, false, List, [],
  ◌∷◌, ◌++◌, some, arith, Bool-cases, eqb, leb, length, map, get_elem?, trim, split_on, cons_piece,
  length-append, nat_eq, list_eq, ==_refl, ≢→==,
}
use vigilo.Prelude.Checks.{◌>>=◌, present_or}
use vigilo.RateLimit.Buckets.{
  Action, auth, oauth_callback, poll, health, readiness, repository_connect, repository_select,
  profile_detect, repair_start, workflow_start, human_review, publication,
}
use vigilo.RateLimit.Subjects.{
  Host, from_end, forwarded_subject, get, classify_write, classify_other,
  classify_rate_limit_action, Options, resolve_rate_limit_subject,
}

cons_piece-append :
    (c : ℕ) (xs ys : List (List ℕ)) → xs ≢ [] → cons_piece c (xs ++ ys) ≡ cons_piece c xs ++ ys
cons_piece-append c [] ys h = absurd (h refl)
cons_piece-append c (x ∷ xs) ys h = refl

cons_piece-some : (c : ℕ) (ps : List (List ℕ)) → cons_piece c ps ≢ []
cons_piece-some c [] h = cc
cons_piece-some c (p ∷ ps) h = cc

split_on-some : (s : ℕ) (cs : List ℕ) → split_on s cs ≢ []
unfolding split_on
split_on-some s [] h = cc
split_on-some s (c ∷ cs) h = elim (Bool-cases (eqb c s)) [
  | inl e ↦ let clash : [] ∷ split_on s cs ≡ [] = rw e at h in cc
  | inr e ↦ cons_piece-some c (split_on s cs) (rw e at h)
]

split_on-append :
    (s : ℕ) (xs ys : List ℕ) → split_on s (xs ++ (s ∷ ys)) ≡ split_on s xs ++ split_on s ys
unfolding split_on
split_on-append s [] ys = rw (==_refl s) refl
split_on-append s (x ∷ xs) ys = elim (Bool-cases (eqb x s)) [
  | inl e ↦ rw e (ap (λ ps. [] ∷ ps) (split_on-append s xs ys))
  | inr e ↦ rw e (
      ap (cons_piece x) (split_on-append s xs ys)
      ∙ cons_piece-append x (split_on s xs) (split_on s ys) (split_on-some s xs))
]

get_elem?-append :
    {A : Type 0} (xs ys : List A) (i : ℕ) → get_elem? (xs ++ ys) (length xs + i) ≡ get_elem? ys i
get_elem?-append [] ys i = ap (get_elem? ys) (omega arith)
get_elem?-append (x ∷ xs) ys i =
    let place : suc (length xs) + i ≡ suc (length xs + i) = omega arith in
    ap (get_elem? (x ∷ (xs ++ ys))) place ∙ get_elem?-append xs ys i

map-append : {A B : Type 0} (f : A → B) (xs ys : List A) → map f (xs ++ ys) ≡ map f xs ++ map f ys
map-append f [] ys = refl
map-append f (x ∷ xs) ys = ap (λ zs. f x ∷ zs) (map-append f xs ys)

length-map : {A B : Type 0} (f : A → B) (xs : List A) → length (map f xs) ≡ length xs
length-map f [] = refl
length-map f (x ∷ xs) = ap suc (length-map f xs)

from_end-append :
    (xs ys : List (List ℕ)) (hops : ℕ)
    → hops ≤ length ys
    → from_end (xs ++ ys) hops ≡ from_end ys hops
unfolding from_end
from_end-append xs ys hops h =
    let sum = length-append xs ys in
    let most : leb hops (length ys) ≡ true = ground arith in
    let more : leb hops (length (xs ++ ys)) ≡ true = ground arith in
    let place : length (xs ++ ys) - hops ≡ length xs + (length ys - hops) = omega (arith, sum, h) in
    rw (most, more, place) (get_elem?-append xs ys (length ys - hops))

module _ (host : Host) (forged tail : List ℕ) (hops : ℕ) (present : tail ≢ [])
    (enough : hops ≤ length (split_on b',' tail)) where
  chain-append :
      from_end (map trim (split_on b',' (forged ++ (b',' ∷ tail)))) hops
      ≡ from_end (map trim (split_on b',' tail)) hops
  chain-append =
      let whole = split_on-append b',' forged tail in
      let few : hops ≤ length (map trim (split_on b',' tail)) =
        subst (λ n. hops ≤ n) (sym (length-map trim (split_on b',' tail))) enough in
      ap (λ ps. from_end (map trim ps) hops) whole
      ∙ ap (λ ps. from_end ps hops) (map-append trim (split_on b',' forged) (split_on b',' tail))
      ∙ from_end-append (map trim (split_on b',' forged)) _ hops few

  nonempty : (forged ++ (b',' ∷ tail)) ≢ []
  nonempty = none_empty forged
    where
      none_empty : (xs : List ℕ) → (xs ++ (b',' ∷ tail)) ≢ []
      none_empty [] h = cc
      none_empty (x ∷ xs) h = cc

  forwarded-append :
      forwarded_subject host (some (forged ++ (b',' ∷ tail))) hops
      ≡ forwarded_subject host (some tail) hops
  unfolding forwarded_subject ◌>>=◌ present_or
  forwarded-append =
      rw (≢→== (forged ++ (b',' ∷ tail)) [] nonempty, ≢→== tail [] present, chain-append) refl

  -- Where the parts that the trusted proxies have added are present, what stands in the header before
  -- them, with a comma between, does not change the subject of a request.
  pub resolve-append :
      (options : Options)
      → options.trusted_proxy_hops ≡ some hops
      → resolve_rate_limit_subject host (some (forged ++ (b',' ∷ tail))) options
        ≡ resolve_rate_limit_subject host (some tail) options
  unfolding resolve_rate_limit_subject
  resolve-append options trusted = rw trusted forwarded-append

-- The actions that are chosen by the path alone.
abbrev pub is_by_path : Action → Bool
is_by_path auth = true
is_by_path oauth_callback = true
is_by_path health = true
is_by_path readiness = true
is_by_path _ = false

-- The actions of a workflow.
abbrev pub is_workflow : Action → Bool
is_workflow repository_connect = true
is_workflow repository_select = true
is_workflow profile_detect = true
is_workflow repair_start = true
is_workflow workflow_start = true
is_workflow human_review = true
is_workflow publication = true
is_workflow _ = false

classify_write-workflow : (pathname : List ℕ) → is_workflow (classify_write pathname) ≡ true
unfolding classify_write
classify_write-workflow pathname = ground arith

module _ (pathname method : List ℕ) where
  classify_other-get : classify_other pathname get ≡ poll
  unfolding classify_other
  classify_other-get = ground arith

  classify_other-workflow : method ≢ get → is_workflow (classify_other pathname method) ≡ true
  unfolding classify_other
  classify_other-workflow other =
      let no_get = ≢→== method get other in
      let write = classify_write-workflow pathname in ground arith

  -- For one path, a GET request and a request with another method count either as the same action,
  -- which is sign-in, a callback, health or readiness, or the GET request counts as polling and the
  -- other as one of the seven actions of a workflow.
  pub classify-method :
      method ≢ get
      → ((classify_rate_limit_action pathname method ≡ classify_rate_limit_action pathname get)
          × (is_by_path (classify_rate_limit_action pathname get) ≡ true))
        ⊎ ((classify_rate_limit_action pathname get ≡ poll)
            × (is_workflow (classify_rate_limit_action pathname method) ≡ true))
  unfolding classify_rate_limit_action
  classify-method other =
      let read = classify_other-get in let write = classify_other-workflow other in ground arith
