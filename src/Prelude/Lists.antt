-- ===== src/Prelude/Lists.antt =====
-- Lists over the native numbers, under the library's names, and predicates on lists.
use Prim.Native.Nat.{ℕ, zero, suc, ◌+◌, ◌-◌, min}
use mathlib.Core.Path.{◌≡◌, refl, sym, ap}
use mathlib.Core.Bool.{Bool, true, false, ◌&&◌, ◌||◌}
use mathlib.Core.Logic.{◌⊎◌, inl, inr}
use mathlib.Core.Option.{Option, none, some}
use mathlib.Core.List.{List, [], ◌∷◌, ◌++◌, map, Memᴰ}
use native.Mathlib.Omega.{arith}
use vigilo.Prelude.Tests.{if◌then◌else◌, or-eq-false, and-eq-true, Bool-cases}

module _ {ℓ} {A : Type ℓ} where
  abbrev pub length : List A → ℕ
  length [] = 0
  length (x ∷ xs) = suc (length xs)

  abbrev pub any : (A → Bool) → List A → Bool
  any p [] = false
  any p (x ∷ xs) = p x || any p xs

  abbrev pub all : (A → Bool) → List A → Bool
  all p [] = true
  all p (x ∷ xs) = p x && all p xs

  -- `Array.prototype.filter`.
  abbrev pub keep : (A → Bool) → List A → List A
  keep p [] = []
  keep p (x ∷ xs) = let rest = keep p xs in if p x then x ∷ rest else rest

  -- `Array.prototype.find`.
  abbrev pub find : (A → Bool) → List A → Option A
  find p [] = none
  find p (x ∷ xs) = let rest = find p xs in if p x then some x else rest

  abbrev pub take : ℕ → List A → List A
  take zero xs = []
  take (suc n) [] = []
  take (suc n) (x ∷ xs) = x ∷ take n xs

  abbrev pub drop : ℕ → List A → List A
  drop zero xs = xs
  drop (suc n) [] = []
  drop (suc n) (x ∷ xs) = drop n xs

  -- `xs[i]`, `none` for `undefined`.
  abbrev pub get_elem? : List A → ℕ → Option A
  get_elem? [] i = none
  get_elem? (x ∷ xs) zero = some x
  get_elem? (x ∷ xs) (suc i) = get_elem? xs i

  pub length-append : (xs ys : List A) → length (xs ++ ys) ≡ length xs + length ys
  length-append [] ys = omega arith
  length-append (x ∷ xs) ys = omega (arith, length-append xs ys)

  pub length-take : (n : ℕ) (xs : List A) → length (take n xs) ≡ min n (length xs)
  length-take zero xs = omega arith
  length-take (suc n) [] = omega arith
  length-take (suc n) (x ∷ xs) = omega (arith, length-take n xs)

  pub length-drop : (n : ℕ) (xs : List A) → length (drop n xs) ≡ length xs - n
  length-drop zero xs = omega arith
  length-drop (suc n) [] = omega arith
  length-drop (suc n) (x ∷ xs) = omega (arith, length-drop n xs)

  pub any-eq-false_mem :
      (p : A → Bool) (xs : List A) {a : A} → any p xs ≡ false → Memᴰ a xs → p a ≡ false
  any-eq-false_mem p [] h m = elim m [ ]
  any-eq-false_mem p (x ∷ xs) {a} h (Memᴰ.head e) = rw e (or-eq-false (p x) (any p xs) h).0
  any-eq-false_mem p (x ∷ xs) h (Memᴰ.tail m) =
      any-eq-false_mem p xs (or-eq-false (p x) (any p xs) h).1 m

  keep-yes : (p : A → Bool) (x : A) (xs : List A) → p x ≡ true → keep p (x ∷ xs) ≡ x ∷ keep p xs
  keep-yes p x xs e = rw e

  keep-no : (p : A → Bool) (x : A) (xs : List A) → p x ≡ false → keep p (x ∷ xs) ≡ keep p xs
  keep-no p x xs e = rw e

  mem-cons-keep :
      (p : A → Bool) (x : A) (xs : List A) {a : A}
      → p x ≡ true
      → (Memᴰ a (keep p xs) → Memᴰ a xs × (p a ≡ true))
      → Memᴰ a (x ∷ keep p xs)
      → Memᴰ a (x ∷ xs) × (p a ≡ true)
  mem-cons-keep p x xs e ih (Memᴰ.head q) = (Memᴰ.head q, rw q e)
  mem-cons-keep p x xs e ih (Memᴰ.tail m) = let (a, b) = ih m in (Memᴰ.tail a, b)

  -- What is kept was there, and passes the test.
  pub mem-keep :
      (p : A → Bool) (xs : List A) {a : A} → Memᴰ a (keep p xs) → Memᴰ a xs × (p a ≡ true)
  mem-keep p [] m = elim m [ ]
  mem-keep p (x ∷ xs) {a} m = elim (Bool-cases (p x)) [
    | inl e ↦ mem-cons-keep p x xs e (mem-keep p xs) (rw (keep-yes p x xs e) at m)
    | inr e ↦
        let (there, passes) = mem-keep p xs (rw (keep-no p x xs e) at m) in
        (Memᴰ.tail there, passes)
  ]

module _ {ℓ} {A : Type ℓ} where
  pub mem-keep_of :
      (p : A → Bool) (xs : List A) {a : A} → Memᴰ a xs → p a ≡ true → Memᴰ a (keep p xs)
  mem-keep_of p [] m h = elim m [ ]
  mem-keep_of p (x ∷ xs) {a} (Memᴰ.head e) h =
      let passes : p x ≡ true = rw (← e) h in rw passes (Memᴰ.head e)
  mem-keep_of p (x ∷ xs) (Memᴰ.tail m) h = elim (Bool-cases (p x)) [
    | inl e ↦ rw e (Memᴰ.tail (mem-keep_of p xs m h))
    | inr e ↦ rw e (mem-keep_of p xs m h)
  ]

  pub any-eq-false_of :
      (p : A → Bool) (xs : List A) → ((a : A) → Memᴰ a xs → p a ≡ false) → any p xs ≡ false
  any-eq-false_of p [] h = refl
  any-eq-false_of p (x ∷ xs) h =
      rw (h x (Memᴰ.head refl)) (any-eq-false_of p xs (λ a m. h a (Memᴰ.tail m)))

  pub mem-map_fixed : (f : A → A) (xs : List A) {a : A} → Memᴰ a xs → f a ≡ a → Memᴰ a (map f xs)
  mem-map_fixed f [] m h = elim m [ ]
  mem-map_fixed f (x ∷ xs) (Memᴰ.head e) h = Memᴰ.head (rw (← e) (sym h))
  mem-map_fixed f (x ∷ xs) (Memᴰ.tail m) h = Memᴰ.tail (mem-map_fixed f xs m h)

  pub any-eq-true_mem :
      (p : A → Bool) (xs : List A) {a : A} → Memᴰ a xs → p a ≡ true → any p xs ≡ true
  any-eq-true_mem p [] m h = elim m [ ]
  any-eq-true_mem p (x ∷ xs) (Memᴰ.head e) h = let passes : p x ≡ true = rw (← e) h in rw passes
  any-eq-true_mem p (x ∷ xs) (Memᴰ.tail m) h = ground (arith, any-eq-true_mem p xs m h)

  pub all-eq-true_mem :
      (p : A → Bool) (xs : List A) {a : A} → all p xs ≡ true → Memᴰ a xs → p a ≡ true
  all-eq-true_mem p [] h m = elim m [ ]
  all-eq-true_mem p (x ∷ xs) {a} h (Memᴰ.head e) = rw e (and-eq-true (p x) (all p xs) h).0
  all-eq-true_mem p (x ∷ xs) h (Memᴰ.tail m) =
      all-eq-true_mem p xs (and-eq-true (p x) (all p xs) h).1 m

  -- Two tests that agree keep the same.
  pub keep-same : (p q : A → Bool) (xs : List A) → ((a : A) → p a ≡ q a) → keep p xs ≡ keep q xs
  keep-same p q [] h = refl
  keep-same p q (x ∷ xs) h = rw (h x, keep-same p q xs h)

  pub keep-none :
      (p : A → Bool) (xs : List A) → ((a : A) → Memᴰ a xs → p a ≡ false) → keep p xs ≡ []
  keep-none p [] h = refl
  keep-none p (x ∷ xs) h = rw (h x (Memᴰ.head refl)) (keep-none p xs (λ a m. h a (Memᴰ.tail m)))

  -- Two tests one after the other, in either order.
  pub keep-swap : (p q : A → Bool) (xs : List A) → keep p (keep q xs) ≡ keep q (keep p xs)
  keep-swap p q [] = refl
  keep-swap p q (x ∷ xs) = elim (Bool-cases (p x)) [
    | inl e ↦ elim (Bool-cases (q x)) [
      | inl f ↦ rw (e, f) (rw e (ap (λ ys. x ∷ ys) (keep-swap p q xs)))
      | inr f ↦ rw (e, f) (keep-swap p q xs)
    ]
    | inr e ↦ elim (Bool-cases (q x)) [
      | inl f ↦ rw (e, f) (rw e (keep-swap p q xs))
      | inr f ↦ rw (e, f) (keep-swap p q xs)
    ]
  ]

pub mem-cons {ℓ} : {A : Type ℓ} {a x : A} {xs : List A} → Memᴰ a (x ∷ xs) → (a ≡ x) ⊎ Memᴰ a xs
mem-cons (Memᴰ.head e) = inl e
mem-cons (Memᴰ.tail m) = inr m

pub mem-map {ℓ κ} :
    {A : Type ℓ} {B : Type κ} (f : A → B) (xs : List A) {a : A} → Memᴰ a xs → Memᴰ (f a) (map f xs)
mem-map f [] m = elim m [ ]
mem-map f (x ∷ xs) (Memᴰ.head e) = Memᴰ.head (ap f e)
mem-map f (x ∷ xs) (Memᴰ.tail m) = Memᴰ.tail (mem-map f xs m)

module _ {ℓ κ} {A : Type ℓ} (P : A → Type κ) where
  abbrev pub All : List A → Type κ
  All [] = Unit
  All (x ∷ xs) = P x × All xs
