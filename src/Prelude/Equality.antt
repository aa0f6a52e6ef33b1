-- ===== src/Prelude/Equality.antt =====
-- `===` on the values that the program compares, as one operator.
use Prim.Native.Nat.{ℕ}
use Prim.Native.String.{String}
use mathlib.Core.Path.{◌≡◌, refl, sym, subst}
use mathlib.Core.Logic.{◌↔◌, ◌≢◌, inl, inr}
use mathlib.Core.Bool.{Bool, true, false, ◌&&◌}
use mathlib.Core.Option.{Option, none, some}
use mathlib.Core.List.{List, [], ◌∷◌, Memᴰ}
use native.Mathlib.Omega.{arith}
use text.Mathlib.Text.{◌==◌ as str_eq}
use text.Mathlib.TextEquality.{eq_iff}
use vigilo.Prelude.Tests.{eqb, Bool-cases}
use vigilo.Prelude.Lists.{any, any-eq-false_mem}

pub record Eq {ℓ} (A : Type ℓ) : Type ℓ where
  pub same : A → A → Bool
  pub same_iff : (a b : A) → (same a b ≡ true) ↔ (a ≡ b)

pub eqb_iff : (a b : ℕ) → (eqb a b ≡ true) ↔ (a ≡ b)
eqb_iff a b = ground arith

instance abbrev pub nat_eq : Eq ℕ
nat_eq = record { same = eqb; same_iff = eqb_iff }

instance abbrev pub string_eq : Eq String
string_eq = record { same = str_eq; same_iff = eq_iff }

infix 50 ◌==◌
abbrev pub ◌==◌ {ℓ} : {A : Type ℓ} ⦃e : Eq A⦄ → A → A → Bool
◌==◌ ⦃e⦄ = e.same

abbrev option_beq {ℓ} : {A : Type ℓ} → (A → A → Bool) → Option A → Option A → Bool
option_beq f none none = true
option_beq f (some a) (some b) = f a b
option_beq f _ _ = false

pub option_beq_iff {ℓ} :
    {A : Type ℓ} (e : Eq A) (a b : Option A) → (option_beq e.same a b ≡ true) ↔ (a ≡ b)
option_beq_iff e none none = ground arith
option_beq_iff e (some a) (some b) = ground (arith, e.same_iff a b)
option_beq_iff e none (some b) = ground arith
option_beq_iff e (some a) none = ground arith

-- Equality of the values of an enumeration, through a numbering of them.
abbrev pub by_code {ℓ} :
    {A : Type ℓ} (f : A → ℕ) → ((a b : A) → (eqb (f a) (f b) ≡ true) ↔ (a ≡ b)) → Eq A
by_code f h = record { same = λ a b. eqb (f a) (f b); same_iff = h }

-- `null` equals only `null`.
instance abbrev pub option_eq {ℓ} : {A : Type ℓ} ⦃e : Eq A⦄ → Eq (Option A)
option_eq ⦃e⦄ = record { same = option_beq e.same; same_iff = option_beq_iff e }

module _ {ℓ} {A : Type ℓ} ⦃e : Eq A⦄ where
  pub ==→≡ : (a b : A) → (a == b) ≡ true → a ≡ b
  ==→≡ a b = (e.same_iff a b).0

  pub ==_refl : (a : A) → (a == a) ≡ true
  ==_refl a = (e.same_iff a a).1 refl

  -- `Set.prototype.has` and `Array.prototype.includes`.
  abbrev pub contains : List A → A → Bool
  contains xs a = any (λ x. x == a) xs

  pub ==→≢ : (a b : A) → (a == b) ≡ false → a ≢ b
  ==→≢ a b h same =
      let there : (a == b) ≡ true = subst (λ x. (a == x) ≡ true) same (==_refl a) in cc

  pub ≢→== : (a b : A) → a ≢ b → (a == b) ≡ false
  ≢→== a b h = elim (Bool-cases (a == b)) [ inl e ↦ absurd (h (==→≡ a b e)) | inr e ↦ e ]

abbrev list_beq {ℓ} : {A : Type ℓ} → (A → A → Bool) → List A → List A → Bool
list_beq f [] [] = true
list_beq f (a ∷ xs) (b ∷ ys) = f a b && list_beq f xs ys
list_beq f _ _ = false

pub list_beq_iff {ℓ} :
    {A : Type ℓ} (e : Eq A) (xs ys : List A) → (list_beq e.same xs ys ≡ true) ↔ (xs ≡ ys)
list_beq_iff e [] [] = ground arith
list_beq_iff e (a ∷ xs) (b ∷ ys) = ground (arith, e.same_iff a b, list_beq_iff e xs ys)
list_beq_iff e [] (b ∷ ys) = ground arith
list_beq_iff e (a ∷ xs) [] = ground arith

-- Texts by their code units, and paths by their parts.
instance abbrev pub list_eq {ℓ} : {A : Type ℓ} ⦃e : Eq A⦄ → Eq (List A)
list_eq ⦃e⦄ = record { same = list_beq e.same; same_iff = list_beq_iff e }

pub contains-mem {ℓ} :
    {A : Type ℓ} ⦃e : Eq A⦄ (a : A) (xs : List A) → contains xs a ≡ true → Memᴰ a xs
contains-mem a [] h = cc
contains-mem a (x ∷ xs) h = elim (Bool-cases (x == a)) [
  | inl e ↦ Memᴰ.head (sym (==→≡ x a e))
  | inr e ↦ Memᴰ.tail (contains-mem a xs (rw e at h))
]

pub contains-eq-false_mem {ℓ} :
    {A : Type ℓ} ⦃e : Eq A⦄ (a : A) (xs : List A) → contains xs a ≡ false → ¬ Memᴰ a xs
contains-eq-false_mem a xs h m = clash (==_refl a) (any-eq-false_mem (λ x. x == a) xs h m)
  where
    clash : {b : Bool} → b ≡ true → b ≡ false → ⊥
    clash p q = cc
