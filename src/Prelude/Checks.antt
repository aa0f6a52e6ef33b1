-- ===== src/Prelude/Checks.antt =====
-- Code that ends early with a reason: `return unsupported(…)`, `return { status }`, `throw`.
use mathlib.Core.Path.{◌≡◌, refl, ap}
use mathlib.Core.Logic.{◌⊎◌, inl, inr}
use mathlib.Core.Bool.{Bool, true, false}
use mathlib.Core.Option.{Option, none, some}
use vigilo.Prelude.Tests.{if◌then◌else◌}

pub data Checked {ℓ κ} (R : Type ℓ) (A : Type κ) : Type (ℓ ⊔ κ) where
  refused : R → Checked R A
  passed : A → Checked R A

infixl 5 ◌>>=◌ ◌>>◌
-- `const value = step; rest`
unfoldable pub ◌>>=◌ {ℓ κ μ} :
    {R : Type ℓ} {A : Type κ} {B : Type μ} → Checked R A → (A → Checked R B) → Checked R B
refused reason >>= next = refused reason
passed value >>= next = next value

unfoldable pub ◌>>◌ {ℓ μ} :
    {R : Type ℓ} {B : Type μ} → Checked R (Unit {0}) → Checked R B → Checked R B
refused reason >> next = refused reason
passed _ >> next = next

-- `if (bad)` end with the reason.
unfoldable pub refuse_if {ℓ} : {R : Type ℓ} → Bool → R → Checked R (Unit {0})
refuse_if true reason = refused reason
refuse_if false reason = passed tt

-- `if (!value)` end with the reason.
unfoldable pub present_or {ℓ κ} : {R : Type ℓ} {A : Type κ} → Option A → R → Checked R A
present_or none reason = refused reason
present_or (some value) reason = passed value

pub passed-injective {ℓ κ} :
    {R : Type ℓ} {A : Type κ} {a b : A} → Path (Checked R A) (passed a) (passed b) → a ≡ b
passed-injective h = cc

pub refused-injective {ℓ κ} :
    {R : Type ℓ} {A : Type κ} {r q : R} → Path (Checked R A) (refused r) (refused q) → r ≡ q
refused-injective h = cc

module _ {ℓ} {R : Type ℓ} where
  pub bind-eq-passed {κ μ} :
      {A : Type κ} {B : Type μ} (step : Checked R A) (next : A → Checked R B) {value : B}
      → (step >>= next) ≡ passed value
      → (mid : A) × (step ≡ passed mid) × (next mid ≡ passed value)
  unfolding ◌>>=◌
  bind-eq-passed (refused reason) next h = cc
  bind-eq-passed (passed mid) next h = (mid, refl, h)

  module _ {μ} {B : Type μ} where
    pub refuse_if-eq-passed :
        (b : Bool) (reason : R) (next : Checked R B) {value : B}
        → (refuse_if b reason >> next) ≡ passed value
        → (b ≡ false) × (next ≡ passed value)
    unfolding ◌>>◌ refuse_if
    refuse_if-eq-passed true reason next h = cc
    refuse_if-eq-passed false reason next h = (refl, h)

    pub present_or-eq-passed {κ} :
        {A : Type κ} (found : Option A) (reason : R) (next : A → Checked R B) {value : B}
        → (present_or found reason >>= next) ≡ passed value
        → (mid : A) × (found ≡ some mid) × (next mid ≡ passed value)
    unfolding ◌>>=◌ present_or
    present_or-eq-passed none reason next h = cc
    present_or-eq-passed (some mid) reason next h = (mid, refl, h)

-- Code that ends early, and where.
module _ {ℓ} {R : Type ℓ} where
  pub bind-eq-refused {κ μ} :
      {A : Type κ} {B : Type μ} (step : Checked R A) (next : A → Checked R B) {reason : R}
      → (step >>= next) ≡ refused reason
      → (step ≡ refused reason) ⊎ ((mid : A) × (step ≡ passed mid) × (next mid ≡ refused reason))
  unfolding ◌>>=◌
  bind-eq-refused (refused reason) next h = inl (ap refused (refused-injective h))
  bind-eq-refused (passed mid) next h = inr (mid, refl, h)

  pub refuse_if-eq-refused {μ} :
      {B : Type μ} (b : Bool) (given : R) (next : Checked R B) {reason : R}
      → (refuse_if b given >> next) ≡ refused reason
      → ((b ≡ true) × (given ≡ reason)) ⊎ ((b ≡ false) × (next ≡ refused reason))
  unfolding ◌>>◌ refuse_if
  refuse_if-eq-refused true given next h = inl (refl, refused-injective h)
  refuse_if-eq-refused false given next h = inr (refl, h)

  pub >>=-passed {κ μ} :
      {A : Type κ} {B : Type μ} (step : Checked R A) (next : A → Checked R B) {mid : A}
      → step ≡ passed mid
      → (step >>= next) ≡ next mid
  unfolding ◌>>=◌
  >>=-passed (refused reason) next h = cc
  >>=-passed (passed mid) next h = ap next (passed-injective h)

-- Every reason that a step may end with has a property.
abbrev pub Refuses {ℓ κ μ} : {R : Type ℓ} {A : Type κ} → (R → Type μ) → Checked R A → Type μ
Refuses P (refused reason) = P reason
Refuses P (passed value) = Unit

module _ {ℓ μ} {R : Type ℓ} (P : R → Type μ) where
  pub Refuses-bind {κ ν} :
      {A : Type κ} {B : Type ν} (step : Checked R A) (next : A → Checked R B)
      → Refuses P step
      → ((value : A) → Refuses P (next value))
      → Refuses P (step >>= next)
  unfolding ◌>>=◌
  Refuses-bind (refused reason) next p h = p
  Refuses-bind (passed value) next p h = h value

  pub Refuses-refuse_if {ν} :
      {B : Type ν} (b : Bool) (reason : R) (next : Checked R B)
      → P reason
      → Refuses P next
      → Refuses P (refuse_if b reason >> next)
  unfolding ◌>>◌ refuse_if
  Refuses-refuse_if true reason next p h = p
  Refuses-refuse_if false reason next p h = h

  pub Refuses-present_or {κ ν} :
      {A : Type κ} {B : Type ν} (found : Option A) (reason : R) (next : A → Checked R B)
      → P reason
      → ((value : A) → Refuses P (next value))
      → Refuses P (present_or found reason >>= next)
  unfolding ◌>>=◌ present_or
  Refuses-present_or none reason next p h = p
  Refuses-present_or (some value) reason next p h = h value

  pub Refuses-if {κ} :
      {A : Type κ} (b : Bool) (c d : Checked R A)
      → Refuses P c
      → Refuses P d
      → Refuses P (if b then c else d)
  Refuses-if true c d p q = p
  Refuses-if false c d p q = q
