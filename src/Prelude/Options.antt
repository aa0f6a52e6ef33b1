-- ===== src/Prelude/Options.antt =====
-- Code that fails without a reason: a chain of steps, each of which may reject.
use mathlib.Core.Path.{◌≡◌, refl}
use mathlib.Core.Bool.{Bool, true, false}
use mathlib.Core.Option.{Option, none, some}

infixl 5 ◌>>◌ ◌>>=◌
-- `if (!test) fail(); rest`
unfoldable pub ◌>>◌ {κ} : {B : Type κ} → Option (Unit {0}) → Option B → Option B
none >> rest = none
some _ >> rest = rest

unfoldable pub ◌>>=◌ {ℓ κ} : {A : Type ℓ} {B : Type κ} → Option A → (A → Option B) → Option B
none >>= rest = none
some value >>= rest = rest value

-- `if (b) fail()`
unfoldable pub reject_if : Bool → Option (Unit {0})
reject_if true = none
reject_if false = some tt

pub bind-eq-some {ℓ κ} :
    {A : Type ℓ} {B : Type κ} (step : Option A) (rest : A → Option B) {value : B}
    → (step >>= rest) ≡ some value
    → (mid : A) × (step ≡ some mid) × (rest mid ≡ some value)
unfolding ◌>>=◌
bind-eq-some none rest h = cc
bind-eq-some (some mid) rest h = (mid, refl, h)

module _ {κ} {B : Type κ} where
  pub then-eq-some :
      (check : Option (Unit {0})) (rest : Option B) {value : B}
      → (check >> rest) ≡ some value
      → (check ≡ some tt) × (rest ≡ some value)
  unfolding ◌>>◌
  then-eq-some none rest h = cc
  then-eq-some (some tt) rest h = (refl, h)

  pub reject_if-eq-some :
      (b : Bool) (rest : Option B) {value : B}
      → (reject_if b >> rest) ≡ some value
      → (b ≡ false) × (rest ≡ some value)
  unfolding ◌>>◌ reject_if
  reject_if-eq-some true rest h = cc
  reject_if-eq-some false rest h = (refl, h)

pub some-injective {ℓ} : {A : Type ℓ} {a b : A} → some a ≡ some b → a ≡ b
some-injective h = cc

pub bind-same {ℓ κ} :
    {A : Type ℓ} {B : Type κ} (step : Option A) (f g : A → Option B)
    → ((a : A) → step ≡ some a → f a ≡ g a)
    → (step >>= f) ≡ (step >>= g)
unfolding ◌>>=◌
bind-same none f g h = refl
bind-same (some a) f g h = h a refl
