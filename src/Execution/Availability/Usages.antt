-- ===== src/Execution/Availability/Usages.antt =====
-- `addReservation` and `hasUsefulCapacity` of lib/external-execution/availability.ts against the sums
-- that a reservation compares.
use vigilo.Prelude.{
  ◌+◌, ◌≤◌, ◌≡◌, refl, ◌⊎◌, inl, inr, Bool, true, false, List, [], ◌∷◌, Option, Memᴰ, arith, ltb,
  Bool-cases, any-eq-false_of, all-eq-true_mem,
}
use vigilo.Execution.Types.{Category, Dimension, dimensions, amount, Amounts}
use vigilo.Execution.Store.{Reservation}
use vigilo.Execution.Reserve.{used, exhausts}
use vigilo.Execution.Availability.{
  empty_usage, add_reservation, add_reservations, compared, has_useful_capacity,
}

amount-add_reservation :
    (d : Dimension) (usage : Amounts) (r : Reservation)
    → amount d (add_reservation usage r) ≡ amount d usage + amount d r.amounts
unfolding add_reservation
amount-add_reservation Dimension.logical_requests usage r = refl
amount-add_reservation Dimension.provider_attempts usage r = refl
amount-add_reservation Dimension.input_tokens usage r = refl
amount-add_reservation Dimension.output_tokens usage r = refl
amount-add_reservation Dimension.sandbox_identities usage r = refl
amount-add_reservation Dimension.sandbox_runtime_ms usage r = refl
amount-add_reservation Dimension.verification_attempts usage r = refl
amount-add_reservation Dimension.repair_loop_iterations usage r = refl

amount-add_reservations :
    (p : Reservation → Bool) (d : Dimension) (rs : List Reservation) (usage : Amounts)
    → amount d (add_reservations p rs usage) ≡ amount d usage + used p d rs
unfolding add_reservations used
amount-add_reservations p d [] usage = omega arith
amount-add_reservations p d (r ∷ rs) usage = elim (Bool-cases (p r)) [
  | inl e ↦ rw e (
      omega (
        arith,
        amount-add_reservations p d rs (add_reservation usage r),
        amount-add_reservation d usage r,
      ))
  | inr e ↦ rw e (omega (arith, amount-add_reservations p d rs usage))
]

amount-empty_usage : (d : Dimension) → amount d empty_usage ≡ 0
amount-empty_usage Dimension.logical_requests = refl
amount-empty_usage Dimension.provider_attempts = refl
amount-empty_usage Dimension.input_tokens = refl
amount-empty_usage Dimension.output_tokens = refl
amount-empty_usage Dimension.sandbox_identities = refl
amount-empty_usage Dimension.sandbox_runtime_ms = refl
amount-empty_usage Dimension.verification_attempts = refl
amount-empty_usage Dimension.repair_loop_iterations = refl

-- The least request of a category: nothing but at most one of what is compared.
abbrev pub IsLeast : Option Category → Amounts → Type 0
IsLeast category wanted =
    (d : Dimension) → (amount d wanted ≡ 0) ⊎ (Memᴰ d (compared category) × (amount d wanted ≤ 1))

module _ (category : Option Category) (wanted limits : Amounts) (p : Reservation → Bool)
    (rs : List Reservation) (least : IsLeast category wanted)
    (within : (d : Dimension) → used p d rs ≤ amount d limits)
    (useful : has_useful_capacity category limits (add_reservations p rs empty_usage) ≡ true) where
  fits : (d : Dimension) → used p d rs + amount d wanted ≤ amount d limits
  unfolding has_useful_capacity
  fits d = elim (least d) [
    | inl e ↦ omega (arith, e, within d)
    | inr (m, one) ↦
        let below =
          all-eq-true_mem
            (λ d. ltb (amount d (add_reservations p rs empty_usage)) (amount d limits))
            (compared category) useful m in
        let sum = amount-add_reservations p d rs empty_usage in
        let start = amount-empty_usage d in ground arith
  ]

  -- A useful capacity, within the limits, is enough for the least request.
  pub useful-exhausts : exhausts p rs wanted limits ≡ false
  unfolding exhausts
  useful-exhausts =
      any-eq-false_of (λ d. ltb (amount d limits) (used p d rs + amount d wanted)) dimensions
        (λ d m. let h = fits d in ground arith)
