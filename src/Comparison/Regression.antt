-- ===== src/Comparison/Regression.antt =====
-- Trustworthy baselines and comparisons in lib/candidate-verifications/classification.ts.
use vigilo.Prelude.{
  ◌≡◌, ◌≢◌, ◌⊎◌, inl, inr, refl, arith, Bool, true, false, String, Bool-cases, and-eq-true,
  contains, ◌==◌, string_eq, ==_refl, ==→≡, ◌||◌, if-eq, if◌then◌else◌,
}
use vigilo.Comparison.Classification.{
  VerificationContract, checks_failed, BaselineComparison, not_comparable, no_regression_detected,
  regression_detected, previous_baseline_failure_resolved, previous_baseline_failure_still_present,
  comparable_baseline_outcomes, customer_baseline_failures, BaselineFacts,
  trustworthy_comparable_baseline, compare_with_baseline, compare_failures,
}

compare_failures-comparable :
    (outcome : String) (passed resolved : BaselineComparison)
    → contains comparable_baseline_outcomes outcome ≡ true
    → passed ≢ not_comparable
    → resolved ≢ not_comparable
    → (if outcome == "baseline_passed" then passed else compare_failures outcome resolved)
      ≢ not_comparable
compare_failures-comparable outcome passed resolved known p r h =
    elim (if-eq (outcome == "baseline_passed") passed (compare_failures outcome resolved) h) [
      | inl (_, e) ↦ p e
      | inr (differs, e) ↦
          elim (if-eq (contains customer_baseline_failures outcome) resolved not_comparable e) [
            | inl (_, f) ↦ r f
            | inr (unknown, _) ↦
                unlisted differs unknown (Bool-cases ("baseline_passed" == outcome))
          ]
    ]
  where
    clash : {b : Bool} → b ≡ true → b ≡ false → ⊥
    clash x y = cc

    unlisted :
        (outcome == "baseline_passed") ≡ false
        → contains customer_baseline_failures outcome ≡ false
        → (("baseline_passed" == outcome) ≡ true) ⊎ (("baseline_passed" == outcome) ≡ false)
        → ⊥
    unlisted differs unknown (inl same) =
        clash (==_refl outcome) (rw (==→≡ "baseline_passed" outcome same) at differs)
    unlisted differs unknown (inr other) = clash known (
        or-false ("baseline_passed" == outcome) (contains customer_baseline_failures outcome) other
          unknown)
      where
        or-false : (a b : Bool) → a ≡ false → b ≡ false → (a || b) ≡ false
        or-false a b x y = ground arith

-- Against a baseline that is trustworthy, and the one of the verification, a verification can always
-- be compared, unless it failed for its infrastructure.
pub trustworthy-comparable :
    (v : BaselineFacts) (contract : VerificationContract)
    → trustworthy_comparable_baseline v ≡ true
    → contract ≢ VerificationContract.infrastructure_failed
    → compare_with_baseline true v.overall_outcome contract ≢ not_comparable
unfolding trustworthy_comparable_baseline compare_with_baseline
trustworthy-comparable v VerificationContract.infrastructure_failed h k = absurd (k refl)
trustworthy-comparable v VerificationContract.checks_passed h k =
    let (known, _) = and-eq-true (contains comparable_baseline_outcomes v.overall_outcome) _ h in
    compare_failures-comparable v.overall_outcome no_regression_detected
      previous_baseline_failure_resolved known (λ e. cc) (λ e. cc)
trustworthy-comparable v checks_failed h k =
    let (known, _) = and-eq-true (contains comparable_baseline_outcomes v.overall_outcome) _ h in
    compare_failures-comparable v.overall_outcome regression_detected
      previous_baseline_failure_still_present known (λ e. cc) (λ e. cc)
