-- ===== src/Comparison/Classification.antt =====
-- `trustworthyComparableBaseline`, `verificationContractFor` and `compareWithBaseline` of
-- lib/candidate-verifications/classification.ts.
use vigilo.Prelude.{
  ℕ, Bool, true, false, not, ◌&&◌, List, [], ◌∷◌, Option, some, String, eqb, contains,
  if◌then◌else◌, ◌==◌, string_eq, option_eq, nat_eq,
}

pub data ExecutionOutcome : Type 0 where
  checks_passed typecheck_failed build_failed test_failed installation_failed : ExecutionOutcome
  timed_out cancelled infrastructure_failed cleanup_failed artifact_invalid : ExecutionOutcome

pub data VerificationContract : Type 0 where
  checks_passed checks_failed infrastructure_failed : VerificationContract

pub data BaselineComparison : Type 0 where
  no_regression_detected regression_detected : BaselineComparison
  previous_baseline_failure_resolved previous_baseline_failure_still_present : BaselineComparison
  not_comparable : BaselineComparison

abbrev pub customer_baseline_failures : List String
customer_baseline_failures =
    "baseline_failed" ∷ "typecheck_failed" ∷ "build_failed" ∷ "test_failed" ∷ []

abbrev pub comparable_baseline_outcomes : List String
comparable_baseline_outcomes = "baseline_passed" ∷ customer_baseline_failures

pub record BaselineFacts : Type 0 where
  pub evidence_version : ℕ
  pub credentials_exposure : String
  pub network_policy : String
  pub install_status : String
  pub install_exit_code : Option ℕ
  pub install_timed_out : Bool
  pub execution_outcome : String
  pub overall_outcome : String
  pub cleanup_stop : String
  pub cleanup_delete : String
  pub cleanup_lookup : String

unfoldable pub trustworthy_comparable_baseline : BaselineFacts → Bool
trustworthy_comparable_baseline v =
    contains comparable_baseline_outcomes v.overall_outcome
    && (eqb v.evidence_version 1
        && v.execution_outcome == v.overall_outcome
        && v.credentials_exposure == "absent"
        && v.network_policy == "deny-all"
        && v.install_status == "completed"
        && v.install_exit_code == some 0
        && not v.install_timed_out
        && v.cleanup_stop == "confirmed"
        && v.cleanup_delete == "confirmed"
        && v.cleanup_lookup == "absent")

unfoldable pub verification_contract_for : ExecutionOutcome → VerificationContract
verification_contract_for ExecutionOutcome.checks_passed = VerificationContract.checks_passed
verification_contract_for typecheck_failed = checks_failed
verification_contract_for build_failed = checks_failed
verification_contract_for test_failed = checks_failed
verification_contract_for _ = VerificationContract.infrastructure_failed

abbrev pub compare_failures : String → BaselineComparison → BaselineComparison
compare_failures outcome comparison =
    if contains customer_baseline_failures outcome then comparison else not_comparable

unfoldable pub compare_with_baseline : Bool → String → VerificationContract → BaselineComparison
compare_with_baseline false outcome contract = not_comparable
compare_with_baseline true outcome VerificationContract.infrastructure_failed = not_comparable
compare_with_baseline true outcome VerificationContract.checks_passed =
    if outcome == "baseline_passed"
    then no_regression_detected
    else compare_failures outcome previous_baseline_failure_resolved
compare_with_baseline true outcome checks_failed =
    if outcome == "baseline_passed"
    then regression_detected
    else compare_failures outcome previous_baseline_failure_still_present
