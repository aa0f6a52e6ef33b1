-- ===== src/Comparison/Tests.antt =====
-- A trustworthy baseline whose tests fail, and the theorem on it.
use vigilo.Prelude.{◌≡◌, ◌≢◌, refl, true, false, some}
use vigilo.Comparison.Classification.{
  VerificationContract, checks_failed, not_comparable, previous_baseline_failure_resolved,
  BaselineFacts, trustworthy_comparable_baseline, compare_with_baseline,
}
use vigilo.Comparison.Regression.{trustworthy-comparable}

runs : Unit {0}
unfolding trustworthy_comparable_baseline compare_with_baseline
runs = tt

abbrev baseline : BaselineFacts
baseline = record {
  evidence_version = 1;
  credentials_exposure = "absent";
  network_policy = "deny-all";
  install_status = "completed";
  install_exit_code = some 0;
  install_timed_out = false;
  execution_outcome = "test_failed";
  overall_outcome = "test_failed";
  cleanup_stop = "confirmed";
  cleanup_delete = "confirmed";
  cleanup_lookup = "absent";
}

is_trusted : trustworthy_comparable_baseline baseline ≡ true
unfolding runs
is_trusted = refl

resolved :
    compare_with_baseline true "test_failed" VerificationContract.checks_passed
    ≡ previous_baseline_failure_resolved
unfolding runs
resolved = refl

failed_ne_infrastructure : checks_failed ≢ VerificationContract.infrastructure_failed
failed_ne_infrastructure h = cc

trustworthy-comparable_example :
    compare_with_baseline true baseline.overall_outcome checks_failed ≢ not_comparable
trustworthy-comparable_example =
    trustworthy-comparable baseline checks_failed is_trusted failed_ne_infrastructure
