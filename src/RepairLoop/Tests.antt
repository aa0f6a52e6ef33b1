-- ===== src/RepairLoop/Tests.antt =====
-- A baseline whose tests fail, a verification in which they pass, and the theorems on them.
use vigilo.Prelude.{ℕ, ◌≡◌, ◌≤◌, refl, arith, true, false, none, some, String}
use vigilo.RepairLoop.Objective.{
  Check, test, Evidence, PhaseFacts, Baseline, Profile, VerificationEvidence, failed_phase,
  passed_phase, baseline_is_trustworthy, is_required, required_of, has_script,
  derive_baseline_recovery_contract, is_trustworthy, evaluate_checks, is_unmeasurable,
  evaluate_baseline_recovery,
}
use vigilo.RepairLoop.Decision.{LoopState, trustworthy, try_again, decide_repair_loop_outcome}
use vigilo.RepairLoop.Recovery.{verified-recovers, Scheduled, first, again, Scheduled-bound}

runs : Unit {0}
unfolding failed_phase passed_phase baseline_is_trustworthy is_required required_of has_script
    derive_baseline_recovery_contract is_trustworthy evaluate_checks is_unmeasurable
    evaluate_baseline_recovery try_again decide_repair_loop_outcome
runs = tt

abbrev facts : String → ℕ → PhaseFacts
facts status code = record { status = some status; exit_code = some code; timed_out = some false }

abbrev failing : Check → PhaseFacts
failing test = facts "failed" 1
failing _ = facts "completed" 0

abbrev baseline : Baseline
baseline = record {
  id = "b1";
  workspace_id = "w1";
  github_repository_id = 7;
  installation_id = 9;
  evidence_version = 1;
  profile_identity = "p1";
  base_commit_sha = "c1";
  source_identity_before = some "s1";
  source_identity_after = some "s1";
  source_unchanged = some true;
  credentials_exposure = "absent";
  network_policy = "deny-all";
  install = facts "completed" 0;
  phase = failing;
  execution_outcome = "test_failed";
  overall_outcome = "test_failed";
  cleanup_stop = "confirmed";
  cleanup_delete = "confirmed";
  cleanup_lookup = "absent";
}

abbrev profile : Profile
profile = record {
  workspace_id = "w1";
  github_repository_id = 7;
  installation_id = 9;
  profile_identity = some "p1";
  base_commit_sha = "c1";
  status = "ready";
  typecheck_script = none;
  build_script = some "build";
  test_script = some "test";
}

abbrev evidence_with : (Check → PhaseFacts) → VerificationEvidence
evidence_with phase = record {
  id = "e1";
  verification_id = "v1";
  candidate_id = "k1";
  candidate_identity = "ki";
  workspace_id = "w1";
  github_repository_id = 7;
  installation_id = 9;
  baseline_id = "b1";
  profile_identity = "p1";
  base_commit_sha = "c1";
  evidence_version = 1;
  candidate_artifact_integrity = "valid";
  distinct_sandbox_confirmed = true;
  pristine_base_integrity = "valid";
  candidate_reconstruction = "valid";
  credentials_exposure = "absent";
  network_policy = "deny-all";
  install = facts "completed" 0;
  phase = phase;
  reconstructed_source_identity = some "s2";
  source_identity_after = some "s2";
  source_integrity_unchanged = some true;
  cleanup_stop = "confirmed";
  cleanup_delete = "confirmed";
  cleanup_lookup = "absent";
  verification_contract = "checks_passed";
}

abbrev evidence : VerificationEvidence
evidence = evidence_with (λ c. facts "completed" 0)

abbrev state_of : VerificationEvidence → LoopState
state_of e =
    (decide_repair_loop_outcome 1 3 trustworthy
      (evaluate_baseline_recovery (derive_baseline_recovery_contract "r1" baseline profile) e
        none).0
      false).loop_state

passing : state_of evidence ≡ LoopState.verified
unfolding runs
passing = refl

still_failing : state_of (evidence_with failing) ≡ LoopState.running
unfolding runs
still_failing = refl

verified-recovers_example :
    (false ≡ false)
    × (is_trustworthy (derive_baseline_recovery_contract "r1" baseline profile) evidence ≡ true)
    × (baseline_is_trustworthy baseline profile ≡ true)
    × ((c : Check)
        → has_script profile c ≡ true
        → failed_phase (failing c) ≡ true
        → passed_phase (evidence.phase c) ≡ true)
verified-recovers_example =
    verified-recovers "r1" baseline profile evidence none 1 3 trustworthy false passing

second : Scheduled 3 2
unfolding runs
second = again 1 trustworthy Evidence.failed false first refl

Scheduled-bound_example : 2 ≤ 3
Scheduled-bound_example = Scheduled-bound 3 2 (omega arith) second
