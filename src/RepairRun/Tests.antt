-- ===== src/RepairRun/Tests.antt =====
-- A run whose baseline passes, and the theorems on it.
use vigilo.Prelude.{◌≡◌, ◌≤◌, refl, true, false}
use vigilo.RepairRun.Machine.{
  created, baseline_running, ready_for_investigation, allowed_transitions, validate_transition,
  baseline_passed, classify_baseline_outcome,
}
use vigilo.RepairRun.Histories.{Accepted, new, transition, Accepted-bound, classify-terminal}

passing : Accepted 2 ready_for_investigation
unfolding validate_transition allowed_transitions
passing =
    transition baseline_running ready_for_investigation
      (transition created baseline_running new refl) refl

Accepted-bound_example : 2 ≤ 2
Accepted-bound_example = Accepted-bound passing

classify-terminal_example :
    (validate_transition baseline_running (classify_baseline_outcome baseline_passed) ≡ true)
    × (validate_transition (classify_baseline_outcome baseline_passed) created ≡ false)
classify-terminal_example = classify-terminal baseline_passed created
