-- ===== src/RepairRun/Machine.antt =====
-- `validateTransition` and `classifyBaselineOutcome` of lib/repair-runs/state-machine.ts.
use vigilo.Prelude.{ℕ, Bool, List, [], ◌∷◌, any, eqb}

pub data RunState : Type 0 where
  created baseline_running ready_for_investigation : RunState
  baseline_failed infrastructure_failed cancelled : RunState

abbrev pub state_code : RunState → ℕ
state_code created = 0
state_code baseline_running = 1
state_code ready_for_investigation = 2
state_code baseline_failed = 3
state_code infrastructure_failed = 4
state_code cancelled = 5

unfoldable pub allowed_transitions : RunState → List RunState
allowed_transitions created = baseline_running ∷ cancelled ∷ []
allowed_transitions baseline_running =
    ready_for_investigation ∷ baseline_failed ∷ infrastructure_failed ∷ cancelled ∷ []
allowed_transitions _ = []

-- `false` is the thrown `RepairRunTransitionError`.
unfoldable pub validate_transition : RunState → RunState → Bool
validate_transition before after =
    any (λ s. eqb (state_code s) (state_code after)) (allowed_transitions before)

pub data BaselineOutcome : Type 0 where
  baseline_passed baseline_failed installation_failed typecheck_failed build_failed :
      BaselineOutcome
  test_failed timed_out cancelled infrastructure_failed cleanup_failed : BaselineOutcome

unfoldable pub classify_baseline_outcome : BaselineOutcome → RunState
classify_baseline_outcome baseline_passed = ready_for_investigation
classify_baseline_outcome BaselineOutcome.baseline_failed = ready_for_investigation
classify_baseline_outcome typecheck_failed = ready_for_investigation
classify_baseline_outcome build_failed = ready_for_investigation
classify_baseline_outcome test_failed = ready_for_investigation
classify_baseline_outcome BaselineOutcome.cancelled = RunState.cancelled
classify_baseline_outcome installation_failed = RunState.infrastructure_failed
classify_baseline_outcome timed_out = RunState.infrastructure_failed
classify_baseline_outcome BaselineOutcome.infrastructure_failed = RunState.infrastructure_failed
classify_baseline_outcome cleanup_failed = RunState.infrastructure_failed
