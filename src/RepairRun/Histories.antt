-- ===== src/RepairRun/Histories.antt =====
-- The transitions that lib/repair-runs/state-machine.ts accepts one after another.
use vigilo.Prelude.{ℕ, ◌+◌, ◌≤◌, ◌≡◌, arith, refl, true, false}
use vigilo.RepairRun.Machine.{
  RunState, created, baseline_running, ready_for_investigation, allowed_transitions,
  validate_transition, BaselineOutcome, baseline_passed, installation_failed, typecheck_failed,
  build_failed, test_failed, timed_out, cleanup_failed, classify_baseline_outcome,
}

-- The states that a number of transitions lead to from `created`, each of which `validateTransition`
-- accepts.
pub data Accepted : ℕ → RunState → Type 0 where
  new : Accepted 0 created
  transition :
      (before after : RunState) {n : ℕ}
      → Accepted n before
      → validate_transition before after ≡ true
      → Accepted (n + 1) after

-- How many transitions a state can have behind it.
abbrev depth : RunState → ℕ
depth created = 0
depth baseline_running = 1
depth _ = 2

transition-depth :
    (before after : RunState)
    → validate_transition before after ≡ true
    → depth before + 1 ≤ depth after
unfolding validate_transition allowed_transitions
transition-depth created created h = cc
transition-depth created baseline_running h = omega arith
transition-depth created ready_for_investigation h = cc
transition-depth created RunState.baseline_failed h = cc
transition-depth created RunState.infrastructure_failed h = cc
transition-depth created RunState.cancelled h = omega arith
transition-depth baseline_running created h = cc
transition-depth baseline_running baseline_running h = cc
transition-depth baseline_running ready_for_investigation h = omega arith
transition-depth baseline_running RunState.baseline_failed h = omega arith
transition-depth baseline_running RunState.infrastructure_failed h = omega arith
transition-depth baseline_running RunState.cancelled h = omega arith
transition-depth ready_for_investigation after h = cc
transition-depth RunState.baseline_failed after h = cc
transition-depth RunState.infrastructure_failed after h = cc
transition-depth RunState.cancelled after h = cc

Accepted-depth : {n : ℕ} {s : RunState} → Accepted n s → n ≤ depth s
Accepted-depth new = omega arith
Accepted-depth (transition before after v h) =
    omega (arith, Accepted-depth v, transition-depth before after h)

-- From `created`, `validateTransition` accepts at most two transitions in a row, whatever states they
-- lead to.
pub Accepted-bound : {n : ℕ} {s : RunState} → Accepted n s → n ≤ 2
Accepted-bound {s = created} v = omega (arith, Accepted-depth v)
Accepted-bound {s = baseline_running} v = omega (arith, Accepted-depth v)
Accepted-bound {s = ready_for_investigation} v = Accepted-depth v
Accepted-bound {s = RunState.baseline_failed} v = Accepted-depth v
Accepted-bound {s = RunState.infrastructure_failed} v = Accepted-depth v
Accepted-bound {s = RunState.cancelled} v = Accepted-depth v

-- The state of every baseline outcome is accepted from `baseline_running`, and from it nothing else
-- is accepted.
pub classify-terminal :
    (outcome : BaselineOutcome) (after : RunState)
    → (validate_transition baseline_running (classify_baseline_outcome outcome) ≡ true)
      × (validate_transition (classify_baseline_outcome outcome) after ≡ false)
unfolding validate_transition allowed_transitions classify_baseline_outcome
classify-terminal baseline_passed after = (refl, refl)
classify-terminal BaselineOutcome.baseline_failed after = (refl, refl)
classify-terminal typecheck_failed after = (refl, refl)
classify-terminal build_failed after = (refl, refl)
classify-terminal test_failed after = (refl, refl)
classify-terminal BaselineOutcome.cancelled after = (refl, refl)
classify-terminal installation_failed after = (refl, refl)
classify-terminal timed_out after = (refl, refl)
classify-terminal BaselineOutcome.infrastructure_failed after = (refl, refl)
classify-terminal cleanup_failed after = (refl, refl)
