-- ===== src/RepairLoop/Decision.antt =====
-- `decideRepairLoopOutcome` of lib/repair-loops/decision.ts.
use vigilo.Prelude.{ℕ, Bool, true, false, ltb, if◌then◌else◌}
use vigilo.RepairLoop.Objective.{Evidence, satisfied, not_measured}

pub data LoopState : Type 0 where
  queued running verified abstained review_required failed limit_reached : LoopState

pub data IterationDecision : Type 0 where
  verified repairable_failure abstained generation_failed verification_non_repairable :
      IterationDecision
  infrastructure_failed evidence_invalid : IterationDecision

pub data Disposition : Type 0 where
  trustworthy integrity_failure infrastructure_failure : Disposition

pub record Outcome : Type 0 where
  pub iteration_decision : IterationDecision
  pub loop_state : LoopState
  pub schedule_next : Bool

abbrev ends : IterationDecision → LoopState → Outcome
ends decision state = record {
  iteration_decision = decision;
  loop_state = state;
  schedule_next = false;
}

-- A failure that another iteration may repair.
unfoldable pub try_again : ℕ → ℕ → Outcome
try_again iteration_ordinal max_iterations =
    let schedule_next = ltb iteration_ordinal max_iterations in
    record {
      iteration_decision = IterationDecision.repairable_failure;
      loop_state = if schedule_next then LoopState.running else LoopState.limit_reached;
      schedule_next = schedule_next;
    }

unfoldable pub decide_repair_loop_outcome : ℕ → ℕ → Disposition → Evidence → Bool → Outcome
decide_repair_loop_outcome n most integrity_failure evidence regression =
    ends IterationDecision.evidence_invalid LoopState.failed
decide_repair_loop_outcome n most infrastructure_failure evidence regression =
    ends IterationDecision.infrastructure_failed LoopState.failed
decide_repair_loop_outcome n most trustworthy not_measured regression =
    ends IterationDecision.verification_non_repairable LoopState.review_required
decide_repair_loop_outcome n most trustworthy satisfied false =
    ends IterationDecision.verified LoopState.verified
decide_repair_loop_outcome n most trustworthy satisfied true = try_again n most
decide_repair_loop_outcome n most trustworthy Evidence.failed regression = try_again n most
