-- ===== src/RepairLoop/Objective.antt =====
-- The recovery contract of lib/repair-loops/objective-contract.ts. The three fields of a phase
-- (status, exit code, timeout) are a record. The canonical text and hash of a contract are left out.
use vigilo.Prelude.{
  ℕ, Bool, true, false, not, ◌&&◌, ◌||◌, List, [], ◌∷◌, Option, none, some, String, eqb, ltb,
  if◌then◌else◌, length, keep, contains, is_some, ◌==◌, nat_eq, string_eq, option_eq,
}

pub data Check : Type 0 where
  typecheck build test : Check

pub data Evidence : Type 0 where
  satisfied failed not_measured : Evidence

pub record PhaseFacts : Type 0 where
  pub status : Option String
  pub exit_code : Option ℕ
  pub timed_out : Option Bool

pub record Baseline : Type 0 where
  pub id : String
  pub workspace_id : String
  pub github_repository_id : ℕ
  pub installation_id : ℕ
  pub evidence_version : ℕ
  pub profile_identity : String
  pub base_commit_sha : String
  pub source_identity_before : Option String
  pub source_identity_after : Option String
  pub source_unchanged : Option Bool
  pub credentials_exposure : String
  pub network_policy : String
  pub install : PhaseFacts
  pub phase : Check → PhaseFacts
  pub execution_outcome : String
  pub overall_outcome : String
  pub cleanup_stop : String
  pub cleanup_delete : String
  pub cleanup_lookup : String

pub record Profile : Type 0 where
  pub workspace_id : String
  pub github_repository_id : ℕ
  pub installation_id : ℕ
  pub profile_identity : Option String
  pub base_commit_sha : String
  pub status : String
  pub typecheck_script : Option String
  pub build_script : Option String
  pub test_script : Option String

pub record Contract : Type 0 where
  pub repair_run_id : String
  pub workspace_id : String
  pub github_repository_id : ℕ
  pub installation_id : ℕ
  pub baseline_id : String
  pub profile_identity : String
  pub base_commit_sha : String
  pub required_checks : List Check
  pub baseline_failures : List (Check × PhaseFacts)
  pub measurable : Bool

pub record VerificationEvidence : Type 0 where
  pub id : String
  pub verification_id : String
  pub candidate_id : String
  pub candidate_identity : String
  pub workspace_id : String
  pub github_repository_id : ℕ
  pub installation_id : ℕ
  pub baseline_id : String
  pub profile_identity : String
  pub base_commit_sha : String
  pub evidence_version : ℕ
  pub candidate_artifact_integrity : String
  pub distinct_sandbox_confirmed : Bool
  pub pristine_base_integrity : String
  pub candidate_reconstruction : String
  pub credentials_exposure : String
  pub network_policy : String
  pub install : PhaseFacts
  pub phase : Check → PhaseFacts
  pub reconstructed_source_identity : Option String
  pub source_identity_after : Option String
  pub source_integrity_unchanged : Option Bool
  pub cleanup_stop : String
  pub cleanup_delete : String
  pub cleanup_lookup : String
  pub verification_contract : String

pub record Binding : Type 0 where
  pub verification_id : String
  pub candidate_id : String
  pub candidate_identity : String
  pub evidence_id : String

abbrev is_yes : Option Bool → Bool
is_yes (some true) = true
is_yes _ = false

abbrev is_no : Option Bool → Bool
is_no (some false) = true
is_no _ = false

abbrev is_nonzero : Option ℕ → Bool
is_nonzero none = false
is_nonzero (some n) = not (eqb n 0)

unfoldable pub failed_phase : PhaseFacts → Bool
failed_phase f = f.status == some "failed" && is_nonzero f.exit_code && is_no f.timed_out

-- `status === 'completed' && exitCode === 0 && timedOut === false`
unfoldable pub passed_phase : PhaseFacts → Bool
passed_phase f = f.status == some "completed" && f.exit_code == some 0 && is_no f.timed_out

abbrev customer_failures : List String
customer_failures = "baseline_failed" ∷ "typecheck_failed" ∷ "build_failed" ∷ "test_failed" ∷ []

-- Isolation, installation and cleanup, which a baseline and a verification share.
abbrev is_isolated : String → String → PhaseFacts → String → String → String → Bool
is_isolated exposure policy install stop delete lookup =
    exposure == "absent"
    && policy == "deny-all"
    && install.status == some "completed"
    && install.exit_code == some 0
    && is_no install.timed_out
    && stop == "confirmed"
    && delete == "confirmed"
    && lookup == "absent"

unfoldable pub baseline_is_trustworthy : Baseline → Profile → Bool
baseline_is_trustworthy b p =
    eqb b.evidence_version 1
    && contains customer_failures b.overall_outcome
    && b.execution_outcome == b.overall_outcome
    && b.workspace_id == p.workspace_id
    && eqb b.github_repository_id p.github_repository_id
    && eqb b.installation_id p.installation_id
    && some b.profile_identity == p.profile_identity
    && b.base_commit_sha == p.base_commit_sha
    && p.status == "ready"
    && p.test_script == some "test"
    && is_some b.source_identity_before
    && b.source_identity_before == b.source_identity_after
    && is_yes b.source_unchanged
    && is_isolated b.credentials_exposure b.network_policy b.install b.cleanup_stop b.cleanup_delete
        b.cleanup_lookup

-- Has the profile the script of a check?
unfoldable pub has_script : Profile → Check → Bool
has_script p typecheck = p.typecheck_script == some "typecheck"
has_script p build = p.build_script == some "build"
has_script p test = p.test_script == some "test"

abbrev pub checks : List Check
checks = typecheck ∷ build ∷ test ∷ []

unfoldable pub is_required : Baseline → Profile → Check → Bool
is_required b p c = has_script p c && failed_phase (b.phase c)

unfoldable pub required_of : Baseline → Profile → List Check
required_of b p = if baseline_is_trustworthy b p then keep (is_required b p) checks else []

abbrev with_facts : Baseline → List Check → List (Check × PhaseFacts)
with_facts b [] = []
with_facts b (c ∷ cs) = (c, b.phase c) ∷ with_facts b cs

unfoldable pub derive_baseline_recovery_contract : String → Baseline → Profile → Contract
derive_baseline_recovery_contract run b p = record {
  repair_run_id = run;
  workspace_id = b.workspace_id;
  github_repository_id = b.github_repository_id;
  installation_id = b.installation_id;
  baseline_id = b.id;
  profile_identity = b.profile_identity;
  base_commit_sha = b.base_commit_sha;
  required_checks = required_of b p;
  baseline_failures = with_facts b (required_of b p);
  measurable = ltb 0 (length (required_of b p));
}

unfoldable pub is_trustworthy : Contract → VerificationEvidence → Bool
is_trustworthy c e =
    eqb e.evidence_version 1
    && e.workspace_id == c.workspace_id
    && eqb e.github_repository_id c.github_repository_id
    && eqb e.installation_id c.installation_id
    && e.baseline_id == c.baseline_id
    && e.profile_identity == c.profile_identity
    && e.base_commit_sha == c.base_commit_sha
    && e.candidate_artifact_integrity == "valid"
    && e.distinct_sandbox_confirmed
    && e.pristine_base_integrity == "valid"
    && e.candidate_reconstruction == "valid"
    && is_some e.reconstructed_source_identity
    && e.reconstructed_source_identity == e.source_identity_after
    && is_yes e.source_integrity_unchanged
    && is_isolated e.credentials_exposure e.network_policy e.install e.cleanup_stop e.cleanup_delete
        e.cleanup_lookup
    && contains ("checks_passed" ∷ "checks_failed" ∷ []) e.verification_contract

abbrev pub is_other : VerificationEvidence → Option Binding → Bool
is_other e none = false
is_other e (some b) =
    not (e.verification_id == b.verification_id)
    || not (e.candidate_id == b.candidate_id)
    || not (e.candidate_identity == b.candidate_identity)
    || not (e.id == b.evidence_id)

-- The loop over the required checks, with `failed` so far.
unfoldable pub evaluate_checks : VerificationEvidence → Bool → List Check → Evidence
evaluate_checks e any_failed [] = if any_failed then failed else satisfied
evaluate_checks e any_failed (c ∷ cs) =
    let as_it_is = evaluate_checks e any_failed cs in
    let with_failure = evaluate_checks e true cs in
    if passed_phase (e.phase c)
    then as_it_is
    else if failed_phase (e.phase c)
    then with_failure
    else not_measured

unfoldable pub is_unmeasurable : Contract → VerificationEvidence → Option Binding → Bool
is_unmeasurable c e exact =
    not c.measurable
    || eqb (length c.required_checks) 0
    || not (is_trustworthy c e)
    || is_other e exact

abbrev pub evaluated : Contract → Evidence → Evidence × List Check
evaluated c not_measured = (not_measured, [])
evaluated c result = (result, c.required_checks)

unfoldable pub evaluate_baseline_recovery :
    Contract → VerificationEvidence → Option Binding → Evidence × List Check
evaluate_baseline_recovery c e exact =
    if is_unmeasurable c e exact
    then (not_measured, [])
    else evaluated c (evaluate_checks e false c.required_checks)
