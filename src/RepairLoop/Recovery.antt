-- ===== src/RepairLoop/Recovery.antt =====
-- The end and the length of a repair loop of lib/repair-loops.
use vigilo.Prelude.{
  ℕ, ◌+◌, ◌≤◌, ◌<◌, ◌≡◌, ◌≢◌, refl, ap, ◌∙◌, arith, inl, inr, Bool, true, false, not, List, [], ◌∷◌,
  Option, String, Memᴰ, if-eq, or-eq-false, not-eq-false, ltb, length, ltb→lt, mem-keep_of,
  Bool-cases, eqb,
}
use vigilo.RepairLoop.Objective.{
  Check, typecheck, build, test, Evidence, satisfied, not_measured, Baseline, Profile, Contract,
  VerificationEvidence, Binding, failed_phase, passed_phase, baseline_is_trustworthy, is_required,
  required_of, has_script, derive_baseline_recovery_contract, is_trustworthy, evaluate_checks,
  is_unmeasurable, evaluate_baseline_recovery, checks, evaluated, is_other,
}
use vigilo.RepairLoop.Decision.{
  LoopState, Disposition, trustworthy, integrity_failure, infrastructure_failure, try_again,
  decide_repair_loop_outcome,
}

evaluate_checks-satisfied :
    (e : VerificationEvidence) (any_failed : Bool) (cs : List Check)
    → evaluate_checks e any_failed cs ≡ satisfied
    → (any_failed ≡ false) × ((c : Check) → Memᴰ c cs → passed_phase (e.phase c) ≡ true)
unfolding evaluate_checks
evaluate_checks-satisfied e true [] h = cc
evaluate_checks-satisfied e false [] h = (refl, λ c m. elim m [ ])
evaluate_checks-satisfied e any_failed (c ∷ cs) h = elim (if-eq (passed_phase (e.phase c)) _ _ h) [
  | inl (passes, g) ↦
      let (none_yet, rest) = evaluate_checks-satisfied e any_failed cs g in
      (none_yet, λ d m. in_cons passes rest d m)
  | inr (_, g) ↦ elim (if-eq (failed_phase (e.phase c)) _ not_measured g) [
    | inl (_, f) ↦ absurd (clash (evaluate_checks-satisfied e true cs f).0)
    | inr (_, f) ↦ cc
  ]
]
  where
    clash : ¬ (◌≡◌ {A = Bool} true false)
    clash h = cc

    in_cons :
        passed_phase (e.phase c) ≡ true
        → ((d : Check) → Memᴰ d cs → passed_phase (e.phase d) ≡ true)
        → (d : Check) → Memᴰ d (c ∷ cs)
        → passed_phase (e.phase d) ≡ true
    in_cons passes rest d (Memᴰ.head q) = ap (λ x. passed_phase (e.phase x)) q ∙ passes
    in_cons passes rest d (Memᴰ.tail m) = rest d m

evaluate-satisfied :
    (c : Contract) (e : VerificationEvidence) (exact : Option Binding)
    → (evaluate_baseline_recovery c e exact).0 ≡ satisfied
    → (is_unmeasurable c e exact ≡ false) × (evaluate_checks e false c.required_checks ≡ satisfied)
unfolding evaluate_baseline_recovery
evaluate-satisfied c e exact h = elim (Bool-cases (is_unmeasurable c e exact)) [
  | inl f ↦ absurd (clash (rw f at h))
  | inr f ↦ (f, found (evaluate_checks e false c.required_checks) (rw f at h))
]
  where
    clash : not_measured ≢ satisfied
    clash h = cc

    found : (result : Evidence) → (evaluated c result).0 ≡ satisfied → result ≡ satisfied
    found satisfied h = refl
    found Evidence.failed h = h
    found not_measured h = h

mem-checks : (c : Check) → Memᴰ c checks
mem-checks typecheck = Memᴰ.head refl
mem-checks build = Memᴰ.tail (Memᴰ.head refl)
mem-checks test = Memᴰ.tail (Memᴰ.tail (Memᴰ.head refl))

decide-verified :
    (n most : ℕ) (d : Disposition) (evidence : Evidence) (regression : Bool)
    → (decide_repair_loop_outcome n most d evidence regression).loop_state ≡ LoopState.verified
    → (d ≡ trustworthy) × (evidence ≡ satisfied) × (regression ≡ false)
unfolding decide_repair_loop_outcome try_again
decide-verified n most integrity_failure evidence regression h = cc
decide-verified n most infrastructure_failure evidence regression h = cc
decide-verified n most trustworthy not_measured regression h = cc
decide-verified n most trustworthy satisfied false h = (refl, refl, refl)
decide-verified n most trustworthy satisfied true h = elim (if-eq (ltb n most) _ _ h) [
  | inl (_, g) ↦ cc
  | inr (_, g) ↦ cc
]
decide-verified n most trustworthy Evidence.failed regression h = elim (if-eq (ltb n most) _ _ h) [
  | inl (_, g) ↦ cc
  | inr (_, g) ↦ cc
]

-- When the outcome of an iteration is that its loop is verified, its evidence evaluated against the
-- contract that is derived from a baseline, then no regression is reported, the evidence is
-- trustworthy for that contract, the baseline is trustworthy, and every check that failed in the
-- baseline and whose script the profile has is passed in the evidence.
pub verified-recovers :
    (run : String) (b : Baseline) (p : Profile) (e : VerificationEvidence) (exact : Option Binding)
    (n most : ℕ) (d : Disposition) (regression : Bool)
    → (decide_repair_loop_outcome n most d
        (evaluate_baseline_recovery (derive_baseline_recovery_contract run b p) e exact).0
        regression).loop_state
      ≡ LoopState.verified
    → (regression ≡ false)
      × (is_trustworthy (derive_baseline_recovery_contract run b p) e ≡ true)
      × (baseline_is_trustworthy b p ≡ true)
      × ((c : Check)
          → has_script p c ≡ true
          → failed_phase (b.phase c) ≡ true
          → passed_phase (e.phase c) ≡ true)
unfolding derive_baseline_recovery_contract is_unmeasurable required_of is_required
verified-recovers run b p e exact n most d regression h =
    let contract = derive_baseline_recovery_contract run b p in
    let (_, is_satisfied, no_regression) = decide-verified n most d _ regression h in
    let (measurable, all_passed) = evaluate-satisfied contract e exact is_satisfied in
    let (h₁, _) = or-eq-false _ (is_other e exact) measurable in
    let (h₂, trusted) = or-eq-false _ (not (is_trustworthy contract e)) h₁ in
    let (_, nonempty) =
      or-eq-false (not contract.measurable) (eqb (length contract.required_checks) 0) h₂ in
    let (_, passes) = evaluate_checks-satisfied e false contract.required_checks all_passed in
    elim (Bool-cases (baseline_is_trustworthy b p)) [
      | inl trusty ↦ (
        no_regression,
        not-eq-false _ trusted,
        trusty,
        λ c has fails. passes c (
            rw trusty
              (mem-keep_of (is_required b p) checks (mem-checks c) (ground (arith, has, fails)))),
      )
      | inr untrusty ↦ absurd (clash (rw untrusty at nonempty))
    ]
  where
    clash : eqb 0 0 ≢ false
    clash h = cc

-- The iterations of a loop, each scheduled by the one before it.
pub data Scheduled (most : ℕ) : ℕ → Type 0 where
  first : Scheduled most 1
  again :
      (n : ℕ) (d : Disposition) (evidence : Evidence) (regression : Bool)
      → Scheduled most n
      → (decide_repair_loop_outcome n most d evidence regression).schedule_next ≡ true
      → Scheduled most (n + 1)

decide-schedules :
    (n most : ℕ) (d : Disposition) (evidence : Evidence) (regression : Bool)
    → (decide_repair_loop_outcome n most d evidence regression).schedule_next ≡ true
    → n < most
unfolding decide_repair_loop_outcome try_again
decide-schedules n most integrity_failure evidence regression h = cc
decide-schedules n most infrastructure_failure evidence regression h = cc
decide-schedules n most trustworthy not_measured regression h = cc
decide-schedules n most trustworthy satisfied false h = cc
decide-schedules n most trustworthy satisfied true h = ltb→lt n most h
decide-schedules n most trustworthy Evidence.failed regression h = ltb→lt n most h

-- A loop that may have at least one iteration never schedules one beyond its maximum, whatever its
-- iterations find.
pub Scheduled-bound : (most n : ℕ) → 1 ≤ most → Scheduled most n → n ≤ most
Scheduled-bound most _ h first = h
Scheduled-bound most _ h (again n d evidence regression s e) =
    omega (arith, decide-schedules n most d evidence regression e)
