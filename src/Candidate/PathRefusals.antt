-- ===== src/Candidate/PathRefusals.antt =====
-- The refusals of `candidatePath` and of an operation in lib/repair-candidates/policy.ts.
use mathlib.Core.Path.{subst}
use vigilo.Prelude.{
  ℕ, ◌≡◌, ◌≢◌, refl, ap, ◌∙◌, inl, inr, false, List, codes, contains, if-eq, ==→≢, not-eq-true,
  not-eq-false, ==→≡, ◌==◌, nat_eq, list_eq,
}
use vigilo.Prelude.Checks.{
  ◌>>◌, refuse_if, Checked, refused, passed, passed-injective, refused-injective, bind-eq-passed,
  bind-eq-refused, refuse_if-eq-refused, refuse_if-eq-passed,
}
use vigilo.Candidate.Context.{
  Host, Field, missing, null_value, other_value, text, bytes, ContextPolicyError,
  normalize_context_path,
}
use vigilo.Candidate.Rules.{
  CandidatePolicyError, CandidateOperation, add, modify, delete, denied_path, invalid_path,
  malformed_proposal, unsupported_file_type, context_path, candidate_path, base_name,
  protected_names, is_candidate_denied, binary_extensions, operation_of,
}
use vigilo.Candidate.Paths.{normalize-same, context_path-eq-passed}
use vigilo.Candidate.Causes.{
  IsUnsafe, IsPathCause, unsafe, not_composed, manifest, denied, binary_name, Adds, Modifies,
  Deletes,
}

text-injective : {a b : List ℕ} → text a ≡ text b → a ≡ b
text-injective h = cc

-- The text that stands for an operation.
abbrev pub IsNamed : CandidateOperation → Field → Type 0
IsNamed add value = Adds value
IsNamed modify value = Modifies value
IsNamed delete value = Deletes value

module _ (host : Host) where
  normalize-IsUnsafe :
      (value : Field) {reason : ContextPolicyError}
      → normalize_context_path host value ≡ refused reason
      → IsUnsafe host value
  unfolding normalize_context_path
  normalize-IsUnsafe missing h = tt
  normalize-IsUnsafe null_value h = tt
  normalize-IsUnsafe other_value h = tt
  normalize-IsUnsafe (bytes bs) h = tt
  normalize-IsUnsafe (text path) h = elim (refuse_if-eq-refused _ _ _ h) [
    | inl (bad, _) ↦ inl bad
    | inr (_, h₁) ↦ elim (refuse_if-eq-refused _ _ _ h₁) [
      | inl (bad, _) ↦ inr bad
      | inr (_, h₂) ↦ absurd (no_end h₂)
    ]
  ]
    where
      no_end : {p : List ℕ} {r : ContextPolicyError} → ¬ (Checked.passed p ≡ refused r)
      no_end e = cc

  context_path-eq-refused :
      (c : Checked ContextPolicyError (List ℕ)) {code : CandidatePolicyError}
      → context_path c ≡ refused code
      → (reason : ContextPolicyError) × (c ≡ refused reason) × (invalid_path ≡ code)
  unfolding context_path
  context_path-eq-refused (refused reason) h = (reason, refl, refused-injective h)
  context_path-eq-refused (passed path) h = cc

  pub candidate_path-IsPathCause :
      (value : Field) {code : CandidatePolicyError}
      → candidate_path host value ≡ refused code
      → IsPathCause host value code
  unfolding candidate_path
  candidate_path-IsPathCause value {code} h = elim (bind-eq-refused _ _ h) [
    | inl e ↦
        let (_, bad, same) = context_path-eq-refused _ e in
        subst (IsPathCause host value) same (unsafe (normalize-IsUnsafe value bad))
    | inr (path, e, h₁) ↦
        let (given, _) = normalize-same host value (context_path-eq-passed host _ e) in
        elim (refuse_if-eq-refused _ _ _ h₁) [
          | inl (b, same) ↦
              subst (IsPathCause host value) same
                (not_composed path given (==→≢ path _ (not-eq-true _ b)))
          | inr (b, h₂) ↦
              let composed : path ≡ host.nfc path = ==→≡ path _ (not-eq-false _ b) in
              elim (refuse_if-eq-refused _ _ _ h₂) [
                | inl (bad, same) ↦
                    subst (IsPathCause host value) same (manifest path given composed bad)
                | inr (ordinary, h₃) ↦ named path given ordinary h₃
              ]
        ]
  ]
    where
      named :
          (path : List ℕ)
          → value ≡ text path
          → contains protected_names (base_name host path) ≡ false
          → (refuse_if (is_candidate_denied host path) denied_path
              >> (refuse_if
                    (contains binary_extensions (host.extname (base_name host path)))
                    unsupported_file_type
                  >> passed path))
            ≡ refused code
          → IsPathCause host value code
      named path given ordinary h = elim (refuse_if-eq-refused _ _ _ h) [
        | inl (bad, same) ↦ subst (IsPathCause host value) same (denied path given ordinary bad)
        | inr (allowed, h₁) ↦ elim (refuse_if-eq-refused _ _ _ h₁) [
          | inl (bad, same) ↦
              subst (IsPathCause host value) same (binary_name path given allowed bad)
          | inr (_, h₂) ↦ cc
        ]
      ]

  pub operation_of-eq-refused :
      (value : Field) {code : CandidatePolicyError}
      → operation_of value ≡ refused code
      → (malformed_proposal ≡ code) × ((¬ Adds value) × (¬ Modifies value) × (¬ Deletes value))
  unfolding operation_of
  operation_of-eq-refused missing h = (refused-injective h, ((λ e. cc), (λ e. cc), (λ e. cc)))
  operation_of-eq-refused null_value h = (refused-injective h, ((λ e. cc), (λ e. cc), (λ e. cc)))
  operation_of-eq-refused other_value h = (refused-injective h, ((λ e. cc), (λ e. cc), (λ e. cc)))
  operation_of-eq-refused (bytes bs) h = (refused-injective h, ((λ e. cc), (λ e. cc), (λ e. cc)))
  operation_of-eq-refused (text name) h = elim (if-eq (name == codes "add") (passed add) _ h) [
    | inl (_, e) ↦ cc
    | inr (no_add, h₁) ↦ elim (if-eq (name == codes "modify") (passed modify) _ h₁) [
      | inl (_, e) ↦ cc
      | inr (no_modify, h₂) ↦ elim (if-eq (name == codes "delete") (passed delete) _ h₂) [
        | inl (_, e) ↦ cc
        | inr (no_delete, h₃) ↦ (
          refused-injective h₃,
          (
            differs (codes "add") no_add,
            differs (codes "modify") no_modify,
            differs (codes "delete") no_delete,
          ),
        )
      ]
    ]
  ]
    where
      differs : (other : List ℕ) → (name == other) ≡ false → text name ≢ text other
      differs other b e = ==→≢ name other b (text-injective e)

  pub operation_of-eq-passed :
      (value : Field) (operation : CandidateOperation)
      → operation_of value ≡ passed operation
      → IsNamed operation value
  unfolding operation_of
  operation_of-eq-passed missing operation h = cc
  operation_of-eq-passed null_value operation h = cc
  operation_of-eq-passed other_value operation h = cc
  operation_of-eq-passed (bytes bs) operation h = cc
  operation_of-eq-passed (text name) operation h =
      elim (if-eq (name == codes "add") (passed add) _ h) [
        | inl (b, e) ↦
            subst (λ o. IsNamed o (text name)) (passed-injective e) (ap text (==→≡ name _ b))
        | inr (_, h₁) ↦ elim (if-eq (name == codes "modify") (passed modify) _ h₁) [
          | inl (b, e) ↦
              subst (λ o. IsNamed o (text name)) (passed-injective e) (ap text (==→≡ name _ b))
          | inr (_, h₂) ↦ elim (if-eq (name == codes "delete") (passed delete) _ h₂) [
            | inl (b, e) ↦
                subst (λ o. IsNamed o (text name)) (passed-injective e) (ap text (==→≡ name _ b))
            | inr (_, h₃) ↦ cc
          ]
        ]
      ]

  pub candidate_path-given :
      (value : Field) {path : List ℕ} → candidate_path host value ≡ passed path → value ≡ text path
  unfolding candidate_path
  candidate_path-given value h =
      let (mid, normal, h₁) = bind-eq-passed _ _ h in
      let (_, h₂) = refuse_if-eq-passed _ _ _ h₁ in
      let (_, h₃) = refuse_if-eq-passed _ _ _ h₂ in
      let (_, h₄) = refuse_if-eq-passed _ _ _ h₃ in
      let (_, h₅) = refuse_if-eq-passed _ _ _ h₄ in
      let (given, _) = normalize-same host value (context_path-eq-passed host _ normal) in
      given ∙ ap text (passed-injective h₅)
