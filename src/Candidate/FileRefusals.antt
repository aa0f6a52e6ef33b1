-- ===== src/Candidate/FileRefusals.antt =====
-- The refusals of one file in lib/repair-candidates/policy.ts.
use mathlib.Core.Path.{subst}
use vigilo.Prelude.{
  ℕ, ◌<◌, ◌≡◌, ◌≢◌, ◌⊎◌, refl, sym, ap, ◌∙◌, inl, inr, true, false, not, List, Option, any, all,
  length, is_hex, ltb, eqb, or-eq-true, ==→≢, not-eq-true, ltb→lt, ◌==◌, nat_eq, list_eq, arith,
}
use vigilo.Prelude.Checks.{
  refused, passed, passed-injective, refused-injective, bind-eq-refused, refuse_if-eq-refused,
  refuse_if-eq-passed,
}
use vigilo.Candidate.Context.{Host, Field, missing, null_value, other_value, text, bytes}
use vigilo.Candidate.Rules.{
  CandidatePolicyError, CandidateOperation, add, modify, delete, malformed_proposal, decode_text,
  no_base, sha_base, base_of, is_binary, max_file_bytes,
}
use vigilo.Candidate.Proposal.{RawFile, is_null, write_result, result_of, normalize_file}
use vigilo.Candidate.Causes.{
  Adds, Modifies, IsNoSha, IsFileCause, not_object, wrong_keys, no_operation, bad_path, repeated,
  added_base, no_sha, no_content, size, not_text, over_total, deleted_content,
}
use vigilo.Candidate.PathRefusals.{
  IsNamed, operation_of-eq-refused, operation_of-eq-passed, candidate_path-given,
  candidate_path-IsPathCause,
}

is_null-eq-false : (value : Field) → is_null value ≡ false → value ≢ null_value
is_null-eq-false value h e = let there : is_null value ≡ true = ap is_null e in cc

module _ (host : Host) where
  no_base-eq-refused :
      (value : Field) {code : CandidatePolicyError}
      → no_base value ≡ refused code
      → (malformed_proposal ≡ code) × (value ≢ null_value)
  unfolding no_base
  no_base-eq-refused null_value h = cc
  no_base-eq-refused missing h = (refused-injective h, λ e. cc)
  no_base-eq-refused other_value h = (refused-injective h, λ e. cc)
  no_base-eq-refused (text t) h = (refused-injective h, λ e. cc)
  no_base-eq-refused (bytes bs) h = (refused-injective h, λ e. cc)

  sha_base-eq-refused :
      (value : Field) {code : CandidatePolicyError}
      → sha_base value ≡ refused code
      → (malformed_proposal ≡ code) × IsNoSha value
  unfolding sha_base
  sha_base-eq-refused null_value h = (refused-injective h, tt)
  sha_base-eq-refused missing h = (refused-injective h, tt)
  sha_base-eq-refused other_value h = (refused-injective h, tt)
  sha_base-eq-refused (bytes bs) h = (refused-injective h, tt)
  sha_base-eq-refused (text sha) h = elim (refuse_if-eq-refused _ _ _ h) [
    | inl (bad, same) ↦ (same, wrong (or-eq-true _ _ bad))
    | inr (_, e) ↦ cc
  ]
    where
      wrong :
          (not (eqb (length sha) 40) ≡ true) ⊎ (not (all is_hex sha) ≡ true) → IsNoSha (text sha)
      wrong (inl b) = inl (==→≢ (length sha) 40 (not-eq-true _ b))
      wrong (inr b) = inr (not-eq-true _ b)

  decode_text-given :
      (value : Field) {bs decoded : List ℕ}
      → decode_text host value ≡ passed (bs, decoded)
      → value ≡ bytes bs
  unfolding decode_text
  decode_text-given missing h = cc
  decode_text-given null_value h = cc
  decode_text-given other_value h = cc
  decode_text-given (text t) h = cc
  decode_text-given (bytes given) h =
      let (_, h₁) = refuse_if-eq-passed _ _ _ h in
      let (_, h₂) = refuse_if-eq-passed _ _ _ h₁ in ap (λ x. bytes x.0) (passed-injective h₂)

  module _ (seen : List (List ℕ)) (total : ℕ) (b o p c : Field) (others : ℕ) where
    abbrev Cause : CandidatePolicyError → Type 0
    Cause = IsFileCause host seen total (RawFile.an_object b o p c others)

    base-Cause :
        (operation : CandidateOperation) {code : CandidatePolicyError}
        → IsNamed operation o
        → base_of operation b ≡ refused code
        → Cause code
    unfolding base_of
    base-Cause add named h =
        let (same, some_base) = no_base-eq-refused b h in
        subst Cause same (added_base named some_base)
    base-Cause modify named h =
        let (same, bad) = sha_base-eq-refused b h in subst Cause same (no_sha (inl named) bad)
    base-Cause delete named h =
        let (same, bad) = sha_base-eq-refused b h in subst Cause same (no_sha (inr named) bad)

    decode_text-Cause :
        (content : Field) {code : CandidatePolicyError}
        → Adds o ⊎ Modifies o
        → c ≡ content
        → decode_text host content ≡ refused code
        → Cause code
    unfolding decode_text
    decode_text-Cause missing w is h =
        subst Cause (refused-injective h) (no_content w λ bs e. let clash = sym is ∙ e in cc)
    decode_text-Cause null_value w is h =
        subst Cause (refused-injective h) (no_content w λ bs e. let clash = sym is ∙ e in cc)
    decode_text-Cause other_value w is h =
        subst Cause (refused-injective h) (no_content w λ bs e. let clash = sym is ∙ e in cc)
    decode_text-Cause (text t) w is h =
        subst Cause (refused-injective h) (no_content w λ bs e. let clash = sym is ∙ e in cc)
    decode_text-Cause (bytes bs) w is h = elim (refuse_if-eq-refused _ _ _ h) [
      | inl (bad, same) ↦ subst Cause same (size bs w is (sized (or-eq-true _ _ bad)))
      | inr (_, h₁) ↦ elim (refuse_if-eq-refused _ _ _ h₁) [
        | inl (bad, same) ↦ subst Cause same (not_text bs w is (garbled (or-eq-true _ _ bad)))
        | inr (_, e) ↦ cc
      ]
    ]
      where
        sized :
            (ltb (length bs) 1 ≡ true) ⊎ (ltb max_file_bytes (length bs) ≡ true)
            → (length bs ≡ 0) ⊎ (max_file_bytes < length bs)
        sized (inl few) = inl (ground arith)
        sized (inr many) = inr (ltb→lt _ _ many)

        garbled :
            (not (host.encode (host.decode bs) == bs) ≡ true)
              ⊎ (any is_binary (host.decode bs) ≡ true)
            → (host.encode (host.decode bs) ≢ bs) ⊎ (any is_binary (host.decode bs) ≡ true)
        garbled (inl b) = inl (==→≢ _ bs (not-eq-true _ b))
        garbled (inr b) = inr b

    write_result-Cause :
        (path : List ℕ) (operation : CandidateOperation) (base : Option (List ℕ))
        {code : CandidatePolicyError}
        → Adds o ⊎ Modifies o
        → write_result host total path operation base c ≡ refused code
        → Cause code
    unfolding write_result
    write_result-Cause path operation base w h = elim (bind-eq-refused _ _ h) [
      | inl e ↦ decode_text-Cause c w refl e
      | inr ((bs, decoded), found, h₁) ↦ elim (refuse_if-eq-refused _ _ _ h₁) [
        | inl (bad, same) ↦
            subst Cause same (over_total bs w (decode_text-given c found) (ltb→lt _ _ bad))
        | inr (_, e) ↦ cc
      ]
    ]

    result_of-Cause :
        (path : List ℕ) (operation : CandidateOperation) (base : Option (List ℕ))
        {code : CandidatePolicyError}
        → IsNamed operation o
        → result_of host total path operation base c ≡ refused code
        → Cause code
    unfolding result_of
    result_of-Cause path add base named h = write_result-Cause path add base (inl named) h
    result_of-Cause path modify base named h = write_result-Cause path modify base (inr named) h
    result_of-Cause path delete base named h = elim (refuse_if-eq-refused _ _ _ h) [
      | inl (bad, same) ↦
          subst Cause same (deleted_content named (is_null-eq-false c (not-eq-true _ bad)))
      | inr (_, e) ↦ cc
    ]

  pub normalize_file-IsFileCause :
      (seen : List (List ℕ)) (total : ℕ) (raw : RawFile) {code : CandidatePolicyError}
      → normalize_file host seen total raw ≡ refused code
      → IsFileCause host seen total raw code
  unfolding normalize_file
  normalize_file-IsFileCause seen total RawFile.no_object h =
      subst (IsFileCause host seen total RawFile.no_object) (refused-injective h) not_object
  normalize_file-IsFileCause seen total (RawFile.an_object b o p c others) {code} h =
      elim (refuse_if-eq-refused _ _ _ h) [
        | inl (bad, same) ↦ subst here same (wrong_keys bad)
        | inr (_, h₁) ↦ elim (bind-eq-refused _ _ h₁) [
          | inl e ↦
              let (same, unknown) = operation_of-eq-refused host o e in
              subst here same (no_operation unknown)
          | inr (operation, e, h₂) ↦ elim (bind-eq-refused _ _ h₂) [
            | inl e ↦ bad_path (candidate_path-IsPathCause host p e)
            | inr (file, at, h₃) ↦
                let named = operation_of-eq-passed host o operation e in
                elim (refuse_if-eq-refused _ _ _ h₃) [
                  | inl (bad, same) ↦
                      subst here same (repeated file (candidate_path-given host p at) bad)
                  | inr (_, h₄) ↦ elim (bind-eq-refused _ _ h₄) [
                    | inl e ↦ base-Cause seen total b o p c others operation named e
                    | inr (base, _, h₅) ↦
                        result_of-Cause seen total b o p c others file operation base named h₅
                  ]
                ]
          ]
        ]
      ]
    where
      here : CandidatePolicyError → Type 0
      here = IsFileCause host seen total (RawFile.an_object b o p c others)
