-- ===== src/Candidate/Refusals.antt =====
-- The refusals of `normalizeCandidateProposal` of lib/repair-candidates/policy.ts.
use mathlib.Core.Path.{subst}
use vigilo.Prelude.{
  ℕ, ◌≡◌, ◌≢◌, refl, ap, ◌∙◌, inl, inr, Bool, true, List, [], ◌∷◌, Memᴰ, map, any, length, ltb,
  or-eq-true, not-eq-true, ==→≢, ltb→lt, nat_eq, list_eq, arith, suc,
}
use vigilo.Prelude.Checks.{
  refused, passed, refused-injective, passed-injective, bind-eq-refused, refuse_if-eq-refused,
  refuse_if-eq-passed, >>=-passed,
}
use vigilo.Candidate.Context.{Host, Field, missing, null_value, other_value, text, bytes}
use vigilo.Candidate.Rules.{CandidatePolicyError, paths_conflict, malformed_proposal}
use vigilo.Candidate.Proposal.{
  RawFile, RawFiles, no_array, an_array, RawProposal, ProposalFile, normalize_files, any_conflict,
  sort_files, uuid_of, files_of, normalize_candidate_proposal,
}
use vigilo.Candidate.Causes.{
  IsFirstRefused, IsNoUuid, IsProposalCause, not_object, other_keys, no_uuid, no_files, too_many,
  file, conflict,
}
use vigilo.Candidate.Files.{key}
use vigilo.Candidate.Accepted.{mem-sort}
use vigilo.Candidate.FileRefusals.{normalize_file-IsFileCause}

any-find :
    {A : Type 0} (p : A → Bool) (xs : List A) → any p xs ≡ true → (x : A) × Memᴰ x xs × (p x ≡ true)
any-find p [] h = cc
any-find p (x ∷ xs) h = elim (or-eq-true (p x) (any p xs) h) [
  | inl e ↦ (x, Memᴰ.head refl, e)
  | inr e ↦ let (y, m, found) = any-find p xs e in (y, Memᴰ.tail m, found)
]

any_conflict-find :
    (fs : List ProposalFile) (f : ProposalFile → List ℕ)
    → any_conflict (map f fs) ≡ true
    → (left right : ProposalFile) × (Memᴰ left fs × Memᴰ right fs)
      × (paths_conflict (f left) (f right) ≡ true)
unfolding any_conflict
any_conflict-find [] f h = cc
any_conflict-find (x ∷ fs) f h =
    elim (or-eq-true (any (paths_conflict (f x)) (map f fs)) (any_conflict (map f fs)) h) [
      | inl e ↦
          let (right, m, found) = any-find (λ g. paths_conflict (f x) (f g)) fs (any-map fs e) in
          (x, right, (Memᴰ.head refl, Memᴰ.tail m), found)
      | inr e ↦
          let (left, right, (m, n), found) = any_conflict-find fs f e in
          (left, right, (Memᴰ.tail m, Memᴰ.tail n), found)
    ]
  where
    any-map :
        (gs : List ProposalFile)
        → any (paths_conflict (f x)) (map f gs) ≡ true
        → any (λ g. paths_conflict (f x) (f g)) gs ≡ true
    any-map [] e = e
    any-map (g ∷ gs) e = elim (or-eq-true (paths_conflict (f x) (f g)) _ e) [
      | inl here ↦ rw here refl
      | inr later ↦ ground (arith, any-map gs later)
    ]

uuid_of-eq-refused :
    (value : Field) {code : CandidatePolicyError}
    → uuid_of value ≡ refused code
    → (malformed_proposal ≡ code) × IsNoUuid value
unfolding uuid_of
uuid_of-eq-refused missing h = (refused-injective h, tt)
uuid_of-eq-refused null_value h = (refused-injective h, tt)
uuid_of-eq-refused other_value h = (refused-injective h, tt)
uuid_of-eq-refused (bytes bs) h = (refused-injective h, tt)
uuid_of-eq-refused (text value) h = elim (refuse_if-eq-refused _ _ _ h) [
  | inl (bad, same) ↦ (same, not-eq-true _ bad)
  | inr (_, e) ↦ cc
]

module _ (host : Host) where
  normalize_files-IsFirstRefused :
      (seen : List (List ℕ)) (total : ℕ) (raws : List RawFile) {code : CandidatePolicyError}
      → normalize_files host seen total raws ≡ refused code
      → IsFirstRefused host seen total raws code
  unfolding normalize_files
  normalize_files-IsFirstRefused seen total [] h = cc
  normalize_files-IsFirstRefused seen total (raw ∷ raws) h = elim (bind-eq-refused _ _ h) [
    | inl e ↦ record {
      before = [];
      raw = raw;
      after = raws;
      files = [];
      so_far = total;
      place = refl;
      accepted = refl;
      cause = normalize_file-IsFileCause host seen total raw e;
    }
    | inr ((f, mid), first, h₁) ↦ elim (bind-eq-refused _ _ h₁) [
      | inl e ↦
          let rest = normalize_files-IsFirstRefused (key host f ∷ seen) mid raws e in
          record {
            before = raw ∷ rest.before;
            raw = rest.raw;
            after = rest.after;
            files = f ∷ rest.files;
            so_far = rest.so_far;
            place = ap (λ xs. raw ∷ xs) rest.place;
            accepted = >>=-passed _ _ first ∙ >>=-passed _ _ rest.accepted;
            cause = rest.cause;
          }
      | inr (_, _, e) ↦ cc
    ]
  ]

  module _ (k i : Field) (fs : RawFiles) (others : ℕ) where
    abbrev Cause : CandidatePolicyError → Type 0
    Cause = IsProposalCause host (RawProposal.an_object k i fs others)

    files_of-Cause :
        (files : RawFiles) {code : CandidatePolicyError}
        → fs ≡ files
        → files_of files ≡ refused code
        → Cause code
    unfolding files_of
    files_of-Cause no_array is h = subst Cause (refused-injective h) (no_files (inl is))
    files_of-Cause (an_array raws) is h = elim (refuse_if-eq-refused _ _ _ h) [
      | inl (few, same) ↦ subst Cause same (no_files (inr (is ∙ ap an_array (none_left raws few))))
      | inr (_, h₁) ↦ elim (refuse_if-eq-refused _ _ _ h₁) [
        | inl (many, same) ↦ subst Cause same (too_many raws is (ltb→lt _ _ many))
        | inr (_, e) ↦ cc
      ]
    ]
      where
        none_left : (rs : List RawFile) → ltb (length rs) 1 ≡ true → rs ≡ []
        none_left [] e = refl
        none_left (r ∷ rs) e = absurd (impossible (length rs) e)
          where
            impossible : (n : ℕ) → ltb (suc n) 1 ≢ true
            impossible n e = let less = ltb→lt _ _ e in omega (arith, less)

    files_of-given :
        (files : RawFiles) {raws : List RawFile}
        → files_of files ≡ passed raws
        → files ≡ an_array raws
    unfolding files_of
    files_of-given no_array h = cc
    files_of-given (an_array given) h =
        let (_, h₁) = refuse_if-eq-passed _ _ _ h in
        let (_, h₂) = refuse_if-eq-passed _ _ _ h₁ in ap an_array (passed-injective h₂)

  -- A proposal is refused only for a cause that it has, and with the code of this cause: it is no
  -- object with the known keys, two UUIDs and at least one file (malformed_proposal), has more than
  -- 16 files (change_budget_exceeded), or has two files one above the other (invalid_path); or the
  -- code is that of the first file that is refused, after files that are all accepted. A file has
  -- the wrong keys, operation, base or kind of content (malformed_proposal), a path that is unsafe,
  -- not composed or repeated (invalid_path), that of a manifest or a lockfile
  -- (package_manifest_change_not_allowed), denied (denied_path) or with a binary's extension
  -- (unsupported_file_type), a content that is empty, too large or too large with those before it
  -- (change_budget_exceeded), or one that is no text (binary_content).
  pub normalize-IsProposalCause :
      (raw : RawProposal) {code : CandidatePolicyError}
      → normalize_candidate_proposal host raw ≡ refused code
      → IsProposalCause host raw code
  unfolding normalize_candidate_proposal
  normalize-IsProposalCause RawProposal.no_object h =
      subst (IsProposalCause host RawProposal.no_object) (refused-injective h) not_object
  normalize-IsProposalCause (RawProposal.an_object k i fs others) h =
      elim (refuse_if-eq-refused _ _ _ h) [
        | inl (bad, same) ↦
            subst (Cause k i fs others) same (other_keys (==→≢ others 0 (not-eq-true _ bad)))
        | inr (_, h₁) ↦ elim (bind-eq-refused _ _ h₁) [
          | inl e ↦
              let (same, bad) = uuid_of-eq-refused k e in
              subst (Cause k i fs others) same (no_uuid (inl bad))
          | inr (_, _, h₂) ↦ elim (bind-eq-refused _ _ h₂) [
            | inl e ↦
                let (same, bad) = uuid_of-eq-refused i e in
                subst (Cause k i fs others) same (no_uuid (inr bad))
            | inr (_, _, h₃) ↦ elim (bind-eq-refused _ _ h₃) [
              | inl e ↦ files_of-Cause k i fs others fs refl e
              | inr (raws, is, h₄) ↦
                  let given = files_of-given k i fs others fs is in
                  elim (bind-eq-refused _ _ h₄) [
                    | inl e ↦ file raws given (normalize_files-IsFirstRefused [] 0 raws e)
                    | inr ((listed, total), made, h₅) ↦ elim (refuse_if-eq-refused _ _ _ h₅) [
                      | inl (bad, same) ↦
                          let (left, right, (m, n), found) =
                            any_conflict-find (sort_files host listed) (key host) bad in
                          subst (Cause k i fs others) same (
                            conflict raws listed total left right given made
                              (mem-sort host listed m, mem-sort host listed n) found)
                      | inr (_, e) ↦ cc
                    ]
                  ]
            ]
          ]
        ]
      ]
