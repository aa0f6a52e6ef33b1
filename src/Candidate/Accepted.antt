-- ===== src/Candidate/Accepted.antt =====
-- The proposals that `normalizeCandidateProposal` of lib/repair-candidates/policy.ts accepts.
use mathlib.Core.Path.{subst}
use vigilo.Prelude.{
  ◌+◌, ◌≤◌, suc, ◌⊎◌, mem-cons, mem-map, any-eq-false_mem, ◌≡◌, ◌≢◌, refl, sym, ap, ◌∙◌, inl, inr,
  false, List, [], ◌∷◌, map, Memᴰ, arith, any, length, Bool-cases, or-eq-false, ltb-eq-false,
  nat_eq, list_eq,
}
use vigilo.Prelude.Checks.{passed, bind-eq-passed, passed-injective, refuse_if-eq-passed}
use vigilo.Candidate.Context.{Host}
use vigilo.Candidate.Rules.{paths_conflict, max_changed_files, max_total_result_bytes}
use vigilo.Candidate.Proposal.{
  RawFile, RawFiles, RawProposal, no_array, an_array, ProposalFile, Proposal, insert_file,
  sort_files, any_conflict, files_of, normalize_candidate_proposal,
}
use vigilo.Candidate.Files.{key, IsFile, Distinct, byte_sum, normalize_files-AddsAll}

module _ (host : Host) where
  -- No file below another.
  abbrev pub Apart : List ProposalFile → Type 0
  Apart [] = Unit
  Apart (f ∷ fs) =
      ((g : ProposalFile) → Memᴰ g fs → paths_conflict (key host f) (key host g) ≡ false) × Apart fs

  module _ (f : ProposalFile) where
    mem-insert :
        (fs : List ProposalFile) {g : ProposalFile}
        → Memᴰ g (insert_file host f fs)
        → (g ≡ f) ⊎ Memᴰ g fs
    unfolding insert_file
    mem-insert [] (Memᴰ.head e) = inl e
    mem-insert [] (Memᴰ.tail m) = inr m
    mem-insert (other ∷ fs) m = elim (Bool-cases (host.at_most f.path other.path)) [
      | inl e ↦ mem-cons (rw e at m)
      | inr e ↦ elim (mem-cons (rw e at m)) [
        | inl here ↦ inr (Memᴰ.head here)
        | inr later ↦ elim (mem-insert fs later) [
          | inl here ↦ inl here
          | inr there ↦ inr (Memᴰ.tail there)
        ]
      ]
    ]

    byte_sum-insert :
        (fs : List ProposalFile)
        → byte_sum host (insert_file host f fs) ≡ f.result_byte_length + byte_sum host fs
    unfolding insert_file
    byte_sum-insert [] = refl
    byte_sum-insert (other ∷ fs) = elim (Bool-cases (host.at_most f.path other.path)) [
      | inl e ↦ rw e refl
      | inr e ↦ rw e (omega (arith, byte_sum-insert fs))
    ]

    length-insert : (fs : List ProposalFile) → length (insert_file host f fs) ≡ suc (length fs)
    unfolding insert_file
    length-insert [] = refl
    length-insert (other ∷ fs) = elim (Bool-cases (host.at_most f.path other.path)) [
      | inl e ↦ rw e refl
      | inr e ↦ rw e (ap suc (length-insert fs))
    ]

    Distinct-insert :
        (fs : List ProposalFile)
        → ((g : ProposalFile) → Memᴰ g fs → key host g ≢ key host f)
        → Distinct host fs
        → Distinct host (insert_file host f fs)
    unfolding insert_file
    Distinct-insert [] new d = ((λ g m. elim m [ ]), tt)
    Distinct-insert (other ∷ fs) new (first, rest) =
        elim (Bool-cases (host.at_most f.path other.path)) [
          | inl e ↦ rw e ((new, (first, rest)))
          | inr e ↦ rw e (
              (
                λ g m. elim (mem-insert fs m) [
                  | inl same ↦ λ clash. new other (Memᴰ.head refl) (sym clash ∙ ap (key host) same)
                  | inr there ↦ first g there
                ],
                Distinct-insert fs (λ g m. new g (Memᴰ.tail m)) rest,
              ))
        ]

  pub mem-sort :
      (fs : List ProposalFile) {g : ProposalFile} → Memᴰ g (sort_files host fs) → Memᴰ g fs
  unfolding sort_files
  mem-sort [] m = m
  mem-sort (f ∷ fs) m = elim (mem-insert f (sort_files host fs) m) [
    | inl e ↦ Memᴰ.head e
    | inr n ↦ Memᴰ.tail (mem-sort fs n)
  ]

  byte_sum-sort : (fs : List ProposalFile) → byte_sum host (sort_files host fs) ≡ byte_sum host fs
  unfolding sort_files
  byte_sum-sort [] = refl
  byte_sum-sort (f ∷ fs) = omega (arith, byte_sum-insert f (sort_files host fs), byte_sum-sort fs)

  length-sort : (fs : List ProposalFile) → length (sort_files host fs) ≡ length fs
  unfolding sort_files
  length-sort [] = refl
  length-sort (f ∷ fs) = length-insert f (sort_files host fs) ∙ ap suc (length-sort fs)

  Distinct-sort : (fs : List ProposalFile) → Distinct host fs → Distinct host (sort_files host fs)
  unfolding sort_files
  Distinct-sort [] d = d
  Distinct-sort (f ∷ fs) (first, rest) =
      Distinct-insert f (sort_files host fs) (λ g m. first g (mem-sort fs m))
        (Distinct-sort fs rest)

  any_conflict-Apart :
      (fs : List ProposalFile) → any_conflict (map (key host) fs) ≡ false → Apart fs
  unfolding any_conflict
  any_conflict-Apart [] h = tt
  any_conflict-Apart (f ∷ fs) h =
      let (here, rest) = or-eq-false (any (paths_conflict (key host f)) (map (key host) fs)) _ h in
      (
        λ g m. any-eq-false_mem (paths_conflict (key host f)) _ here (mem-map (key host) fs m),
        any_conflict-Apart fs rest,
      )

  files_of-length :
      (files : RawFiles) {raws : List RawFile}
      → files_of files ≡ passed raws
      → (1 ≤ length raws) × (length raws ≤ max_changed_files)
  unfolding files_of
  files_of-length no_array h = cc
  files_of-length (an_array given) h =
      let (least, h₁) = refuse_if-eq-passed _ _ _ h in
      let (most, h₂) = refuse_if-eq-passed _ _ _ h₁ in
      subst (λ xs. (1 ≤ length xs) × (length xs ≤ max_changed_files)) (passed-injective h₂)
        ((ltb-eq-false _ _ least, ltb-eq-false _ _ most))

  pub record IsAccepted (p : Proposal) : Type 0 where
    pub some_files : 1 ≤ length p.files
    pub few_files : length p.files ≤ max_changed_files
    pub files : (f : ProposalFile) → Memᴰ f p.files → IsFile host f
    pub distinct : Distinct host p.files
    pub apart : Apart p.files
    pub total : p.total_result_bytes ≡ byte_sum host p.files
    pub bounded : p.total_result_bytes ≤ max_total_result_bytes

  -- An accepted proposal has one to sixteen files; the path of each names an entry below the root of
  -- the repository, and is neither denied nor a package manifest nor binary; each has the base of its
  -- operation, and is deleted or carries the text of its bytes, with their hash and their number,
  -- which is within the limit of a file; no two have the same path key, none lies below another; and
  -- the total is the sum of their bytes, within the limit of a proposal.
  pub normalize-IsAccepted :
      (raw : RawProposal) (p : Proposal)
      → normalize_candidate_proposal host raw ≡ passed p
      → IsAccepted p
  unfolding normalize_candidate_proposal
  normalize-IsAccepted RawProposal.no_object p h = cc
  normalize-IsAccepted (RawProposal.an_object k i files others) p h =
      let (_, h₁) = refuse_if-eq-passed _ _ _ h in
      let (_, _, h₂) = bind-eq-passed _ _ h₁ in
      let (_, _, h₃) = bind-eq-passed _ _ h₂ in
      let (raws, counted, h₄) = bind-eq-passed _ _ h₃ in
      let ((fs, total), found, h₅) = bind-eq-passed _ _ h₄ in
      let (apart, h₆) = refuse_if-eq-passed _ _ _ h₅ in
      let (all, count) = normalize_files-AddsAll host [] 0 raws found in
      let (least, most) = files_of-length files counted in
      let size = length-sort fs in
      subst IsAccepted (passed-injective h₆) (record {
        some_files = rw size (rw count least);
        few_files = rw size (rw count most);
        files = λ f m. all.files f (mem-sort fs m);
        distinct = Distinct-sort fs all.distinct;
        apart = any_conflict-Apart (sort_files host fs) apart;
        total = omega (arith, all.sum, byte_sum-sort fs);
        bounded = all.fits (omega arith);
      })
