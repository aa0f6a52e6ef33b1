-- ===== src/Candidate/Files.antt =====
-- The files that `normalizeCandidateProposal` of lib/repair-candidates/policy.ts makes.
use mathlib.Core.Path.{subst}
use vigilo.Prelude.{
  ℕ, ◌+◌, ◌≤◌, suc, ◌≡◌, ◌≢◌, refl, sym, ap, ◌∙◌, false, not, List, [], ◌∷◌, Option, none, some,
  Memᴰ, arith, ltb, length, or-eq-false, not-eq-false, ltb-eq-false, ==→≡, ◌==◌, nat_eq, list_eq,
  contains, contains-eq-false_mem, eqb,
}
use vigilo.Prelude.Checks.{passed, bind-eq-passed, passed-injective, refuse_if-eq-passed}
use vigilo.Candidate.Context.{Host, Field, text, bytes, missing, null_value, other_value}
use vigilo.Candidate.Rules.{
  CandidateOperation, add, modify, delete, candidate_path_key, decode_text, base_of, no_base,
  sha_base, max_file_bytes, max_total_result_bytes,
}
use vigilo.Candidate.Proposal.{
  RawFile, ProposalFile, write_result, written, result_of, normalize_file, normalize_files,
}
use vigilo.Candidate.Paths.{IsCandidatePath, candidate_path-IsCandidatePath}

module _ (host : Host) where
  abbrev pub key : ProposalFile → List ℕ
  key f = candidate_path_key host f.path

  -- What a file that is not deleted contains.
  pub record IsContent (bs : List ℕ) (f : ProposalFile) : Type 0 where
    pub decoded : List ℕ
    pub present : f.resulting_bytes ≡ some bs
    pub readable : f.resulting_text ≡ some decoded
    pub exact : host.encode decoded ≡ bs
    pub hashed : f.result_content_sha256 ≡ some (host.sha256 bs)
    pub counted : f.result_byte_length ≡ length bs
    pub bounded : (1 ≤ length bs) × (length bs ≤ max_file_bytes)

  -- A file is either deleted, without content, or written with its content.
  abbrev pub HasResult : CandidateOperation → ProposalFile → Type 0
  HasResult delete f = (f.resulting_bytes ≡ none) × (f.result_byte_length ≡ 0)
  HasResult _ f = (bs : List ℕ) × IsContent bs f

  abbrev pub HasBase : CandidateOperation → Option (List ℕ) → Type 0
  HasBase add base = base ≡ none
  HasBase _ base = (sha : List ℕ) × (base ≡ some sha) × (length sha ≡ 40)

  pub record IsFile (f : ProposalFile) : Type 0 where
    pub path : IsCandidatePath host f.path
    pub base : HasBase f.operation f.expected_base_identity
    pub result : HasResult f.operation f

  -- No two files with the same key.
  abbrev pub Distinct : List ProposalFile → Type 0
  Distinct [] = Unit
  Distinct (f ∷ fs) = ((g : ProposalFile) → Memᴰ g fs → key g ≢ key f) × Distinct fs

  abbrev pub byte_sum : List ProposalFile → ℕ
  byte_sum [] = 0
  byte_sum (f ∷ fs) = f.result_byte_length + byte_sum fs

  decode_text-bytes :
      (value : Field) {bs decoded : List ℕ}
      → decode_text host value ≡ passed (bs, decoded)
      → (host.encode decoded ≡ bs) × (1 ≤ length bs) × (length bs ≤ max_file_bytes)
  unfolding decode_text
  decode_text-bytes missing h = cc
  decode_text-bytes null_value h = cc
  decode_text-bytes other_value h = cc
  decode_text-bytes (text t) h = cc
  decode_text-bytes (bytes given) {bs} {decoded} h =
      let (size, h₁) = refuse_if-eq-passed _ _ _ h in
      let (clean, h₂) = refuse_if-eq-passed _ _ _ h₁ in
      let (exact, _) = or-eq-false _ _ clean in
      let (small, large) = or-eq-false (ltb (length given) 1) _ size in
      let e₁ : given ≡ bs = ap (λ x. x.0) (passed-injective h₂) in
      let e₂ : host.decode given ≡ decoded = ap (λ x. x.1) (passed-injective h₂) in
      (
        sym (ap host.encode e₂) ∙ ==→≡ _ given (not-eq-false _ exact) ∙ e₁,
        subst (λ x. 1 ≤ length x) e₁ (ltb-eq-false _ _ small),
        subst (λ x. length x ≤ max_file_bytes) e₁ (ltb-eq-false _ _ large),
      )

  no_base-HasBase :
      (value : Field) {base : Option (List ℕ)} → no_base value ≡ passed base → base ≡ none
  unfolding no_base
  no_base-HasBase null_value h = sym (passed-injective h)
  no_base-HasBase missing h = cc
  no_base-HasBase other_value h = cc
  no_base-HasBase (text t) h = cc
  no_base-HasBase (bytes bs) h = cc

  sha_base-HasBase :
      (value : Field) {base : Option (List ℕ)}
      → sha_base value ≡ passed base
      → (sha : List ℕ) × (base ≡ some sha) × (length sha ≡ 40)
  unfolding sha_base
  sha_base-HasBase null_value h = cc
  sha_base-HasBase missing h = cc
  sha_base-HasBase other_value h = cc
  sha_base-HasBase (bytes bs) h = cc
  sha_base-HasBase (text sha) h =
      let (good, h₁) = refuse_if-eq-passed _ _ _ h in
      let (long, _) = or-eq-false (not (eqb (length sha) 40)) _ good in
      (sha, sym (passed-injective h₁), ==→≡ (length sha) 40 (not-eq-false _ long))

  base_of-HasBase :
      (operation : CandidateOperation) (value : Field) {base : Option (List ℕ)}
      → base_of operation value ≡ passed base
      → HasBase operation base
  unfolding base_of
  base_of-HasBase add value h = no_base-HasBase value h
  base_of-HasBase modify value h = sha_base-HasBase value h
  base_of-HasBase delete value h = sha_base-HasBase value h

  -- A file as it is made, and what it adds to the total.
  record Made (total : ℕ) (path : List ℕ) (operation : CandidateOperation) (base : Option (List ℕ))
      (made : ProposalFile × ℕ) : Type 0 where
    same_path : made.0.path ≡ path
    same_operation : made.0.operation ≡ operation
    same_base : made.0.expected_base_identity ≡ base
    result : HasResult operation made.0
    sum : made.1 ≡ total + made.0.result_byte_length
    fits : total ≤ max_total_result_bytes → made.1 ≤ max_total_result_bytes

  module _ (total : ℕ) (path : List ℕ) (base : Option (List ℕ)) (content : Field) where
    write_result-Made :
        (operation : CandidateOperation)
        → ((f : ProposalFile) → (bs : List ℕ) × IsContent bs f → HasResult operation f)
        → {made : ProposalFile × ℕ}
        → write_result host total path operation base content ≡ passed made
        → Made total path operation base made
    unfolding write_result
    write_result-Made operation is_written h =
        let ((bs, decoded), found, h₁) = bind-eq-passed _ _ h in
        let (room, h₂) = refuse_if-eq-passed _ _ _ h₁ in
        let (exact, least, most) = decode_text-bytes content found in
        subst (Made total path operation base) (passed-injective h₂) (record {
          same_path = refl;
          same_operation = refl;
          same_base = refl;
          result = is_written (written host path operation base bs decoded) (
            bs,
            record {
              decoded = decoded;
              present = refl;
              readable = refl;
              exact = exact;
              hashed = refl;
              counted = refl;
              bounded = (least, most);
            },
          );
          sum = refl;
          fits = λ before. ltb-eq-false _ _ room;
        })

    result_of-Made :
        (operation : CandidateOperation) {made : ProposalFile × ℕ}
        → result_of host total path operation base content ≡ passed made
        → Made total path operation base made
    unfolding result_of
    result_of-Made add h = write_result-Made add (λ f c. c) h
    result_of-Made modify h = write_result-Made modify (λ f c. c) h
    result_of-Made delete h =
        let (_, h₁) = refuse_if-eq-passed _ _ _ h in
        subst (Made total path delete base) (passed-injective h₁) (record {
          same_path = refl;
          same_operation = refl;
          same_base = refl;
          result = (refl, refl);
          sum = omega arith;
          fits = λ before. before;
        })

  -- What one file adds.
  record Adds (seen : List (List ℕ)) (total : ℕ) (f : ProposalFile) (after : ℕ) : Type 0 where
    file : IsFile f
    fresh : contains seen (key f) ≡ false
    sum : after ≡ total + f.result_byte_length
    fits : total ≤ max_total_result_bytes → after ≤ max_total_result_bytes

  normalize_file-Adds :
      (seen : List (List ℕ)) (total : ℕ) (raw : RawFile) {f : ProposalFile} {after : ℕ}
      → normalize_file host seen total raw ≡ passed (f, after)
      → Adds seen total f after
  unfolding normalize_file
  normalize_file-Adds seen total RawFile.no_object h = cc
  normalize_file-Adds seen total (RawFile.an_object b o p c others) {f} h =
      let (_, h₁) = refuse_if-eq-passed _ _ _ h in
      let (operation, _, h₂) = bind-eq-passed _ _ h₁ in
      let (path, is_path, h₃) = bind-eq-passed _ _ h₂ in
      let (fresh, h₄) = refuse_if-eq-passed _ _ _ h₃ in
      let (base, is_base, h₅) = bind-eq-passed _ _ h₄ in
      let made = result_of-Made total path base c operation h₅ in
      record {
        file = record {
          path =
              subst (IsCandidatePath host) (sym made.same_path)
                (candidate_path-IsCandidatePath host p is_path);
          base =
              subst (λ x. HasBase x f.expected_base_identity) (sym made.same_operation)
                (subst (HasBase operation) (sym made.same_base)
                  (base_of-HasBase operation b is_base));
          result = subst (λ x. HasResult x f) (sym made.same_operation) made.result;
        };
        fresh =
            subst (λ x. contains seen (candidate_path_key host x) ≡ false) (sym made.same_path)
              fresh;
        sum = made.sum;
        fits = made.fits;
      }

  -- What the files add together.
  pub record AddsAll (seen : List (List ℕ)) (total : ℕ) (fs : List ProposalFile) (after : ℕ)
      : Type 0 where
    pub files : (f : ProposalFile) → Memᴰ f fs → IsFile f
    pub fresh : (f : ProposalFile) → Memᴰ f fs → contains seen (key f) ≡ false
    pub distinct : Distinct fs
    pub sum : after ≡ total + byte_sum fs
    pub fits : total ≤ max_total_result_bytes → after ≤ max_total_result_bytes

  module _ {seen : List (List ℕ)} {total mid after : ℕ} {f : ProposalFile} {fs : List ProposalFile}
      (one : Adds seen total f mid) (all : AddsAll (key f ∷ seen) mid fs after) where
    cons-files : (g : ProposalFile) → Memᴰ g (f ∷ fs) → IsFile g
    cons-files g (Memᴰ.head e) = subst IsFile (sym e) one.file
    cons-files g (Memᴰ.tail m) = all.files g m

    cons-fresh : (g : ProposalFile) → Memᴰ g (f ∷ fs) → contains seen (key g) ≡ false
    cons-fresh g (Memᴰ.head e) = subst (λ x. contains seen (key x) ≡ false) (sym e) one.fresh
    cons-fresh g (Memᴰ.tail m) = (or-eq-false (key f == key g) _ (all.fresh g m)).1

    cons-distinct : (g : ProposalFile) → Memᴰ g fs → key g ≢ key f
    cons-distinct g m e = contains-eq-false_mem (key g) (key f ∷ seen) (all.fresh g m) (Memᴰ.head e)

    cons-AddsAll : AddsAll seen total (f ∷ fs) after
    cons-AddsAll = record {
      files = cons-files;
      fresh = cons-fresh;
      distinct = (cons-distinct, all.distinct);
      sum = omega (arith, one.sum, all.sum);
      fits = λ before. all.fits (one.fits before);
    }

  pub normalize_files-AddsAll :
      (seen : List (List ℕ)) (total : ℕ) (raws : List RawFile) {made : List ProposalFile × ℕ}
      → normalize_files host seen total raws ≡ passed made
      → AddsAll seen total made.0 made.1 × (length made.0 ≡ length raws)
  unfolding normalize_files
  normalize_files-AddsAll seen total [] h =
      subst (λ made. AddsAll seen total made.0 made.1 × (length made.0 ≡ 0)) (passed-injective h)
        (
          record {
            files = λ f m. elim m [ ];
            fresh = λ f m. elim m [ ];
            distinct = tt;
            sum = omega arith;
            fits = λ before. before;
          },
          refl,
        )
  normalize_files-AddsAll seen total (raw ∷ raws) h =
      let ((f, mid), first, h₁) = bind-eq-passed _ _ h in
      let ((fs, after), rest, h₂) = bind-eq-passed _ _ h₁ in
      let (all, count) = normalize_files-AddsAll (key f ∷ seen) mid raws rest in
      subst (λ made. AddsAll seen total made.0 made.1 × (length made.0 ≡ suc (length raws)))
        (passed-injective h₂)
        (cons-AddsAll (normalize_file-Adds seen total raw first) all, ap suc count)
