-- ===== src/Candidate/Causes.antt =====
-- The reasons for which lib/repair-candidates/policy.ts may refuse a proposal, each with its code.
use vigilo.Prelude.{
  ℕ, ◌+◌, ◌<◌, ◌≡◌, ◌≢◌, ◌⊎◌, true, false, not, ◌||◌, List, [], ◌∷◌, ◌++◌, Memᴰ, any, all, length,
  codes, is_hex, contains, ◌==◌, nat_eq, list_eq,
}
use vigilo.Prelude.Checks.{passed}
use vigilo.Candidate.Context.{Host, Field, null_value, text, bytes, is_unsafe_text, is_unsafe_path}
use vigilo.Candidate.Rules.{
  CandidatePolicyError, binary_content, change_budget_exceeded, denied_path, invalid_path,
  malformed_proposal, package_manifest_change_not_allowed, unsupported_file_type, base_name,
  protected_names, is_candidate_denied, binary_extensions, candidate_path_key, is_binary,
  max_file_bytes, max_total_result_bytes, max_changed_files, paths_conflict,
}
use vigilo.Candidate.Proposal.{
  RawFile, RawFiles, no_array, an_array, RawProposal, ProposalFile, is_missing, uuid_classes,
  matches, normalize_files,
}

-- No text, or a text that is not a normal path within the repository.
abbrev pub IsUnsafe : Host → Field → Type 0
IsUnsafe host (text path) =
    (is_unsafe_text path ≡ true) ⊎ (is_unsafe_path (host.normalize_path path) path ≡ true)
IsUnsafe host _ = Unit

-- Why a path may not be changed. Each reason holds of a path that none of those before it refuses.
pub data IsPathCause (host : Host) (value : Field) : CandidatePolicyError → Type 0 where
  unsafe : IsUnsafe host value → IsPathCause host value invalid_path
  not_composed :
      (path : List ℕ)
      → value ≡ text path
      → path ≢ host.nfc path
      → IsPathCause host value invalid_path
  manifest :
      (path : List ℕ)
      → value ≡ text path
      → path ≡ host.nfc path
      → contains protected_names (base_name host path) ≡ true
      → IsPathCause host value package_manifest_change_not_allowed
  denied :
      (path : List ℕ)
      → value ≡ text path
      → contains protected_names (base_name host path) ≡ false
      → is_candidate_denied host path ≡ true
      → IsPathCause host value denied_path
  binary_name :
      (path : List ℕ)
      → value ≡ text path
      → is_candidate_denied host path ≡ false
      → contains binary_extensions (host.extname (base_name host path)) ≡ true
      → IsPathCause host value unsupported_file_type

abbrev pub Adds : Field → Type 0
Adds operation = operation ≡ text (codes "add")

abbrev pub Modifies : Field → Type 0
Modifies operation = operation ≡ text (codes "modify")

abbrev pub Deletes : Field → Type 0
Deletes operation = operation ≡ text (codes "delete")

-- No text, or no hash of a Git object.
abbrev pub IsNoSha : Field → Type 0
IsNoSha (text sha) = (length sha ≢ 40) ⊎ (all is_hex sha ≡ false)
IsNoSha _ = Unit

-- Why an element of `files` is refused, after files with the keys `seen` and `total` bytes.
pub data IsFileCause (host : Host) (seen : List (List ℕ)) (total : ℕ)
    : RawFile → CandidatePolicyError → Type 0 where
  not_object : IsFileCause host seen total RawFile.no_object malformed_proposal
  wrong_keys :
      {b o p c : Field} {others : ℕ}
      → (is_missing b || is_missing o || is_missing p || is_missing c || not (others == 0)) ≡ true
      → IsFileCause host seen total (RawFile.an_object b o p c others) malformed_proposal
  no_operation :
      {b o p c : Field} {others : ℕ}
      → (¬ Adds o) × (¬ Modifies o) × (¬ Deletes o)
      → IsFileCause host seen total (RawFile.an_object b o p c others) malformed_proposal
  bad_path :
      {b o p c : Field} {others : ℕ} {code : CandidatePolicyError}
      → IsPathCause host p code
      → IsFileCause host seen total (RawFile.an_object b o p c others) code
  repeated :
      {b o p c : Field} {others : ℕ} (file : List ℕ)
      → p ≡ text file
      → contains seen (candidate_path_key host file) ≡ true
      → IsFileCause host seen total (RawFile.an_object b o p c others) invalid_path
  added_base :
      {b o p c : Field} {others : ℕ}
      → Adds o
      → b ≢ null_value
      → IsFileCause host seen total (RawFile.an_object b o p c others) malformed_proposal
  no_sha :
      {b o p c : Field} {others : ℕ}
      → Modifies o ⊎ Deletes o
      → IsNoSha b
      → IsFileCause host seen total (RawFile.an_object b o p c others) malformed_proposal
  deleted_content :
      {b o p c : Field} {others : ℕ}
      → Deletes o
      → c ≢ null_value
      → IsFileCause host seen total (RawFile.an_object b o p c others) malformed_proposal
  no_content :
      {b o p c : Field} {others : ℕ}
      → Adds o ⊎ Modifies o
      → ((bs : List ℕ) → c ≢ bytes bs)
      → IsFileCause host seen total (RawFile.an_object b o p c others) malformed_proposal
  size :
      {b o p c : Field} {others : ℕ} (bs : List ℕ)
      → Adds o ⊎ Modifies o
      → c ≡ bytes bs
      → (length bs ≡ 0) ⊎ (max_file_bytes < length bs)
      → IsFileCause host seen total (RawFile.an_object b o p c others) change_budget_exceeded
  not_text :
      {b o p c : Field} {others : ℕ} (bs : List ℕ)
      → Adds o ⊎ Modifies o
      → c ≡ bytes bs
      → (host.encode (host.decode bs) ≢ bs) ⊎ (any is_binary (host.decode bs) ≡ true)
      → IsFileCause host seen total (RawFile.an_object b o p c others) binary_content
  over_total :
      {b o p c : Field} {others : ℕ} (bs : List ℕ)
      → Adds o ⊎ Modifies o
      → c ≡ bytes bs
      → max_total_result_bytes < total + length bs
      → IsFileCause host seen total (RawFile.an_object b o p c others) change_budget_exceeded

-- The keys that have been seen after some files.
abbrev pub seen_after : Host → List (List ℕ) → List ProposalFile → List (List ℕ)
seen_after host seen [] = seen
seen_after host seen (f ∷ fs) = seen_after host (candidate_path_key host f.path ∷ seen) fs

-- A list of files up to the first that is refused.
pub record IsFirstRefused (host : Host) (seen : List (List ℕ)) (total : ℕ) (raws : List RawFile)
    (code : CandidatePolicyError) : Type 0 where
  pub before : List RawFile
  pub raw : RawFile
  pub after : List RawFile
  pub files : List ProposalFile
  pub so_far : ℕ
  pub place : raws ≡ before ++ (raw ∷ after)
  pub accepted : normalize_files host seen total before ≡ passed (files, so_far)
  pub cause : IsFileCause host (seen_after host seen files) so_far raw code

-- No text, or no UUID.
abbrev pub IsNoUuid : Field → Type 0
IsNoUuid (text value) = matches uuid_classes value ≡ false
IsNoUuid _ = Unit

-- Why a proposal is refused.
pub data IsProposalCause (host : Host) : RawProposal → CandidatePolicyError → Type 0 where
  not_object : IsProposalCause host RawProposal.no_object malformed_proposal
  other_keys :
      {k i : Field} {fs : RawFiles} {others : ℕ}
      → others ≢ 0
      → IsProposalCause host (RawProposal.an_object k i fs others) malformed_proposal
  no_uuid :
      {k i : Field} {fs : RawFiles} {others : ℕ}
      → IsNoUuid k ⊎ IsNoUuid i
      → IsProposalCause host (RawProposal.an_object k i fs others) malformed_proposal
  no_files :
      {k i : Field} {fs : RawFiles} {others : ℕ}
      → (fs ≡ no_array) ⊎ (fs ≡ an_array [])
      → IsProposalCause host (RawProposal.an_object k i fs others) malformed_proposal
  too_many :
      {k i : Field} {fs : RawFiles} {others : ℕ} (raws : List RawFile)
      → fs ≡ an_array raws
      → max_changed_files < length raws
      → IsProposalCause host (RawProposal.an_object k i fs others) change_budget_exceeded
  file :
      {k i : Field} {fs : RawFiles} {others : ℕ} {code : CandidatePolicyError} (raws : List RawFile)
      → fs ≡ an_array raws
      → IsFirstRefused host [] 0 raws code
      → IsProposalCause host (RawProposal.an_object k i fs others) code
  conflict :
      {k i : Field} {fs : RawFiles} {others : ℕ} (raws : List RawFile) (files : List ProposalFile)
      (total : ℕ) (left right : ProposalFile)
      → fs ≡ an_array raws
      → normalize_files host [] 0 raws ≡ passed (files, total)
      → Memᴰ left files × Memᴰ right files
      → paths_conflict (candidate_path_key host left.path) (candidate_path_key host right.path)
        ≡ true
      → IsProposalCause host (RawProposal.an_object k i fs others) invalid_path
