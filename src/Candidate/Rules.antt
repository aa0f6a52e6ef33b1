-- ===== src/Candidate/Rules.antt =====
-- The rules of lib/repair-candidates/policy.ts for one path, one content and one base.
use vigilo.Prelude.{
  ℕ, Bool, not, ◌&&◌, ◌||◌, List, [], ◌∷◌, ◌++◌, Option, none, some, eqb, ltb, leb, any, all,
  length, codes, if◌then◌else◌, contains, starts_with, is_hex, ◌==◌, nat_eq, list_eq,
}
use vigilo.Prelude.Checks.{Checked, refused, passed, ◌>>=◌, ◌>>◌, refuse_if}
use vigilo.Archive.Bytes.{split_slash}
use vigilo.Candidate.Context.{
  Host, Field, null_value, text, bytes, ContextPolicyError, normalize_context_path, path_denied_in,
}

pub data CandidatePolicyError : Type 0 where
  add_path_already_exists base_file_missing base_identity_mismatch : CandidatePolicyError
  binary_content change_budget_exceeded denied_path infrastructure_failed : CandidatePolicyError
  installation_unavailable invalid_path malformed_proposal no_effective_change :
      CandidatePolicyError
  package_manifest_change_not_allowed repository_access_lost : CandidatePolicyError
  source_evidence_incomplete unsupported_file_type : CandidatePolicyError
  proposal_conflict candidate_conflict : CandidatePolicyError

pub data CandidateOperation : Type 0 where
  add modify delete : CandidateOperation

abbrev pub max_changed_files : ℕ
max_changed_files = 16

abbrev pub max_file_bytes : ℕ
max_file_bytes = 131072

abbrev pub max_total_result_bytes : ℕ
max_total_result_bytes = 524288

abbrev pub protected_names : List (List ℕ)
protected_names =
    codes "package.json"
    ∷ codes "package-lock.json"
    ∷ codes "yarn.lock"
    ∷ codes "pnpm-lock.yaml"
    ∷ codes "bun.lock"
    ∷ codes "bun.lockb"
    ∷ []

abbrev pub candidate_denied_segments : List (List ℕ)
candidate_denied_segments =
    codes ".vigilo"
    ∷ codes ".vercel"
    ∷ codes ".secrets"
    ∷ codes ".turbo"
    ∷ codes ".output"
    ∷ codes "out"
    ∷ []

abbrev pub binary_extensions : List (List ℕ)
binary_extensions =
    codes ".bin"
    ∷ codes ".class"
    ∷ codes ".dll"
    ∷ codes ".dmg"
    ∷ codes ".exe"
    ∷ codes ".iso"
    ∷ codes ".jar"
    ∷ codes ".o"
    ∷ codes ".obj"
    ∷ codes ".so"
    ∷ []

-- `catch { throw new CandidatePolicyError('invalid_path'); }`
unfoldable pub context_path :
    Checked ContextPolicyError (List ℕ) → Checked CandidatePolicyError (List ℕ)
context_path (refused reason) = refused invalid_path
context_path (passed path) = passed path

abbrev pub is_candidate_denied : Host → List ℕ → Bool
is_candidate_denied host path =
    path_denied_in host path
    || any (contains candidate_denied_segments) (split_slash (host.lower path))

abbrev pub base_name : Host → List ℕ → List ℕ
base_name host path = host.lower (host.basename path)

unfoldable pub candidate_path : Host → Field → Checked CandidatePolicyError (List ℕ)
candidate_path host value = do
  path ← context_path (normalize_context_path host value)
  refuse_if (not (path == host.nfc path)) invalid_path
  refuse_if (contains protected_names (base_name host path)) package_manifest_change_not_allowed
  refuse_if (is_candidate_denied host path) denied_path
  refuse_if (contains binary_extensions (host.extname (base_name host path))) unsupported_file_type
  passed path

abbrev pub candidate_path_key : Host → List ℕ → List ℕ
candidate_path_key host path = host.lower (host.nfc path)

unfoldable pub paths_conflict : List ℕ → List ℕ → Bool
paths_conflict left right =
    starts_with (right ++ (b'/' ∷ [])) left || starts_with (left ++ (b'/' ∷ [])) right

-- `[\u0000-\u0008\u000b\u000c\u000e-\u001f\u007f]`
abbrev pub is_binary : ℕ → Bool
is_binary c = leb c 8 || eqb c 11 || eqb c 12 || (leb 14 c && leb c 31) || eqb c 127

-- `decodeText`, which gives the bytes with their text.
unfoldable pub decode_text : Host → Field → Checked CandidatePolicyError (List ℕ × List ℕ)
decode_text host (bytes bs) = do
  refuse_if (ltb (length bs) 1 || ltb max_file_bytes (length bs)) change_budget_exceeded
  let decoded = host.decode bs
  refuse_if (not (host.encode decoded == bs) || any is_binary decoded) binary_content
  passed (bs, decoded)
decode_text host _ = refused malformed_proposal

unfoldable pub operation_of : Field → Checked CandidatePolicyError CandidateOperation
operation_of (text name) =
    if name == codes "add"
    then passed add
    else if name == codes "modify"
    then passed modify
    else if name == codes "delete"
    then passed delete
    else refused malformed_proposal
operation_of _ = refused malformed_proposal

unfoldable pub no_base : Field → Checked CandidatePolicyError (Option (List ℕ))
no_base null_value = passed none
no_base _ = refused malformed_proposal

unfoldable pub sha_base : Field → Checked CandidatePolicyError (Option (List ℕ))
sha_base (text sha) = do
  refuse_if (not (eqb (length sha) 40) || not (all is_hex sha)) malformed_proposal
  passed (some sha)
sha_base _ = refused malformed_proposal

-- The base of a file: nothing for a file that is added, a hash for any other.
unfoldable pub base_of : CandidateOperation → Field → Checked CandidatePolicyError (Option (List ℕ))
base_of add value = no_base value
base_of modify value = sha_base value
base_of delete value = sha_base value
