-- ===== src/Candidate/Proposal.antt =====
-- lib/repair-candidates/policy.ts.
use vigilo.Prelude.{
  ℕ, ◌+◌, Bool, true, false, not, ◌&&◌, ◌||◌, List, [], ◌∷◌, Option, none, some, eqb, ltb, leb, any,
  length, map, if◌then◌else◌, contains, is_hex, ◌==◌, nat_eq, list_eq,
}
use vigilo.Prelude.Checks.{Checked, refused, passed, ◌>>=◌, ◌>>◌, refuse_if}
use vigilo.Candidate.Context.{Host, Field, missing, null_value, text}
use vigilo.Candidate.Rules.{
  CandidatePolicyError, CandidateOperation, max_changed_files, max_total_result_bytes,
  candidate_path, candidate_path_key, paths_conflict, decode_text, operation_of, base_of,
  change_budget_exceeded, invalid_path, malformed_proposal, add, modify, delete,
}

-- An element of `files`, by the fields that the code knows and the number of its other keys.
pub data RawFile : Type 0 where
  no_object : RawFile
  an_object :
      (expected_base_identity operation path resulting_content : Field) (other_keys : ℕ) → RawFile

pub data RawFiles : Type 0 where
  no_array : RawFiles
  an_array : List RawFile → RawFiles

-- A proposal of type `unknown`; a missing key `files` is no array, too.
pub data RawProposal : Type 0 where
  no_object : RawProposal
  an_object :
      (proposal_key investigation_id : Field) (files : RawFiles) (other_keys : ℕ) → RawProposal

pub record ProposalFile : Type 0 where
  pub path : List ℕ
  pub operation : CandidateOperation
  pub expected_base_identity : Option (List ℕ)
  pub resulting_bytes : Option (List ℕ)
  pub resulting_text : Option (List ℕ)
  pub result_content_sha256 : Option (List ℕ)
  pub result_byte_length : ℕ

-- A normalized proposal without its `proposalIdentity`, a hash of its files.
pub record Proposal : Type 0 where
  pub proposal_key : List ℕ
  pub investigation_id : List ℕ
  pub files : List ProposalFile
  pub total_result_bytes : ℕ

abbrev pub is_missing : Field → Bool
is_missing missing = true
is_missing _ = false

abbrev pub is_null : Field → Bool
is_null null_value = true
is_null _ = false

abbrev pub deleted : List ℕ → Option (List ℕ) → ProposalFile
deleted path base = record {
  path = path;
  operation = delete;
  expected_base_identity = base;
  resulting_bytes = none;
  resulting_text = none;
  result_content_sha256 = none;
  result_byte_length = 0;
}

abbrev pub written :
    Host → List ℕ → CandidateOperation → Option (List ℕ) → List ℕ → List ℕ → ProposalFile
written host path operation base bs decoded = record {
  path = path;
  operation = operation;
  expected_base_identity = base;
  resulting_bytes = some bs;
  resulting_text = some decoded;
  result_content_sha256 = some (host.sha256 bs);
  result_byte_length = length bs;
}

-- The result of a file that is written, with the total of the bytes so far.
unfoldable pub write_result :
    Host
    → ℕ
    → List ℕ
    → CandidateOperation
    → Option (List ℕ)
    → Field
    → Checked CandidatePolicyError (ProposalFile × ℕ)
write_result host total path operation base content = do
  (bs, decoded) ← decode_text host content
  refuse_if (ltb max_total_result_bytes (total + length bs)) change_budget_exceeded
  passed (written host path operation base bs decoded, total + length bs)

unfoldable pub result_of :
    Host
    → ℕ
    → List ℕ
    → CandidateOperation
    → Option (List ℕ)
    → Field
    → Checked CandidatePolicyError (ProposalFile × ℕ)
result_of host total path delete base content = do
  refuse_if (not (is_null content)) malformed_proposal
  passed (deleted path base, total)
result_of host total path add base content = write_result host total path add base content
result_of host total path modify base content = write_result host total path modify base content

unfoldable pub normalize_file :
    Host → List (List ℕ) → ℕ → RawFile → Checked CandidatePolicyError (ProposalFile × ℕ)
normalize_file host seen total no_object = refused malformed_proposal
normalize_file host seen total (an_object base operation path content others) = do
  refuse_if
      (is_missing base
        || is_missing operation
        || is_missing path
        || is_missing content
        || not (others == 0))
      malformed_proposal
  operation ← operation_of operation
  path ← candidate_path host path
  refuse_if (contains seen (candidate_path_key host path)) invalid_path
  base ← base_of operation base
  result_of host total path operation base content

-- `input.files.map(…)`, with the keys that were seen. A list has no holes, which `map` skips.
unfoldable pub normalize_files :
    Host → List (List ℕ) → ℕ → List RawFile → Checked CandidatePolicyError (List ProposalFile × ℕ)
normalize_files host seen total [] = passed ([], total)
normalize_files host seen total (raw ∷ raws) = do
  (file, so_far) ← normalize_file host seen total raw
  (files, whole) ← normalize_files host (candidate_path_key host file.path ∷ seen) so_far raws
  passed (file ∷ files, whole)

unfoldable pub insert_file : Host → ProposalFile → List ProposalFile → List ProposalFile
insert_file host file [] = file ∷ []
insert_file host file (other ∷ files) =
    let rest = insert_file host file files in
    if host.at_most file.path other.path then file ∷ other ∷ files else other ∷ rest

-- `.sort((left, right) => left.path.localeCompare(right.path))`
unfoldable pub sort_files : Host → List ProposalFile → List ProposalFile
sort_files host [] = []
sort_files host (file ∷ files) = insert_file host file (sort_files host files)

unfoldable pub any_conflict : List (List ℕ) → Bool
any_conflict [] = false
any_conflict (key ∷ keys) = any (paths_conflict key) keys || any_conflict keys

-- `/^[0-9a-f]{8}-[0-9a-f]{4}-[1-8][0-9a-f]{3}-[89ab][0-9a-f]{3}-[0-9a-f]{12}$/`
abbrev pub uuid_classes : List (ℕ → Bool)
uuid_classes =
    is_hex
    ∷ is_hex
    ∷ is_hex
    ∷ is_hex
    ∷ is_hex
    ∷ is_hex
    ∷ is_hex
    ∷ is_hex
    ∷ dash
    ∷ is_hex
    ∷ is_hex
    ∷ is_hex
    ∷ is_hex
    ∷ dash
    ∷ (λ c. leb b'1' c && leb c b'8')
    ∷ is_hex
    ∷ is_hex
    ∷ is_hex
    ∷ dash
    ∷ (λ c. eqb c b'8' || eqb c b'9' || eqb c b'a' || eqb c b'b')
    ∷ is_hex
    ∷ is_hex
    ∷ is_hex
    ∷ dash
    ∷ is_hex
    ∷ is_hex
    ∷ is_hex
    ∷ is_hex
    ∷ is_hex
    ∷ is_hex
    ∷ is_hex
    ∷ is_hex
    ∷ is_hex
    ∷ is_hex
    ∷ is_hex
    ∷ is_hex
    ∷ []
  where
    dash : ℕ → Bool
    dash c = eqb c b'-'

abbrev pub matches : List (ℕ → Bool) → List ℕ → Bool
matches [] [] = true
matches (p ∷ ps) (c ∷ cs) = p c && matches ps cs
matches _ _ = false

unfoldable pub uuid_of : Field → Checked CandidatePolicyError (List ℕ)
uuid_of (text value) = do
  refuse_if (not (matches uuid_classes value)) malformed_proposal
  passed value
uuid_of _ = refused malformed_proposal

unfoldable pub files_of : RawFiles → Checked CandidatePolicyError (List RawFile)
files_of no_array = refused malformed_proposal
files_of (an_array raws) = do
  refuse_if (ltb (length raws) 1) malformed_proposal
  refuse_if (ltb max_changed_files (length raws)) change_budget_exceeded
  passed raws

unfoldable pub normalize_candidate_proposal :
    Host → RawProposal → Checked CandidatePolicyError Proposal
normalize_candidate_proposal host no_object = refused malformed_proposal
normalize_candidate_proposal host (an_object proposal_key investigation_id files others) = do
  refuse_if (not (others == 0)) malformed_proposal
  proposal_key ← uuid_of proposal_key
  investigation_id ← uuid_of investigation_id
  raws ← files_of files
  (listed, total) ← normalize_files host [] 0 raws
  let sorted = sort_files host listed
  refuse_if (any_conflict (map (λ (f : ProposalFile). candidate_path_key host f.path) sorted))
      invalid_path
  passed (record {
    proposal_key = proposal_key;
    investigation_id = investigation_id;
    files = sorted;
    total_result_bytes = total;
  })
