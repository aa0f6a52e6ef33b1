-- ===== src/Candidate/Tests.antt =====
-- Two proposals, one of a changed and a deleted file, and the theorems on them.
use vigilo.Prelude.{
  ends_with, ℕ, ◌≡◌, refl, Bool, true, false, List, [], ◌∷◌, none, some, codes, leb, starts_with,
  trim_left, trim_right, if◌then◌else◌, ◌==◌, nat_eq, list_eq, string_eq,
}
use vigilo.Prelude.Checks.{refused, passed, ◌>>=◌, ◌>>◌, refuse_if}
use vigilo.Archive.Bytes.{split_slash, starts_with_slash}
use vigilo.Candidate.Context.{
  Host, text, bytes, null_value, unsafe_path, query_invalid, is_unsafe_text, is_unsafe_path,
  normalize_context_path, path_denied_by, path_denied, require_readable_path,
  normalize_search_query, searchable_path, strict_utf8, path_denied_in,
}
use vigilo.Candidate.Rules.{
  modify, delete, invalid_path, package_manifest_change_not_allowed, context_path, candidate_path,
  paths_conflict, decode_text, operation_of, no_base, sha_base, base_of,
}
use vigilo.Candidate.Proposal.{
  RawFile, RawProposal, an_array, Proposal, write_result, result_of, normalize_file,
  normalize_files, insert_file, sort_files, any_conflict, uuid_of, files_of,
  normalize_candidate_proposal,
}
use vigilo.Candidate.Paths.{IsContextPath, readable-IsContextPath}
use vigilo.Candidate.Accepted.{IsAccepted, normalize-IsAccepted}
use vigilo.Candidate.Causes.{IsProposalCause}
use vigilo.Candidate.Refusals.{normalize-IsProposalCause}

runs : Unit {0}
unfolding ◌>>=◌ ◌>>◌ refuse_if starts_with trim_left trim_right split_slash starts_with_slash
    is_unsafe_text is_unsafe_path normalize_context_path ends_with path_denied_by
    require_readable_path normalize_search_query searchable_path strict_utf8 context_path
    candidate_path paths_conflict decode_text operation_of no_base sha_base base_of write_result
    result_of normalize_file normalize_files insert_file sort_files any_conflict uuid_of files_of
    normalize_candidate_proposal
runs = tt

abbrev before : List ℕ → List ℕ → Bool
before [] ys = true
before (x ∷ xs) [] = false
before (x ∷ xs) (y ∷ ys) = if x == y then before xs ys else leb x y

-- Texts of ASCII characters, with paths that are normal and without an extension.
abbrev host : Host
host = record {
  nfc = λ t. t;
  lower = λ t. t;
  normalize_path = λ t. t;
  extname = λ t. [];
  basename = λ t. t;
  encode = λ t. t;
  decode = λ t. t;
  strict_decode = λ t. some t;
  sha256 = λ t. codes "h";
  at_most = before;
}

readable : require_readable_path host (text (codes "lib/a.ts")) ≡ passed (codes "lib/a.ts")
unfolding runs
readable = refl

climbing : require_readable_path host (text (codes "lib/../a")) ≡ refused unsafe_path
unfolding runs
climbing = refl

dependency : require_readable_path host (text (codes "node_modules/a")) ≡ refused path_denied
unfolding runs
dependency = refl

minified : path_denied_in host (codes "lib/a.min.js") ≡ true
unfolding runs
minified = refl

searched : normalize_search_query host (text (codes "  a b ")) ≡ passed (codes "a b")
unfolding runs
searched = refl

no_query : normalize_search_query host (text (codes "  ")) ≡ refused query_invalid
unfolding runs
no_query = refl

searchable : searchable_path host (codes "lib/a") ≡ true
unfolding runs
searchable = refl

with_zero : strict_utf8 host (1 ∷ 0 ∷ []) ≡ none
unfolding runs
with_zero = refl

readable-IsContextPath_example :
    (text (codes "lib/a.ts") ≡ text (codes "lib/a.ts"))
    × IsContextPath (codes "lib/a.ts")
    × (path_denied_in host (codes "lib/a.ts") ≡ false)
readable-IsContextPath_example =
    readable-IsContextPath host (text (codes "lib/a.ts")) (codes "lib/a.ts") readable

abbrev uuid : List ℕ
uuid = codes "01234567-89ab-4cde-8f01-23456789abcd"

abbrev sha : List ℕ
sha = codes "0123456789abcdef0123456789abcdef01234567"

abbrev change : List ℕ → RawFile
change path = RawFile.an_object (text sha) (text (codes "modify")) (text path) (bytes (codes "x")) 0

abbrev removal : List ℕ → RawFile
removal path = RawFile.an_object (text sha) (text (codes "delete")) (text path) null_value 0

abbrev raw : List RawFile → RawProposal
raw files = RawProposal.an_object (text uuid) (text uuid) (an_array files) 0

abbrev two_files : RawProposal
two_files = raw (change (codes "lib/b") ∷ removal (codes "lib/a") ∷ [])

abbrev proposal : Proposal
proposal = record {
  proposal_key = uuid;
  investigation_id = uuid;
  files =
      (record {
        path = codes "lib/a";
        operation = delete;
        expected_base_identity = some sha;
        resulting_bytes = none;
        resulting_text = none;
        result_content_sha256 = none;
        result_byte_length = 0;
      })
      ∷ (record {
        path = codes "lib/b";
        operation = modify;
        expected_base_identity = some sha;
        resulting_bytes = some (codes "x");
        resulting_text = some (codes "x");
        result_content_sha256 = some (codes "h");
        result_byte_length = 1;
      })
      ∷ [];
  total_result_bytes = 1;
}

accepted : normalize_candidate_proposal host two_files ≡ passed proposal
unfolding runs
accepted = refl

conflicting :
    normalize_candidate_proposal host (raw (change (codes "lib/b") ∷ removal (codes "lib") ∷ []))
    ≡ refused invalid_path
unfolding runs
conflicting = refl

normalize-IsAccepted_example : IsAccepted host proposal
normalize-IsAccepted_example = normalize-IsAccepted host two_files proposal accepted

-- The second file is refused for its name.
manifest_refused :
    normalize_candidate_proposal host
      (raw (change (codes "lib/b") ∷ removal (codes "package.json") ∷ []))
    ≡ refused package_manifest_change_not_allowed
unfolding runs
manifest_refused = refl

normalize-IsProposalCause_example :
    IsProposalCause host
      (raw (change (codes "lib/b") ∷ removal (codes "package.json") ∷ []))
      package_manifest_change_not_allowed
normalize-IsProposalCause_example =
    normalize-IsProposalCause host
      (raw (change (codes "lib/b") ∷ removal (codes "package.json") ∷ [])) manifest_refused
