-- ===== src/Profile/Detect.antt =====
-- `detectExecutionProfile` of lib/execution-profiles/detector.ts with the readers of package.json.
use vigilo.Prelude.{
  ℕ, ◌+◌, Bool, true, false, not, ◌&&◌, ◌||◌, List, [], ◌∷◌, Option, none, some, String, eqb, leb,
  ltb, if◌then◌else◌, any, find, is_some, is_git_sha, codes, contains, ◌==◌, nat_eq, string_eq,
  list_eq, option_eq,
}
use vigilo.Prelude.Checks.{Checked, refused, passed, ◌>>=◌, ◌>>◌, refuse_if, present_or}
use vigilo.Json.{Json, number, string, object, Members, property, members}
use vigilo.Profile.Scripts.{TestRunner, Scripts, is_key, entry_of, classify_test_runner}

pub data Reason : Type 0 where
  ambiguous_test_runner conflicting_lockfiles invalid_package_lock invalid_script_graph : Reason
  malformed_package_json missing_package_json missing_package_lock missing_test_script : Reason
  unsupported_monorepo unsupported_node_version unsupported_package_manager : Reason
  unsupported_test_runner : Reason

pub data EntryType : Type 0 where
  dir file submodule symlink : EntryType

abbrev is_file : EntryType → Bool
is_file file = true
is_file _ = false

pub record RootEntry : Type 0 where
  pub path : String
  pub sha : String
  pub entry_type : EntryType

pub record InspectedFile : Type 0 where
  pub content : String
  pub sha : String

pub record Inspection : Type 0 where
  pub base_commit_sha : String
  pub github_repository_id : ℕ
  pub installation_id : ℕ
  pub package_json : Option InspectedFile
  pub package_lock : Option InspectedFile
  pub root_entries : List RootEntry
  pub workspace_id : String

-- A ready profile without the fields that are the same in all of them.
pub record Facts : Type 0 where
  pub base_commit_sha : String
  pub build : Option String
  pub github_repository_id : ℕ
  pub installation_id : ℕ
  pub package_json_blob_sha : String
  pub package_json_content_sha256 : String
  pub package_lock_blob_sha : String
  pub package_lock_content_sha256 : String
  pub test : String
  pub test_runner : TestRunner
  pub typecheck : Option String
  pub workspace_id : String

pub record Ready : Type 0 where
  pub facts : Facts
  pub profile_identity : String

-- `JSON.parse`, the hashes of node:crypto, and `validRange` and `satisfies('24.0.0', _)` of semver.
pub record Host : Type 0 where
  pub parse_json : String → Option Json
  pub git_blob_sha : String → String
  pub content_sha256 : String → String
  pub valid_range : List ℕ → Bool
  pub satisfied_by_24 : List ℕ → Bool
  pub profile_identity : Facts → String

abbrev pub competing_lockfiles : List String
competing_lockfiles =
    "bun.lock" ∷ "bun.lockb" ∷ "npm-shrinkwrap.json" ∷ "pnpm-lock.yaml" ∷ "yarn.lock" ∷ []

abbrev pub monorepo_markers : List String
monorepo_markers =
    "lerna.json" ∷ "nx.json" ∷ "pnpm-workspace.yaml" ∷ "rush.json" ∷ "turbo.json" ∷ "workspace.json"
    ∷ []

abbrev pub has_entry : List String → Inspection → Bool
has_entry names input = any (λ (e : RootEntry). contains names e.path) input.root_entries

abbrev entry_at : String → Inspection → Option RootEntry
entry_at path input = find (λ (e : RootEntry). e.path == path) input.root_entries

unfoldable pub valid_inspected_file : Host → InspectedFile → Bool
valid_inspected_file host f = is_git_sha f.sha && host.git_blob_sha f.content == f.sha

abbrev object_members : Json → Option Members
object_members (object ms) = some ms
object_members _ = none

-- `parseObject`
abbrev members_of : Option Json → Option Members
members_of none = none
members_of (some value) = object_members value

unfoldable pub parse_object : Host → String → Option Members
parse_object host content = members_of (host.parse_json content)

-- The bytes of a text in UTF-8.
abbrev utf8_length : List ℕ → ℕ
utf8_length [] = 0
utf8_length (c ∷ cs) =
    (if ltb c 0x80 then 1 else if ltb c 0x800 then 2 else if ltb c 0x10000 then 3 else 4)
    + utf8_length cs

abbrev pub max_script_bytes : ℕ
max_script_bytes = 8192

-- `result.__proto__ = candidate` changes nothing.
abbrev set_entry : List ℕ → List ℕ → Scripts → Scripts
set_entry key script rest = if key == codes "__proto__" then rest else (key, script) ∷ rest

abbrev add_script : String → Json → Option Scripts → Option Scripts
add_script key (string text) (some rest) =
    if not (is_key (codes key)) || ltb max_script_bytes (utf8_length (codes text))
    then none
    else some (set_entry (codes key) (codes text) rest)
add_script key value rest = none

unfoldable pub script_entries : List (String × Json) → Option Scripts
script_entries [] = some []
script_entries ((key, value) ∷ rest) = add_script key value (script_entries rest)

unfoldable pub string_record : Option Json → Option Scripts
string_record none = some []
string_record (some (object ms)) = script_entries (members ms)
string_record (some _) = none

abbrev add_dependency : String → Json → Option (List (List ℕ)) → Option (List (List ℕ))
add_dependency name (string version) (some rest) =
    if version == "" then none else some (codes name ∷ rest)
add_dependency name value rest = none

unfoldable pub dependency_entries :
    List (String × Json) → Option (List (List ℕ)) → Option (List (List ℕ))
dependency_entries [] rest = rest
dependency_entries ((name, version) ∷ more) rest =
    add_dependency name version (dependency_entries more rest)

abbrev dependency_field : Option Json → Option (List (List ℕ)) → Option (List (List ℕ))
dependency_field none rest = rest
dependency_field (some (object ms)) rest = dependency_entries (members ms) rest
dependency_field (some _) rest = none

unfoldable pub dependency_names : Members → Option (List (List ℕ))
dependency_names manifest =
    dependency_field (property "dependencies" manifest)
      (dependency_field (property "devDependencies" manifest) (some []))

abbrev is_line_end : ℕ → Bool
is_line_end c = eqb c 10 || eqb c 13 || eqb c 0x2028 || eqb c 0x2029

-- `/^npm@(.+)$/`
abbrev pub npm_version : List ℕ → Option (List ℕ)
npm_version (n ∷ p ∷ m ∷ a ∷ v ∷ vs) =
    if (n ∷ p ∷ m ∷ a ∷ []) == codes "npm@" && not (any is_line_end (v ∷ vs))
    then some (v ∷ vs)
    else none
npm_version _ = none

abbrev pub in_range : Host → Option (List ℕ) → Bool
in_range host none = false
in_range host (some range) = host.valid_range range

unfoldable pub valid_package_manager : Host → Option Json → Bool
valid_package_manager host none = true
valid_package_manager host (some (string text)) = in_range host (npm_version (codes text))
valid_package_manager host (some _) = false

unfoldable pub node24_compatible : Host → Option Json → Bool
node24_compatible host (some (string text)) =
    host.valid_range (codes text) && host.satisfied_by_24 (codes text)
node24_compatible host _ = false

abbrev is_object : Option Json → Bool
is_object (some (object ms)) = true
is_object _ = false

abbrev pub has_root_package : Option Json → Bool
has_root_package (some (object ms)) = is_object (property "" ms)
has_root_package _ = false

abbrev pub at_least_2 : Option Json → Bool
at_least_2 (some (number n)) = leb 2 n
at_least_2 _ = false

unfoldable pub validate_package_lock : Members → Bool
validate_package_lock lock =
    at_least_2 (property "lockfileVersion" lock) && has_root_package (property "packages" lock)

abbrev pub engine_of : Option Json → Option Json
engine_of (some (object ms)) = property "node" ms
engine_of _ = none

-- The two files, each with the entry of the root that it belongs to.
unfoldable pub checked_files : Host → Inspection → Checked Reason (InspectedFile × InspectedFile)
checked_files host input = do
  refuse_if (has_entry competing_lockfiles input) conflicting_lockfiles
  refuse_if (has_entry monorepo_markers input) unsupported_monorepo
  json_entry ← present_or (entry_at "package.json" input) missing_package_json
  json ← present_or input.package_json missing_package_json
  lock_entry ← present_or (entry_at "package-lock.json" input) missing_package_lock
  lock ← present_or input.package_lock missing_package_lock
  refuse_if (not (is_file json_entry.entry_type && json_entry.sha == json.sha))
      malformed_package_json
  refuse_if (not (is_file lock_entry.entry_type && lock_entry.sha == lock.sha)) invalid_package_lock
  refuse_if (not (valid_inspected_file host json)) malformed_package_json
  refuse_if (not (valid_inspected_file host lock)) invalid_package_lock
  passed (json, lock)

abbrev pub has_script : String → Scripts → Bool
has_script name scripts =
    is_some (entry_of (codes name) scripts) && not (entry_of (codes name) scripts == some [])

unfoldable pub checked_manifest :
    Host → InspectedFile → InspectedFile → Checked Reason (Scripts × List (List ℕ))
checked_manifest host json lock = do
  manifest ← present_or (parse_object host json.content) malformed_package_json
  lockfile ← present_or (parse_object host lock.content) invalid_package_lock
  refuse_if (not (validate_package_lock lockfile)) invalid_package_lock
  refuse_if (is_some (property "workspaces" manifest)) unsupported_monorepo
  refuse_if (not (valid_package_manager host (property "packageManager" manifest)))
      unsupported_package_manager
  refuse_if (not (node24_compatible host (engine_of (property "engines" manifest))))
      unsupported_node_version
  scripts ← present_or (string_record (property "scripts" manifest)) malformed_package_json
  dependencies ← present_or (dependency_names manifest) malformed_package_json
  refuse_if (not (has_script "test" scripts)) missing_test_script
  passed (scripts, dependencies)

unfoldable pub only_runner : List TestRunner → Checked Reason TestRunner
only_runner [] = refused unsupported_test_runner
only_runner (runner ∷ []) = passed runner
only_runner (runner ∷ other ∷ more) = refused ambiguous_test_runner

abbrev optional_script : String → Scripts → Option String
optional_script name scripts = if has_script name scripts then some name else none

abbrev pub facts_of :
    Host → Inspection → InspectedFile → InspectedFile → Scripts → TestRunner → Facts
facts_of host input json lock scripts runner = record {
  base_commit_sha = input.base_commit_sha;
  build = optional_script "build" scripts;
  github_repository_id = input.github_repository_id;
  installation_id = input.installation_id;
  package_json_blob_sha = json.sha;
  package_json_content_sha256 = host.content_sha256 json.content;
  package_lock_blob_sha = lock.sha;
  package_lock_content_sha256 = host.content_sha256 lock.content;
  test = "test";
  test_runner = runner;
  typecheck = optional_script "typecheck" scripts;
  workspace_id = input.workspace_id;
}

unfoldable pub detect_execution_profile : Host → Inspection → Checked Reason Ready
detect_execution_profile host input = do
  (json, lock) ← checked_files host input
  (scripts, dependencies) ← checked_manifest host json lock
  runners ← present_or (classify_test_runner scripts dependencies) invalid_script_graph
  runner ← only_runner runners
  let facts = facts_of host input json lock scripts runner
  passed (record { facts = facts; profile_identity = host.profile_identity facts })
