-- ===== src/Profile/Tests.antt =====
-- A repository with two scripts, its profile, and the theorems on it.
use vigilo.Prelude.{
  ℕ, ◌≡◌, ◌↔◌, refl, true, List, [], ◌∷◌, none, some, String, Memᴰ, codes, map, if◌then◌else◌, ◌==◌,
  string_eq, trim_left, trim_right, starts_with, All,
}
use vigilo.Prelude.Options.{◌>>=◌ as option_bind, ◌>>◌ as option_then, reject_if}
use vigilo.Prelude.Checks.{passed, ◌>>=◌, ◌>>◌, refuse_if, present_or}
use vigilo.Json.{Json, number, string, object, object_of, property}
use vigilo.Profile.Shell.{
  push_trimmed, split_step, split_all, split_end, split_commands, push_word, word_step, word_all,
  word_end, shell_words,
}
use vigilo.Profile.Scripts.{
  TestRunner, node_test, Scripts, entry_of, script_of, is_npm_run, referenced, launches,
  note_runner, note_runners, run_command, run_commands, visit_new, visit, classify_test_runner,
}
use vigilo.Profile.Detect.{
  file, dir, Inspection, Host, Ready, valid_inspected_file, parse_object, script_entries,
  string_record, dependency_entries, dependency_names, valid_package_manager, node24_compatible,
  validate_package_lock, checked_files, checked_manifest, only_runner, detect_execution_profile,
}
use vigilo.Profile.Order.{Reads, Reached, Leads}
use vigilo.Profile.Walks.{Started}
use vigilo.Profile.Ready.{IsFound, classify-exact, IsReady, detect-IsReady}
use vigilo.Profile.Printer.{print_words, print_script}
use vigilo.Profile.Printer.Commands.{IsPrintable, words_of, split_commands-print_script}

runs : Unit {0}
unfolding option_bind option_then reject_if ◌>>=◌ ◌>>◌ refuse_if present_or property trim_left
    trim_right push_trimmed split_step split_all split_end split_commands push_word word_step
    word_all word_end shell_words entry_of script_of is_npm_run referenced starts_with launches
    note_runner note_runners run_command run_commands visit_new visit classify_test_runner
    valid_inspected_file parse_object script_entries string_record dependency_entries
    dependency_names valid_package_manager node24_compatible validate_package_lock checked_files
    checked_manifest only_runner detect_execution_profile
runs = tt

abbrev scripts : Scripts
scripts =
    (codes "test", codes "npm run unit && echo done")
    ∷ (codes "unit", codes "node --test")
    ∷ (codes "other", codes "npm run other")
    ∷ []

classified : classify_test_runner scripts [] ≡ some (node_test ∷ [])
unfolding runs
classified = refl

classify-exact_example :
    ((name : List ℕ)
      → Reached scripts [] name
      → IsFound scripts name × Reads scripts [] name × (¬ Leads scripts [] name name))
    × ((runner : TestRunner) → Memᴰ runner (node_test ∷ []) ↔ Started scripts [] runner)
classify-exact_example = classify-exact scripts [] (node_test ∷ []) classified

-- A script that refers to itself is refused.
cyclic :
    classify_test_runner
      ((codes "test", codes "npm run a") ∷ (codes "a", codes "npm run test") ∷ [])
      []
    ≡ none
unfolding runs
cyclic = refl

-- A reference to a name of `Object.prototype` is accepted, although no such script is there.
inherited_accepted :
    classify_test_runner ((codes "test", codes "npm run constructor; node --test") ∷ []) []
    ≡ some (node_test ∷ [])
unfolding runs
inherited_accepted = refl

abbrev sha : String
sha = "0123456789abcdef0123456789abcdef01234567"

abbrev manifest : Json
manifest = object (
    object_of (
      ("engines", object (object_of (("node", string ">=24") ∷ [])))
      ∷ (
        "scripts",
        object (object_of (("test", string "npm run unit") ∷ ("unit", string "node --test") ∷ [])),
      )
      ∷ []))

abbrev lock : Json
lock = object (
    object_of (
      ("lockfileVersion", number 3)
      ∷ ("packages", object (object_of (("", object (object_of [])) ∷ [])))
      ∷ []))

abbrev host : Host
host = record {
  parse_json = λ content. if content == "manifest" then some manifest else some lock;
  git_blob_sha = λ content. sha;
  content_sha256 = λ content. content;
  valid_range = λ range. true;
  satisfied_by_24 = λ range. true;
  profile_identity = λ facts. facts.base_commit_sha;
}

abbrev input : Inspection
input = record {
  base_commit_sha = "base";
  github_repository_id = 7;
  installation_id = 9;
  package_json = some (record { content = "manifest"; sha = sha });
  package_lock = some (record { content = "lock"; sha = sha });
  root_entries =
      record { path = "package.json"; sha = sha; entry_type = file }
      ∷ record { path = "package-lock.json"; sha = sha; entry_type = file }
      ∷ record { path = "src"; sha = sha; entry_type = dir }
      ∷ [];
  workspace_id = "w1";
}

abbrev profile : Ready
profile = record {
  facts = record {
    base_commit_sha = "base";
    build = none;
    github_repository_id = 7;
    installation_id = 9;
    package_json_blob_sha = sha;
    package_json_content_sha256 = "manifest";
    package_lock_blob_sha = sha;
    package_lock_content_sha256 = "lock";
    test = "test";
    test_runner = node_test;
    typecheck = none;
    workspace_id = "w1";
  };
  profile_identity = "base";
}

detected : detect_execution_profile host input ≡ passed profile
unfolding runs
detected = refl

detect-IsReady_example : IsReady host input profile
detect-IsReady_example = detect-IsReady host input profile detected

abbrev commands : List (List (List ℕ))
commands = (codes "npm" ∷ codes "run" ∷ codes "a;b" ∷ []) ∷ (codes "jest" ∷ []) ∷ []

nonempty : {c : ℕ} {cs : List ℕ} → ¬ (c ∷ cs ≡ [])
nonempty h = cc

some_words : {w : List ℕ} {ws : List (List ℕ)} → ¬ (w ∷ ws ≡ [])
some_words h = cc

printable : All IsPrintable commands
printable = (
  record {
    some_word = some_words;
    words = (
      record { nonempty = nonempty; no_quote = refl },
      (
        record { nonempty = nonempty; no_quote = refl },
        (record { nonempty = nonempty; no_quote = refl }, tt),
      ),
    );
  },
  (
    record {
      some_word = some_words;
      words = (record { nonempty = nonempty; no_quote = refl }, tt);
    },
    tt,
  ),
)

split_commands-print_script_example :
    (split_commands (print_script commands) ≡ some (map print_words commands))
    × (words_of (map print_words commands) ≡ map some commands)
split_commands-print_script_example = split_commands-print_script commands printable
