-- ===== src/Profile/Scripts.antt =====
-- `classifyTestRunner` of lib/execution-profiles/detector.ts: the walk over the scripts that `test`
-- refers to. `none` is `false`.
use vigilo.Prelude.{
  starts_with, ℕ, zero, suc, Bool, true, not, ◌&&◌, ◌||◌, List, [], ◌∷◌, Option, none, some, eqb,
  leb, if◌then◌else◌, length, any, keep, get_elem?, is_upper, is_lower, is_digit, in_class, codes,
  contains, String, ◌==◌, nat_eq, list_eq, option_eq, Eq, by_code, ◌≡◌, ◌↔◌, arith,
}
use vigilo.Prelude.Options.{◌>>=◌, ◌>>◌, reject_if}
use vigilo.Profile.Shell.{split_commands, shell_words}

pub data TestRunner : Type 0 where
  jest node_test vitest : TestRunner

abbrev pub runner_code : TestRunner → ℕ
runner_code jest = 0
runner_code node_test = 1
runner_code vitest = 2

pub runner_code_iff : (a b : TestRunner) → (eqb (runner_code a) (runner_code b) ≡ true) ↔ (a ≡ b)
runner_code_iff a b = ground arith

instance abbrev pub runner_eq : Eq TestRunner
runner_eq = by_code runner_code runner_code_iff

abbrev pub Scripts : Type 0
Scripts = List (List ℕ × List ℕ)

-- `[A-Za-z0-9:_-]`
abbrev is_key_char : ℕ → Bool
is_key_char c = is_upper c || is_lower c || is_digit c || eqb c b':' || eqb c b'_' || eqb c b'-'

-- `/^[A-Za-z0-9:_-]{1,128}$/`
abbrev pub is_key : List ℕ → Bool
is_key = in_class is_key_char 1 128

-- What `scripts[name]` finds on `Object.prototype`: a function of so many arguments, or an object
-- without a length. `splitCommands` reads `undefined` from it so many times.
abbrev pub inherited : List (List ℕ × List ℕ)
inherited =
    (codes "constructor", codes "undefined")
    ∷ (codes "toString", [])
    ∷ (codes "valueOf", [])
    ∷ (codes "toLocaleString", [])
    ∷ (codes "hasOwnProperty", codes "undefined")
    ∷ (codes "isPrototypeOf", codes "undefined")
    ∷ (codes "propertyIsEnumerable", codes "undefined")
    ∷ (codes "__defineGetter__", codes "undefinedundefined")
    ∷ (codes "__defineSetter__", codes "undefinedundefined")
    ∷ (codes "__lookupGetter__", codes "undefined")
    ∷ (codes "__lookupSetter__", codes "undefined")
    ∷ (codes "__proto__", [])
    ∷ []

unfoldable pub entry_of : List ℕ → Scripts → Option (List ℕ)
entry_of name [] = none
entry_of name ((key, script) ∷ rest) =
    let others = entry_of name rest in if key == name then some script else others

abbrev pub or_else : Option (List ℕ) → Option (List ℕ) → Option (List ℕ)
or_else none other = other
or_else (some script) other = some script

-- `scripts[name]`
unfoldable pub script_of : Scripts → List ℕ → Option (List ℕ)
script_of scripts name = or_else (entry_of name scripts) (entry_of name inherited)

-- The sets of the walk. The newest name stands first.
pub record Walk : Type 0 where
  pub visited : List (List ℕ)
  pub active : List (List ℕ)
  pub runners : List TestRunner

abbrev pub max_script_depth : ℕ
max_script_depth = 6

abbrev pub max_referenced_scripts : ℕ
max_referenced_scripts = 32

abbrev word_is : ℕ → String → List (List ℕ) → Bool
word_is i text words = get_elem? words i == some (codes text)

-- Is the command `npm run` or `npm run-script`?
unfoldable pub is_npm_run : List (List ℕ) → Bool
is_npm_run words = word_is 0 "npm" words && (word_is 1 "run" words || word_is 1 "run-script" words)

-- `words[2]`, if it is a script's name.
unfoldable pub referenced : List (List ℕ) → Option (List ℕ)
referenced words = do name ← get_elem? words 2; reject_if (not (is_key name)); some name

abbrev is_test_flag : List ℕ → Bool
is_test_flag word = word == codes "--test" || starts_with (codes "--test=") word

abbrev tail : List (List ℕ) → List (List ℕ)
tail [] = []
tail (w ∷ ws) = ws

-- Which runner does a command start?
unfoldable pub launches : List (List ℕ) → List (List ℕ) → TestRunner → Bool
launches dependencies words node_test =
    word_is 0 "node" words
    && not (contains words (codes "-e"))
    && not (contains words (codes "--eval"))
    && any is_test_flag (tail words)
launches dependencies words vitest =
    word_is 0 "vitest" words && contains dependencies (codes "vitest")
launches dependencies words jest = word_is 0 "jest" words && contains dependencies (codes "jest")

-- `if (...) runners.add(runner)`
unfoldable pub note_runner :
    List (List ℕ) → List (List ℕ) → TestRunner → List TestRunner → List TestRunner
note_runner dependencies words runner runners =
    if launches dependencies words runner && not (contains runners runner)
    then runner ∷ runners
    else runners

unfoldable pub note_runners : List (List ℕ) → List (List ℕ) → Walk → Walk
note_runners dependencies words w = record w {
  runners =
      note_runner dependencies words jest (
        note_runner dependencies words vitest (note_runner dependencies words node_test w.runners));
}

-- One command; `visit` is the walk one level deeper.
unfoldable pub run_command :
    List (List ℕ) → (List ℕ → Walk → Option Walk) → List ℕ → Walk → Option Walk
run_command dependencies visit command w = do
  words ← shell_words command
  reject_if (words == [])
  if is_npm_run words
      then (referenced words >>= λ name. visit name w)
      else some (note_runners dependencies words w)

unfoldable pub run_commands :
    List (List ℕ) → (List ℕ → Walk → Option Walk) → List (List ℕ) → Walk → Option Walk
run_commands dependencies visit [] w = some w
run_commands dependencies visit (command ∷ commands) w =
    run_command dependencies visit command w >>= run_commands dependencies visit commands

abbrev pub enter : List ℕ → Walk → Walk
enter name w = record w { visited = name ∷ w.visited; active = name ∷ w.active }

abbrev pub leave : List ℕ → Walk → Walk
leave name w = record w { active = keep (λ other. not (other == name)) w.active }

-- A name that was not visited before.
unfoldable pub visit_new :
    Scripts → List (List ℕ) → (List ℕ → Walk → Option Walk) → List ℕ → Walk → Option Walk
visit_new scripts dependencies visit name w = do
  script ← script_of scripts name
  commands ← split_commands script
  after ← run_commands dependencies visit commands (enter name w)
  some (leave name after)

-- `visit(name, depth)`, with the levels that are left: a depth beyond the maximum has none.
unfoldable pub visit : Scripts → List (List ℕ) → ℕ → List ℕ → Walk → Option Walk
visit scripts dependencies zero name w = none
visit scripts dependencies (suc levels) name w =
    let deeper = visit_new scripts dependencies (visit scripts dependencies levels) name w in
    if leb max_referenced_scripts (length w.visited) || contains w.active name
    then none
    else if contains w.visited name
    then some w
    else deeper

-- `some runners` for `{ runners, valid: true }`.
unfoldable pub classify_test_runner : Scripts → List (List ℕ) → Option (List TestRunner)
classify_test_runner scripts dependencies = do
  walked ←
      visit scripts dependencies (suc max_script_depth) (codes "test")
        (record { visited = []; active = []; runners = [] })
  some walked.runners
