-- ===== src/Profile/Shell.antt =====
-- `splitCommands` and `shellWords` of lib/execution-profiles/detector.ts: each loop is a fold of one
-- step over the characters of a text.
use vigilo.Prelude.{
  ℕ, Bool, true, false, not, ◌&&◌, ◌||◌, List, [], ◌∷◌, ◌++◌, Option, none, some, eqb,
  if◌then◌else◌, is_white, trim, is_some, ◌==◌, nat_eq, option_eq, list_eq,
}

-- `if (current.trim()) commands.push(current.trim())`
unfoldable pub push_trimmed : List ℕ → List (List ℕ) → List (List ℕ)
push_trimmed current commands =
    if trim current == [] then commands else commands ++ (trim current ∷ [])

-- The variables of `splitCommands`. After `|` and `&` the same character is skipped once.
pub record Splitter : Type 0 where
  pub commands : List (List ℕ)
  pub current : List ℕ
  pub quote : Option ℕ
  pub escaped : Bool
  pub skip : Option ℕ

abbrev is_quote : ℕ → Bool
is_quote c = eqb c b'\'' || eqb c b'"'

abbrev is_separator : ℕ → Bool
is_separator c = eqb c b';' || eqb c 10 || eqb c b'|' || eqb c b'&'

abbrev doubled : ℕ → Option ℕ
doubled c = if eqb c b'|' || eqb c b'&' then some c else none

abbrev pub add_current : ℕ → Splitter → Splitter
add_current c s = record s { current = s.current ++ (c ∷ []) }

abbrev end_command : ℕ → Splitter → Splitter
end_command c s = record s {
  commands = push_trimmed s.current s.commands;
  current = [];
  skip = doubled c;
}

abbrev split_open : ℕ → Splitter → Splitter
split_open c s =
    if is_quote c
    then record (add_current c s) { quote = some c }
    else if is_separator c
    then end_command c s
    else add_current c s

-- One character that is neither escaped nor skipped.
abbrev split_plain : ℕ → Splitter → Splitter
split_plain c s =
    if eqb c b'\\' && not (s.quote == some b'\'')
    then record (add_current c s) { escaped = true }
    else if is_some s.quote
    then record (add_current c s) { quote = if s.quote == some c then none else s.quote }
    else split_open c s

unfoldable pub split_step : ℕ → Splitter → Splitter
split_step c s =
    if s.escaped
    then record (add_current c s) { escaped = false }
    else if s.skip == some c
    then record s { skip = none }
    else split_plain c (record s { skip = none })

unfoldable pub split_all : List ℕ → Splitter → Splitter
split_all [] s = s
split_all (c ∷ cs) s = split_all cs (split_step c s)

abbrev pub new_splitter : Splitter
new_splitter = record { commands = []; current = []; quote = none; escaped = false; skip = none }

unfoldable pub split_end : Splitter → Option (List (List ℕ))
split_end s =
    if is_some s.quote || s.escaped then none else some (push_trimmed s.current s.commands)

unfoldable pub split_commands : List ℕ → Option (List (List ℕ))
split_commands script = split_end (split_all script new_splitter)

-- The variables of `shellWords`.
pub record Worder : Type 0 where
  pub words : List (List ℕ)
  pub current : List ℕ
  pub quote : Option ℕ
  pub escaped : Bool

-- `if (current) words.push(current)`
unfoldable pub push_word : List ℕ → List (List ℕ) → List (List ℕ)
push_word current words = if current == [] then words else words ++ (current ∷ [])

abbrev add_letter : ℕ → Worder → Worder
add_letter c w = record w { current = w.current ++ (c ∷ []) }

abbrev word_open : ℕ → Worder → Worder
word_open c w =
    if is_quote c
    then record w { quote = some c }
    else if is_white c
    then record w { words = push_word w.current w.words; current = [] }
    else add_letter c w

unfoldable pub word_step : ℕ → Worder → Worder
word_step c w =
    if w.escaped
    then record (add_letter c w) { escaped = false }
    else if eqb c b'\\' && not (w.quote == some b'\'')
    then record w { escaped = true }
    else if is_some w.quote
    then (if w.quote == some c then record w { quote = none } else add_letter c w)
    else word_open c w

unfoldable pub word_all : List ℕ → Worder → Worder
word_all [] w = w
word_all (c ∷ cs) w = word_all cs (word_step c w)

abbrev pub new_worder : Worder
new_worder = record { words = []; current = []; quote = none; escaped = false }

unfoldable pub word_end : Worder → Option (List (List ℕ))
word_end w = if is_some w.quote || w.escaped then none else some (push_word w.current w.words)

unfoldable pub shell_words : List ℕ → Option (List (List ℕ))
shell_words command = word_end (word_all command new_worder)
