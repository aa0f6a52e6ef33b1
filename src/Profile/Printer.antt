-- ===== src/Profile/Printer.antt =====
-- A printer of scripts as lib/execution-profiles/detector.ts reads them.
mod Words
pub mod Commands
use mathlib.Core.Path.{subst}
use mathlib.Core.List.{append-nil}
use vigilo.Prelude.{
  ℕ, ◌≡◌, ◌≢◌, refl, sym, ap, ◌∙◌, arith, inl, inr, Bool, true, false, not, ◌&&◌, ◌||◌, List, [],
  ◌∷◌, ◌++◌, map, Option, none, some, eqb, leb, any, all, if◌then◌else◌, is_white, trim, trim_left,
  trim_right, is_some, ◌==◌, nat_eq, option_eq, list_eq, or-eq-false, Bool-cases, All,
}
use vigilo.Prelude.Options.{◌>>=◌, ◌>>◌}
use vigilo.Profile.Shell.{
  Splitter, Worder, split_step, split_all, split_end, split_commands, new_splitter, word_step,
  word_all, word_end, shell_words, new_worder, push_trimmed, push_word, add_current,
}

abbrev pub quoted : List ℕ → List ℕ
quoted word = b'\'' ∷ (word ++ (b'\'' ∷ []))

-- Words in single quotes, with a space before each but the first.
abbrev pub print_words : List (List ℕ) → List ℕ
print_words [] = []
print_words (word ∷ []) = quoted word
print_words (word ∷ next ∷ words) = quoted word ++ (32 ∷ print_words (next ∷ words))

-- Commands with a semicolon between them.
abbrev pub print_script : List (List (List ℕ)) → List ℕ
print_script [] = []
print_script (command ∷ []) = print_words command
print_script (command ∷ next ∷ commands) =
    print_words command ++ (b';' ∷ print_script (next ∷ commands))

-- A word that single quotes can hold.
pub record IsQuotable (word : List ℕ) : Type 0 where
  pub nonempty : word ≢ []
  pub no_quote : any (λ c. eqb c b'\'') word ≡ false
