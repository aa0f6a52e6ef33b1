-- ===== src/Profile/Printer/Commands.antt =====
-- `splitCommands` of lib/execution-profiles/detector.ts on a printed script.
use mathlib.Core.List.{append-nil, append_assoc}
use vigilo.Prelude.{
  ℕ, ◌≡◌, ◌≢◌, refl, sym, ap, ◌∙◌, arith, false, List, [], ◌∷◌, ◌++◌, map, Option, none, some, eqb,
  any, all, is_white, trim, trim_left, trim_right, ◌==◌, nat_eq, option_eq, list_eq, or-eq-false,
  All,
}
use vigilo.Profile.Shell.{
  Splitter, split_step, split_all, split_end, split_commands, new_splitter, shell_words,
  push_trimmed,
}
use vigilo.Profile.Printer.{quoted, print_words, print_script, IsQuotable}
use vigilo.Profile.Printer.Words.{word_end-print_words}

-- The splitter, inside single quotes and outside.
abbrev inside : List (List ℕ) → List ℕ → Splitter
inside commands current = record {
  commands = commands;
  current = current;
  quote = some b'\'';
  escaped = false;
  skip = none;
}

abbrev between : List (List ℕ) → List ℕ → Splitter
between commands current = record {
  commands = commands;
  current = current;
  quote = none;
  escaped = false;
  skip = none;
}

split_step-inside :
    (c : ℕ) (commands : List (List ℕ)) (current : List ℕ)
    → eqb c b'\'' ≡ false
    → split_step c (inside commands current) ≡ inside commands (current ++ (c ∷ []))
unfolding split_step
split_step-inside c commands current h = ground arith

split_all-inside :
    (word rest : List ℕ) (commands : List (List ℕ)) (current : List ℕ)
    → any (λ c. eqb c b'\'') word ≡ false
    → split_all (word ++ rest) (inside commands current)
      ≡ split_all rest (inside commands (current ++ word))
unfolding split_all
split_all-inside [] rest commands current h =
    ap (λ x. split_all rest (inside commands x)) (sym (append-nil current))
split_all-inside (c ∷ cs) rest commands current h =
    let (here, there) = or-eq-false (eqb c b'\'') (any (λ d. eqb d b'\'') cs) h in
    ap (split_all (cs ++ rest)) (split_step-inside c commands current here)
    ∙ split_all-inside cs rest commands (current ++ (c ∷ [])) there
    ∙ ap (λ x. split_all rest (inside commands x)) (append_assoc current (c ∷ []) cs)

split_all-quoted :
    (word rest : List ℕ) (commands : List (List ℕ)) (current : List ℕ)
    → IsQuotable word
    → split_all (quoted word ++ rest) (between commands current)
      ≡ split_all rest (between commands (current ++ quoted word))
unfolding split_all split_step
split_all-quoted word rest commands current q =
    let opened = current ++ (b'\'' ∷ []) in
    ap (λ x. split_all x (inside commands opened)) (append_assoc word (b'\'' ∷ []) rest)
    ∙ split_all-inside word (b'\'' ∷ rest) commands opened q.no_quote
    ∙ ap (λ x. split_all rest (between commands x))
        (append_assoc opened word (b'\'' ∷ [])
          ∙ append_assoc current (b'\'' ∷ []) (word ++ (b'\'' ∷ [])))

split_all-print_words :
    (word : List ℕ) (more : List (List ℕ)) (rest : List ℕ) (commands : List (List ℕ))
    (current : List ℕ)
    → All IsQuotable (word ∷ more)
    → split_all (print_words (word ∷ more) ++ rest) (between commands current)
      ≡ split_all rest (between commands (current ++ print_words (word ∷ more)))
unfolding split_all split_step
split_all-print_words word [] rest commands current (q, _) =
    split_all-quoted word rest commands current q
split_all-print_words word (next ∷ more) rest commands current (q, qs) =
    let tail = print_words (next ∷ more) in
    ap (λ x. split_all x (between commands current)) (append_assoc (quoted word) (32 ∷ tail) rest)
    ∙ split_all-quoted word (32 ∷ (tail ++ rest)) commands current q
    ∙ split_all-print_words next more rest commands ((current ++ quoted word) ++ (32 ∷ [])) qs
    ∙ ap (λ x. split_all rest (between commands x))
        (append_assoc (current ++ quoted word) (32 ∷ []) tail
          ∙ append_assoc current (quoted word) (32 ∷ tail))

all-white-quote : (xs : List ℕ) → all is_white (xs ++ (b'\'' ∷ [])) ≡ false
all-white-quote [] = refl
all-white-quote (x ∷ xs) = ground (arith, all-white-quote xs)

trim_right-quote : (xs : List ℕ) → trim_right (xs ++ (b'\'' ∷ [])) ≡ xs ++ (b'\'' ∷ [])
unfolding trim_right
trim_right-quote [] = refl
trim_right-quote (x ∷ xs) = rw (all-white-quote (x ∷ xs)) (ap (λ ys. x ∷ ys) (trim_right-quote xs))

-- A printed command ends with a quote, and begins with one.
print_words-last :
    (word : List ℕ) (more : List (List ℕ))
    → (xs : List ℕ) × (print_words (word ∷ more) ≡ xs ++ (b'\'' ∷ []))
print_words-last word [] = (b'\'' ∷ word, refl)
print_words-last word (next ∷ more) =
    let (xs, e) = print_words-last next more in
    (
      quoted word ++ (32 ∷ xs),
      ap (λ ys. quoted word ++ (32 ∷ ys)) e
          ∙ sym (append_assoc (quoted word) (32 ∷ xs) (b'\'' ∷ [])),
    )

trim_left-print_words :
    (word : List ℕ) (more : List (List ℕ))
    → trim_left (print_words (word ∷ more)) ≡ print_words (word ∷ more)
unfolding trim_left
trim_left-print_words word [] = refl
trim_left-print_words word (next ∷ more) = refl

trim-print_words :
    (word : List ℕ) (more : List (List ℕ))
    → trim (print_words (word ∷ more)) ≡ print_words (word ∷ more)
trim-print_words word more =
    let (xs, e) = print_words-last word more in
    ap trim_left (ap trim_right e ∙ trim_right-quote xs ∙ sym e) ∙ trim_left-print_words word more

print_words-nonempty :
    (word : List ℕ) (more : List (List ℕ)) → (print_words (word ∷ more) == []) ≡ false
print_words-nonempty word [] = refl
print_words-nonempty word (next ∷ more) = refl

push_trimmed-print_words :
    (word : List ℕ) (more commands : List (List ℕ))
    → push_trimmed (print_words (word ∷ more)) commands
      ≡ commands ++ (print_words (word ∷ more) ∷ [])
unfolding push_trimmed
push_trimmed-print_words word more commands =
    rw (trim-print_words word more) (rw (print_words-nonempty word more))

-- A command of words that single quotes can hold.
pub record IsPrintable (command : List (List ℕ)) : Type 0 where
  pub some_word : command ≢ []
  pub words : All IsQuotable command

split_all-semicolon :
    (command : List (List ℕ)) (rest : List ℕ) (commands : List (List ℕ))
    → IsPrintable command
    → split_all (print_words command ++ (b';' ∷ rest)) (between commands [])
      ≡ split_all rest (between (commands ++ (print_words command ∷ [])) [])
unfolding split_all split_step
split_all-semicolon [] rest commands p = absurd (p.some_word refl)
split_all-semicolon (word ∷ more) rest commands p =
    split_all-print_words word more (b';' ∷ rest) commands [] p.words
    ∙ ap (λ x. split_all rest (between x [])) (push_trimmed-print_words word more commands)

split_end-command :
    (command : List (List ℕ)) (commands : List (List ℕ))
    → IsPrintable command
    → split_end (split_all (print_words command) (between commands []))
      ≡ some (commands ++ (print_words command ∷ []))
unfolding split_all split_end
split_end-command [] commands p = absurd (p.some_word refl)
split_end-command (word ∷ more) commands p =
    ap split_end (
      ap (λ x. split_all x (between commands [])) (sym (append-nil (print_words (word ∷ more))))
      ∙ split_all-print_words word more [] commands [] p.words)
    ∙ ap some (push_trimmed-print_words word more commands)

split_end-print_script :
    (command : List (List ℕ)) (more : List (List (List ℕ))) (commands : List (List ℕ))
    → All IsPrintable (command ∷ more)
    → split_end (split_all (print_script (command ∷ more)) (between commands []))
      ≡ some (commands ++ map print_words (command ∷ more))
split_end-print_script command [] commands (p, _) = split_end-command command commands p
split_end-print_script command (next ∷ more) commands (p, ps) =
    ap split_end (split_all-semicolon command (print_script (next ∷ more)) commands p)
    ∙ split_end-print_script next more (commands ++ (print_words command ∷ [])) ps
    ∙ ap some (append_assoc commands (print_words command ∷ []) (map print_words (next ∷ more)))

-- The words of each command, as `visit` reads them.
abbrev pub words_of : List (List ℕ) → List (Option (List (List ℕ)))
words_of = map shell_words

words_of-print_words :
    (commands : List (List (List ℕ)))
    → All IsPrintable commands
    → words_of (map print_words commands) ≡ map some commands
unfolding shell_words
words_of-print_words [] ps = refl
words_of-print_words ([] ∷ more) (p, ps) = absurd (p.some_word refl)
words_of-print_words ((word ∷ words) ∷ more) (p, ps) =
    cc (word_end-print_words word words [] p.words, words_of-print_words more ps)

split_end_empty : split_end (split_all [] new_splitter) ≡ some []
unfolding split_end split_all push_trimmed trim_left trim_right
split_end_empty = refl

-- A script of commands, each of one or more words in single quotes (not empty, without a single
-- quote), with semicolons between the commands, is split into these commands again, and each of them
-- into its words.
pub split_commands-print_script :
    (commands : List (List (List ℕ)))
    → All IsPrintable commands
    → (split_commands (print_script commands) ≡ some (map print_words commands))
      × (words_of (map print_words commands) ≡ map some commands)
unfolding split_commands
split_commands-print_script [] ps = (split_end_empty, refl)
split_commands-print_script (command ∷ more) ps =
    (split_end-print_script command more [] ps, words_of-print_words (command ∷ more) ps)
