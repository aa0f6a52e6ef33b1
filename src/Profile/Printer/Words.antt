-- ===== src/Profile/Printer/Words.antt =====
-- `shellWords` of lib/execution-profiles/detector.ts on printed words.
use mathlib.Core.List.{append-nil, append_assoc}
use vigilo.Prelude.{
  ℕ, ◌≡◌, ◌≢◌, refl, sym, ap, ◌∙◌, arith, false, List, [], ◌∷◌, ◌++◌, none, some, eqb, any, nat_eq,
  option_eq, list_eq, or-eq-false, All,
}
use vigilo.Profile.Shell.{Worder, word_step, word_all, word_end, push_word}
use vigilo.Profile.Printer.{quoted, print_words, IsQuotable}

-- The state of the word reader inside single quotes, and outside.
abbrev in_quotes : List (List ℕ) → List ℕ → Worder
in_quotes words current = record {
  words = words;
  current = current;
  quote = some b'\'';
  escaped = false;
}

abbrev outside : List (List ℕ) → List ℕ → Worder
outside words current = record { words = words; current = current; quote = none; escaped = false }

word_step-in_quotes :
    (c : ℕ) (words : List (List ℕ)) (current : List ℕ)
    → eqb c b'\'' ≡ false
    → word_step c (in_quotes words current) ≡ in_quotes words (current ++ (c ∷ []))
unfolding word_step
word_step-in_quotes c words current h = ground arith

word_all-in_quotes :
    (word rest : List ℕ) (words : List (List ℕ)) (current : List ℕ)
    → any (λ c. eqb c b'\'') word ≡ false
    → word_all (word ++ rest) (in_quotes words current)
      ≡ word_all rest (in_quotes words (current ++ word))
unfolding word_all
word_all-in_quotes [] rest words current h =
    ap (λ x. word_all rest (in_quotes words x)) (sym (append-nil current))
word_all-in_quotes (c ∷ cs) rest words current h =
    let (here, there) = or-eq-false (eqb c b'\'') (any (λ d. eqb d b'\'') cs) h in
    ap (word_all (cs ++ rest)) (word_step-in_quotes c words current here)
    ∙ word_all-in_quotes cs rest words (current ++ (c ∷ [])) there
    ∙ ap (λ x. word_all rest (in_quotes words x)) (append_assoc current (c ∷ []) cs)

word_all-quoted :
    (word rest : List ℕ) (words : List (List ℕ))
    → IsQuotable word
    → word_all (quoted word ++ rest) (outside words []) ≡ word_all rest (outside words word)
unfolding word_all word_step
word_all-quoted word rest words q =
    ap (λ x. word_all x (in_quotes words [])) (append_assoc word (b'\'' ∷ []) rest)
    ∙ word_all-in_quotes word (b'\'' ∷ rest) words [] q.no_quote

push_word-nonempty :
    (word : List ℕ) (words : List (List ℕ))
    → word ≢ []
    → push_word word words ≡ words ++ (word ∷ [])
unfolding push_word
push_word-nonempty [] words h = absurd (h refl)
push_word-nonempty (c ∷ cs) words h = refl

word_all-space :
    (word rest : List ℕ) (words : List (List ℕ))
    → word ≢ []
    → word_all (32 ∷ rest) (outside words word) ≡ word_all rest (outside (words ++ (word ∷ [])) [])
unfolding word_all word_step
word_all-space word rest words h =
    ap (λ x. word_all rest (outside x [])) (push_word-nonempty word words h)

word_end-outside :
    (word : List ℕ) (words : List (List ℕ))
    → word ≢ []
    → word_end (word_all [] (outside words word)) ≡ some (words ++ (word ∷ []))
unfolding word_end word_all
word_end-outside word words h = ap some (push_word-nonempty word words h)

pub word_end-print_words :
    (word : List ℕ) (more words : List (List ℕ))
    → All IsQuotable (word ∷ more)
    → word_end (word_all (print_words (word ∷ more)) (outside words []))
      ≡ some (words ++ (word ∷ more))
word_end-print_words word [] words (q, _) =
    ap word_end (
      ap (λ x. word_all x (outside words [])) (sym (append-nil (quoted word)))
      ∙ word_all-quoted word [] words q)
    ∙ word_end-outside word words q.nonempty
word_end-print_words word (next ∷ more) words (q, qs) =
    let rest = print_words (next ∷ more) in
    ap word_end
      (word_all-quoted word (32 ∷ rest) words q ∙ word_all-space word rest words q.nonempty)
    ∙ word_end-print_words next more (words ++ (word ∷ [])) qs
    ∙ ap some (append_assoc words (word ∷ []) (next ∷ more))
