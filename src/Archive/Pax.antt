-- ===== src/Archive/Pax.antt =====
-- The pax header of lib/repository-baselines/archive.ts, which names the commit.
use vigilo.Prelude.{
  ℕ, zero, suc, ◌+◌, ◌-◌, Bool, false, not, ◌&&◌, ◌||◌, List, [], ◌∷◌, Option, none, some, eqb, leb,
  ltb, if◌then◌else◌, length, all, take, drop, is_hex, is_digit, ◌==◌, nat_eq, list_eq, option_eq,
  in_class, is_some,
}
use vigilo.Prelude.Options.{◌>>=◌, ◌>>◌, reject_if}
use vigilo.Archive.Bytes.{Host, Input, ascii, parse_digits, is_safe_integer}
use vigilo.Archive.Reader.{Reader}

-- The bytes before the first one that is `b`, and those after it.
unfoldable pub split_at : ℕ → List ℕ → Option (List ℕ × List ℕ)
split_at b [] = none
split_at b (c ∷ cs) =
    let rest = split_at b cs in
    if eqb c b
    then some ([], cs)
    else elim rest [ none ↦ none | some (before, behind) ↦ some (c ∷ before, behind) ]

-- `/^[1-9][0-9]*$/`
abbrev is_length : List ℕ → Bool
is_length [] = false
is_length (c ∷ cs) = leb b'1' c && leb c b'9' && all is_digit cs

abbrev last_is : ℕ → List ℕ → Bool
last_is b [] = false
last_is b (c ∷ []) = eqb c b
last_is b (c ∷ d ∷ ds) = last_is b (d ∷ ds)

abbrev comment : List ℕ
comment = b'c' ∷ b'o' ∷ b'm' ∷ b'm' ∷ b'e' ∷ b'n' ∷ b't' ∷ []

-- One record of a pax header, `<length> <key>=<value>\n`: its value, and the bytes behind it.
unfoldable pub pax_record : Host → Bool → List ℕ → Option (List ℕ × List ℕ)
pax_record host seen body = do
  (prefix, behind) ← split_at 32 body
  reject_if (ltb 10 (length prefix) || not (is_length (ascii prefix)))
  let len = parse_digits 10 0 (ascii prefix)
  reject_if (not (is_safe_integer len) || leb len (length prefix + 2) || ltb (length body) len)
  let record' = drop (length prefix + 1) (take len body)
  reject_if (not (last_is 10 record'))
  let content = host.utf8 (take (length record' - 1) record')
  (key, value) ← split_at b'=' content
  reject_if (length key == 0)
  reject_if (not (key == comment) || seen || not (in_class is_hex 40 40 value))
  some (value, drop len body)

-- The records of the header, which may hold one comment only; fuel for the records.
unfoldable pub pax_records : ℕ → Host → Option (List ℕ) → List ℕ → Option (Option (List ℕ))
pax_records fuel host seen [] = some seen
pax_records zero host seen (b ∷ bs) = none
pax_records (suc fuel) host seen (b ∷ bs) =
    pax_record host (is_some seen) (b ∷ bs) >>= λ (value, rest).
    pax_records fuel host (some value) rest

unfoldable pub accept_global_pax : Host → Input → List ℕ → Reader → Option Reader
accept_global_pax host input body r = do
  reject_if (
      is_some r.pax_commit
      || not (r.entries == 0)
      || is_some r.archive_root
      || ltb 1024 (length body))
  found ← pax_records (length body) host none body
  reject_if (not (found == some input.expected_commit_sha))
  some (record r { pax_commit = found })
