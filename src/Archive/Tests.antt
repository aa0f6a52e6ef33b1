-- ===== src/Archive/Tests.antt =====
-- A small archive of one directory and one file, cut into two chunks, and the theorems on it.
use vigilo.Prelude.{
  arith, ℕ, zero, suc, ◌+◌, ◌/◌, ◌%◌, ◌≡◌, ◌≢◌, refl, true, List, [], ◌∷◌, ◌++◌, Option, none, some,
  length, take, drop,
}
use vigilo.Prelude.Options.{◌>>=◌, ◌>>◌, reject_if}
use vigilo.Archive.Bytes.{
  Host, Input, archive_limits, cut_at_nul, trim_start, trim_end, parse_digits, octal, until_zero,
  text, checksum, validate_checksum, strip_slashes, split_slash, starts_with_slash, normalize,
}
use vigilo.Archive.Reader.{Reader, start, is_below, path_conflict, add_path}
use vigilo.Archive.Pax.{split_at, pax_record, pax_records, accept_global_pax}
use vigilo.Archive.Entries.{
  begin_directory, begin_file, begin_root, begin_named, begin_global, begin_entry, padding_of,
}
use vigilo.Archive.Consume.{
  read_file, read_global, round_of, consume_round, go_on, consume, feed, unless_out, feed_all,
  accept, extract,
}
use vigilo.Archive.PaxFuel.{pax_records-fuel}
use vigilo.Archive.Extraction.{IsExtraction, extract-ends, extract-IsExtraction}

runs : Unit {0}
unfolding ◌>>=◌ ◌>>◌ reject_if cut_at_nul trim_start trim_end parse_digits octal until_zero text
    checksum validate_checksum strip_slashes split_slash starts_with_slash normalize start is_below
    path_conflict add_path split_at pax_record pax_records accept_global_pax begin_directory
    begin_file begin_root begin_named begin_global begin_entry read_file read_global round_of
    consume_round go_on consume feed unless_out feed_all accept extract
runs = tt

abbrev fill : ℕ → ℕ → List ℕ
fill zero b = []
fill (suc n) b = b ∷ fill n b

abbrev field : ℕ → List ℕ → List ℕ
field n bytes = take n (bytes ++ fill n 0)

-- A number by a count of octal digits.
abbrev octal_digits : ℕ → ℕ → List ℕ → List ℕ
octal_digits zero n digits = digits
octal_digits (suc k) n digits = octal_digits k (n / 8) ((b'0' + n % 8) ∷ digits)

abbrev header : List ℕ → ℕ → ℕ → List ℕ
header name size type_byte =
    let before =
      field 100 name
      ++ field 8 (octal_digits 7 0o644 [])
      ++ field 16 []
      ++ field 12 (octal_digits 11 size [])
      ++ field 12 [] in
    let behind = type_byte ∷ fill 355 0 in
    before ++ field 8 (octal_digits 6 (checksum 0 (before ++ fill 8 32 ++ behind)) []) ++ behind

abbrev padded : List ℕ → List ℕ
padded bytes = bytes ++ fill (padding_of (length bytes)) 0

abbrev sha : List ℕ
sha = fill 40 b'a'

abbrev pax_name : List ℕ
pax_name =
    b'p' ∷ b'a' ∷ b'x' ∷ b'_' ∷ b'g' ∷ b'l' ∷ b'o' ∷ b'b' ∷ b'a' ∷ b'l' ∷ b'_' ∷ b'h' ∷ b'e' ∷ b'a'
    ∷ b'd' ∷ b'e' ∷ b'r' ∷ []

abbrev pax_body : List ℕ
pax_body =
    b'5' ∷ b'2' ∷ 32 ∷ b'c' ∷ b'o' ∷ b'm' ∷ b'm' ∷ b'e' ∷ b'n' ∷ b't' ∷ b'=' ∷ (sha ++ 10 ∷ [])

abbrev archive : List ℕ
archive =
    header pax_name 52 b'g'
    ++ padded pax_body
    ++ header (b'r' ∷ b'/' ∷ []) 0 b'5'
    ++ header (b'r' ∷ b'/' ∷ b'f' ∷ []) 3 b'0'
    ++ padded (1 ∷ 2 ∷ 3 ∷ [])
    ++ fill 1024 0

abbrev host : Host
host = record { utf8 = λ bytes. bytes; byte_length = length; resolves_inside = λ path. true }

abbrev input : Input
input = record { limits = archive_limits; expected_commit_sha = sha }

abbrev chunks : List (List ℕ)
chunks = take 700 archive ∷ drop 700 archive ∷ []

abbrev result : Option (Option Reader) → Reader
result (some (some r)) = r
result _ = start

abbrev extracted : Reader
extracted = result (extract host input chunks)

succeeds : extract host input chunks ≡ some (some extracted)
unfolding runs
succeeds = refl

extract-ends_example : extract host input chunks ≢ some none
extract-ends_example = extract-ends host input chunks

extract-IsExtraction_example : IsExtraction host input extracted
extract-IsExtraction_example = extract-IsExtraction host input chunks extracted succeeds

pax_records-fuel_example : pax_records 52 host none pax_body ≡ pax_records 60 host none pax_body
pax_records-fuel_example = pax_records-fuel host 52 60 none pax_body (omega arith) (omega arith)
