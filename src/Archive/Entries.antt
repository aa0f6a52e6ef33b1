-- ===== src/Archive/Entries.antt =====
-- The headers of entries in lib/repository-baselines/archive.ts.
use vigilo.Prelude.{
  ℕ, zero, suc, ◌+◌, ◌-◌, ◌/◌, ◌%◌, Bool, true, not, ◌&&◌, ◌||◌, List, [], ◌∷◌, ◌++◌, Option, none,
  some, eqb, leb, ltb, if◌then◌else◌, all, ◌==◌, nat_eq, list_eq, option_eq,
}
use vigilo.Prelude.Options.{◌>>=◌, ◌>>◌, reject_if}
use vigilo.Archive.Bytes.{Host, Input, octal, text, validate_checksum, normalize}
use vigilo.Archive.Reader.{
  Kind, file, directory, is_file, global_entry, directory_entry, file_entry, Reader, add_path,
}

-- `(512 - (size % 512)) % 512`
abbrev pub padding_of : ℕ → ℕ
padding_of size = (512 - size % 512) % 512

-- The type byte of a header, in the order of its tests.
abbrev pub kind_of : ℕ → Option Kind
kind_of b = if eqb b 0 || eqb b 48 then some file else if eqb b 53 then some directory else none

-- `octal(block, 100, 8) & 0o111`: is one of the three execute bits set?
abbrev pub is_executable : ℕ → Bool
is_executable mode = not (mode % 2 == 0) || not (mode / 8 % 2 == 0) || not (mode / 64 % 2 == 0)

unfoldable pub begin_directory : Host → Input → List (List ℕ) → Reader → Option Reader
begin_directory host input relative r = do
  added ← add_path input relative directory r
  reject_if (not (host.resolves_inside relative))
  some (record added { current = some directory_entry })

unfoldable pub begin_file : Host → Input → List ℕ → ℕ → List (List ℕ) → Reader → Option Reader
begin_file host input block size relative r = do
  added ← add_path input relative file r
  reject_if (not (host.resolves_inside relative))
  reject_if (ltb input.limits.maximum_file_bytes size)
  let total = added.total_file_bytes + size
  reject_if (ltb input.limits.maximum_total_file_bytes total)
  mode ← octal block 100 8
  some (record added {
    total_file_bytes = total;
    current = some (file_entry (padding_of size) size);
    outputs =
        record { path = relative; executable = is_executable mode; content = [] } ∷ added.outputs;
  })

unfoldable pub begin_root : Kind → Reader → Option Reader
begin_root kind r = do
  reject_if (is_file kind || r.archive_root_directory_seen)
  some (record r { archive_root_directory_seen = true; current = some directory_entry })

abbrev pub begin_kind : Host → Input → List ℕ → ℕ → List (List ℕ) → Kind → Reader → Option Reader
begin_kind host input block size [] kind r = begin_root kind r
begin_kind host input block size (p ∷ ps) file r = begin_file host input block size (p ∷ ps) r
begin_kind host input block size (p ∷ ps) directory r = begin_directory host input (p ∷ ps) r

abbrev pub or_set : Option (List ℕ) → List ℕ → List ℕ
or_set none name = name
or_set (some root) name = root

-- `prefix ? prefix + '/' + name : name`
abbrev pub full_name : List ℕ → List ℕ → List ℕ
full_name [] name = name
full_name (c ∷ cs) name = (c ∷ cs) ++ b'/' ∷ name

abbrev pub enter_root :
    Host → Input → List ℕ → ℕ → Option Kind → List (List ℕ) → Reader → Option Reader
enter_root host input block size kind? [] r = none
enter_root host input block size kind? (root_part ∷ parts) r = do
  let root = or_set r.archive_root root_part
  reject_if (not (root_part == root))
  kind ← kind?
  reject_if (not (is_file kind) && not (size == 0))
  begin_kind host input block size parts kind (record r { archive_root = some root })

unfoldable pub begin_named : Host → Input → List ℕ → ℕ → ℕ → Reader → Option Reader
begin_named host input block type_byte size r = do
  name ← text host block 0 100
  prefix ← text host block 345 155
  parts ← normalize host input.limits (full_name prefix name)
  enter_root host input block size (kind_of type_byte) parts r

abbrev pax_global_header : List ℕ
pax_global_header =
    b'p' ∷ b'a' ∷ b'x' ∷ b'_' ∷ b'g' ∷ b'l' ∷ b'o' ∷ b'b' ∷ b'a' ∷ b'l' ∷ b'_' ∷ b'h' ∷ b'e' ∷ b'a'
    ∷ b'd' ∷ b'e' ∷ b'r' ∷ []

unfoldable pub begin_global : Host → List ℕ → ℕ → Reader → Option Reader
begin_global host block size r = do
  name ← text host block 0 100
  reject_if (not (name == pax_global_header) || ltb 1024 size)
  some (record r { current = some (global_entry [] (padding_of size) size) })

abbrev pub byte_at : List ℕ → ℕ → ℕ
byte_at [] i = 0
byte_at (b ∷ bs) zero = b
byte_at (b ∷ bs) (suc i) = byte_at bs i

unfoldable pub begin_entry : Host → Input → List ℕ → Reader → Option Reader
begin_entry host input block r =
    if all (λ b. eqb b 0) block
    then some (record r { zero_blocks = r.zero_blocks + 1; ended = leb 2 (r.zero_blocks + 1) })
    else do
      reject_if (not (r.zero_blocks == 0) || r.ended)
      validate_checksum block
      size ← octal block 124 12
      if eqb (byte_at block 156) 103
          then begin_global host block size r
          else begin_named host input block (byte_at block 156) size r
