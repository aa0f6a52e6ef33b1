-- ===== src/Archive/Bytes.antt =====
-- The readers of fields and names of lib/repository-baselines/archive.ts, over lists of bytes. A
-- text is the list of its UTF-16 code units.
use vigilo.Prelude.{
  ℕ, ◌+◌, ◌*◌, ◌-◌, ◌%◌, Bool, false, not, ◌&&◌, ◌||◌, List, [], ◌∷◌, Option, some, eqb, leb, ltb,
  if◌then◌else◌, length, any, all, take, drop, map, ◌==◌, nat_eq, list_eq,
}
use vigilo.Prelude.Options.{◌>>=◌, ◌>>◌, reject_if}

pub record ArchiveLimits : Type 0 where
  pub maximum_depth : ℕ
  pub maximum_entries : ℕ
  pub maximum_file_bytes : ℕ
  pub maximum_path_bytes : ℕ
  pub maximum_tar_bytes : ℕ
  pub maximum_total_file_bytes : ℕ

abbrev pub archive_limits : ArchiveLimits
archive_limits = record {
  maximum_depth = 32;
  maximum_entries = 5000;
  maximum_file_bytes = 10 * 1024 * 1024;
  maximum_path_bytes = 512;
  maximum_tar_bytes = 256 * 1024 * 1024;
  maximum_total_file_bytes = 200 * 1024 * 1024;
}

-- What Node.js gives the script: `toString('utf8')` of a buffer, `Buffer.byteLength` of a text, and
-- whether `path.resolve(root, relative)` starts with the root's prefix.
pub record Host : Type 0 where
  pub utf8 : List ℕ → List ℕ
  pub byte_length : List ℕ → ℕ
  pub resolves_inside : List (List ℕ) → Bool

pub record Input : Type 0 where
  pub limits : ArchiveLimits
  pub expected_commit_sha : List ℕ

-- `block.subarray(start, start + length)`
abbrev pub subarray : List ℕ → ℕ → ℕ → List ℕ
subarray block start len = take len (drop start block)

-- `toString('ascii')` clears the highest bit of each byte.
abbrev pub ascii : List ℕ → List ℕ
ascii = map (λ b. b % 128)

abbrev is_newline : ℕ → Bool
is_newline c = eqb c 10 || eqb c 13

-- `.replace(/\0.*$/, '')`: from the first NUL after which there is no line end.
unfoldable pub cut_at_nul : List ℕ → List ℕ
cut_at_nul [] = []
cut_at_nul (c ∷ cs) =
    let rest = cut_at_nul cs in if eqb c 0 && not (any is_newline cs) then [] else c ∷ rest

abbrev is_space : ℕ → Bool
is_space c = eqb c 32 || (leb 9 c && leb c 13)

unfoldable pub trim_start : List ℕ → List ℕ
trim_start [] = []
trim_start (c ∷ cs) = let rest = trim_start cs in if is_space c then rest else c ∷ cs

unfoldable pub trim_end : List ℕ → List ℕ
trim_end [] = []
trim_end (c ∷ cs) = let rest = trim_end cs in if all is_space (c ∷ cs) then [] else c ∷ rest

-- `Number.parseInt(digits, radix)` on digits of the radix.
unfoldable pub parse_digits : ℕ → ℕ → List ℕ → ℕ
parse_digits radix n [] = n
parse_digits radix n (c ∷ cs) = parse_digits radix (n * radix + (c - b'0')) cs

abbrev is_octal : ℕ → Bool
is_octal c = leb b'0' c && leb c b'7'

-- `Number.isSafeInteger` on a natural number.
abbrev pub is_safe_integer : ℕ → Bool
is_safe_integer n = ltb n 9007199254740992

unfoldable pub octal : List ℕ → ℕ → ℕ → Option ℕ
octal block start len = do
  let raw = trim_start (trim_end (cut_at_nul (ascii (subarray block start len))))
  reject_if (eqb (length raw) 0 || not (all is_octal raw))
  let value = parse_digits 8 0 raw
  reject_if (not (is_safe_integer value))
  some value

-- The bytes of a field up to its first zero.
unfoldable pub until_zero : List ℕ → List ℕ
until_zero [] = []
until_zero (b ∷ bs) = let rest = until_zero bs in if eqb b 0 then [] else b ∷ rest

-- U+FFFD, by which a decoder replaces what is no UTF-8, or a control character.
abbrev pub is_unprintable : ℕ → Bool
is_unprintable c = eqb c 0xfffd || leb c 31 || eqb c 127

unfoldable pub text : Host → List ℕ → ℕ → ℕ → Option (List ℕ)
text host block start len = do
  let value = host.utf8 (until_zero (subarray block start len))
  reject_if (any is_unprintable value)
  some value

-- The sum of the header's bytes from an index on, with spaces for the checksum field itself.
unfoldable pub checksum : ℕ → List ℕ → ℕ
checksum index [] = 0
checksum index (b ∷ bs) =
    (if leb 148 index && ltb index 156 then 32 else b) + checksum (index + 1) bs

unfoldable pub validate_checksum : List ℕ → Option (Unit {0})
validate_checksum block = do
  expected ← octal block 148 8
  reject_if (not (eqb (checksum 0 block) expected))

-- `name.replace(/\/+$/, '')`
unfoldable pub strip_slashes : List ℕ → List ℕ
strip_slashes [] = []
strip_slashes (c ∷ cs) =
    let rest = strip_slashes cs in if all (λ d. eqb d b'/') (c ∷ cs) then [] else c ∷ rest

abbrev pub cons_part : ℕ → List (List ℕ) → List (List ℕ)
cons_part c [] = (c ∷ []) ∷ []
cons_part c (part ∷ parts) = (c ∷ part) ∷ parts

-- `name.split('/')`
unfoldable pub split_slash : List ℕ → List (List ℕ)
split_slash [] = [] ∷ []
split_slash (c ∷ cs) =
    let parts = split_slash cs in if eqb c b'/' then [] ∷ parts else cons_part c parts

abbrev pub dot : List ℕ
dot = b'.' ∷ []

abbrev pub dot_dot : List ℕ
dot_dot = b'.' ∷ b'.' ∷ []

-- `!part || part === '.' || part === '..'`
abbrev pub is_bad_part : List ℕ → Bool
is_bad_part part = part == [] || part == dot || part == dot_dot

unfoldable pub starts_with_slash : List ℕ → Bool
starts_with_slash [] = false
starts_with_slash (c ∷ cs) = eqb c b'/'

unfoldable pub normalize : Host → ArchiveLimits → List ℕ → Option (List (List ℕ))
normalize host limits name = do
  reject_if (
      name == []
      || starts_with_slash name
      || any (λ c. eqb c b'\\') name
      || ltb limits.maximum_path_bytes (host.byte_length name))
  let parts = split_slash (strip_slashes name)
  reject_if (any is_bad_part parts)
  reject_if (ltb (length parts) 1 || ltb limits.maximum_depth (length parts - 1))
  some parts
