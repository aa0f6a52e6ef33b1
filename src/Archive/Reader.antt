-- ===== src/Archive/Reader.antt =====
-- The extraction script of lib/repository-baselines/archive.ts: its variables as a record, each of
-- its functions as a function on that record. `none` is `fail()`, which ends the script. A path is
-- the list of its parts, which hold no slash, so that joining them by slashes loses nothing.
use vigilo.Prelude.{
  ℕ, ◌+◌, Bool, true, false, ◌&&◌, ◌||◌, List, [], ◌∷◌, Option, none, some, ltb, any, ◌==◌, nat_eq,
  list_eq, option_eq,
}
use vigilo.Prelude.Options.{◌>>◌, reject_if}
use vigilo.Archive.Bytes.{Input}

pub data Kind : Type 0 where
  file directory : Kind

abbrev pub is_file : Kind → Bool
is_file file = true
is_file directory = false

-- A file that is written: its path, whether it is executable, and its bytes so far.
pub record Output : Type 0 where
  pub path : List (List ℕ)
  pub executable : Bool
  pub content : List ℕ

-- `current`, with what is still to come of the entry and of its padding.
pub data Entry : Type 0 where
  global_entry : (chunks : List ℕ) (padding remaining : ℕ) → Entry
  directory_entry : Entry
  file_entry : (padding remaining : ℕ) → Entry

-- The newest file stands first in `outputs`.
pub record Reader : Type 0 where
  pub pending : List ℕ
  pub current : Option Entry
  pub entries : ℕ
  pub total_file_bytes : ℕ
  pub total_tar_bytes : ℕ
  pub zero_blocks : ℕ
  pub ended : Bool
  pub archive_root : Option (List ℕ)
  pub archive_root_directory_seen : Bool
  pub pax_commit : Option (List ℕ)
  pub paths : List (List (List ℕ) × Kind)
  pub outputs : List Output

unfoldable pub start : Reader
start = record {
  pending = [];
  current = none;
  entries = 0;
  total_file_bytes = 0;
  total_tar_bytes = 0;
  zero_blocks = 0;
  ended = false;
  archive_root = none;
  archive_root_directory_seen = false;
  pax_commit = none;
  paths = [];
  outputs = [];
}

-- `existing.startsWith(relative + '/')`
unfoldable pub is_below : List (List ℕ) → List (List ℕ) → Bool
is_below [] [] = false
is_below [] (q ∷ qs) = true
is_below (p ∷ ps) [] = false
is_below (p ∷ ps) (q ∷ qs) = p == q && is_below ps qs

-- No path twice, no file above another path.
unfoldable pub path_conflict : List (List ℕ) → Kind → List (List ℕ) × Kind → Bool
path_conflict relative kind (existing, its_kind) =
    existing == relative
    || (is_file its_kind && is_below existing relative)
    || (is_file kind && is_below relative existing)

unfoldable pub add_path : Input → List (List ℕ) → Kind → Reader → Option Reader
add_path input relative kind r = do
  reject_if (any (path_conflict relative kind) r.paths)
  reject_if (ltb input.limits.maximum_entries (r.entries + 1))
  some (record r { paths = (relative, kind) ∷ r.paths; entries = r.entries + 1 })
