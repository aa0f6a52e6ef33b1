-- ===== src/Archive/Sound.antt =====
-- What holds of the state of lib/repository-baselines/archive.ts between any two steps.
use mathlib.Core.Path.{subst}
use vigilo.Prelude.{
  ℕ, ◌+◌, ◌≤◌, ◌<◌, ◌≡◌, refl, sym, ap, ◌∙◌, arith, false, List, [], ◌∷◌, Option, some, Memᴰ, any,
  length, nat_eq,
}
use vigilo.Archive.Bytes.{Host, Input}
use vigilo.Archive.Reader.{
  Kind, file, directory, Output, Entry, file_entry, Reader, path_conflict, start,
}
use vigilo.Archive.Entries.{begin_entry}
use vigilo.Archive.Cases.{IsSafePath, Cases, begin_entry-Cases}

-- The bytes of the open file that the stream still owes.
abbrev pub to_come : Option Entry → ℕ
to_come (some (file_entry padding remaining)) = remaining
to_come _ = 0

abbrev pub content_length : List Output → ℕ
content_length [] = 0
content_length (o ∷ os) = length o.content + content_length os

-- No path twice, and no file above another path.
abbrev pub Apart : List (List (List ℕ) × Kind) → Type 0
Apart [] = Unit
Apart ((relative, kind) ∷ rest) = (any (path_conflict relative kind) rest ≡ false) × Apart rest

pub record IsSound (host : Host) (input : Input) (r : Reader) : Type 0 where
  pub entries : r.entries ≤ input.limits.maximum_entries
  pub bytes : r.total_file_bytes ≤ input.limits.maximum_total_file_bytes
  pub safe :
      (relative : List (List ℕ)) (kind : Kind)
      → Memᴰ (relative, kind) r.paths
      → IsSafePath host input relative
  pub apart : Apart r.paths
  pub written : (o : Output) → Memᴰ o r.outputs → Memᴰ (o.path, file) r.paths
  pub balance : content_length r.outputs + to_come r.current ≡ r.total_file_bytes
  pub owed : 0 < to_come r.current → 0 < length r.outputs

pub start-IsSound : (host : Host) (input : Input) → IsSound host input start
unfolding start
start-IsSound host input = record {
  entries = ground arith;
  bytes = ground arith;
  safe = λ relative kind m. elim m [ ];
  apart = tt;
  written = λ o m. elim m [ ];
  balance = refl;
  owed = λ h. h;
}

-- A state that differs in neither its paths, its files nor what is owed.
pub IsSound-same :
    (host : Host) (input : Input) {r after : Reader}
    → after.paths ≡ r.paths
    → after.entries ≡ r.entries
    → after.total_file_bytes ≡ r.total_file_bytes
    → after.outputs ≡ r.outputs
    → to_come after.current ≡ to_come r.current
    → IsSound host input r
    → IsSound host input after
IsSound-same host input p e t o c s = record {
  entries = rw e s.entries;
  bytes = rw t s.bytes;
  safe = λ relative kind m. s.safe relative kind (rw p at m);
  apart = rw p s.apart;
  written = λ f m. rw p (s.written f (rw o at m));
  balance = rw o (rw c (rw t s.balance));
  owed = λ h. rw o (s.owed (rw c at h));
}

module _ (host : Host) (input : Input) (r : Reader) (s : IsSound host input r) where
  safe-cons :
      (relative : List (List ℕ)) (kind : Kind)
      → IsSafePath host input relative
      → (q : List (List ℕ)) (k : Kind) → Memᴰ (q, k) ((relative, kind) ∷ r.paths)
      → IsSafePath host input q
  safe-cons relative kind good q k (Memᴰ.head e) =
      subst (IsSafePath host input) (sym (ap (λ x. x.0) e)) good
  safe-cons relative kind good q k (Memᴰ.tail m) = s.safe q k m

  written-cons :
      (relative : List (List ℕ)) (o new : Output)
      → new.path ≡ relative
      → Memᴰ o (new ∷ r.outputs)
      → Memᴰ (o.path, file) ((relative, file) ∷ r.paths)
  written-cons relative o new e (Memᴰ.head q) =
      Memᴰ.head (ap (λ p. (p, file)) (ap (λ (x : Output). x.path) q ∙ e))
  written-cons relative o new e (Memᴰ.tail m) = Memᴰ.tail (s.written o m)

  IsSound-Cases : to_come r.current ≡ 0 → Cases host input r (IsSound host input)
  IsSound-Cases c = record {
    zeros = λ n ended. IsSound-same host input refl refl refl refl refl s;
    global = λ padding size. IsSound-same host input refl refl refl refl (sym c) s;
    root_directory = λ root. IsSound-same host input refl refl refl refl (sym c) s;
    a_directory = λ root relative good new. record {
      entries = new.fits;
      bytes = s.bytes;
      safe = safe-cons relative directory good;
      apart = (new.free, s.apart);
      written = λ o m. Memᴰ.tail (s.written o m);
      balance = omega (arith, s.balance, c);
      owed = λ h. omega (arith, h);
    };
    a_file = λ root relative executable padding size good new fits. record {
      entries = new.fits;
      bytes = fits;
      safe = safe-cons relative file good;
      apart = (new.free, s.apart);
      written = λ o m. written-cons relative o _ refl m;
      balance = omega (arith, s.balance, c);
      owed = λ h. omega arith;
    };
  }

  pub begin_entry-IsSound :
      (block : List ℕ) {after : Reader}
      → to_come r.current ≡ 0
      → begin_entry host input block r ≡ some after
      → IsSound host input after
  begin_entry-IsSound block c h =
      begin_entry-Cases host input (IsSound host input) r (IsSound-Cases c) block h
