-- ===== src/Archive/Cases.antt =====
-- What a header of lib/repository-baselines/archive.ts may do to the state when it is accepted: one
-- case for each end of `begin_entry` that does not fail.
use mathlib.Core.Path.{subst}
use vigilo.Prelude.{
  ℕ, ◌+◌, ◌≤◌, ◌≡◌, sym, ap, ◌∙◌, arith, inl, inr, Bool, true, false, List, [], ◌∷◌, Option, some,
  Memᴰ, eqb, all, any, length, Bool-cases, ltb-eq-false, not-eq-false, nat_eq, list_eq,
}
use vigilo.Prelude.Options.{bind-eq-some, then-eq-some, reject_if-eq-some, some-injective}
use vigilo.Archive.Bytes.{Host, Input}
use vigilo.Archive.Reader.{
  Kind, file, directory, global_entry, directory_entry, file_entry, Reader, add_path, path_conflict,
}
use vigilo.Archive.Entries.{
  padding_of, kind_of, is_executable, begin_directory, begin_file, begin_root, begin_kind, or_set,
  enter_root, full_name, begin_named, byte_at, begin_global, begin_entry,
}
use vigilo.Archive.Paths.{IsSafePart, IsNormal, normalize-IsNormal}

-- A path whose parts are names, which is not too deep and resolves to a place inside the root.
pub record IsSafePath (host : Host) (input : Input) (relative : List (List ℕ)) : Type 0 where
  pub parts : (part : List ℕ) → Memᴰ part relative → IsSafePart part
  pub depth : length relative ≤ input.limits.maximum_depth
  pub inside : host.resolves_inside relative ≡ true

-- A path that may be added to those of a state.
pub record IsNew (input : Input) (relative : List (List ℕ)) (kind : Kind) (r : Reader)
    : Type 0 where
  pub free : any (path_conflict relative kind) r.paths ≡ false
  pub fits : r.entries + 1 ≤ input.limits.maximum_entries

abbrev pub rooted : Reader → List ℕ → Reader
rooted r root = record r { archive_root = some root }

abbrev pub with_path : Reader → List (List ℕ) → Kind → Reader
with_path r relative kind = record r { paths = (relative, kind) ∷ r.paths; entries = r.entries + 1 }

-- A property of all states that an accepted header can lead to.
pub record Cases (host : Host) (input : Input) (r : Reader) (P : Reader → Type 0) : Type 0 where
  pub zeros : (n : ℕ) (ended : Bool) → P (record r { zero_blocks = n; ended = ended })
  pub global : (padding size : ℕ) → P (record r { current = some (global_entry [] padding size) })
  pub root_directory :
      (root : List ℕ)
      → P (record (rooted r root) {
        archive_root_directory_seen = true;
        current = some directory_entry;
      })
  pub a_directory :
      (root : List ℕ) (relative : List (List ℕ))
      → IsSafePath host input relative
      → IsNew input relative directory r
      → P (record (with_path (rooted r root) relative directory) { current = some directory_entry })
  pub a_file :
      (root : List ℕ) (relative : List (List ℕ)) (executable : Bool) (padding size : ℕ)
      → IsSafePath host input relative
      → IsNew input relative file r
      → r.total_file_bytes + size ≤ input.limits.maximum_total_file_bytes
      → P (record (with_path (rooted r root) relative file) {
        total_file_bytes = r.total_file_bytes + size;
        current = some (file_entry padding size);
        outputs = record { path = relative; executable = executable; content = [] } ∷ r.outputs;
      })

add_path_lem :
    (input : Input) (relative : List (List ℕ)) (kind : Kind) (r : Reader) {after : Reader}
    → add_path input relative kind r ≡ some after
    → IsNew input relative kind r × (with_path r relative kind ≡ after)
unfolding add_path
add_path_lem input relative kind r h =
    let (h₁, r₁) = reject_if-eq-some _ _ h in
    let (h₂, r₂) = reject_if-eq-some _ _ r₁ in
    (record { free = h₁; fits = ltb-eq-false _ _ h₂ }, some-injective r₂)

module _ (host : Host) (input : Input) (P : Reader → Type 0) (r : Reader)
    (c : Cases host input r P) where
  directory-Cases :
      (root : List ℕ) (relative : List (List ℕ)) {after : Reader}
      → ((part : List ℕ) → Memᴰ part relative → IsSafePart part)
      → length relative ≤ input.limits.maximum_depth
      → begin_directory host input relative (rooted r root) ≡ some after
      → P after
  unfolding begin_directory
  directory-Cases root relative parts depth h =
      let (added, h₁, r₁) = bind-eq-some _ _ h in
      let (new, e) = add_path_lem input relative directory (rooted r root) h₁ in
      let (h₂, r₂) = reject_if-eq-some _ _ r₁ in
      let safe : IsSafePath host input relative = record {
        parts = parts;
        depth = depth;
        inside = not-eq-false _ h₂;
      } in
      subst P (ap entered e ∙ some-injective r₂)
        (c.a_directory root relative safe (record { free = new.free; fits = new.fits }))
    where
      entered : Reader → Reader
      entered added = record added { current = some directory_entry }

  file-Cases :
      (block : List ℕ) (size : ℕ) (root : List ℕ) (relative : List (List ℕ)) {after : Reader}
      → ((part : List ℕ) → Memᴰ part relative → IsSafePart part)
      → length relative ≤ input.limits.maximum_depth
      → begin_file host input block size relative (rooted r root) ≡ some after
      → P after
  unfolding begin_file
  file-Cases block size root relative parts depth h =
      let (added, h₁, r₁) = bind-eq-some _ _ h in
      let (new, e) = add_path_lem input relative file (rooted r root) h₁ in
      let (h₂, r₂) = reject_if-eq-some _ _ r₁ in
      let (h₃, r₃) = reject_if-eq-some _ _ r₂ in
      let (h₄, r₄) = reject_if-eq-some _ _ r₃ in
      let (mode, h₅, r₅) = bind-eq-some _ _ r₄ in
      let safe : IsSafePath host input relative = record {
        parts = parts;
        depth = depth;
        inside = not-eq-false _ h₂;
      } in
      let total : r.total_file_bytes + size ≤ input.limits.maximum_total_file_bytes =
        subst (λ (x : Reader). x.total_file_bytes + size ≤ input.limits.maximum_total_file_bytes)
          (sym e) (ltb-eq-false _ _ h₄) in
      subst P (ap (opened mode) e ∙ some-injective r₅) (
        c.a_file root relative (is_executable mode) (padding_of size) size safe
          (record { free = new.free; fits = new.fits }) total)
    where
      opened : ℕ → Reader → Reader
      opened mode added = record added {
        total_file_bytes = added.total_file_bytes + size;
        current = some (file_entry (padding_of size) size);
        outputs =
            record { path = relative; executable = is_executable mode; content = [] }
            ∷ added.outputs;
      }

  root-Cases :
      (root : List ℕ) (kind : Kind) {after : Reader}
      → begin_root kind (rooted r root) ≡ some after
      → P after
  unfolding begin_root
  root-Cases root kind h =
      let (h₁, r₁) = reject_if-eq-some _ _ h in subst P (some-injective r₁) (c.root_directory root)

  kind-Cases :
      (block : List ℕ) (size : ℕ) (root : List ℕ) (relative : List (List ℕ)) (kind : Kind)
      {after : Reader}
      → ((part : List ℕ) → Memᴰ part relative → IsSafePart part)
      → length relative ≤ input.limits.maximum_depth
      → begin_kind host input block size relative kind (rooted r root) ≡ some after
      → P after
  kind-Cases block size root [] kind parts depth h = root-Cases root kind h
  kind-Cases block size root (p ∷ ps) file parts depth h =
      file-Cases block size root (p ∷ ps) parts depth h
  kind-Cases block size root (p ∷ ps) directory parts depth h =
      directory-Cases root (p ∷ ps) parts depth h

  enter_root-Cases :
      (block : List ℕ) (size : ℕ) (kind? : Option Kind) (parts : List (List ℕ)) {after : Reader}
      → IsNormal input.limits parts
      → enter_root host input block size kind? parts r ≡ some after
      → P after
  enter_root-Cases block size kind? [] normal h = cc
  enter_root-Cases block size kind? (root ∷ relative) normal h =
      let (_, r₁) = reject_if-eq-some _ _ h in
      let (kind, _, r₂) = bind-eq-some _ _ r₁ in
      let (_, r₃) = reject_if-eq-some _ _ r₂ in
      kind-Cases block size (or_set r.archive_root root) relative kind
        (λ part m. normal.safe part (Memᴰ.tail m)) (omega (arith, normal.depth)) r₃

  begin_named-Cases :
      (block : List ℕ) (type_byte size : ℕ) {after : Reader}
      → begin_named host input block type_byte size r ≡ some after
      → P after
  unfolding begin_named
  begin_named-Cases block type_byte size h =
      let (name, _, r₁) = bind-eq-some _ _ h in
      let (prefix, _, r₂) = bind-eq-some _ _ r₁ in
      let (parts, h₃, r₃) = bind-eq-some _ _ r₂ in
      enter_root-Cases block size (kind_of type_byte) parts
        (normalize-IsNormal host input.limits (full_name prefix name) h₃) r₃

  begin_global-Cases :
      (block : List ℕ) (size : ℕ) {after : Reader}
      → begin_global host block size r ≡ some after
      → P after
  unfolding begin_global
  begin_global-Cases block size h =
      let (name, _, r₁) = bind-eq-some _ _ h in
      let (_, r₂) = reject_if-eq-some _ _ r₁ in
      subst P (some-injective r₂) (c.global (padding_of size) size)

  -- A property of all states that an accepted header can lead to holds of the state it leads to.
  pub begin_entry-Cases :
      (block : List ℕ) {after : Reader} → begin_entry host input block r ≡ some after → P after
  unfolding begin_entry
  begin_entry-Cases block h = elim (Bool-cases (all (λ b. eqb b 0) block)) [
    | inl e ↦ subst P (some-injective (rw e at h)) (c.zeros _ _)
    | inr e ↦
        let (_, r₁) = reject_if-eq-some _ _ (rw e at h) in
        let (_, _, r₂) = bind-eq-some _ _ (then-eq-some _ _ r₁).1 in
        elim (Bool-cases (eqb (byte_at block 156) 103)) [
          | inl g ↦ begin_global-Cases block _ (rw g at r₂)
          | inr g ↦ begin_named-Cases block _ _ (rw g at r₂)
        ]
  ]
