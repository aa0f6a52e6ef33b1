-- ===== src/Candidate/Paths.antt =====
-- The paths that lib/investigations/policy.ts and `candidatePath` of lib/repair-candidates/policy.ts
-- let through.
use mathlib.Core.Path.{subst}
use vigilo.Prelude.{
  ℕ, ◌≤◌, ◌≡◌, sym, ap, ◌∙◌, false, not, List, [], Memᴰ, ltb, any, length, eqb, or-eq-false,
  not-eq-false, ltb-eq-false, any-eq-false_mem, ==→≡, ◌==◌, nat_eq, list_eq, contains,
}
use vigilo.Prelude.Checks.{
  Checked, refused, passed, bind-eq-passed, passed-injective, refuse_if-eq-passed,
}
use vigilo.Archive.Bytes.{split_slash, is_bad_part, starts_with_slash, dot}
use vigilo.Archive.Paths.{IsSafePart, split_slash-slash, split_slash-NoneOf, is_bad_part-eq-false}
use vigilo.Candidate.Context.{
  Host, Field, text, bytes, missing, null_value, other_value, is_unsafe_text, is_unsafe_path,
  is_control, normalize_context_path, path_denied_in, require_readable_path, max_path_characters,
  max_path_depth,
}
use vigilo.Candidate.Rules.{
  context_path, candidate_path, protected_names, base_name, is_candidate_denied, binary_extensions,
}

-- A path of at most 240 units and at most 20 parts, each of which names an entry of its directory.
pub record IsContextPath (path : List ℕ) : Type 0 where
  pub short : length path ≤ max_path_characters
  pub printable : any is_control path ≡ false
  pub parts : (part : List ℕ) → Memᴰ part (split_slash path) → IsSafePart part
  pub depth : length (split_slash path) ≤ max_path_depth

checked-IsContextPath :
    (path : List ℕ)
    → is_unsafe_text path ≡ false
    → is_unsafe_path path path ≡ false
    → IsContextPath path
unfolding is_unsafe_text is_unsafe_path
checked-IsContextPath path h k =
    let (h₁, control) = or-eq-false _ (any is_control path) h in
    let (h₂, _) = or-eq-false _ (starts_with_slash path) h₁ in
    let (h₃, backslash) = or-eq-false _ (any (λ c. eqb c b'\\') path) h₂ in
    let (_, long) = or-eq-false (path == []) _ h₃ in
    let (k₁, deep) = or-eq-false _ (ltb max_path_depth (length (split_slash path))) k in
    let (_, bad) = or-eq-false _ (any is_bad_part (split_slash path)) k₁ in
    record {
      short = ltb-eq-false _ _ long;
      printable = control;
      parts = λ part m.
          let (some_part, one, two) =
            is_bad_part-eq-false part (any-eq-false_mem is_bad_part _ bad m) in
          record {
            present = some_part;
            moves = (one, two);
            no_slash = split_slash-slash path part m;
            no_backslash = split_slash-NoneOf _ path backslash part m;
          };
      depth = ltb-eq-false _ _ deep;
    }

is_unsafe_path-same :
    (normalized value : List ℕ) → is_unsafe_path normalized value ≡ false → normalized ≡ value
unfolding is_unsafe_path
is_unsafe_path-same normalized value h =
    let (h₁, _) = or-eq-false _ (ltb max_path_depth (length (split_slash normalized))) h in
    let (h₂, _) = or-eq-false _ (any is_bad_part (split_slash normalized)) h₁ in
    let (h₃, _) = or-eq-false (not (normalized == value)) (normalized == dot) h₂ in
    ==→≡ normalized value (not-eq-false _ h₃)

module _ (host : Host) where
  -- A path is passed on as it was given.
  pub normalize-same :
      (value : Field) {path : List ℕ}
      → normalize_context_path host value ≡ passed path
      → (value ≡ text path) × IsContextPath path
  unfolding normalize_context_path
  normalize-same missing h = cc
  normalize-same null_value h = cc
  normalize-same other_value h = cc
  normalize-same (bytes bs) h = cc
  normalize-same (text given) {path} h =
      let (safe, h₁) = refuse_if-eq-passed _ _ _ h in
      let (normal, h₂) = refuse_if-eq-passed _ _ _ h₁ in
      let same = is_unsafe_path-same (host.normalize_path given) given normal in
      let here = sym same ∙ passed-injective h₂ in
      (
        ap text here,
        subst IsContextPath here (
            checked-IsContextPath given safe
              (subst (λ p. is_unsafe_path p given ≡ false) same normal)),
      )

  -- A path that may be read is the one that was given, has at most 240 units and 20 parts, each of
  -- which names an entry of its directory, and is not denied.
  pub readable-IsContextPath :
      (value : Field) (path : List ℕ)
      → require_readable_path host value ≡ passed path
      → (value ≡ text path) × IsContextPath path × (path_denied_in host path ≡ false)
  unfolding require_readable_path
  readable-IsContextPath value path h =
      let (mid, normal, h₁) = bind-eq-passed _ _ h in
      let (allowed, h₂) = refuse_if-eq-passed _ _ _ h₁ in
      let here = passed-injective h₂ in
      let (given, safe) = normalize-same value normal in
      (
        given ∙ ap text here,
        subst IsContextPath here safe,
        subst (λ p. path_denied_in host p ≡ false) here allowed,
      )

  pub context_path-eq-passed :
      (c : Checked _ (List ℕ)) {path : List ℕ} → context_path c ≡ passed path → c ≡ passed path
  unfolding context_path
  context_path-eq-passed (refused reason) h = cc
  context_path-eq-passed (passed path) h = ap passed (passed-injective h)

  -- What a change may touch.
  pub record IsCandidatePath (path : List ℕ) : Type 0 where
    pub is_path : IsContextPath path
    pub composed : path ≡ host.nfc path
    pub no_manifest : contains protected_names (base_name host path) ≡ false
    pub allowed : is_candidate_denied host path ≡ false
    pub no_binary : contains binary_extensions (host.extname (base_name host path)) ≡ false

  pub candidate_path-IsCandidatePath :
      (value : Field) {path : List ℕ}
      → candidate_path host value ≡ passed path
      → IsCandidatePath path
  unfolding candidate_path
  candidate_path-IsCandidatePath value h =
      let (mid, normal, h₁) = bind-eq-passed _ _ h in
      let (composed, h₂) = refuse_if-eq-passed _ _ _ h₁ in
      let (no_manifest, h₃) = refuse_if-eq-passed _ _ _ h₂ in
      let (allowed, h₄) = refuse_if-eq-passed _ _ _ h₃ in
      let (no_binary, h₅) = refuse_if-eq-passed _ _ _ h₄ in
      let (_, is_path) = normalize-same value (context_path-eq-passed _ normal) in
      subst IsCandidatePath (passed-injective h₅) (record {
        is_path = is_path;
        composed = ==→≡ mid (host.nfc mid) (not-eq-false _ composed);
        no_manifest = no_manifest;
        allowed = allowed;
        no_binary = no_binary;
      })
