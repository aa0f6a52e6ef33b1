-- ===== src/Profile/Manifest.antt =====
-- What `detectExecutionProfile` of lib/execution-profiles/detector.ts has read from a package.json and
-- a package-lock.json that it goes on with.
use vigilo.Prelude.{
  ℕ, ◌≤◌, ◌≡◌, ◌≢◌, ◌⊎◌, refl, sym, ap, ◌∙◌, inl, inr, true, false, not, List, [], ◌∷◌, Option,
  none, some, String, codes, is_some, and-eq-true, not-eq-false, ◌==◌, list_eq, option_eq, nat_eq,
  arith,
}
use vigilo.Prelude.Checks.{passed, passed-injective, refuse_if-eq-passed, present_or-eq-passed}
use vigilo.Json.{
  Json, number, string, object, Members, property, null, boolean, other_number, array,
}
use vigilo.Profile.Scripts.{Scripts, entry_of}
use vigilo.Profile.Detect.{
  InspectedFile, Host, in_range, at_least_2, has_root_package, engine_of, npm_version, parse_object,
  string_record, dependency_names, valid_package_manager, node24_compatible, validate_package_lock,
  checked_manifest,
}

-- The field `packageManager` is left out, or names a valid range of npm.
abbrev pub NamesNpm : Host → Option Json → Type 0
NamesNpm host field =
    (field ≡ none)
    ⊎ ((text : String) × (range : List ℕ) × (field ≡ some (string text))
        × (npm_version (codes text) ≡ some range)
        × (host.valid_range range ≡ true))

-- The field `engines.node` is a valid range that Node 24 satisfies.
abbrev pub AllowsNode24 : Host → Option Json → Type 0
AllowsNode24 host field =
    (text : String) × (field ≡ some (string text))
    × (host.valid_range (codes text) ≡ true)
    × (host.satisfied_by_24 (codes text) ≡ true)

-- The two files are objects; the lockfile has a version from 2 and an entry for the root; the
-- manifest has no workspaces, npm for its package manager, if it names one, a Node version that 24
-- satisfies, scripts and dependencies that can be read, and a script `test` that is not empty.
pub record ManifestChecked (host : Host) (json lock : InspectedFile) (scripts : Scripts)
    (dependencies : List (List ℕ)) : Type 0 where
  pub manifest : Members
  pub lockfile : Members
  pub manifest_parsed : parse_object host json.content ≡ some manifest
  pub lockfile_parsed : parse_object host lock.content ≡ some lockfile
  pub version : (n : ℕ) × (property "lockfileVersion" lockfile ≡ some (number n)) × (2 ≤ n)
  pub root : has_root_package (property "packages" lockfile) ≡ true
  pub no_workspaces : property "workspaces" manifest ≡ none
  pub npm : NamesNpm host (property "packageManager" manifest)
  pub node : AllowsNode24 host (engine_of (property "engines" manifest))
  pub scripts_read : string_record (property "scripts" manifest) ≡ some scripts
  pub dependencies_read : dependency_names manifest ≡ some dependencies
  pub tested : (script : List ℕ) × (entry_of (codes "test") scripts ≡ some script) × (script ≢ [])

at_least_2-eq-true :
    (field : Option Json) → at_least_2 field ≡ true → (n : ℕ) × (field ≡ some (number n)) × (2 ≤ n)
at_least_2-eq-true (some (number n)) h = (n, refl, ground arith)
at_least_2-eq-true none h = cc
at_least_2-eq-true (some null) h = cc
at_least_2-eq-true (some (boolean b)) h = cc
at_least_2-eq-true (some (other_number t)) h = cc
at_least_2-eq-true (some (string t)) h = cc
at_least_2-eq-true (some (array es)) h = cc
at_least_2-eq-true (some (object ms)) h = cc

is_some-eq-false : (field : Option Json) → is_some field ≡ false → field ≡ none
is_some-eq-false none h = refl
is_some-eq-false (some value) h = cc

valid_package_manager-NamesNpm :
    (host : Host) (field : Option Json)
    → valid_package_manager host field ≡ true
    → NamesNpm host field
unfolding valid_package_manager
valid_package_manager-NamesNpm host none h = inl refl
valid_package_manager-NamesNpm host (some (string text)) h =
    inr (named (npm_version (codes text)) refl h)
  where
    named :
        (found : Option (List ℕ))
        → npm_version (codes text) ≡ found
        → in_range host found ≡ true
        → (t : String) × (range : List ℕ) × (Option.some (string text) ≡ some (string t))
          × (npm_version (codes t) ≡ some range)
          × (host.valid_range range ≡ true)
    named none e h = cc
    named (some range) e h = (text, range, refl, e, h)
valid_package_manager-NamesNpm host (some null) h = cc
valid_package_manager-NamesNpm host (some (boolean b)) h = cc
valid_package_manager-NamesNpm host (some (number n)) h = cc
valid_package_manager-NamesNpm host (some (other_number t)) h = cc
valid_package_manager-NamesNpm host (some (array es)) h = cc
valid_package_manager-NamesNpm host (some (object ms)) h = cc

node24_compatible-AllowsNode24 :
    (host : Host) (field : Option Json)
    → node24_compatible host field ≡ true
    → AllowsNode24 host field
unfolding node24_compatible
node24_compatible-AllowsNode24 host (some (string text)) h =
    let (valid, satisfied) = and-eq-true (host.valid_range (codes text)) _ h in
    (text, refl, valid, satisfied)
node24_compatible-AllowsNode24 host none h = cc
node24_compatible-AllowsNode24 host (some null) h = cc
node24_compatible-AllowsNode24 host (some (boolean b)) h = cc
node24_compatible-AllowsNode24 host (some (number n)) h = cc
node24_compatible-AllowsNode24 host (some (other_number t)) h = cc
node24_compatible-AllowsNode24 host (some (array es)) h = cc
node24_compatible-AllowsNode24 host (some (object ms)) h = cc

filled :
    (found : Option (List ℕ))
    → is_some found ≡ true
    → not (found == some []) ≡ true
    → (script : List ℕ) × (found ≡ some script) × (script ≢ [])
filled none h k = cc
filled (some []) h k = cc
filled (some (c ∷ cs)) h k = (c ∷ cs, refl, cons_some)
  where
    cons_some : (c ∷ cs) ≢ []
    cons_some e = cc

pub checked_manifest-ManifestChecked :
    (host : Host) (json lock : InspectedFile) {scripts : Scripts} {dependencies : List (List ℕ)}
    → checked_manifest host json lock ≡ passed (scripts, dependencies)
    → ManifestChecked host json lock scripts dependencies
unfolding checked_manifest validate_package_lock
checked_manifest-ManifestChecked host json lock h =
    let (manifest, manifest_parsed, r₁) = present_or-eq-passed _ _ _ h in
    let (lockfile, lockfile_parsed, r₂) = present_or-eq-passed _ _ _ r₁ in
    let (h₃, r₃) = refuse_if-eq-passed _ _ _ r₂ in
    let (h₄, r₄) = refuse_if-eq-passed _ _ _ r₃ in
    let (h₅, r₅) = refuse_if-eq-passed _ _ _ r₄ in
    let (h₆, r₆) = refuse_if-eq-passed _ _ _ r₅ in
    let (found, h₇, r₇) = present_or-eq-passed _ _ _ r₆ in
    let (names, h₈, r₈) = present_or-eq-passed _ _ _ r₇ in
    let (h₉, r₉) = refuse_if-eq-passed _ _ _ r₈ in
    let same_scripts = ap (λ x. x.0) (passed-injective r₉) in
    let same_names = ap (λ x. x.1) (passed-injective r₉) in
    let (version, root) =
      and-eq-true (at_least_2 (property "lockfileVersion" lockfile)) _ (not-eq-false _ h₃) in
    let (there, content) =
      and-eq-true (is_some (entry_of (codes "test") found)) _ (not-eq-false _ h₉) in
    let (script, at, some_script) = filled (entry_of (codes "test") found) there content in
    record {
      manifest = manifest;
      lockfile = lockfile;
      manifest_parsed = manifest_parsed;
      lockfile_parsed = lockfile_parsed;
      version = at_least_2-eq-true _ version;
      root = root;
      no_workspaces = is_some-eq-false _ h₄;
      npm = valid_package_manager-NamesNpm host _ (not-eq-false _ h₅);
      node = node24_compatible-AllowsNode24 host _ (not-eq-false _ h₆);
      scripts_read = h₇ ∙ ap some same_scripts;
      dependencies_read = h₈ ∙ ap some same_names;
      tested = (script, ap (entry_of (codes "test")) (sym same_scripts) ∙ at, some_script);
    }
