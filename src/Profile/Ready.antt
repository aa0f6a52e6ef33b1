-- ===== src/Profile/Ready.antt =====
-- What lib/execution-profiles/detector.ts has found out when it gives a test runner or a profile.
use mathlib.Core.Path.{subst}
use vigilo.Prelude.{
  ℕ, suc, ◌≡◌, ◌↔◌, ◌⊎◌, Option, none, refl, sym, ap, ◌∙◌, inl, inr, false, not, List, [], ◌∷◌,
  some, Memᴰ, codes, and-eq-true, not-eq-false, ==→≡, ◌==◌, string_eq, is_git_sha,
}
use vigilo.Prelude.Options.{bind-eq-some, some-injective}
use vigilo.Prelude.Checks.{
  passed, bind-eq-passed, passed-injective, refuse_if-eq-passed, present_or-eq-passed,
}
use vigilo.Profile.Scripts.{
  entry_of, inherited, or_else, script_of, Scripts, TestRunner, max_script_depth, Walk,
  classify_test_runner,
}
use vigilo.Profile.Detect.{
  Inspection, InspectedFile, Host, Ready, competing_lockfiles, monorepo_markers, has_entry,
  valid_inspected_file, checked_files, only_runner, detect_execution_profile,
}
use vigilo.Profile.Manifest.{ManifestChecked, checked_manifest-ManifestChecked}
use vigilo.Profile.Order.{Reads, Reached, Leads, Ordered-Leads, Ordered-Reads, Ordered-acyclic}
use vigilo.Profile.Walks.{Started, Inv}
use vigilo.Profile.Walks.Visits.{visit-Finishes}

-- Where `scripts[name]` finds a script: in package.json, or, if there is none by that name, among the
-- members of `Object.prototype`.
abbrev pub IsFound : Scripts → List ℕ → Type 0
IsFound scripts name =
    ((script : List ℕ) × (entry_of name scripts ≡ some script))
    ⊎ ((entry_of name scripts ≡ none)
        × ((script : List ℕ) × (entry_of name inherited ≡ some script)))

Reads-IsFound :
    (scripts : Scripts) (dependencies : List (List ℕ)) (name : List ℕ)
    → Reads scripts dependencies name
    → IsFound scripts name
unfolding script_of
Reads-IsFound scripts dependencies name reads = found (entry_of name scripts) refl reads.found
  where
    found :
        (own : Option (List ℕ))
        → entry_of name scripts ≡ own
        → or_else own (entry_of name inherited) ≡ some reads.script
        → IsFound scripts name
    found none e h = inr (e, (reads.script, h))
    found (some script) e h = inl (script, e)

-- When the scripts are accepted, then every script that `test` can come to is an entry of package.json
-- or, where it has none by that name, a member of `Object.prototype`; what `scripts[name]` finds can
-- be split into commands; none of them leads back to itself; and the runners are exactly those that
-- one of their commands starts.
pub classify-exact :
    (scripts : Scripts) (dependencies : List (List ℕ)) (runners : List TestRunner)
    → classify_test_runner scripts dependencies ≡ some runners
    → ((name : List ℕ)
        → Reached scripts dependencies name
        → IsFound scripts name
          × Reads scripts dependencies name
          × (¬ Leads scripts dependencies name name))
      × ((runner : TestRunner) → Memᴰ runner runners ↔ Started scripts dependencies runner)
unfolding classify_test_runner
classify-exact scripts dependencies runners h =
    let (walked, h₁, r₁) = bind-eq-some _ _ h in
    let (a, m) =
      visit-Finishes scripts dependencies (suc max_script_depth) (codes "test") new_walk walked []
        (inl refl) start h₁ in
    (
      λ name reached.
          let here = finished a.now a.inv m name reached in
          let reads = Ordered-Reads scripts dependencies a.now a.inv.ordered here in
          (
            Reads-IsFound scripts dependencies name reads,
            reads,
            Ordered-acyclic scripts dependencies a.now a.inv.ordered here,
          ),
      λ runner. (
        λ there. a.inv.sound runner (subst (Memᴰ runner) (sym (some-injective r₁)) there),
        λ s.
            subst (Memᴰ runner) (some-injective r₁)
              (a.inv.noted s.name runner (finished a.now a.inv m s.name s.reached) s.starts),
      ),
    )
  where
    new_walk : Walk
    new_walk = record { visited = []; active = []; runners = [] }

    start : Inv scripts dependencies new_walk []
    start = record {
      ordered = tt;
      covered = λ name m. elim m [ ];
      sound = λ runner m. elim m [ ];
      noted = λ name runner m s. elim m [ ];
    }

    finished :
        {walked : Walk} (now : List (List ℕ))
        → Inv scripts dependencies walked now
        → Memᴰ (codes "test") now
        → (name : List ℕ) → Reached scripts dependencies name
        → Memᴰ name now
    finished now inv m name (inl e) = subst (λ n. Memᴰ n now) (sym e) m
    finished now inv m name (inr l) = Ordered-Leads scripts dependencies now inv.ordered m l

only_runner-eq-passed :
    (runners : List TestRunner) {runner : TestRunner}
    → only_runner runners ≡ passed runner
    → runners ≡ runner ∷ []
unfolding only_runner
only_runner-eq-passed [] h = cc
only_runner-eq-passed (one ∷ []) h = ap (λ r. r ∷ []) (passed-injective h)
only_runner-eq-passed (one ∷ two ∷ more) h = cc

-- The two files that a detection has read are those of the inspection, under their own hashes, in a
-- repository without a competing lockfile and without the mark of a monorepo.
pub record FilesChecked (host : Host) (input : Inspection) (json lock : InspectedFile)
    : Type 0 where
  pub json_given : input.package_json ≡ some json
  pub lock_given : input.package_lock ≡ some lock
  pub json_hash : host.git_blob_sha json.content ≡ json.sha
  pub lock_hash : host.git_blob_sha lock.content ≡ lock.sha
  pub no_competitor : has_entry competing_lockfiles input ≡ false
  pub no_monorepo : has_entry monorepo_markers input ≡ false

valid_inspected_file-hash :
    (host : Host) (f : InspectedFile)
    → not (valid_inspected_file host f) ≡ false
    → host.git_blob_sha f.content ≡ f.sha
unfolding valid_inspected_file
valid_inspected_file-hash host f h =
    let (_, same) =
      and-eq-true (is_git_sha f.sha) (host.git_blob_sha f.content == f.sha) (not-eq-false _ h) in
    ==→≡ _ _ same

checked_files-FilesChecked :
    (host : Host) (input : Inspection) (json lock : InspectedFile)
    → checked_files host input ≡ passed (json, lock)
    → FilesChecked host input json lock
unfolding checked_files
checked_files-FilesChecked host input json lock h =
    let (h₁, r₁) = refuse_if-eq-passed _ _ _ h in
    let (h₂, r₂) = refuse_if-eq-passed _ _ _ r₁ in
    let (_, _, r₃) = present_or-eq-passed _ _ _ r₂ in
    let (j, h₄, r₄) = present_or-eq-passed _ _ _ r₃ in
    let (_, _, r₅) = present_or-eq-passed _ _ _ r₄ in
    let (l, h₆, r₆) = present_or-eq-passed _ _ _ r₅ in
    let (_, r₇) = refuse_if-eq-passed _ _ _ r₆ in
    let (_, r₈) = refuse_if-eq-passed _ _ _ r₇ in
    let (h₉, r₉) = refuse_if-eq-passed _ _ _ r₈ in
    let (h₁₀, r₁₀) = refuse_if-eq-passed _ _ _ r₉ in
    let same_json : j ≡ json = ap (λ x. x.0) (passed-injective r₁₀) in
    let same_lock : l ≡ lock = ap (λ x. x.1) (passed-injective r₁₀) in
    record {
      json_given = h₄ ∙ ap some same_json;
      lock_given = h₆ ∙ ap some same_lock;
      json_hash =
          subst (λ (f : InspectedFile). host.git_blob_sha f.content ≡ f.sha) same_json
            (valid_inspected_file-hash host j h₉);
      lock_hash =
          subst (λ (f : InspectedFile). host.git_blob_sha f.content ≡ f.sha) same_lock
            (valid_inspected_file-hash host l h₁₀);
      no_competitor = h₁;
      no_monorepo = h₂;
    }

-- What a ready profile rests on.
pub record IsReady (host : Host) (input : Inspection) (ready : Ready) : Type 0 where
  pub json : InspectedFile
  pub lock : InspectedFile
  pub files : FilesChecked host input json lock
  pub scripts : Scripts
  pub dependencies : List (List ℕ)
  pub manifest : ManifestChecked host json lock scripts dependencies
  pub acyclic :
      (name : List ℕ)
      → Reached scripts dependencies name
      → IsFound scripts name
        × Reads scripts dependencies name
        × (¬ Leads scripts dependencies name name)
  pub only :
      (runner : TestRunner)
      → Started scripts dependencies runner ↔ (runner ≡ ready.facts.test_runner)
  pub json_blob : ready.facts.package_json_blob_sha ≡ host.git_blob_sha json.content
  pub lock_blob : ready.facts.package_lock_blob_sha ≡ host.git_blob_sha lock.content
  pub identity : ready.profile_identity ≡ host.profile_identity ready.facts

-- A profile is ready only for a repository without a competing lockfile or the mark of a monorepo,
-- whose two files were given with the Git hash of their content, which the profile carries; whose
-- lockfile has a version from 2 and an entry for the root; whose manifest has no workspaces, names npm
-- if it names a package manager, allows Node 24, has scripts and dependencies that can be read, and
-- a script `test` that is not empty; where every script that `test` can come to is an entry of
-- package.json or, where it has none by that name, a member of `Object.prototype`, what
-- `scripts[name]` finds can be split into commands, and none leads back to itself; and one of whose
-- commands starts the profile's test runner, while none starts another.
pub detect-IsReady :
    (host : Host) (input : Inspection) (ready : Ready)
    → detect_execution_profile host input ≡ passed ready
    → IsReady host input ready
unfolding detect_execution_profile
detect-IsReady host input ready h =
    let ((json, lock), h₁, r₁) = bind-eq-passed _ _ h in
    let ((scripts, dependencies), h₂, r₂) = bind-eq-passed _ _ r₁ in
    let (runners, h₃, r₃) = present_or-eq-passed _ _ _ r₂ in
    let (runner, h₄, r₄) = bind-eq-passed _ _ r₃ in
    let files = checked_files-FilesChecked host input json lock h₁ in
    let (acyclic, exact) = classify-exact scripts dependencies runners h₃ in
    let alone = only_runner-eq-passed runners h₄ in
    subst (IsReady host input) (passed-injective r₄) (record {
      json = json;
      lock = lock;
      files = files;
      scripts = scripts;
      dependencies = dependencies;
      manifest = checked_manifest-ManifestChecked host json lock h₂;
      acyclic = acyclic;
      only = λ r. (
        λ s. single r runner (subst (Memᴰ r) alone ((exact r).1 s)),
        λ e. (exact r).0 (subst (Memᴰ r) (sym alone) (Memᴰ.head e)),
      );
      json_blob = sym files.json_hash;
      lock_blob = sym files.lock_hash;
      identity = refl;
    })
  where
    single : (r runner : TestRunner) → Memᴰ r (runner ∷ []) → r ≡ runner
    single r runner (Memᴰ.head e) = e
    single r runner (Memᴰ.tail m) = elim m [ ]
