-- ===== src/Profile/Order.antt =====
-- The scripts of a package and their references, as `classifyTestRunner` of
-- lib/execution-profiles/detector.ts reads them, and orders of scripts.
use mathlib.Core.Path.{subst}
use vigilo.Prelude.{
  ℕ, ◌≡◌, sym, ap, ◌∙◌, ◌⊎◌, inl, inr, true, false, List, [], ◌∷◌, some, Memᴰ, codes,
}
use vigilo.Prelude.Options.{some-injective}
use vigilo.Profile.Shell.{split_commands, shell_words}
use vigilo.Profile.Scripts.{Scripts, TestRunner, script_of, is_npm_run, referenced, launches}

module _ (scripts : Scripts) (dependencies : List (List ℕ)) where
  -- What `scripts[name]` finds, on the scripts or on `Object.prototype`, and its commands.
  pub record Reads (name : List ℕ) : Type 0 where
    pub script : List ℕ
    pub commands : List (List ℕ)
    pub found : script_of scripts name ≡ some script
    pub split : split_commands script ≡ some commands

  -- One of its commands, with its words.
  pub record HasCommand (name : List ℕ) (words : List (List ℕ)) : Type 0 where
    pub reads : Reads name
    pub command : List ℕ
    pub there : Memᴰ command reads.commands
    pub worded : shell_words command ≡ some words

  -- `npm run other` in the script.
  pub record Refers (name other : List ℕ) : Type 0 where
    pub words : List (List ℕ)
    pub has : HasCommand name words
    pub is_run : is_npm_run words ≡ true
    pub target : referenced words ≡ some other

  -- A command of the script that starts a test runner.
  pub record Starts (name : List ℕ) (runner : TestRunner) : Type 0 where
    pub words : List (List ℕ)
    pub has : HasCommand name words
    pub no_run : is_npm_run words ≡ false
    pub starts : launches dependencies words runner ≡ true

  -- One reference after another, at least one.
  pub data Leads (name : List ℕ) : List ℕ → Type 0 where
    one : {other : List ℕ} → Refers name other → Leads name other
    more : {mid other : List ℕ} → Leads name mid → Refers mid other → Leads name other

  -- The scripts that running `test` can come to.
  abbrev pub Reached : List ℕ → Type 0
  Reached name = (name ≡ codes "test") ⊎ Leads (codes "test") name

  pub Reached-step : {name other : List ℕ} → Reached name → Refers name other → Reached other
  Reached-step {name} {other} (inl e) r = inr (one (subst (λ n. Refers n other) e r))
  Reached-step (inr l) r = inr (more l r)

  -- Each script refers only to scripts that stand behind it.
  abbrev pub Ordered : List (List ℕ) → Type 0
  Ordered [] = Unit
  Ordered (name ∷ names) =
      Reads name × ((other : List ℕ) → Refers name other → Memᴰ other names) × Ordered names

  Ordered-Refers :
      (names : List (List ℕ)) {name other : List ℕ}
      → Ordered names
      → Memᴰ name names
      → Refers name other
      → Memᴰ other names
  Ordered-Refers [] o m r = elim m [ ]
  Ordered-Refers (n ∷ ns) {name} {other} (_, refs, _) (Memᴰ.head e) r =
      Memᴰ.tail (refs other (subst (λ x. Refers x other) e r))
  Ordered-Refers (n ∷ ns) (_, _, o) (Memᴰ.tail m) r = Memᴰ.tail (Ordered-Refers ns o m r)

  pub Ordered-Leads :
      (names : List (List ℕ)) {name other : List ℕ}
      → Ordered names
      → Memᴰ name names
      → Leads name other
      → Memᴰ other names
  Ordered-Leads names o m (one r) = Ordered-Refers names o m r
  Ordered-Leads names o m (more l r) = Ordered-Refers names o (Ordered-Leads names o m l) r

  pub Ordered-Reads :
      (names : List (List ℕ)) {name : List ℕ} → Ordered names → Memᴰ name names → Reads name
  Ordered-Reads [] o m = elim m [ ]
  Ordered-Reads (n ∷ ns) (reads, _, _) (Memᴰ.head e) = subst Reads (sym e) reads
  Ordered-Reads (n ∷ ns) (_, _, o) (Memᴰ.tail m) = Ordered-Reads ns o m

  -- From the first script of an order, everything it leads to stands behind it.
  Ordered-behind :
      (n : List ℕ) (ns : List (List ℕ)) {other : List ℕ}
      → Ordered (n ∷ ns)
      → Leads n other
      → Memᴰ other ns
  Ordered-behind n ns {other} (_, refs, _) (one r) = refs other r
  Ordered-behind n ns (reads, refs, o) (more l r) =
      Ordered-Refers ns o (Ordered-behind n ns (reads, refs, o) l) r

  pub Ordered-acyclic :
      (names : List (List ℕ)) {name : List ℕ} → Ordered names → Memᴰ name names → ¬ Leads name name
  Ordered-acyclic [] o m l = elim m [ ]
  Ordered-acyclic (n ∷ ns) (reads, refs, o) (Memᴰ.head e) l =
      let cycle = subst (λ x. Leads x x) e l in
      Ordered-acyclic ns o (Ordered-behind n ns (reads, refs, o) cycle) cycle
  Ordered-acyclic (n ∷ ns) (_, _, o) (Memᴰ.tail m) l = Ordered-acyclic ns o m l

  -- A script is split in one way only.
  pub Reads-same : {name : List ℕ} (r s : Reads name) → r.commands ≡ s.commands
  Reads-same r s =
      let same : r.script ≡ s.script = some-injective (sym r.found ∙ s.found) in
      some-injective (sym r.split ∙ ap split_commands same ∙ s.split)
