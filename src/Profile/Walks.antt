-- ===== src/Profile/Walks.antt =====
-- The walk of `classifyTestRunner` in lib/execution-profiles/detector.ts, with the scripts that it has
-- finished in the order of the finishing.
pub mod Notes
pub mod Commands
pub mod Visits
use mathlib.Core.Path.{subst}
use vigilo.Prelude.{
  ℕ, zero, suc, ◌≡◌, ◌≢◌, refl, sym, ap, ◌∙◌, ◌⊎◌, inl, inr, Bool, true, false, not, ◌||◌, List, [],
  ◌∷◌, Option, none, some, Memᴰ, codes, arith, contains, any, keep, any-eq-true_mem,
  any-eq-false_mem, mem-keep_of, ◌==◌, ==→≡, ==_refl, ≢→==, list_eq, nat_eq, Bool-cases,
  or-eq-false, if-eq, length, leb, if◌then◌else◌, contains-mem, contains-eq-false_mem, ◌&&◌,
  and-eq-true,
}
use vigilo.Prelude.Options.{◌>>=◌, ◌>>◌, reject_if, bind-eq-some, reject_if-eq-some, some-injective}
use vigilo.Profile.Shell.{split_commands, shell_words}
use vigilo.Profile.Scripts.{
  Scripts, TestRunner, jest, node_test, vitest, runner_eq, Walk, script_of, is_npm_run, referenced,
  launches, note_runner, note_runners, run_command, run_commands, enter, leave, visit_new, visit,
  max_referenced_scripts,
}
use vigilo.Profile.Order.{
  Reads, HasCommand, Refers, Starts, Reached, Reached-step, Ordered, Reads-same,
}

module _ (scripts : Scripts) (dependencies : List (List ℕ)) where
  -- A runner that some reached script starts.
  pub record Started (runner : TestRunner) : Type 0 where
    pub name : List ℕ
    pub reached : Reached scripts dependencies name
    pub starts : Starts scripts dependencies name runner

  pub record Inv (w : Walk) (finished : List (List ℕ)) : Type 0 where
    pub ordered : Ordered scripts dependencies finished
    pub covered : (name : List ℕ) → Memᴰ name w.visited → Memᴰ name w.active ⊎ Memᴰ name finished
    pub sound : (runner : TestRunner) → Memᴰ runner w.runners → Started runner
    pub noted :
        (name : List ℕ) (runner : TestRunner)
        → Memᴰ name finished
        → Starts scripts dependencies name runner
        → Memᴰ runner w.runners

  -- What a part of the walk leaves, after which more scripts are finished.
  pub record After (w after : Walk) (finished : List (List ℕ)) : Type 0 where
    pub now : List (List ℕ)
    pub inv : Inv after now
    pub grows : (name : List ℕ) → Memᴰ name finished → Memᴰ name now
    pub kept : (runner : TestRunner) → Memᴰ runner w.runners → Memᴰ runner after.runners

  -- The walk one level deeper finishes each name that it accepts.
  abbrev pub Finishes : (List ℕ → Walk → Option Walk) → Type 0
  Finishes go =
      (name : List ℕ) (w : Walk) (after : Walk) (finished : List (List ℕ))
      → Reached scripts dependencies name
      → Inv w finished
      → go name w ≡ some after
      → (a : After w after finished) × Memᴰ name a.now
