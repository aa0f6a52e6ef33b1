-- ===== src/Profile/Walks/Visits.antt =====
-- The recursion of the walk in lib/execution-profiles/detector.ts.
use mathlib.Core.Path.{subst}
use vigilo.Prelude.{
  ℕ, zero, suc, ◌≡◌, refl, ◌⊎◌, inl, inr, false, ◌||◌, List, ◌∷◌, Option, none, some, Memᴰ,
  contains, mem-keep_of, ◌==◌, ==→≡, list_eq, nat_eq, Bool-cases, or-eq-false, if-eq, length, leb,
  if◌then◌else◌, contains-mem, contains-eq-false_mem,
}
use vigilo.Prelude.Options.{bind-eq-some, some-injective}
use vigilo.Profile.Scripts.{
  Scripts, TestRunner, runner_eq, Walk, enter, leave, visit_new, visit, max_referenced_scripts,
}
use vigilo.Profile.Order.{Reads, Refers, Starts, Reads-same}
use vigilo.Profile.Walks.{Inv, After, Finishes}
use vigilo.Profile.Walks.Commands.{Ran, run_commands_lem}

module _ (scripts : Scripts) (dependencies : List (List ℕ)) where
  enter-Inv :
      (name : List ℕ) (w : Walk) (finished : List (List ℕ))
      → Inv scripts dependencies w finished
      → Inv scripts dependencies (enter name w) finished
  enter-Inv name w finished inv = record {
    ordered = inv.ordered;
    covered = λ n m. in_cons n m;
    sound = inv.sound;
    noted = inv.noted;
  }
    where
      in_cons :
          (n : List ℕ) → Memᴰ n (name ∷ w.visited) → Memᴰ n (name ∷ w.active) ⊎ Memᴰ n finished
      in_cons n (Memᴰ.head e) = inl (Memᴰ.head e)
      in_cons n (Memᴰ.tail m) = elim (inv.covered n m) [ inl a ↦ inl (Memᴰ.tail a) | inr f ↦ inr f ]

  -- When all commands of a script were run, the script is finished.
  leave-Inv :
      (name : List ℕ) (w : Walk) (finished : List (List ℕ))
      (reads : Reads scripts dependencies name)
      → Inv scripts dependencies w finished
      → ((c : List ℕ) → Memᴰ c reads.commands → Ran scripts dependencies c w finished)
      → Inv scripts dependencies (leave name w) (name ∷ finished)
  leave-Inv name w finished reads inv ran = record {
    ordered = (reads, (λ other r. refers other r), inv.ordered);
    covered = λ n m. kept n (inv.covered n m);
    sound = inv.sound;
    noted = λ n runner m starts. noted n runner m starts;
  }
    where
      refers : (other : List ℕ) → Refers scripts dependencies name other → Memᴰ other finished
      refers other r =
          let same = Reads-same scripts dependencies r.has.reads reads in
          (ran r.has.command (subst (Memᴰ r.has.command) same r.has.there)).referred r.words other
            r.has.worded r.is_run r.target

      kept :
          (n : List ℕ)
          → Memᴰ n w.active ⊎ Memᴰ n finished
          → Memᴰ n (leave name w).active ⊎ Memᴰ n (name ∷ finished)
      kept n (inr f) = inr (Memᴰ.tail f)
      kept n (inl a) = elim (Bool-cases (n == name)) [
        | inl e ↦ inr (Memᴰ.head (==→≡ n name e))
        | inr e ↦ inl (mem-keep_of _ w.active a (rw e))
      ]

      noted :
          (n : List ℕ) (runner : TestRunner)
          → Memᴰ n (name ∷ finished)
          → Starts scripts dependencies n runner
          → Memᴰ runner w.runners
      noted n runner (Memᴰ.tail m) s = inv.noted n runner m s
      noted n runner (Memᴰ.head e) s =
          let own : Starts scripts dependencies name runner =
            subst (λ x. Starts scripts dependencies x runner) e s in
          let same = Reads-same scripts dependencies own.has.reads reads in
          (ran own.has.command (subst (Memᴰ own.has.command) same own.has.there)).started own.words
            runner own.has.worded own.no_run own.starts

  visit_new-Finishes :
      (go : List ℕ → Walk → Option Walk)
      → Finishes scripts dependencies go
      → Finishes scripts dependencies (visit_new scripts dependencies go)
  unfolding visit_new
  visit_new-Finishes go deeper name w after finished reached inv h =
      let (script, found, r₁) = bind-eq-some _ _ h in
      let (commands, split, r₂) = bind-eq-some _ _ r₁ in
      let (walked, h₃, r₃) = bind-eq-some _ _ r₂ in
      let reads : Reads scripts dependencies name = record {
        script = script;
        commands = commands;
        found = found;
        split = split;
      } in
      let (a, ran) =
        run_commands_lem scripts dependencies go deeper name reached reads commands (enter name w)
          walked finished (λ c m. m) (enter-Inv name w finished inv) h₃ in
      subst (λ x. (b : After scripts dependencies w x finished) × Memᴰ name b.now)
        (some-injective r₃)
        (
          record {
            now = name ∷ a.now;
            inv = leave-Inv name walked a.now reads a.inv ran;
            grows = λ n m. Memᴰ.tail (a.grows n m);
            kept = a.kept;
          },
          Memᴰ.head refl,
        )

  pub visit-Finishes :
      (levels : ℕ) → Finishes scripts dependencies (visit scripts dependencies levels)
  unfolding visit
  visit-Finishes zero name w after finished reached inv h = cc
  visit-Finishes (suc levels) name w after finished reached inv h =
      let deeper = visit_new scripts dependencies (visit scripts dependencies levels) name w in
      elim (if-eq (leb max_referenced_scripts (length w.visited) || contains w.active name) none
        (if contains w.visited name then some w else deeper) h) [
          | inl (_, g) ↦ cc
          | inr (fresh, g) ↦ elim (if-eq (contains w.visited name) (some w) deeper g) [
            | inl (seen, f) ↦
                subst (λ x. (b : After scripts dependencies w x finished) × Memᴰ name b.now)
                  (some-injective f)
                  (
                    unchanged,
                    done_before fresh (inv.covered name (contains-mem name w.visited seen)),
                  )
            | inr (_, f) ↦
                visit_new-Finishes (visit scripts dependencies levels) (visit-Finishes levels) name
                  w after finished reached inv f
          ]
        ]
    where
      unchanged : After scripts dependencies w w finished
      unchanged = record { now = finished; inv = inv; grows = λ n m. m; kept = λ r m. m }

      done_before :
          (leb max_referenced_scripts (length w.visited) || contains w.active name) ≡ false
          → Memᴰ name w.active ⊎ Memᴰ name finished
          → Memᴰ name finished
      done_before fresh (inr f) = f
      done_before fresh (inl a) =
          absurd (contains-eq-false_mem name w.active (or-eq-false _ _ fresh).1 a)
