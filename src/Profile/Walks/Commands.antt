-- ===== src/Profile/Walks/Commands.antt =====
-- The commands of one script in the walk of lib/execution-profiles/detector.ts.
use mathlib.Core.Path.{subst}
use vigilo.Prelude.{
  ℕ, ◌≡◌, refl, sym, ap, ◌∙◌, ◌⊎◌, inl, inr, Bool, true, false, List, [], ◌∷◌, Option, some, Memᴰ,
  list_eq, nat_eq, if-eq,
}
use vigilo.Prelude.Options.{◌>>=◌, bind-eq-some, reject_if-eq-some, some-injective}
use vigilo.Profile.Shell.{shell_words}
use vigilo.Profile.Scripts.{
  Scripts, TestRunner, runner_eq, Walk, is_npm_run, referenced, launches, note_runners, run_command,
  run_commands,
}
use vigilo.Profile.Order.{Reads, HasCommand, Refers, Reached, Reached-step}
use vigilo.Profile.Walks.{Started, Inv, After, Finishes}
use vigilo.Profile.Walks.Notes.{note_runners-mem, note_runners-new, note_runners-inv}

module _ (scripts : Scripts) (dependencies : List (List ℕ)) where
  -- What a command that was run leaves behind.
  pub record Ran (command : List ℕ) (after : Walk) (now : List (List ℕ)) : Type 0 where
    pub referred :
        (words : List (List ℕ)) (other : List ℕ)
        → shell_words command ≡ some words
        → is_npm_run words ≡ true
        → referenced words ≡ some other
        → Memᴰ other now
    pub started :
        (words : List (List ℕ)) (runner : TestRunner)
        → shell_words command ≡ some words
        → is_npm_run words ≡ false
        → launches dependencies words runner ≡ true
        → Memᴰ runner after.runners

  Ran-After :
      {w after : Walk} {finished : List (List ℕ)} (command : List ℕ)
      (a : After scripts dependencies w after finished)
      → Ran command w finished
      → Ran command after a.now
  Ran-After command a r = record {
    referred = λ words other e run target. a.grows other (r.referred words other e run target);
    started = λ words runner e run l. a.kept runner (r.started words runner e run l);
  }

  After-trans :
      {w mid after : Walk} {finished : List (List ℕ)}
      (a : After scripts dependencies w mid finished)
      → After scripts dependencies mid after a.now
      → After scripts dependencies w after finished
  After-trans a b = record {
    now = b.now;
    inv = b.inv;
    grows = λ name m. b.grows name (a.grows name m);
    kept = λ runner m. b.kept runner (a.kept runner m);
  }

  module _ (go : List ℕ → Walk → Option Walk) (deeper : Finishes scripts dependencies go)
      (name : List ℕ) (reached : Reached scripts dependencies name)
      (reads : Reads scripts dependencies name) where
    run_command-npm :
        (command : List ℕ) (words : List (List ℕ)) (w after : Walk) (finished : List (List ℕ))
        → Memᴰ command reads.commands
        → Inv scripts dependencies w finished
        → shell_words command ≡ some words
        → is_npm_run words ≡ true
        → (referenced words >>= λ other. go other w) ≡ some after
        → (a : After scripts dependencies w after finished) × Ran command after a.now
    run_command-npm command words w after finished there inv worded run h =
        let (other, target, r₁) = bind-eq-some _ _ h in
        let has : HasCommand scripts dependencies name words = record {
          reads = reads;
          command = command;
          there = there;
          worded = worded;
        } in
        let refers : Refers scripts dependencies name other = record {
          words = words;
          has = has;
          is_run = run;
          target = target;
        } in
        let (a, m) =
          deeper other w after finished (Reached-step scripts dependencies reached refers) inv r₁ in
        (
          a,
          record {
            referred = λ ws o e is_run t.
                let same : ws ≡ words = some-injective (sym e ∙ worded) in
                let same_target : other ≡ o =
                  some-injective (sym target ∙ ap referenced (sym same) ∙ t) in
                subst (λ x. Memᴰ x a.now) same_target m;
            started = λ ws r e no_run l.
                let same : ws ≡ words = some-injective (sym e ∙ worded) in
                absurd (clash run (ap is_npm_run (sym same) ∙ no_run));
          },
        )
      where
        clash : {b : Bool} → b ≡ true → b ≡ false → ⊥
        clash p q = cc

    run_command-other :
        (command : List ℕ) (words : List (List ℕ)) (w : Walk) (finished : List (List ℕ))
        → Memᴰ command reads.commands
        → Inv scripts dependencies w finished
        → shell_words command ≡ some words
        → is_npm_run words ≡ false
        → (a : After scripts dependencies w (note_runners dependencies words w) finished) × Ran
            command
            (note_runners dependencies words w)
            a.now
    unfolding note_runners
    run_command-other command words w finished there inv worded no_run = (
      record {
        now = finished;
        inv = record {
          ordered = inv.ordered;
          covered = inv.covered;
          sound = λ runner m. launched runner (note_runners-inv dependencies words w runner m);
          noted = λ n runner m starts.
              note_runners-mem dependencies words w runner (inv.noted n runner m starts);
        };
        grows = λ n m. m;
        kept = note_runners-mem dependencies words w;
      },
      record {
        referred = λ ws other e run t.
            let same : ws ≡ words = some-injective (sym e ∙ worded) in
            absurd (clash run (ap is_npm_run same ∙ no_run));
        started = λ ws runner e _ l.
            let same : ws ≡ words = some-injective (sym e ∙ worded) in
            note_runners-new dependencies words w runner
              (ap (λ x. launches dependencies x runner) (sym same) ∙ l);
      },
    )
      where
        clash : {b : Bool} → b ≡ true → b ≡ false → ⊥
        clash p q = cc

        launched :
            (runner : TestRunner)
            → Memᴰ runner w.runners ⊎ (launches dependencies words runner ≡ true)
            → Started scripts dependencies runner
        launched runner (inl m) = inv.sound runner m
        launched runner (inr l) = record {
          name = name;
          reached = reached;
          starts = record {
            words = words;
            has = record { reads = reads; command = command; there = there; worded = worded };
            no_run = no_run;
            starts = l;
          };
        }

    run_command_lem :
        (command : List ℕ) (w after : Walk) (finished : List (List ℕ))
        → Memᴰ command reads.commands
        → Inv scripts dependencies w finished
        → run_command dependencies go command w ≡ some after
        → (a : After scripts dependencies w after finished) × Ran command after a.now
    unfolding run_command
    run_command_lem command w after finished there inv h =
        let (words, worded, r₁) = bind-eq-some _ _ h in
        let (_, r₂) = reject_if-eq-some _ _ r₁ in
        elim (if-eq (is_npm_run words) (referenced words >>= λ other. go other w) _ r₂) [
          | inl (run, g) ↦ run_command-npm command words w after finished there inv worded run g
          | inr (no_run, g) ↦
              subst (λ x. (a : After scripts dependencies w x finished) × Ran command x a.now)
                (some-injective g)
                (run_command-other command words w finished there inv worded no_run)
        ]

    pub run_commands_lem :
        (commands : List (List ℕ)) (w after : Walk) (finished : List (List ℕ))
        → ((c : List ℕ) → Memᴰ c commands → Memᴰ c reads.commands)
        → Inv scripts dependencies w finished
        → run_commands dependencies go commands w ≡ some after
        → (a : After scripts dependencies w after finished) × ((c : List ℕ)
            → Memᴰ c commands
            → Ran c after a.now)
    unfolding run_commands After-trans
    run_commands_lem [] w after finished there inv h = (
      record {
        now = finished;
        inv = subst (λ x. Inv scripts dependencies x finished) (some-injective h) inv;
        grows = λ n m. m;
        kept = λ r m. subst (λ (x : Walk). Memᴰ r x.runners) (some-injective h) m;
      },
      λ c m. elim m [ ],
    )
    run_commands_lem (command ∷ commands) w after finished there inv h =
        let (mid, h₁, r₁) = bind-eq-some _ _ h in
        let (a, ran) =
          run_command_lem command w mid finished (there command (Memᴰ.head refl)) inv h₁ in
        let (b, rest) =
          run_commands_lem commands mid after a.now (λ c m. there c (Memᴰ.tail m)) a.inv r₁ in
        (After-trans a b, λ c m. in_cons a b ran rest c m)
      where
        in_cons :
            {mid : Walk} (a : After scripts dependencies w mid finished)
            (b : After scripts dependencies mid after a.now)
            → Ran command mid a.now
            → ((c : List ℕ) → Memᴰ c commands → Ran c after b.now)
            → (c : List ℕ) → Memᴰ c (command ∷ commands)
            → Ran c after b.now
        in_cons a b ran rest c (Memᴰ.head e) =
            subst (λ x. Ran x after b.now) (sym e) (Ran-After command b ran)
        in_cons a b ran rest c (Memᴰ.tail m) = rest c m
