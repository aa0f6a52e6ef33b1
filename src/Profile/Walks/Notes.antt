-- ===== src/Profile/Walks/Notes.antt =====
-- The runners that a command adds in lib/execution-profiles/detector.ts.
use vigilo.Prelude.{
  ℕ, ◌≡◌, refl, ap, ◌∙◌, ◌⊎◌, inl, inr, true, not, List, ◌∷◌, Memᴰ, contains, list_eq, nat_eq,
  Bool-cases, contains-mem, ◌&&◌, and-eq-true,
}
use vigilo.Profile.Scripts.{
  TestRunner, jest, node_test, vitest, runner_eq, Walk, launches, note_runner, note_runners,
}

module _ (dependencies : List (List ℕ)) where
  note_runner-mem :
      (words : List (List ℕ)) (runner : TestRunner) (rs : List TestRunner) (r : TestRunner)
      → Memᴰ r rs
      → Memᴰ r (note_runner dependencies words runner rs)
  unfolding note_runner
  note_runner-mem words runner rs r m =
      elim (Bool-cases (launches dependencies words runner && not (contains rs runner))) [
        | inl e ↦ rw e (Memᴰ.tail m)
        | inr e ↦ rw e m
      ]

  note_runner-new :
      (words : List (List ℕ)) (runner : TestRunner) (rs : List TestRunner)
      → launches dependencies words runner ≡ true
      → Memᴰ runner (note_runner dependencies words runner rs)
  unfolding note_runner
  note_runner-new words runner rs l = elim (Bool-cases (contains rs runner)) [
    | inl e ↦ rw (l, e) (contains-mem runner rs e)
    | inr e ↦ rw (l, e) (Memᴰ.head refl)
  ]

  note_runner-inv :
      (words : List (List ℕ)) (runner : TestRunner) (rs : List TestRunner) (r : TestRunner)
      → Memᴰ r (note_runner dependencies words runner rs)
      → Memᴰ r rs ⊎ (launches dependencies words r ≡ true)
  unfolding note_runner
  note_runner-inv words runner rs r m =
      elim (Bool-cases (launches dependencies words runner && not (contains rs runner))) [
        | inl e ↦ added (and-eq-true _ _ e).0 (rw e at m)
        | inr e ↦ inl (rw e at m)
      ]
    where
      added :
          launches dependencies words runner ≡ true
          → Memᴰ r (runner ∷ rs)
          → Memᴰ r rs ⊎ (launches dependencies words r ≡ true)
      added l (Memᴰ.head e) = inr (ap (launches dependencies words) e ∙ l)
      added l (Memᴰ.tail m) = inl m

  pub note_runners-mem :
      (words : List (List ℕ)) (w : Walk) (r : TestRunner)
      → Memᴰ r w.runners
      → Memᴰ r (note_runners dependencies words w).runners
  unfolding note_runners
  note_runners-mem words w r m =
      note_runner-mem words jest _ r
        (note_runner-mem words vitest _ r (note_runner-mem words node_test w.runners r m))

  pub note_runners-new :
      (words : List (List ℕ)) (w : Walk) (r : TestRunner)
      → launches dependencies words r ≡ true
      → Memᴰ r (note_runners dependencies words w).runners
  unfolding note_runners
  note_runners-new words w jest l = note_runner-new words jest _ l
  note_runners-new words w vitest l =
      note_runner-mem words jest _ vitest (note_runner-new words vitest _ l)
  note_runners-new words w node_test l =
      note_runner-mem words jest _ node_test
        (note_runner-mem words vitest _ node_test (note_runner-new words node_test w.runners l))

  pub note_runners-inv :
      (words : List (List ℕ)) (w : Walk) (r : TestRunner)
      → Memᴰ r (note_runners dependencies words w).runners
      → Memᴰ r w.runners ⊎ (launches dependencies words r ≡ true)
  unfolding note_runners
  note_runners-inv words w r m = elim (note_runner-inv words jest _ r m) [
    | inr l ↦ inr l
    | inl m₁ ↦ elim (note_runner-inv words vitest _ r m₁) [
      | inr l ↦ inr l
      | inl m₂ ↦ note_runner-inv words node_test w.runners r m₂
    ]
  ]
