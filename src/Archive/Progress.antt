-- ===== src/Archive/Progress.antt =====
-- The rounds of `consume` in lib/repository-baselines/archive.ts and what they leave to read.
use mathlib.Core.Path.{subst}
use vigilo.Prelude.{
  ℕ, zero, suc, ◌*◌, ◌-◌, ◌≤◌, ◌<◌, ◌≡◌, ◌≢◌, ◌⊎◌, refl, ap, ◌∙◌, arith, inl, inr, List, Option,
  none, some, ltb, take, drop, length, length-drop, min, Bool-cases, is_some, ◌==◌, nat_eq,
  ltb-eq-false, if-eq,
}
use vigilo.Prelude.Options.{bind-eq-some, reject_if-eq-some, some-injective}
use vigilo.Archive.Bytes.{Host, Input}
use vigilo.Archive.Reader.{Entry, global_entry, directory_entry, file_entry, Reader}
use vigilo.Archive.Entries.{begin_entry}
use vigilo.Archive.Consume.{
  Round, done, more, skip_padding, read_file, round_of, consume_round, consume, rounds_left, write,
  go_on,
}
use vigilo.Archive.Cases.{begin_entry-Cases}
use vigilo.Archive.Sound.{to_come}
use vigilo.Archive.Rounds.{read_global-cases}

pub go_on-eq-some :
    (again : Reader → Option (Option Reader)) (round : Option Round) {left : Option Reader}
    → go_on again round ≡ some left
    → ((r : Reader) × (round ≡ some (done r)) × (some r ≡ left))
      ⊎ ((r : Reader) × (round ≡ some (more r)) × (again r ≡ some left))
unfolding go_on
go_on-eq-some again none h = cc
go_on-eq-some again (some (done r)) h = inl (r, refl, some-injective h)
go_on-eq-some again (some (more r)) h = inr (r, refl, h)

-- A round that goes on leaves fewer rounds than a number.
Below : ℕ → Round → Type 0
Below n (done r) = Unit
Below n (more r) = rounds_left r < n

skip_padding-Below :
    (n padding : ℕ) (entry : Entry) (r : Reader)
    → 2 * length r.pending < n
    → Below n (skip_padding padding entry r)
unfolding Below
skip_padding-Below n padding entry r h = elim (Bool-cases (ltb (length r.pending) padding)) [
  | inl f ↦ rw f tt
  | inr f ↦ rw f (omega (arith, h, length-drop padding r.pending))
]

read_file-Below :
    (n padding remaining : ℕ) (r : Reader)
    → 2 * length r.pending < n
    → Below n (read_file padding remaining r)
unfolding read_file Below
read_file-Below n padding zero r h = skip_padding-Below n padding (file_entry padding 0) r h
read_file-Below n padding (suc remaining) r h = elim (Bool-cases (length r.pending == 0)) [
  | inl e ↦ rw e tt
  | inr e ↦
      let len = min (suc remaining) (length r.pending) in
      elim (Bool-cases (ltb 0 (suc remaining - len))) [
        | inl f ↦ rw e (rw f tt)
        | inr f ↦ rw e (
            rw f (
              skip_padding-Below n padding (file_entry padding 0)
                (record r {
                  outputs = write (take len r.pending) r.outputs;
                  pending = drop len r.pending;
                  current = some (file_entry padding (suc remaining - len));
                })
                (omega (arith, h, length-drop len r.pending))))
      ]
]

module _ (host : Host) (input : Input) where
  begin_entry-pending :
      (block : List ℕ) (r : Reader) {after : Reader}
      → begin_entry host input block r ≡ some after
      → after.pending ≡ r.pending
  begin_entry-pending block r h =
      begin_entry-Cases host input (λ after. after.pending ≡ r.pending) r
        (record {
          zeros = λ n ended. refl;
          global = λ padding size. refl;
          root_directory = λ root. refl;
          a_directory = λ root relative safe new. refl;
          a_file = λ root relative executable padding size safe new fits. refl;
        })
        block h

  round_of-Below :
      (entry : Option Entry) (r : Reader) {round : Round}
      → r.current ≡ entry
      → round_of host input entry r ≡ some round
      → Below (rounds_left r) round
  unfolding round_of Below
  round_of-Below none r c h = elim (Bool-cases (ltb (length r.pending) 512)) [
    | inl e ↦ subst (Below (rounds_left r)) (some-injective (rw e at h)) tt
    | inr e ↦
        let (begun, h₁, r₁) = bind-eq-some _ _ (rw e at h) in
        subst (Below (rounds_left r)) (some-injective r₁) (
          fewer begun (ltb-eq-false _ _ e)
            (ap length (begin_entry-pending _ _ h₁) ∙ length-drop 512 r.pending))
  ]
    where
      fewer :
          (begun : Reader)
          → 512 ≤ length r.pending
          → length begun.pending ≡ length r.pending - 512
          → rounds_left begun < rounds_left r
      fewer begun enough e = elim (Bool-cases (is_some begun.current)) [
        | inl f ↦ rw f (omega (arith, enough, e))
        | inr f ↦ rw f (omega (arith, enough, e))
      ]
  round_of-Below (some directory_entry) r c h =
      subst (Below (rounds_left r)) (some-injective h)
        (skip_padding-Below _ 0 directory_entry r (rw c (omega arith)))
  round_of-Below (some (file_entry padding remaining)) r c h =
      subst (Below (rounds_left r)) (some-injective h)
        (read_file-Below _ padding remaining r (rw c (omega arith)))
  round_of-Below (some (global_entry chunks padding remaining)) r c h =
      read_global-cases host input (Below (rounds_left r)) chunks padding remaining r tt
        (λ rest read left. tt)
        (λ found entry read n e.
          skip_padding-Below _ padding (global_entry read padding 0)
            (record r { pending = drop n r.pending; current = entry; pax_commit = found })
            (rw c (omega (arith, length-drop n r.pending))))
        (ap to_come c) h

  consume_round-Below :
      (r : Reader) {round : Round}
      → consume_round host input r ≡ some round
      → Below (rounds_left r) round
  unfolding consume_round Below
  consume_round-Below r h = elim (if-eq r.ended _ _ h) [
    | inl (_, g) ↦
        let (_, done_now) = reject_if-eq-some _ _ g in
        subst (Below (rounds_left r)) (some-injective done_now) tt
    | inr (_, g) ↦ round_of-Below r.current r refl g
  ]

  -- With more fuel than there are rounds left, `consume` either fails or comes to its end.
  pub consume-ends :
      (fuel : ℕ) (r : Reader) → rounds_left r < fuel → consume fuel host input r ≢ some none
  unfolding consume Below
  consume-ends zero r h e = omega (arith, h)
  consume-ends (suc fuel) r h e = elim (go_on-eq-some _ (consume_round host input r) e) [
    | inl (_, _, f) ↦ ended f
    | inr (r', f, g) ↦ consume-ends fuel r' (omega (arith, h, consume_round-Below r f)) g
  ]
    where
      ended : {r : Reader} → some r ≢ none
      ended h = cc
