-- ===== src/Archive/Rounds.antt =====
-- The rounds of `consume` in lib/repository-baselines/archive.ts and the state they leave.
use mathlib.Core.Path.{subst}
use vigilo.Prelude.{
  ℕ, zero, suc, ◌+◌, ◌-◌, ◌<◌, ◌≡◌, refl, sym, ap, ◌∙◌, arith, inl, inr, List, [], ◌∷◌, ◌++◌,
  Option, none, some, Memᴰ, ltb, take, drop, length, length-append, min, Bool-cases, ◌==◌, nat_eq,
  length-take, ltb-eq-false, if-eq,
}
use vigilo.Prelude.Options.{bind-eq-some, reject_if-eq-some, some-injective}
use vigilo.Archive.Bytes.{Host, Input}
use vigilo.Archive.Reader.{file, Output, Entry, global_entry, directory_entry, file_entry, Reader}
use vigilo.Archive.Pax.{accept_global_pax}
use vigilo.Archive.Consume.{
  write, Round, done, more, skip_padding, read_file, read_global, round_of, consume_round,
}
use vigilo.Archive.Sound.{IsSound, IsSound-same, begin_entry-IsSound, to_come, content_length}

-- The state a round leaves.
abbrev pub left_by : Round → Reader
left_by (done r) = r
left_by (more r) = r

mem-write :
    (bytes : List ℕ) (os : List Output) (o : Output)
    → Memᴰ o (write bytes os)
    → (before : Output) × Memᴰ before os × (before.path ≡ o.path)
mem-write bytes [] o m = elim m [ ]
mem-write bytes (x ∷ xs) o (Memᴰ.head e) = (x, Memᴰ.head refl, sym (ap (λ (y : Output). y.path) e))
mem-write bytes (x ∷ xs) o (Memᴰ.tail m) = (o, Memᴰ.tail m, refl)

length-write : (bytes : List ℕ) (os : List Output) → length (write bytes os) ≡ length os
length-write bytes [] = refl
length-write bytes (o ∷ os) = refl

content_length-write :
    (bytes : List ℕ) (os : List Output)
    → 0 < length os
    → content_length (write bytes os) ≡ content_length os + length bytes
content_length-write bytes [] h = ground arith
content_length-write bytes (o ∷ os) h = rw (length-append o.content bytes) (omega arith)

-- What is written to the open file is no longer owed.
write-IsSound :
    (host : Host) (input : Input) (r : Reader) (bytes rest : List ℕ) (padding left : ℕ)
    → length bytes + left ≡ to_come r.current
    → 0 < to_come r.current
    → IsSound host input r
    → IsSound host input (record r {
      outputs = write bytes r.outputs;
      pending = rest;
      current = some (file_entry padding left);
    })
write-IsSound host input r bytes rest padding left e h s = record {
  entries = s.entries;
  bytes = s.bytes;
  safe = s.safe;
  apart = s.apart;
  written = λ o m.
      let (before, there, same) = mem-write bytes r.outputs o m in
      subst (λ p. Memᴰ (p, file) r.paths) same (s.written before there);
  balance = omega (arith, s.balance, e, content_length-write bytes r.outputs (s.owed h));
  owed = λ _. omega (arith, length-write bytes r.outputs, s.owed h);
}

module _ (host : Host) (input : Input) where
  skip_padding-IsSound :
      (padding : ℕ) (entry : Entry) (r : Reader)
      → to_come r.current ≡ 0
      → to_come (some entry) ≡ 0
      → IsSound host input r
      → IsSound host input (left_by (skip_padding padding entry r))
  skip_padding-IsSound padding entry r c e s = elim (Bool-cases (ltb (length r.pending) padding)) [
    | inl f ↦ rw f (IsSound-same host input refl refl refl refl (e ∙ sym c) s)
    | inr f ↦ rw f (IsSound-same host input refl refl refl refl (sym c) s)
  ]

  read_file-IsSound :
      (padding remaining : ℕ) (r : Reader)
      → to_come r.current ≡ remaining
      → IsSound host input r
      → IsSound host input (left_by (read_file padding remaining r))
  unfolding read_file
  read_file-IsSound padding zero r c s =
      skip_padding-IsSound padding (file_entry padding 0) r c refl s
  read_file-IsSound padding (suc remaining) r c s = elim (Bool-cases (length r.pending == 0)) [
    | inl e ↦ rw e s
    | inr e ↦
        let len = min (suc remaining) (length r.pending) in
        let wrote =
          write-IsSound host input r (take len r.pending) (drop len r.pending) padding
            (suc remaining - len) (omega (arith, length-take len r.pending, c)) (omega (arith, c))
            s in
        elim (Bool-cases (ltb 0 (suc remaining - len))) [
          | inl f ↦ rw e (rw f wrote)
          | inr f ↦
              let nothing : suc remaining - len ≡ 0 = omega (arith, ltb-eq-false _ _ f) in
              rw e (rw f (skip_padding-IsSound padding (file_entry padding 0) _ nothing refl wrote))
        ]
  ]

  accept_global_pax_lem :
      (body : List ℕ) (r : Reader) {after : Reader}
      → accept_global_pax host input body r ≡ some after
      → (found : Option (List ℕ)) × (record r { pax_commit = found } ≡ after)
  unfolding accept_global_pax
  accept_global_pax_lem body r h =
      let (_, r₁) = reject_if-eq-some _ _ h in
      let (found, _, r₂) = bind-eq-some _ _ r₁ in
      let (_, r₃) = reject_if-eq-some _ _ r₂ in (found, some-injective r₃)

  -- What an accepted round does, once for its soundness and its progress.
  pub read_global-cases :
      (P : Round → Type 0) (chunks : List ℕ) (padding remaining : ℕ) (r : Reader) {round : Round}
      → P (done r)
      → ((rest read : List ℕ) (left : ℕ)
          → P (done (record r { pending = rest; current = some (global_entry read padding left) })))
      → ((found : Option (List ℕ)) (entry : Option Entry) (read : List ℕ) (n : ℕ)
          → to_come entry ≡ 0
          → P (
              skip_padding padding
                (global_entry read padding 0)
                (record r { pending = drop n r.pending; current = entry; pax_commit = found })))
      → to_come r.current ≡ 0
      → read_global host input chunks padding remaining r ≡ some round
      → P round
  unfolding read_global
  read_global-cases P chunks padding zero r stops reads ends c h =
      subst P (some-injective h) (ends r.pax_commit r.current chunks 0 c)
  read_global-cases P chunks padding (suc remaining) r stops reads ends c h =
      elim (Bool-cases (length r.pending == 0)) [
        | inl e ↦ subst P (some-injective (rw e at h)) stops
        | inr e ↦
            let len = min (suc remaining) (length r.pending) in
            let read = chunks ++ take len r.pending in
            let g = rw e at h in
            elim (Bool-cases (ltb 0 (suc remaining - len))) [
              | inl f ↦ subst P (some-injective (rw f at g)) (reads _ _ _)
              | inr f ↦
                  let (accepted, h₁, r₁) = bind-eq-some _ _ (rw f at g) in
                  let (found, e₁) = accept_global_pax_lem read _ h₁ in
                  subst P
                    (ap (λ (x : Reader). skip_padding padding (global_entry read padding 0) x) e₁
                      ∙ some-injective r₁)
                    (ends found (some (global_entry read padding (suc remaining - len))) read len
                      refl)
            ]
      ]

  read_global-IsSound :
      (chunks : List ℕ) (padding remaining : ℕ) (r : Reader) {round : Round}
      → to_come r.current ≡ 0
      → IsSound host input r
      → read_global host input chunks padding remaining r ≡ some round
      → IsSound host input (left_by round)
  read_global-IsSound chunks padding remaining r c s h =
      read_global-cases (λ x. IsSound host input (left_by x)) chunks padding remaining r s
        (λ rest read left. IsSound-same host input refl refl refl refl (sym c) s)
        (λ found entry read n e.
          skip_padding-IsSound padding (global_entry read padding 0)
            (record r { pending = drop n r.pending; current = entry; pax_commit = found }) e refl
            (IsSound-same host input refl refl refl refl (e ∙ sym c) s))
        c h

  round_of-IsSound :
      (entry : Option Entry) (r : Reader) {round : Round}
      → r.current ≡ entry
      → IsSound host input r
      → round_of host input entry r ≡ some round
      → IsSound host input (left_by round)
  unfolding round_of
  round_of-IsSound none r c s h = elim (Bool-cases (ltb (length r.pending) 512)) [
    | inl e ↦ subst (λ x. IsSound host input (left_by x)) (some-injective (rw e at h)) s
    | inr e ↦
        let (begun, h₁, r₁) = bind-eq-some _ _ (rw e at h) in
        subst (λ x. IsSound host input (left_by x)) (some-injective r₁)
          (begin_entry-IsSound host input _ (IsSound-same host input refl refl refl refl refl s)
            (take 512 r.pending) (ap to_come c) h₁)
  ]
  round_of-IsSound (some directory_entry) r c s h =
      subst (λ x. IsSound host input (left_by x)) (some-injective h)
        (skip_padding-IsSound 0 directory_entry r (ap to_come c) refl s)
  round_of-IsSound (some (file_entry padding remaining)) r c s h =
      subst (λ x. IsSound host input (left_by x)) (some-injective h)
        (read_file-IsSound padding remaining r (ap to_come c) s)
  round_of-IsSound (some (global_entry chunks padding remaining)) r c s h =
      read_global-IsSound chunks padding remaining r (ap to_come c) s h

  pub consume_round-IsSound :
      (r : Reader) {round : Round}
      → IsSound host input r
      → consume_round host input r ≡ some round
      → IsSound host input (left_by round)
  unfolding consume_round
  consume_round-IsSound r s h = elim (if-eq r.ended _ _ h) [
    | inl (_, g) ↦
        let (_, done_now) = reject_if-eq-some _ _ g in
        subst (λ x. IsSound host input (left_by x)) (some-injective done_now)
          (IsSound-same host input refl refl refl refl refl s)
    | inr (_, g) ↦ round_of-IsSound r.current r refl s g
  ]
