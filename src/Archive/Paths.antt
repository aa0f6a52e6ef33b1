-- ===== src/Archive/Paths.antt =====
-- What `normalize` in lib/repository-baselines/archive.ts lets through.
use vigilo.Prelude.{
  ℕ, ◌-◌, ◌≤◌, ◌≡◌, ◌≢◌, refl, inl, inr, Bool, true, false, ◌||◌, List, [], ◌∷◌, some, Memᴰ, arith,
  eqb, ltb, all, any, length, Bool-cases, or-eq-false, ltb-eq-false, any-eq-false_mem, ==_refl,
  ◌==◌, list_eq, nat_eq,
}
use mathlib.Core.Path.{subst}
use vigilo.Prelude.Options.{reject_if-eq-some, some-injective}
use vigilo.Archive.Bytes.{
  Host, ArchiveLimits, strip_slashes, split_slash, is_bad_part, normalize, dot, dot_dot, cons_part,
  starts_with_slash,
}

-- A part of a path that names an entry of its directory and nothing else.
pub record IsSafePart (part : List ℕ) : Type 0 where
  pub present : part ≢ []
  pub moves : (part ≢ dot) × (part ≢ dot_dot)
  pub no_slash : any (λ c. eqb c b'/') part ≡ false
  pub no_backslash : any (λ c. eqb c b'\\') part ≡ false

any-strip_slashes :
    (p : ℕ → Bool) (cs : List ℕ) → any p cs ≡ false → any p (strip_slashes cs) ≡ false
unfolding strip_slashes
any-strip_slashes p [] h = refl
any-strip_slashes p (c ∷ cs) h = elim (Bool-cases (all (λ d. eqb d b'/') (c ∷ cs))) [
  | inl e ↦ rw e
  | inr e ↦ rw e (ground (arith, any-strip_slashes p cs, h))
]

-- Every part of a list has no byte that passes a test.
abbrev pub NoneOf : (ℕ → Bool) → List (List ℕ) → Type 0
NoneOf p parts = (part : List ℕ) → Memᴰ part parts → any p part ≡ false

NoneOf-cons_part :
    (p : ℕ → Bool) (c : ℕ) (parts : List (List ℕ))
    → p c ≡ false
    → NoneOf p parts
    → NoneOf p (cons_part c parts)
NoneOf-cons_part p c [] h hs part (Memᴰ.head e) = rw e (rw h)
NoneOf-cons_part p c [] h hs part (Memᴰ.tail m) = elim m [ ]
NoneOf-cons_part p c (q ∷ qs) h hs part (Memᴰ.head e) = rw e (rw h (hs q (Memᴰ.head refl)))
NoneOf-cons_part p c (q ∷ qs) h hs part (Memᴰ.tail m) = hs part (Memᴰ.tail m)

NoneOf-empty : (p : ℕ → Bool) (parts : List (List ℕ)) → NoneOf p parts → NoneOf p ([] ∷ parts)
NoneOf-empty p parts hs part (Memᴰ.head e) = rw e
NoneOf-empty p parts hs part (Memᴰ.tail m) = hs part m

pub split_slash-NoneOf : (p : ℕ → Bool) (cs : List ℕ) → any p cs ≡ false → NoneOf p (split_slash cs)
unfolding split_slash
split_slash-NoneOf p [] h = NoneOf-empty p [] (λ part m. elim m [ ])
split_slash-NoneOf p (c ∷ cs) h =
    let (here, rest) = or-eq-false (p c) (any p cs) h in
    let ih = split_slash-NoneOf p cs rest in
    elim (Bool-cases (eqb c b'/')) [
      | inl e ↦ rw e (NoneOf-empty p (split_slash cs) ih)
      | inr e ↦ rw e (NoneOf-cons_part p c (split_slash cs) here ih)
    ]

pub split_slash-slash : (cs : List ℕ) → NoneOf (λ c. eqb c b'/') (split_slash cs)
unfolding split_slash
split_slash-slash [] = NoneOf-empty _ [] (λ part m. elim m [ ])
split_slash-slash (c ∷ cs) = elim (Bool-cases (eqb c b'/')) [
  | inl e ↦ rw e (NoneOf-empty _ (split_slash cs) (split_slash-slash cs))
  | inr e ↦ rw e (NoneOf-cons_part _ c (split_slash cs) e (split_slash-slash cs))
]

pub is_bad_part-eq-false :
    (part : List ℕ) → is_bad_part part ≡ false → (part ≢ []) × (part ≢ dot) × (part ≢ dot_dot)
is_bad_part-eq-false part h =
    let (ab, c) = or-eq-false (part == [] || part == dot) (part == dot_dot) h in
    let (a, b) = or-eq-false (part == []) (part == dot) ab in
    (differs part [] a, differs part dot b, differs part dot_dot c)
  where
    differs : (xs ys : List ℕ) → (xs == ys) ≡ false → xs ≢ ys
    differs xs ys h e = absurd (clash (==_refl ys) (rw e at h))
      where
        clash : {b : Bool} → b ≡ true → b ≡ false → ⊥
        clash p q = cc

pub record IsNormal (limits : ArchiveLimits) (parts : List (List ℕ)) : Type 0 where
  pub safe : (part : List ℕ) → Memᴰ part parts → IsSafePart part
  pub depth : length parts - 1 ≤ limits.maximum_depth

pub normalize-IsNormal :
    (host : Host) (limits : ArchiveLimits) (name : List ℕ) {parts : List (List ℕ)}
    → normalize host limits name ≡ some parts
    → IsNormal limits parts
unfolding normalize
normalize-IsNormal host limits name {parts} h =
    let (h₁, r₁) = reject_if-eq-some _ _ h in
    let (h₂, r₂) = reject_if-eq-some _ _ r₁ in
    let (h₃, r₃) = reject_if-eq-some _ _ r₂ in
    let (h₄, _) = or-eq-false (name == [] || starts_with_slash name || backslash) long h₁ in
    let (_, h₆) = or-eq-false (name == [] || starts_with_slash name) backslash h₄ in
    let (_, h₇) = or-eq-false (ltb _ 1) _ h₃ in
    subst (IsNormal limits) (some-injective r₃) (record {
      safe = λ part m.
          let (a, b, c) = is_bad_part-eq-false part (any-eq-false_mem is_bad_part _ h₂ m) in
          record {
            present = a;
            moves = (b, c);
            no_slash = split_slash-slash (strip_slashes name) part m;
            no_backslash =
                split_slash-NoneOf _ (strip_slashes name) (any-strip_slashes _ name h₆) part m;
          };
      depth = ltb-eq-false _ _ h₇;
    })
  where
    backslash : Bool
    backslash = any (λ c. eqb c b'\\') name

    long : Bool
    long = ltb limits.maximum_path_bytes (host.byte_length name)
