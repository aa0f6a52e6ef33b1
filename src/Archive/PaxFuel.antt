-- ===== src/Archive/PaxFuel.antt =====
-- The loop over the records of a pax header in lib/repository-baselines/archive.ts.
use vigilo.Prelude.{
  ℕ, zero, suc, ◌+◌, ◌≤◌, ◌<◌, ◌≡◌, refl, arith, Bool, false, not, List, [], ◌∷◌, Option, some,
  length, length-drop, drop, leb, ltb, or-eq-false, is_some, ap,
}
use vigilo.Prelude.Options.{bind-eq-some, reject_if-eq-some, some-injective, bind-same}
use vigilo.Archive.Bytes.{Host, is_safe_integer, parse_digits, ascii}
use vigilo.Archive.Pax.{pax_record, pax_records}

leb-eq-false-pos : (n m : ℕ) → leb n (m + 2) ≡ false → 0 < n
leb-eq-false-pos n m h = ground arith

-- A record takes at least one byte.
pax_record-shorter :
    (host : Host) (seen : Bool) (b : ℕ) (bs : List ℕ) {value rest : List ℕ}
    → pax_record host seen (b ∷ bs) ≡ some (value, rest)
    → length rest ≤ length bs
unfolding pax_record
pax_record-shorter host seen b bs {value} {rest} h =
    let ((prefix, behind), _, r₁) = bind-eq-some _ _ h in
    let (_, r₂) = reject_if-eq-some _ _ r₁ in
    let (h₃, r₃) = reject_if-eq-some _ _ r₂ in
    let (_, r₄) = reject_if-eq-some _ _ r₃ in
    let ((key, found), _, r₅) = bind-eq-some _ _ r₄ in
    let (_, r₆) = reject_if-eq-some _ _ r₅ in
    let (_, r₇) = reject_if-eq-some _ _ r₆ in
    let len = parse_digits 10 0 (ascii prefix) in
    let (h₄, _) = or-eq-false _ (ltb (length (b ∷ bs)) len) h₃ in
    let (_, h₅) = or-eq-false (not (is_safe_integer len)) (leb len (length prefix + 2)) h₄ in
    let left : length (drop len (b ∷ bs)) ≡ length rest =
      ap (λ x. length x.1) (some-injective r₇) in
    omega (arith, left, length-drop len (b ∷ bs), leb-eq-false-pos len (length prefix) h₅)

-- Any two amounts of fuel that reach the number of bytes read the same records, so that the fuel
-- that `acceptGlobalPax` is modelled with never decides a result.
pub pax_records-fuel :
    (host : Host) (f g : ℕ) (seen : Option (List ℕ)) (body : List ℕ)
    → length body ≤ f
    → length body ≤ g
    → pax_records f host seen body ≡ pax_records g host seen body
unfolding pax_records
pax_records-fuel host zero zero seen body hf hg = refl
pax_records-fuel host zero (suc g) seen [] hf hg = refl
pax_records-fuel host zero (suc g) seen (b ∷ bs) hf hg = absurd (omega (arith, hf))
pax_records-fuel host (suc f) zero seen [] hf hg = refl
pax_records-fuel host (suc f) zero seen (b ∷ bs) hf hg = absurd (omega (arith, hg))
pax_records-fuel host (suc f) (suc g) seen [] hf hg = refl
pax_records-fuel host (suc f) (suc g) seen (b ∷ bs) hf hg =
    bind-same (pax_record host (is_some seen) (b ∷ bs)) _ _ (λ (value, rest) e.
      let shorter = pax_record-shorter host (is_some seen) b bs e in
      pax_records-fuel host f g (some value) rest (omega (arith, hf, shorter))
        (omega (arith, hg, shorter)))
