-- ===== src/Execution/Fencing.antt =====
-- The fencing tokens that `reserve` of lib/external-execution/authority.ts takes from the
-- semaphore, and the leases that stand at one time.
use vigilo.Prelude.{
  ℕ, suc, ◌+◌, ◌≤◌, ◌<◌, ◌≡◌, refl, sym, ap, List, [], ◌∷◌, some, arith, map, keep, length, Memᴰ,
  false, Bool-cases, inl, inr,
}
use native.Mathlib.Numerals.{add-one}
use vigilo.Execution.Types.{Request, ok}
use vigilo.Execution.Store.{Reservation, Database, Authorizer, Times, Lease, Grant}
use vigilo.Execution.Fence.{is_live}
use vigilo.Execution.Reserve.{
  Decision, Granted, Ids, perform, reserve, record_reservation, expire_leases, expire, is_revoked,
  new_lease,
}
use vigilo.Execution.Steps.Relation.{
  Step, Reach, here, next, reserves, begins, finishes, renews, completes, stages, revokes, others,
}
use vigilo.Execution.Steps.Reservations.{IsDecided, reserve_lem}
use vigilo.Execution.Steps.Frames.{
  IsFrame, begin-IsFrame, finish-IsFrame, renew-IsFrame, complete-IsFrame,
}

-- The fences fall along the list, newest first, and stay below the bound.
abbrev pub Below : ℕ → List Reservation → Type 0
Below n [] = Unit {0}
Below n (r ∷ rs) = (r.fence < n) × Below r.fence rs

-- The semaphore holds the newest fence, or a greater one.
abbrev pub IsFenced : Database → Type 0
IsFenced db = (n : ℕ) → db.next_fence ≡ some n → Below (suc n) db.reservations

frame-IsFenced : {db after : Database} → IsFrame db after → IsFenced db → IsFenced after
frame-IsFenced f h = rw (f.next_fence, f.reservations) h

fence_up : (n k : ℕ) (rs : List Reservation) → k ≡ n + 1 → Below (suc n) rs → Below k rs
fence_up n k rs e h = rw e (rw (add-one) h)

module _ (auth : Authorizer) (t : Times) (ids : Ids) (q : Request) (db : Database) where
  reserve-IsFenced :
      (d : Decision) {after : Database}
      → IsDecided auth t q db d
      → after ≡ (perform auth t ids q db d).1
      → IsFenced db
      → IsFenced after
  unfolding record_reservation expire_leases
  reserve-IsFenced d c e h = rw e λ n now.
      let same : d.fence ≡ n = cc now in
      (omega arith, fence_up c.next d.fence db.reservations c.fence (h c.next c.locked))

-- Every committed transaction keeps the fences of the reservations distinct and in the order of
-- their admission, and none is above the semaphore: a later reservation fences the earlier ones.
pub Step-IsFenced :
    {auth : Authorizer} {db after : Database} → Step auth db after → IsFenced db → IsFenced after
Step-IsFenced {auth} {db} (reserves t ids q g fresh h) w =
    let (d, decided, done) = reserve_lem auth t q db ids h in
    reserve-IsFenced auth t ids q db d decided (sym (ap (λ p. p.1) done)) w
Step-IsFenced {auth} (begins p t kind n _ h) w = frame-IsFenced (begin-IsFrame auth p t kind n h) w
Step-IsFenced {auth} (finishes p t n o u kind _ h) w =
    frame-IsFenced (finish-IsFrame auth p t n o u kind h) w
Step-IsFenced {auth} (renews p t _ h) w = frame-IsFenced (renew-IsFrame auth p t h) w
Step-IsFenced {auth} (completes p t o code _ h) w =
    frame-IsFenced (complete-IsFrame auth p t o code h) w
Step-IsFenced (stages g new unused e) w = rw e w
Step-IsFenced (revokes id e) w = rw e w
Step-IsFenced (others is gs cs rows e) w = rw e w

-- After any history the reservations, newest first, have strictly falling fences, none above the
-- semaphore, if that was so at the start.
pub Reach-IsFenced :
    {auth : Authorizer} {db after : Database} → Reach auth db after → IsFenced db → IsFenced after
Reach-IsFenced here w = w
Reach-IsFenced (next r s) w = Step-IsFenced s (Reach-IsFenced r w)

length-keep_cons :
    (now : ℕ) (l : Lease) (ls : List Lease)
    → length (keep (is_live now) (l ∷ ls)) ≤ length (keep (is_live now) ls) + 1
length-keep_cons now l ls = elim (Bool-cases (is_live now l)) [
  | inl e ↦ rw e (omega arith)
  | inr e ↦ rw e (omega arith)
]

-- A reservation that commits leaves at most as many live leases, its own among them, as an
-- unrevoked account grant allows operations at one time.
pub reserve-concurrency :
    (auth : Authorizer) (t : Times) (ids : Ids) (q : Request) (db : Database) {g : Granted}
    {after : Database}
    → reserve auth t ids q db ≡ ok (g, after)
    → (account : Grant) × Memᴰ account after.grants
      × (account.id ≡ g.reservation.account_grant_id)
      × (is_revoked after account ≡ false)
      × (length (keep (is_live t.authority) after.leases)
          ≤ account.max_concurrent_external_operations)
unfolding record_reservation expire_leases
reserve-concurrency auth t ids q db {g} {after} h =
    let (d, c, done) = reserve_lem auth t q db ids h in
    let e : after ≡ (perform auth t ids q db d).1 = sym (ap (λ p. p.1) done) in
    let f : g ≡ (perform auth t ids q db d).0 = sym (ap (λ p. p.0) done) in
    rw (e, f)
      (
        d.account,
        c.account.stored,
        refl,
        c.account.unrevoked,
        (let room = c.concurrency in
            omega (
              arith,
              length-keep_cons t.authority (new_lease auth ids d.account d.grant d.fence t.commit)
                  (map (expire t.authority) db.leases),
            )),
      )
