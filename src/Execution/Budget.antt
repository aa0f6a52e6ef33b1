-- ===== src/Execution/Budget.antt =====
-- What the reservations of a grant use: the comparisons of `reserve` in
-- lib/external-execution/authority.ts.
use vigilo.Prelude.{
  ℕ, ◌+◌, ◌≤◌, ◌≡◌, ◌≢◌, refl, sym, ap, ◌∙◌, inl, inr, Bool, true, false, List, [], ◌∷◌, Memᴰ,
  arith, Bool-cases, ltb-eq-false, any-eq-false_mem, ==→≡, ≢→==, string_eq, if◌then◌else◌, ltb,
}
use vigilo.Execution.Types.{
  Dimension, logical_requests, provider_attempts, input_tokens, output_tokens, sandbox_identities,
  sandbox_runtime_ms, verification_attempts, repair_loop_iterations, dimensions, amount, Amounts,
  Request,
}
use vigilo.Execution.Store.{Grant, Reservation, Database, Authorizer, Times}
use vigilo.Execution.Reserve.{
  used, exhausts, on_grant, on_account, Decision, Ids, perform, record_reservation, expire_leases,
}
use vigilo.Execution.Steps.Relation.{
  Step, Reach, here, next, reserves, begins, finishes, renews, completes, stages, revokes, others,
}
use vigilo.Execution.Steps.Reservations.{IsDecided, reserve_lem}
use vigilo.Execution.Steps.Frames.{
  IsFrame, begin-IsFrame, finish-IsFrame, renew-IsFrame, complete-IsFrame,
}

mem-dimensions : (d : Dimension) → Memᴰ d dimensions
mem-dimensions logical_requests = Memᴰ.head refl
mem-dimensions provider_attempts = Memᴰ.tail (Memᴰ.head refl)
mem-dimensions input_tokens = Memᴰ.tail (Memᴰ.tail (Memᴰ.head refl))
mem-dimensions output_tokens = Memᴰ.tail (Memᴰ.tail (Memᴰ.tail (Memᴰ.head refl)))
mem-dimensions sandbox_identities = Memᴰ.tail (Memᴰ.tail (Memᴰ.tail (Memᴰ.tail (Memᴰ.head refl))))
mem-dimensions sandbox_runtime_ms =
    Memᴰ.tail (Memᴰ.tail (Memᴰ.tail (Memᴰ.tail (Memᴰ.tail (Memᴰ.head refl)))))
mem-dimensions verification_attempts =
    Memᴰ.tail (Memᴰ.tail (Memᴰ.tail (Memᴰ.tail (Memᴰ.tail (Memᴰ.tail (Memᴰ.head refl))))))
mem-dimensions repair_loop_iterations =
    Memᴰ.tail
      (Memᴰ.tail (Memᴰ.tail (Memᴰ.tail (Memᴰ.tail (Memᴰ.tail (Memᴰ.tail (Memᴰ.head refl)))))))

exhausts-eq-false :
    (p : Reservation → Bool) (rs : List Reservation) (wanted limits : Amounts) (d : Dimension)
    → exhausts p rs wanted limits ≡ false
    → used p d rs + amount d wanted ≤ amount d limits
unfolding exhausts
exhausts-eq-false p rs wanted limits d h = ltb-eq-false _ _ (
    any-eq-false_mem (λ d. ltb (amount d limits) (used p d rs + amount d wanted)) dimensions h
      (mem-dimensions d))

used-cons :
    (p : Reservation → Bool) (d : Dimension) (r : Reservation) (rs : List Reservation)
    → used p d (r ∷ rs) ≡ (if p r then amount d r.amounts else 0) + used p d rs
unfolding used
used-cons p d r rs = refl

used-eq-zero :
    (p : Reservation → Bool) (d : Dimension) (rs : List Reservation)
    → ((r : Reservation) → Memᴰ r rs → p r ≡ false)
    → used p d rs ≡ 0
unfolding used
used-eq-zero p d [] h = refl
used-eq-zero p d (r ∷ rs) h =
    rw (h r (Memᴰ.head refl)) (omega (arith, used-eq-zero p d rs (λ s m. h s (Memᴰ.tail m))))

-- What a grant still allows, one amount at a time: its own operations, or all under the account.
pub record WithinBudget (db : Database) : Type 0 where
  pub keys : (g h : Grant) → Memᴰ g db.grants → Memᴰ h db.grants → g.id ≡ h.id → g ≡ h
  pub operation :
      (g : Grant) (d : Dimension)
      → Memᴰ g db.grants
      → used (on_grant g.id) d db.reservations ≤ amount d g.limits
  pub account :
      (g : Grant) (d : Dimension)
      → Memᴰ g db.grants
      → used (on_account g.id) d db.reservations ≤ amount d g.limits

frame-WithinBudget : {db after : Database} → IsFrame db after → WithinBudget db → WithinBudget after
frame-WithinBudget f w = record {
  keys = rw f.grants w.keys;
  operation = rw (f.grants, f.reservations) w.operation;
  account = rw (f.grants, f.reservations) w.account;
}

-- One more reservation: within its own grant by the check, within every other one as before.
spend :
    (p : Reservation → Bool) (d : Dimension) (r : Reservation) (rs : List Reservation) (limit : ℕ)
    → used p d rs ≤ limit
    → (p r ≡ true → used p d rs + amount d r.amounts ≤ limit)
    → used p d (r ∷ rs) ≤ limit
unfolding used
spend p d r rs limit before checked = elim (Bool-cases (p r)) [
  | inl e ↦ rw e (let fits = checked e in omega arith)
  | inr e ↦ rw e (omega arith)
]

module _ (auth : Authorizer) (t : Times) (ids : Ids) where
  reserve-WithinBudget :
      {q : Request} {db : Database} (d : Decision) {after : Database}
      → IsDecided auth t q db d
      → after ≡ (perform auth t ids q db d).1
      → WithinBudget db
      → WithinBudget after
  unfolding record_reservation expire_leases
  reserve-WithinBudget {q} {db} d c e w = rw e (record {
    keys = w.keys;
    operation = λ g k m.
        spend (on_grant g.id) k _ db.reservations (amount k g.limits) (w.operation g k m) λ same.
          let h = w.keys d.grant g c.grant.stored m (==→≡ d.grant.id g.id same) in
          rw (← h) (exhausts-eq-false _ db.reservations q.amounts d.grant.limits k c.grant_budget);
    account = λ g k m.
        spend (on_account g.id) k _ db.reservations (amount k g.limits) (w.account g k m) λ same.
          let h = w.keys d.account g c.account.stored m (==→≡ d.account.id g.id same) in
          rw (← h)
            (exhausts-eq-false _ db.reservations q.amounts d.account.limits k c.account_budget);
  })

module _ {db : Database} (g : Grant) (new : (h : Grant) → Memᴰ h db.grants → h.id ≢ g.id)
    (unused : (r : Reservation)
      → Memᴰ r db.reservations
      → (r.grant_id ≢ g.id) × (r.account_grant_id ≢ g.id))
    (w : WithinBudget db) where
  staged_keys :
      (x y : Grant) → Memᴰ x (g ∷ db.grants) → Memᴰ y (g ∷ db.grants) → x.id ≡ y.id → x ≡ y
  staged_keys x y (Memᴰ.head e) (Memᴰ.head f) same = e ∙ sym f
  staged_keys x y (Memᴰ.head e) (Memᴰ.tail n) same =
      absurd (new y n (sym same ∙ ap (λ (h : Grant). h.id) e))
  staged_keys x y (Memᴰ.tail m) (Memᴰ.head f) same =
      absurd (new x m (same ∙ ap (λ (h : Grant). h.id) f))
  staged_keys x y (Memᴰ.tail m) (Memᴰ.tail n) same = w.keys x y m n same

  staged_operation :
      (x : Grant) (d : Dimension)
      → Memᴰ x (g ∷ db.grants)
      → used (on_grant x.id) d db.reservations ≤ amount d x.limits
  staged_operation x d (Memᴰ.head e) =
      rw
        (
          e,
          used-eq-zero (on_grant g.id) d db.reservations
              (λ r m. ≢→== r.grant_id g.id (unused r m).0),
        )
        (omega arith)
  staged_operation x d (Memᴰ.tail m) = w.operation x d m

  staged_account :
      (x : Grant) (d : Dimension)
      → Memᴰ x (g ∷ db.grants)
      → used (on_account x.id) d db.reservations ≤ amount d x.limits
  staged_account x d (Memᴰ.head e) =
      rw
        (
          e,
          used-eq-zero (on_account g.id) d db.reservations
              (λ r m. ≢→== r.account_grant_id g.id (unused r m).1),
        )
        (omega arith)
  staged_account x d (Memᴰ.tail m) = w.account x d m

  stage-WithinBudget : WithinBudget (record db { grants = g ∷ db.grants })
  stage-WithinBudget = record {
    keys = staged_keys;
    operation = staged_operation;
    account = staged_account;
  }

-- Every committed transaction, and every act of the operator, keeps each of the eight amounts
-- reserved on a grant, and under an account, within what the grant allows.
pub Step-WithinBudget :
    {auth : Authorizer} {db after : Database}
    → Step auth db after
    → WithinBudget db
    → WithinBudget after
Step-WithinBudget {auth} {db} (reserves t ids q g fresh h) w =
    let (d, decided, done) = reserve_lem auth t q db ids h in
    reserve-WithinBudget auth t ids d decided (sym (ap (λ p. p.1) done)) w
Step-WithinBudget {auth} (begins p t kind n _ h) w =
    frame-WithinBudget (begin-IsFrame auth p t kind n h) w
Step-WithinBudget {auth} (finishes p t n o u kind _ h) w =
    frame-WithinBudget (finish-IsFrame auth p t n o u kind h) w
Step-WithinBudget {auth} (renews p t _ h) w = frame-WithinBudget (renew-IsFrame auth p t h) w
Step-WithinBudget {auth} (completes p t o code _ h) w =
    frame-WithinBudget (complete-IsFrame auth p t o code h) w
Step-WithinBudget (stages g new unused e) w = rw e (stage-WithinBudget g new unused w)
Step-WithinBudget (revokes id e) w =
    rw e (record { keys = w.keys; operation = w.operation; account = w.account })
Step-WithinBudget (others is gs cs rows e) w =
    rw e (record { keys = w.keys; operation = w.operation; account = w.account })

-- After any history of transactions, the reservations on a grant, and those under an account, sum
-- up to no more than its limit in each of the eight amounts, if they did so at the start and the
-- grants then had distinct ids.
pub Reach-WithinBudget :
    {auth : Authorizer} {db after : Database}
    → Reach auth db after
    → WithinBudget db
    → WithinBudget after
Reach-WithinBudget here w = w
Reach-WithinBudget (next r s) w = Step-WithinBudget s (Reach-WithinBudget r w)
