-- ===== src/Execution/Ambiguity.antt =====
-- Ambiguous attempts and the fence of lib/external-execution/business-fence.ts.
use vigilo.Prelude.{
  ℕ, ◌≡◌, ◌≢◌, refl, sym, ap, inl, inr, true, List, [], ◌∷◌, none, Memᴰ, Bool-cases, keep, ◌==◌,
  string_eq, option_eq, truthy, arith, ==_refl, mem-keep_of, any-eq-true_mem,
}
use vigilo.Execution.Types.{
  Request, Scope, ok, err, provider_attempt_ambiguous, ◌>>◌, throw_if, >>-eq-ok, throw_if-eq-ok,
}
use vigilo.Execution.Store.{
  Reservation, Database, Authorizer, Times, Lease, Event, EventType, is_ambiguous,
}
use vigilo.Execution.Fence.{
  of_run, belongs, is_uncertain, assert_run_business_allowed, assert_business,
}
use vigilo.Execution.Reserve.{
  Ids, Granted, reserve, admit, record_reservation, expire_leases, expiries, is_overdue,
}
use vigilo.Execution.Permit.{Permit, TransportKind, create, cleanup, business, begin, admit_attempt}
use vigilo.Execution.Steps.Relation.{
  Step, Reach, here, next, reserves, begins, finishes, renews, completes, stages, revokes, others,
}
use vigilo.Execution.Steps.Attempts.{begin_lem, finish_lem}
use vigilo.Execution.Steps.Leases.{renew_lem, complete_lem}
use vigilo.Execution.Steps.Reservations.{reserve_lem}

-- An attempt of a reservation of the run is recorded as ambiguous.
pub record IsAmbiguousRun (scope : Scope) (db : Database) : Type 0 where
  pub reservation : Reservation
  pub event : Event
  pub issued : Memᴰ reservation db.reservations
  pub recorded : Memᴰ event db.events
  pub in_run : of_run scope reservation ≡ true
  pub attempt : event.reservation_id ≡ reservation.id
  pub kind : event.event_type ≡ EventType.attempt_ambiguous

uncertain-eq-true :
    (now : ℕ) (ls : List Lease) (es : List Event) {e : Event}
    → Memᴰ e es
    → e.event_type ≡ EventType.attempt_ambiguous
    → is_uncertain now ls es ≡ true
unfolding is_uncertain
uncertain-eq-true now ls es m h =
    ground (arith, any-eq-true_mem (λ (e : Event). is_ambiguous e.event_type) es m (rw h))

-- The fence throws, at any time.
fence_throws :
    (scope : Scope) (db : Database) (now : ℕ)
    → truthy scope.repair_run_id ≡ true
    → IsAmbiguousRun scope db
    → assert_run_business_allowed db scope now ≡ err provider_attempt_ambiguous
unfolding assert_run_business_allowed ◌>>◌ throw_if
fence_throws scope db now run a =
    let rs = keep (of_run scope) db.reservations in
    let mine : belongs rs a.event.reservation_id ≡ true =
      any-eq-true_mem (λ r. r.id == a.event.reservation_id) rs
        (mem-keep_of (of_run scope) db.reservations a.issued a.in_run)
        (rw a.attempt (==_refl a.reservation.id)) in
    let uncertain =
      uncertain-eq-true now (keep (λ l. belongs rs l.reservation_id) db.leases) _
        (mem-keep_of (λ e. belongs rs e.reservation_id) db.events a.recorded mine) a.kind in
    rw (run, uncertain)

mem-expiries :
    (now : ℕ) (ls : List Lease) (es : List Event) {e : Event}
    → Memᴰ e es
    → Memᴰ e (expiries now ls es)
mem-expiries now [] es m = m
mem-expiries now (l ∷ ls) es m = elim (Bool-cases (is_overdue now l)) [
  | inl e ↦ rw e (Memᴰ.tail (mem-expiries now ls es m))
  | inr e ↦ rw e (mem-expiries now ls es m)
]

module _ {scope : Scope} {db : Database} (a : IsAmbiguousRun scope db) where
  -- Rows of reservations and events are never taken away.
  grow :
      {after mid : Database}
      → after ≡ mid
      → Memᴰ a.reservation mid.reservations
      → Memᴰ a.event mid.events
      → IsAmbiguousRun scope after
  grow e issued recorded = rw e (record {
    reservation = a.reservation;
    event = a.event;
    issued = issued;
    recorded = recorded;
    in_run = a.in_run;
    attempt = a.attempt;
    kind = a.kind;
  })

  Step-IsAmbiguousRun :
      {auth : Authorizer} {after : Database} → Step auth db after → IsAmbiguousRun scope after
  unfolding record_reservation expire_leases
  Step-IsAmbiguousRun {auth} (reserves t ids q g fresh h) =
      let (d, decided, done) = reserve_lem auth t q db ids h in
      grow (sym (ap (λ x. x.1) done)) (Memᴰ.tail a.issued)
        (Memᴰ.tail (mem-expiries t.authority db.leases db.events a.recorded))
  Step-IsAmbiguousRun {auth} (begins p t kind n _ h) =
      grow (begin_lem auth p t kind db h).written a.issued (Memᴰ.tail a.recorded)
  Step-IsAmbiguousRun {auth} (finishes p t n o u kind _ h) =
      grow (finish_lem auth p t n u kind db o h).written a.issued (Memᴰ.tail a.recorded)
  Step-IsAmbiguousRun {auth} (renews p t _ h) =
      grow (renew_lem auth p t db h).written a.issued (Memᴰ.tail a.recorded)
  Step-IsAmbiguousRun {auth} (completes p t o code _ h) = elim (complete_lem auth p t db o code h) [
    | inl (_, c) ↦ grow c.written a.issued (Memᴰ.tail a.recorded)
    | inr (_, c) ↦ grow c.written a.issued (Memᴰ.tail a.recorded)
  ]
  Step-IsAmbiguousRun (stages g new unused e) = grow e a.issued a.recorded
  Step-IsAmbiguousRun (revokes id e) = grow e a.issued a.recorded
  Step-IsAmbiguousRun (others is gs cs rows e) = grow e a.issued a.recorded

Reach-IsAmbiguousRun :
    {scope : Scope} {auth : Authorizer} {db after : Database}
    → Reach auth db after
    → IsAmbiguousRun scope db
    → IsAmbiguousRun scope after
Reach-IsAmbiguousRun here a = a
Reach-IsAmbiguousRun (next r s) a = Step-IsAmbiguousRun (Reach-IsAmbiguousRun r a) s

module _ (auth : Authorizer) (db : Database) (t : Times) where
  business_throws :
      (scope : Scope) (plan_time : ℕ)
      → assert_run_business_allowed db scope t.fence ≡ err provider_attempt_ambiguous
      → assert_business auth db scope t.fence plan_time ≢ ok tt
  unfolding assert_business
  business_throws scope plan_time e h = let (allowed, _) = >>-eq-ok _ _ h in cc (e, allowed)

  reserve_throws :
      (ids : Ids) (q : Request)
      → q.cleanup ≡ none
      → assert_run_business_allowed db q.scope t.fence ≡ err provider_attempt_ambiguous
      → (x : Granted × Database) → reserve auth t ids q db ≢ ok x
  unfolding admit
  reserve_throws ids q plain e (g, after) h =
      let (d, decided, _) = reserve_lem auth t q db ids h in
      let admitted = rw (plain, admit) at decided.admitted in
      let (allowed, _) = >>-eq-ok _ _ admitted in business_throws q.scope t.authority e allowed

  admit_attempt_throws :
      (p : Permit) (kind : TransportKind) (n : ℕ)
      → kind ≢ cleanup
      → assert_run_business_allowed db p.reservation.scope t.fence ≡ err provider_attempt_ambiguous
      → admit_attempt auth p t kind n db ≢ ok tt
  unfolding admit_attempt
  admit_attempt_throws p create n k e h =
      business_throws p.reservation.scope t.caller e (throw_if-eq-ok _ _ _ h).1
  admit_attempt_throws p cleanup n k e h = k refl
  admit_attempt_throws p business n k e h =
      business_throws p.reservation.scope t.caller e (throw_if-eq-ok _ _ _ h).1

-- Once an attempt of a run is recorded as ambiguous, then after any further history of
-- transactions no reservation for that run commits unless it is a cleanup, and no permit of that
-- run starts a provider attempt unless it is a cleanup; the fence throws
-- `provider_attempt_ambiguous`.
pub ambiguity_permanent :
    {auth : Authorizer} {db after : Database} (scope : Scope)
    → truthy scope.repair_run_id ≡ true
    → IsAmbiguousRun scope db
    → Reach auth db after
    → ((now : ℕ) → assert_run_business_allowed after scope now ≡ err provider_attempt_ambiguous)
      × ((t : Times) (ids : Ids) (q : Request) (x : Granted × Database)
          → q.scope ≡ scope
          → q.cleanup ≡ none
          → reserve auth t ids q after ≢ ok x)
      × ((p : Permit) (t : Times) (kind : TransportKind) (x : ℕ × Database)
          → p.reservation.scope ≡ scope
          → kind ≢ cleanup
          → begin auth p t kind after ≢ ok x)
ambiguity_permanent {auth} {db} {after} scope run a r =
    let b = Reach-IsAmbiguousRun r a in
    (
      (λ now. fence_throws scope after now run b),
      (λ t ids q x same k.
          reserve_throws auth after t ids q k (rw same (fence_throws scope after t.fence run b)) x),
      (λ p t kind x same k h.
          admit_attempt_throws auth after t p kind _ k
            (rw same (fence_throws scope after t.fence run b))
            (begin_lem auth p t kind after h).admitted),
    )
