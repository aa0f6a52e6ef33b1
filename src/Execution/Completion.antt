-- ===== src/Execution/Completion.antt =====
-- `complete` of lib/external-execution/authority.ts, and the leases that have ended.
use vigilo.Prelude.{
  ℕ, ◌≡◌, sym, ap, ◌∙◌, inl, inr, Bool, true, false, not, ◌&&◌, List, map, Option, some, Memᴰ,
  Bool-cases, keep, arith, or-eq-false, any-eq-false_mem, ==_refl, ==→≡, mem-keep, mem-keep_of,
  any-eq-false_of, mem-map_fixed, ◌==◌, string_eq, nat_eq, option_eq, if◌then◌else◌,
}
use mathlib.Core.Path.{fun_ext}
use vigilo.Execution.Types.{FailureCode, AttemptOutcome, ambiguous, ok, provider_attempt_ambiguous}
use vigilo.Execution.Store.{
  Reservation, Database, Authorizer, Times, Lease, LeaseState, Event, EventType, is_outcome,
  is_started, is_active,
}
use vigilo.Execution.Reserve.{expire, record_reservation, expire_leases}
use vigilo.Execution.Permit.{
  Permit, complete, is_unsettled, of_reservation, has_outcome, complete_lease, owns,
}
use vigilo.Execution.Steps.Relation.{
  Step, reserves, begins, finishes, renews, completes, stages, revokes, others,
}
use vigilo.Execution.Steps.Attempts.{begin_lem, finish_lem}
use vigilo.Execution.Steps.Leases.{renew_lem, complete_lem, mine}
use vigilo.Execution.Steps.Reservations.{reserve_lem}

-- An attempt of the reservation was started and no outcome is recorded for it.
pub record IsOpen (r : Reservation) (db : Database) : Type 0 where
  pub event : Event
  pub recorded : Memᴰ event db.events
  pub attempt : event.reservation_id ≡ r.id
  pub started : event.event_type ≡ EventType.attempt_started
  pub unmatched :
      (o : Event)
      → Memᴰ o db.events
      → o.reservation_id ≡ r.id
      → o.attempt_ordinal ≡ event.attempt_ordinal
      → is_outcome o.event_type ≡ false

abbrev audit : Reservation → Database → List Event
audit r db = keep (of_reservation r) db.events

IsOpen-has_outcome :
    (r : Reservation) (db : Database) (a : IsOpen r db) → has_outcome (audit r db) a.event ≡ false
IsOpen-has_outcome r db a = any-eq-false_of _ (audit r db) λ o m.
    let (there, mine) = mem-keep (of_reservation r) db.events m in
    elim (Bool-cases (o.attempt_ordinal == a.event.attempt_ordinal)) [
      | inl e ↦ rw (e, a.unmatched o there (==→≡ _ _ mine) (==→≡ _ _ e))
      | inr e ↦ rw e
    ]

IsOpen-is_unsettled :
    (r : Reservation) (db : Database) → IsOpen r db → is_unsettled (audit r db) ≡ true
unfolding is_unsettled
IsOpen-is_unsettled r db a = elim (Bool-cases (is_unsettled (audit r db))) [
  | inl e ↦ e
  | inr e ↦
      let (_, none_open) = or-eq-false _ _ e in
      let here : Memᴰ a.event (audit r db) =
        mem-keep_of (of_reservation r) db.events a.recorded (rw a.attempt (==_refl r.id)) in
      let settled =
        any-eq-false_mem (λ e. is_started e.event_type && not (has_outcome (audit r db) e)) _
          none_open here in
      absurd (open_contradiction (rw (a.started, IsOpen-has_outcome r db a) at settled))
]
  where
    open_contradiction : ¬ (◌≡◌ {A = Bool} true false)
    open_contradiction h = cc

-- An operation with an attempt whose outcome is not recorded never completes as a success, or as a
-- plain failure: whatever its caller reports, `complete` marks the permit's lease as ambiguous and
-- leaves every other lease alone.
pub complete-ambiguous :
    (auth : Authorizer) (p : Permit) (t : Times) (o : AttemptOutcome) (code : Option FailureCode)
    {db after : Database}
    → IsOpen p.reservation db
    → complete auth p t o code db ≡ ok after
    → after.leases
      ≡ map
          (λ l.
            if owns p l
            then record l {
              state = LeaseState.ambiguous;
              completed_at = some t.caller;
              failure_code = some provider_attempt_ambiguous;
            }
            else l)
          db.leases
complete-ambiguous auth p t o code {db} left h = elim (complete_lem auth p t db o code h) [
  | inl (_, c) ↦
      ap (λ (d : Database). d.leases) c.written ∙ ap (λ f. map f db.leases) (fun_ext (λ l. ended l))
  | inr (settled, _) ↦
      absurd (true_ne_false (sym (IsOpen-is_unsettled p.reservation db left) ∙ settled))
]
  where
    ended :
        (l : Lease)
        → complete_lease
            (mine p t ambiguous)
            LeaseState.ambiguous
            t.caller
            (some provider_attempt_ambiguous)
            l
          ≡ (if owns p l
              then record l {
                state = LeaseState.ambiguous;
                completed_at = some t.caller;
                failure_code = some provider_attempt_ambiguous;
              }
              else l)
    ended l = elim (Bool-cases (owns p l)) [ inl e ↦ rw e | inr e ↦ rw e ]

    true_ne_false : ¬ (◌≡◌ {A = Bool} true false)
    true_ne_false h = cc

-- Every transaction leaves a lease that has ended as it is.
expire-ended : (now : ℕ) (l : Lease) → is_active l.state ≡ false → expire now l ≡ l
expire-ended now l e = rw e

owns-ended : (p : Permit) (l : Lease) → is_active l.state ≡ false → owns p l ≡ false
owns-ended p l e = rw e (ground arith)

-- A lease that is no longer active stays as it is through every later transaction: an operation
-- that has succeeded, failed, expired or become ambiguous never changes again.
pub Step-ended :
    {auth : Authorizer} {db after : Database} (l : Lease)
    → Memᴰ l db.leases
    → is_active l.state ≡ false
    → Step auth db after
    → Memᴰ l after.leases
unfolding record_reservation expire_leases
Step-ended {auth} {db} l m e (reserves t ids q g fresh h) =
    let (d, decided, done) = reserve_lem auth t q db ids h in
    rw (sym (ap (λ x. x.1) done))
      (Memᴰ.tail (mem-map_fixed (expire t.authority) db.leases m (expire-ended t.authority l e)))
Step-ended {auth} {db} l m e (begins p t kind n _ h) = rw (begin_lem auth p t kind db h).written m
Step-ended {auth} {db} l m e (finishes p t n o u kind _ h) =
    rw (finish_lem auth p t n u kind db o h).written m
Step-ended {auth} {db} l m e (renews p t _ h) =
    rw (renew_lem auth p t db h).written (mem-map_fixed _ db.leases m (rw (owns-ended p l e)))
Step-ended {auth} {db} l m e (completes p t o code _ h) = elim (complete_lem auth p t db o code h) [
  | inl (_, c) ↦ rw c.written (mem-map_fixed _ db.leases m (rw (owns-ended p l e)))
  | inr (_, c) ↦ rw c.written (mem-map_fixed _ db.leases m (rw (owns-ended p l e)))
]
Step-ended l m e (stages g new unused same) = rw same m
Step-ended l m e (revokes id same) = rw same m
Step-ended l m e (others is gs cs rows same) = rw same m
