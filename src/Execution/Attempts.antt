-- ===== src/Execution/Attempts.antt =====
-- The provider attempts of a permit: `beginProviderAttempt` of lib/external-execution/authority.ts.
use vigilo.Prelude.{
  ℕ, ◌+◌, ◌≤◌, ◌≡◌, ◌≢◌, refl, sym, ap, ◌∙◌, inl, inr, false, List, [], ◌∷◌, some, Memᴰ, arith,
  Bool-cases, length, ◌==◌, ==→≡, ≢→==, string_eq,
}
use mathlib.Core.Path.{subst}
use vigilo.Execution.Types.{AttemptOutcome, succeeded, failed, ambiguous, Request}
use vigilo.Execution.Store.{Reservation, Database, Authorizer, Times, Lease, Event, is_started}
use vigilo.Execution.Reserve.{
  Decision, Ids, perform, record_reservation, expire_leases, expiries, expired_event, is_overdue,
  reserved_event, new_reservation,
}
use vigilo.Execution.Permit.{
  Permit, TransportKind, starts, of_reservation, terminal_event, completion_event,
}
use vigilo.Execution.Steps.Relation.{
  Step, Reach, here, next, reserves, begins, finishes, renews, completes, stages, revokes, others,
  IsFresh, IsIssued,
}
use vigilo.Execution.Steps.Attempts.{IsBegun, begin_lem, finish_lem, start_of}
use vigilo.Execution.Steps.Leases.{renew_lem, complete_lem}
use vigilo.Execution.Steps.Reservations.{reserve_lem}

-- Newest first, the attempts carry the ordinals n, …, 2, 1.
abbrev pub Numbered : List Event → Type 0
Numbered [] = Unit {0}
Numbered (e ∷ es) = (e.attempt_ordinal ≡ some (length es + 1)) × Numbered es

pub record IsMetered (db : Database) : Type 0 where
  pub keys :
      (r s : Reservation) → Memᴰ r db.reservations → Memᴰ s db.reservations → r.id ≡ s.id → r ≡ s
  pub numbered : (r : Reservation) → Memᴰ r db.reservations → Numbered (starts r db.events)
  pub bounded :
      (r : Reservation)
      → Memᴰ r db.reservations
      → length (starts r db.events) ≤ r.amounts.provider_attempts

starts-cons_no :
    (r : Reservation) (e : Event) (es : List Event)
    → is_started e.event_type ≡ false
    → starts r (e ∷ es) ≡ starts r es
starts-cons_no r e es h = elim (Bool-cases (of_reservation r e)) [
  | inl f ↦ rw (f, h)
  | inr f ↦ rw f
]

starts-cons_other :
    (r : Reservation) (e : Event) (es : List Event)
    → e.reservation_id ≢ r.id
    → starts r (e ∷ es) ≡ starts r es
starts-cons_other r e es h = rw (≢→== e.reservation_id r.id h)

starts-expiries :
    (r : Reservation) (now : ℕ) (ls : List Lease) (es : List Event)
    → starts r (expiries now ls es) ≡ starts r es
starts-expiries r now [] es = refl
starts-expiries r now (l ∷ ls) es = elim (Bool-cases (is_overdue now l)) [
  | inl e ↦ rw e (
      starts-cons_no r (expired_event now l) (expiries now ls es) refl
      ∙ starts-expiries r now ls es)
  | inr e ↦ rw e (starts-expiries r now ls es)
]

starts-eq-nil :
    (r : Reservation) (es : List Event)
    → ((e : Event) → Memᴰ e es → e.reservation_id ≢ r.id)
    → starts r es ≡ []
starts-eq-nil r [] h = refl
starts-eq-nil r (e ∷ es) h =
    starts-cons_other r e es (h e (Memᴰ.head refl)) ∙ starts-eq-nil r es (λ f m. h f (Memᴰ.tail m))

-- A transaction that starts no attempt and issues no reservation.
keep-IsMetered :
    {db after : Database}
    → after.reservations ≡ db.reservations
    → ((r : Reservation) → starts r after.events ≡ starts r db.events)
    → IsMetered db
    → IsMetered after
keep-IsMetered e f w = record {
  keys = rw e w.keys;
  numbered = rw e (λ r m. rw (f r) (w.numbered r m));
  bounded = rw e (λ r m. rw (f r) (w.bounded r m));
}

quiet-IsMetered :
    {db after mid : Database} (e : Event)
    → is_started e.event_type ≡ false
    → after ≡ mid
    → mid.reservations ≡ db.reservations
    → mid.events ≡ e ∷ db.events
    → IsMetered db
    → IsMetered after
quiet-IsMetered {db} e quiet same rs es w =
    rw same (keep-IsMetered {db = db} rs (λ r. rw es (starts-cons_no r e db.events quiet)) w)

module _ {auth : Authorizer} {p : Permit} {t : Times} {kind : TransportKind} {n : ℕ}
    {db after : Database} (b : IsBegun auth p t kind n db after) (issued : IsIssued p db)
    (w : IsMetered db) where
  begun-Numbered :
      (r : Reservation)
      → Memᴰ r db.reservations
      → Numbered (starts r (start_of p t n ∷ db.events))
        × (length (starts r (start_of p t n ∷ db.events)) ≤ r.amounts.provider_attempts)
  begun-Numbered r m = elim (Bool-cases (p.reservation.id == r.id)) [
    | inl e ↦
        let same = w.keys p.reservation r issued m (==→≡ _ _ e) in
        let here : n ≡ length (starts r db.events) + 1 = rw (← same) b.ordinal in
        let within : n ≤ r.amounts.provider_attempts = rw (← same) b.within in
        rw e ((ap some here, w.numbered r m), omega arith)
    | inr e ↦ rw e (w.numbered r m, w.bounded r m)
  ]

  begin-IsMetered : IsMetered after
  begin-IsMetered = rw b.written (record {
    keys = w.keys;
    numbered = λ r m. (begun-Numbered r m).0;
    bounded = λ r m. (begun-Numbered r m).1;
  })

module _ (auth : Authorizer) (t : Times) (ids : Ids) (q : Request) (db : Database) (d : Decision)
    (fresh : IsFresh ids db) (w : IsMetered db) where
  abbrev new : Reservation
  new = new_reservation auth ids q d.account d.grant d.fence t.commit

  abbrev audit : List Event
  audit = reserved_event ids t.commit ∷ expiries t.authority db.leases db.events

  starts-audit : (r : Reservation) → starts r audit ≡ starts r db.events
  starts-audit r =
      starts-cons_no r (reserved_event ids t.commit) _ refl
      ∙ starts-expiries r t.authority db.leases db.events

  reserved_keys :
      (r s : Reservation)
      → Memᴰ r (new ∷ db.reservations)
      → Memᴰ s (new ∷ db.reservations)
      → r.id ≡ s.id
      → r ≡ s
  reserved_keys r s (Memᴰ.head e) (Memᴰ.head f) same = e ∙ sym f
  reserved_keys r s (Memᴰ.head e) (Memᴰ.tail n) same =
      absurd (fresh.reservation s n (sym same ∙ ap (λ (x : Reservation). x.id) e))
  reserved_keys r s (Memᴰ.tail m) (Memᴰ.head f) same =
      absurd (fresh.reservation r m (same ∙ ap (λ (x : Reservation). x.id) f))
  reserved_keys r s (Memᴰ.tail m) (Memᴰ.tail n) same = w.keys r s m n same

  reserved-Numbered :
      (r : Reservation)
      → Memᴰ r (new ∷ db.reservations)
      → Numbered (starts r audit) × (length (starts r audit) ≤ r.amounts.provider_attempts)
  reserved-Numbered r (Memᴰ.head e) =
      let none_yet : starts r audit ≡ [] =
        starts-audit r ∙ starts-eq-nil r db.events (rw e fresh.event) in
      subst (λ es. Numbered es × (length es ≤ r.amounts.provider_attempts)) (sym none_yet)
        (tt, omega arith)
  reserved-Numbered r (Memᴰ.tail m) =
      subst (λ es. Numbered es × (length es ≤ r.amounts.provider_attempts)) (sym (starts-audit r))
        (w.numbered r m, w.bounded r m)

  reserve-IsMetered : IsMetered (perform auth t ids q db d).1
  unfolding record_reservation expire_leases
  reserve-IsMetered = record {
    keys = reserved_keys;
    numbered = λ r m. (reserved-Numbered r m).0;
    bounded = λ r m. (reserved-Numbered r m).1;
  }

quiet_outcome : (o : AttemptOutcome) → is_started (terminal_event o) ≡ false
quiet_outcome succeeded = refl
quiet_outcome failed = refl
quiet_outcome ambiguous = refl

quiet_completion : (o : AttemptOutcome) → is_started (completion_event o) ≡ false
quiet_completion succeeded = refl
quiet_completion failed = refl
quiet_completion ambiguous = refl

-- Every committed transaction keeps the attempts of each reservation numbered 1, 2, …, without a
-- gap or a repetition, and no more than the attempts that it reserved.
pub Step-IsMetered :
    {auth : Authorizer} {db after : Database} → Step auth db after → IsMetered db → IsMetered after
Step-IsMetered {auth} {db} (reserves t ids q g fresh h) w =
    let (d, decided, done) = reserve_lem auth t q db ids h in
    rw (sym (ap (λ x. x.1) done)) (reserve-IsMetered auth t ids q db d fresh w)
Step-IsMetered {auth} {db} (begins p t kind n issued h) w =
    begin-IsMetered (begin_lem auth p t kind db h) issued w
Step-IsMetered {auth} {db} (finishes p t n o u kind _ h) w =
    let f = finish_lem auth p t n u kind db o h in
    quiet-IsMetered f.event (rw f.type (quiet_outcome o)) f.written refl refl w
Step-IsMetered {auth} {db} (renews p t _ h) w =
    quiet-IsMetered _ refl (renew_lem auth p t db h).written refl refl w
Step-IsMetered {auth} {db} (completes p t o code _ h) w = elim (complete_lem auth p t db o code h) [
  | inl (_, c) ↦ quiet-IsMetered _ refl c.written refl refl w
  | inr (_, c) ↦ quiet-IsMetered _ (quiet_completion o) c.written refl refl w
]
Step-IsMetered (stages g new unused e) w =
    rw e (record { keys = w.keys; numbered = w.numbered; bounded = w.bounded })
Step-IsMetered (revokes id e) w =
    rw e (record { keys = w.keys; numbered = w.numbered; bounded = w.bounded })
Step-IsMetered (others is gs cs rows e) w =
    rw e (record { keys = w.keys; numbered = w.numbered; bounded = w.bounded })

-- After any history the attempts of each reservation carry the ordinals 1, 2, … up to at most the
-- number that it reserved, if that was so at the start and the reservations had distinct ids.
pub Reach-IsMetered :
    {auth : Authorizer} {db after : Database} → Reach auth db after → IsMetered db → IsMetered after
Reach-IsMetered here w = w
Reach-IsMetered (next r s) w = Step-IsMetered s (Reach-IsMetered r w)
