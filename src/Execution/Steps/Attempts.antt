-- ===== src/Execution/Steps/Attempts.antt =====
-- What `beginProviderAttempt` and `finishProviderAttempt` have passed when they commit.
use vigilo.Prelude.{
  not-eq-false, and-eq-true, ltb-eq-false, ℕ, ◌+◌, ◌≤◌, ◌≡◌, refl, sym, true, false, some, none,
  ◌∷◌, length,
}
use vigilo.Execution.Types.{
  AttemptOutcome, succeeded, failed, ambiguous, ok, >>=-eq-ok, ok-injective, >>-eq-ok,
  throw_if-eq-ok,
}
use vigilo.Execution.Store.{Database, Times, Authorizer, Event, EventType}
use vigilo.Execution.Permit.{
  Permit, TransportKind, Usage, begin, finish, insert_active_event, insert_event, event_of, starts,
  live_grants, has_fresh_lease, admit_attempt, owned, assert_settleable, terminal_event, is_cleanup,
  is_succeeded,
}

pub insert_active_event_lem :
    (p : Permit) (now : ℕ) (e : Event) (db : Database) {after : Database}
    → insert_active_event p now e db ≡ ok after
    → (has_fresh_lease p now db ≡ true)
      × (live_grants p.reservation now db ≡ true)
      × (after ≡ record db { events = e ∷ db.events })
unfolding insert_active_event insert_event
insert_active_event_lem p now e db h =
    let (live, done) = throw_if-eq-ok _ _ _ h in
    let (lease, grants) = and-eq-true _ _ (not-eq-false _ live) in
    (lease, grants, sym (ok-injective done))

abbrev pub start_of : Permit → Times → ℕ → Event
start_of p t n = event_of p.reservation EventType.attempt_started (some n) none none none t.commit

-- What a provider attempt that was admitted has passed.
pub record IsBegun (auth : Authorizer) (p : Permit) (t : Times) (kind : TransportKind) (n : ℕ)
    (db after : Database) : Type 0 where
  pub owned : owned auth p t true db ≡ ok tt
  pub admitted : admit_attempt auth p t kind (length (starts p.reservation db.events)) db ≡ ok tt
  pub ordinal : n ≡ length (starts p.reservation db.events) + 1
  pub within : n ≤ p.reservation.amounts.provider_attempts
  pub lease : has_fresh_lease p t.commit db ≡ true
  pub live : live_grants p.reservation t.commit db ≡ true
  pub written : after ≡ record db { events = start_of p t n ∷ db.events }

pub begin_lem :
    (auth : Authorizer) (p : Permit) (t : Times) (kind : TransportKind) (db : Database) {n : ℕ}
    {after : Database}
    → begin auth p t kind db ≡ ok (n, after)
    → IsBegun auth p t kind n db after
unfolding begin
begin_lem auth p t kind db {n} {after} h =
    let (_, _, h₁) = >>=-eq-ok _ _ h in
    let (owns, h₂) = >>-eq-ok _ _ h₁ in
    let (admits, h₃) = >>-eq-ok _ _ h₂ in
    let (_, h₄) = >>-eq-ok _ _ h₃ in
    let (_, h₅) = >>-eq-ok _ _ h₄ in
    let (below, h₆) = throw_if-eq-ok _ _ _ h₅ in
    let (mid, inserted, h₇) = >>=-eq-ok _ _ h₆ in
    let (lease, live, written) = insert_active_event_lem p t.commit _ db inserted in
    let e : n ≡ length (starts p.reservation db.events) + 1 = cc h₇ in
    record {
      owned = owns;
      admitted = admits;
      ordinal = e;
      within = rw e (ltb-eq-false _ _ below);
      lease = lease;
      live = live;
      written = rw e (cc (h₇, written));
    }

-- An outcome that was recorded: its event, and for a success the checks.
pub record IsFinished (auth : Authorizer) (p : Permit) (t : Times) (n : ℕ) (o : AttemptOutcome)
    (kind : TransportKind) (db after : Database) : Type 0 where
  pub event : Event
  pub reservation : event.reservation_id ≡ p.reservation.id
  pub type : event.event_type ≡ terminal_event o
  pub attempt : event.attempt_ordinal ≡ some n
  pub owned : owned auth p t (is_succeeded o) db ≡ ok tt
  pub settleable : o ≡ succeeded → is_cleanup kind ≡ false → assert_settleable auth p t db ≡ ok tt
  pub live : o ≡ succeeded → live_grants p.reservation t.commit db ≡ true
  pub written : after ≡ record db { events = event ∷ db.events }

module _ (auth : Authorizer) (p : Permit) (t : Times) (n : ℕ) (u : Usage) (kind : TransportKind)
    (db : Database) {after : Database} where
  finish_succeeded :
      finish auth p t n succeeded u kind db ≡ ok after
      → IsFinished auth p t n succeeded kind db after
  unfolding finish
  finish_succeeded h =
      let (_, _, h₁) = >>=-eq-ok _ _ h in
      let (owns, h₂) = >>-eq-ok _ _ h₁ in
      let (settles, h₃) = >>-eq-ok _ _ h₂ in
      let (lease, live, written) = insert_active_event_lem p t.commit _ db h₃ in
      record {
        event = _;
        reservation = refl;
        type = refl;
        attempt = refl;
        owned = owns;
        settleable = λ _ business. rw business at settles;
        live = λ _. live;
        written = written;
      }

  pub finish_lem :
      (o : AttemptOutcome)
      → finish auth p t n o u kind db ≡ ok after
      → IsFinished auth p t n o kind db after
  unfolding finish insert_event
  finish_lem succeeded h = finish_succeeded h
  finish_lem failed h =
      let (_, _, h₁) = >>=-eq-ok _ _ h in
      let (owns, h₂) = >>-eq-ok _ _ h₁ in
      record {
        event = _;
        reservation = refl;
        type = refl;
        attempt = refl;
        owned = owns;
        settleable = λ e. cc;
        live = λ e. cc;
        written = sym (ok-injective h₂);
      }
  finish_lem ambiguous h =
      let (_, _, h₁) = >>=-eq-ok _ _ h in
      let (owns, h₂) = >>-eq-ok _ _ h₁ in
      record {
        event = _;
        reservation = refl;
        type = refl;
        attempt = refl;
        owned = owns;
        settleable = λ e. cc;
        live = λ e. cc;
        written = sym (ok-injective h₂);
      }
