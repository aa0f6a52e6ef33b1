-- ===== src/Execution/Steps/Leases.antt =====
-- What `renew` and `complete` have passed when they commit.
use vigilo.Prelude.{
  ◌≡◌, ◌⊎◌, inl, inr, sym, Bool, true, false, Option, some, none, ◌∷◌, map, keep, length,
  and-eq-true, not-eq-false, Bool-cases, ◌&&◌, ◌||◌, not, ltb, nat_eq,
}
use vigilo.Execution.Types.{
  FailureCode, AttemptOutcome, ambiguous, provider_attempt_ambiguous, ok, >>=-eq-ok, >>-eq-ok,
  throw_if-eq-ok, ok-injective,
}
use vigilo.Execution.Store.{Database, Times, Authorizer, Lease, EventType}
use vigilo.Execution.Permit.{
  Permit, renew, complete, complete_as, write_completion, owned, owns, live_grants, renewed_expiry,
  renew_lease, complete_lease, lease_state, completion_code, completion_event, is_succeeded,
  assert_settleable, is_unsettled, of_reservation, event_of, insert_event,
}
use vigilo.Execution.Steps.Attempts.{insert_active_event_lem}

pub record IsRenewed (auth : Authorizer) (p : Permit) (t : Times) (db after : Database)
    : Type 0 where
  pub owned : owned auth p t true db ≡ ok tt
  pub live : live_grants p.reservation t.commit db ≡ true
  pub written : after ≡ record db {
    leases = map (renew_lease p t.commit (renewed_expiry auth p.reservation t.commit db)) db.leases;
    events =
        event_of p.reservation EventType.lease_renewed none none none none t.commit ∷ db.events;
  }

pub renew_lem :
    (auth : Authorizer) (p : Permit) (t : Times) (db : Database) {after : Database}
    → renew auth p t db ≡ ok after
    → IsRenewed auth p t db after
unfolding renew
renew_lem auth p t db h =
    let (_, _, h₁) = >>=-eq-ok _ _ h in
    let (owns, h₂) = >>-eq-ok _ _ h₁ in
    let (held, h₃) = throw_if-eq-ok _ _ _ h₂ in
    let (_, live) = and-eq-true _ _ (not-eq-false _ held) in
    let (_, _, written) = insert_active_event_lem p t.commit _ _ h₃ in
    record { owned = owns; live = live; written = written }

-- The lease rows that a completion writes.
abbrev pub mine : Permit → Times → AttemptOutcome → Lease → Bool
mine p t o l = owns p l && (not (is_succeeded o) || ltb t.commit l.lease_expires_at)

-- A completion with an outcome, which an uncertain audit makes `ambiguous`.
pub record IsCompleted (auth : Authorizer) (p : Permit) (t : Times) (o : AttemptOutcome)
    (code : Option FailureCode) (db after : Database) : Type 0 where
  pub owned : owned auth p t (is_succeeded o) db ≡ ok tt
  pub settleable : (is_succeeded o && not p.recovery) ≡ true → assert_settleable auth p t db ≡ ok tt
  pub live : is_succeeded o ≡ true → live_grants p.reservation t.commit db ≡ true
  pub row : length (keep (mine p t o) db.leases) ≡ 1
  pub written : after ≡ record db {
    leases =
        map
          (complete_lease (mine p t o) (lease_state o) t.caller (completion_code o code))
          db.leases;
    events =
        event_of p.reservation (completion_event o) none (completion_code o code) none none t.caller
        ∷ db.events;
  }

module _ (auth : Authorizer) (p : Permit) (t : Times) (db : Database) {after : Database} where
  pub complete_as_lem :
      (o : AttemptOutcome) (code : Option FailureCode)
      → complete_as auth p t o code db ≡ ok after
      → IsCompleted auth p t o code db after
  unfolding complete_as write_completion insert_event
  complete_as_lem o code h =
      let (owns, h₁) = >>-eq-ok _ _ h in
      let (settles, h₂) = >>-eq-ok _ _ h₁ in
      let (row, h₃) = throw_if-eq-ok _ _ _ h₂ in
      let (one, live) = and-eq-true _ _ (not-eq-false _ row) in
      record {
        owned = owns;
        settleable = λ e. rw e at settles;
        live = λ e. rw e at live;
        row = (nat_eq.same_iff _ 1).0 one;
        written = sym (ok-injective h₃);
      }

  -- An unsettled audit is completed as ambiguous, whatever the caller says.
  pub complete_lem :
      (o : AttemptOutcome) (code : Option FailureCode)
      → complete auth p t o code db ≡ ok after
      → ((is_unsettled (keep (of_reservation p.reservation) db.events) ≡ true)
          × IsCompleted auth p t ambiguous (some provider_attempt_ambiguous) db after)
        ⊎ ((is_unsettled (keep (of_reservation p.reservation) db.events) ≡ false)
            × IsCompleted auth p t o code db after)
  unfolding complete
  complete_lem o code h =
      let (_, _, h₁) = >>=-eq-ok _ _ h in
      elim (Bool-cases (is_unsettled (keep (of_reservation p.reservation) db.events))) [
        | inl e ↦ inl (e, complete_as_lem ambiguous (some provider_attempt_ambiguous) (rw e at h₁))
        | inr e ↦ inr (e, complete_as_lem o code (rw e at h₁))
      ]
