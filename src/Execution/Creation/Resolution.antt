-- ===== src/Execution/Creation/Resolution.antt =====
-- What `resolveSandboxCreation` leaves behind when it returns.
use mathlib.Core.Path.{subst}
use vigilo.Prelude.{
  ◌≡◌, refl, ap, inl, inr, true, Option, none, some, if-eq, Option-cases, ==_refl, not-eq-false,
  string_eq, nat_eq, option_eq,
}
use vigilo.Transport.Policy.{Policy, confirm}
use vigilo.Execution.Types.{Result, ok, err, >>=-eq-ok, >>-eq-ok, throw_if-eq-ok, ok-injective}
use vigilo.Execution.Store.{Database, Authorizer, Times, Event}
use vigilo.Execution.Permit.{Permit, insert_event, insert_active_event}
use vigilo.Execution.Creation.{
  SandboxIdentity, has_started, first_outcome, is_success, accept_outcome, or_mismatch,
  confirm_creation, success, record_success, settle_creation, with_policy, resolve_created,
}

-- The first attempt is a success.
pub record IsSettled (p : Permit) (db : Database) : Type 0 where
  pub outcome : Event
  pub found : first_outcome p db ≡ some outcome
  pub success : is_success outcome.event_type ≡ true

accept_outcome-success :
    (e : Event) → accept_outcome (some e) ≡ ok tt → is_success e.event_type ≡ true
unfolding accept_outcome
accept_outcome-success e h = elim (if-eq (is_success e.event_type) _ _ h) [
  | inl (yes_it_is, _) ↦ yes_it_is
  | inr (_, k) ↦ cc
]

or_mismatch-ok : (o : Option Policy) {policy : Policy} → or_mismatch o ≡ ok policy → o ≡ some policy
unfolding or_mismatch
or_mismatch-ok none h = cc
or_mismatch-ok (some policy) h = ap some (ok-injective h)

module _ (p : Permit) (t : Times) where
  inserted-IsSettled : (db : Database) → IsSettled p (insert_event (success p t) db)
  unfolding insert_event
  inserted-IsSettled db = record {
    outcome = success p t;
    found = rw (==_refl p.reservation.id) refl;
    success = refl;
  }

  record_success-IsSettled :
      (db : Database) {after : Database}
      → accept_outcome (first_outcome p db) ≡ ok tt
      → record_success p t db ≡ ok after
      → IsSettled p after
  unfolding record_success insert_active_event
  record_success-IsSettled db {after} accepted h = elim (Option-cases (first_outcome p db)) [
    | inl e ↦
        let (_, k) = throw_if-eq-ok _ _ _ (fresh e) in
        subst (IsSettled p) (ok-injective k) (inserted-IsSettled db)
    | inr (e, found) ↦ subst (IsSettled p) (ok-injective (kept e found)) (record {
      outcome = e;
      found = found;
      success = accept_outcome-success e (subst (λ o. accept_outcome o ≡ ok tt) found accepted);
    })
  ]
    where
      fresh : first_outcome p db ≡ none → insert_active_event p t.commit (success p t) db ≡ ok after
      fresh e = rw e at h

      kept : (e : Event) → first_outcome p db ≡ some e → ok db ≡ ok after
      kept e found = rw found at h

-- What is known after the creation of a sandbox is confirmed.
pub record IsConfirmed (p : Permit) (identity : SandboxIdentity) (before : Policy) (db : Database)
    (after : Database) (policy : Policy) : Type 0 where
  pub started : has_started p db ≡ true
  pub confirmed : confirm identity.name identity.session_id before ≡ some policy
  pub settled : IsSettled p after

module _ (auth : Authorizer) (p : Permit) (t : Times) (identity : SandboxIdentity) (before : Policy)
    (db after : Database) where
  confirm_creation-ok :
      {policy : Policy}
      → confirm_creation auth p t identity before db ≡ ok policy
      → (has_started p db ≡ true)
        × (accept_outcome (first_outcome p db) ≡ ok tt)
        × (confirm identity.name identity.session_id before ≡ some policy)
  unfolding confirm_creation
  confirm_creation-ok h =
      let (_, h₁) = throw_if-eq-ok _ _ _ h in
      let (_, _, h₂) = >>=-eq-ok _ _ h₁ in
      let (_, h₃) = >>-eq-ok _ _ h₂ in
      let (started, h₄) = throw_if-eq-ok _ _ _ h₃ in
      let (accepted, h₅) = >>-eq-ok _ _ h₄ in
      (not-eq-false _ started, accepted, or_mismatch-ok _ h₅)

  settle_creation-ok : settle_creation auth p t db ≡ ok after → record_success p t db ≡ ok after
  unfolding settle_creation
  settle_creation-ok h = let (_, h₁) = >>-eq-ok _ _ h in let (_, h₂) = >>-eq-ok _ _ h₁ in h₂

  -- When the creation of a sandbox is resolved with an identity, its attempt had started, the policy
  -- has confirmed this identity, and the attempt has a success for its outcome.
  pub resolve-IsConfirmed :
      (resolve_created auth p t identity before db).0 ≡ ok after
      → IsConfirmed p identity before db after (resolve_created auth p t identity before db).1
  unfolding resolve_created with_policy
  resolve-IsConfirmed h = go (confirm_creation auth p t identity before db) refl h
    where
      go :
          (r : Result Policy)
          → confirm_creation auth p t identity before db ≡ r
          → (with_policy auth p t before db r).0 ≡ ok after
          → IsConfirmed p identity before db after (with_policy auth p t before db r).1
      go (err code) e k = cc
      go (ok policy) e k =
          let (started, accepted, confirmed) = confirm_creation-ok e in
          record {
            started = started;
            confirmed = confirmed;
            settled = record_success-IsSettled p t db accepted (settle_creation-ok k);
          }
