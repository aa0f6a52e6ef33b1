-- ===== src/Execution/Steps/Frames.antt =====
-- What each transaction of a permit leaves alone.
use vigilo.Prelude.{ℕ, ◌≡◌, refl, inl, inr, Option}
use vigilo.Execution.Types.{FailureCode, AttemptOutcome, ok}
use vigilo.Execution.Store.{Database, Times, Authorizer}
use vigilo.Execution.Permit.{Permit, TransportKind, Usage, begin, finish, renew, complete}
use vigilo.Execution.Steps.Attempts.{begin_lem, finish_lem}
use vigilo.Execution.Steps.Leases.{renew_lem, complete_lem}

-- The tables that only a reservation and the operator write.
pub record IsFrame (db after : Database) : Type 0 where
  pub next_fence : after.next_fence ≡ db.next_fence
  pub grants : after.grants ≡ db.grants
  pub revocations : after.revocations ≡ db.revocations
  pub reservations : after.reservations ≡ db.reservations

IsFrame-of_eq : {db mid after : Database} → after ≡ mid → IsFrame db mid → IsFrame db after
IsFrame-of_eq e f = rw e f

module _ (auth : Authorizer) (p : Permit) (t : Times) {db after : Database} where
  pub begin-IsFrame :
      (kind : TransportKind) (n : ℕ) → begin auth p t kind db ≡ ok (n, after) → IsFrame db after
  begin-IsFrame kind n h =
      IsFrame-of_eq (begin_lem auth p t kind db h).written
        (record { next_fence = refl; grants = refl; revocations = refl; reservations = refl })

  pub finish-IsFrame :
      (n : ℕ) (o : AttemptOutcome) (u : Usage) (kind : TransportKind)
      → finish auth p t n o u kind db ≡ ok after
      → IsFrame db after
  finish-IsFrame n o u kind h =
      IsFrame-of_eq (finish_lem auth p t n u kind db o h).written
        (record { next_fence = refl; grants = refl; revocations = refl; reservations = refl })

  pub renew-IsFrame : renew auth p t db ≡ ok after → IsFrame db after
  renew-IsFrame h =
      IsFrame-of_eq (renew_lem auth p t db h).written
        (record { next_fence = refl; grants = refl; revocations = refl; reservations = refl })

  pub complete-IsFrame :
      (o : AttemptOutcome) (code : Option FailureCode)
      → complete auth p t o code db ≡ ok after
      → IsFrame db after
  complete-IsFrame o code h = elim (complete_lem auth p t db o code h) [
    | inl (_, c) ↦
        IsFrame-of_eq c.written
          (record { next_fence = refl; grants = refl; revocations = refl; reservations = refl })
    | inr (_, c) ↦
        IsFrame-of_eq c.written
          (record { next_fence = refl; grants = refl; revocations = refl; reservations = refl })
  ]
