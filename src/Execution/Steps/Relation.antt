-- ===== src/Execution/Steps/Relation.antt =====
-- Every transaction of `DurableExternalExecutionAuthorizer` takes the row lock of the semaphore
-- first, so that the committed ones stand in an order. A transaction that throws is rolled back.
use vigilo.Prelude.{ℕ, String, ◌≡◌, ◌≢◌, Option, List, ◌∷◌, Memᴰ}
use vigilo.Execution.Types.{FailureCode, Request, AttemptOutcome, ok}
use vigilo.Execution.Store.{
  Event, Grant, Reservation, Lease, History, Checkpoint, AttemptRow, Database, Times, Authorizer,
}
use vigilo.Execution.Reserve.{Ids, Granted, reserve}
use vigilo.Execution.Permit.{Permit, TransportKind, Usage, begin, finish, renew, complete}

-- Primary keys: the id of a new row is no row's, and no lease or event refers to it.
pub record IsFresh (ids : Ids) (db : Database) : Type 0 where
  pub reservation : (r : Reservation) → Memᴰ r db.reservations → r.id ≢ ids.reservation
  pub lease : (l : Lease) → Memᴰ l db.leases → l.reservation_id ≢ ids.reservation
  pub event : (e : Event) → Memᴰ e db.events → e.reservation_id ≢ ids.reservation

-- A permit stands for a committed reservation.
abbrev pub IsIssued : Permit → Database → Type 0
IsIssued p db = Memᴰ p.reservation db.reservations

-- `stages` and `revokes` are the operator's; `others` is what other parts write to their tables.
pub data Step (auth : Authorizer) (db after : Database) : Type 0 where
  reserves :
      (t : Times) (ids : Ids) (q : Request) (g : Granted)
      → IsFresh ids db
      → reserve auth t ids q db ≡ ok (g, after)
      → Step auth db after
  begins :
      (p : Permit) (t : Times) (kind : TransportKind) (n : ℕ)
      → IsIssued p db
      → begin auth p t kind db ≡ ok (n, after)
      → Step auth db after
  finishes :
      (p : Permit) (t : Times) (n : ℕ) (o : AttemptOutcome) (u : Usage) (kind : TransportKind)
      → IsIssued p db
      → finish auth p t n o u kind db ≡ ok after
      → Step auth db after
  renews :
      (p : Permit) (t : Times) → IsIssued p db → renew auth p t db ≡ ok after → Step auth db after
  completes :
      (p : Permit) (t : Times) (o : AttemptOutcome) (code : Option FailureCode)
      → IsIssued p db
      → complete auth p t o code db ≡ ok after
      → Step auth db after
  stages :
      (g : Grant)
      → ((h : Grant) → Memᴰ h db.grants → h.id ≢ g.id)
      → ((r : Reservation)
          → Memᴰ r db.reservations
          → (r.grant_id ≢ g.id) × (r.account_grant_id ≢ g.id))
      → after ≡ record db { grants = g ∷ db.grants }
      → Step auth db after
  revokes :
      (id : String) → after ≡ record db { revocations = id ∷ db.revocations } → Step auth db after
  others :
      (is gs : List History) (cs : List Checkpoint) (rows : List AttemptRow)
      → after
        ≡ record db { investigations = is; generations = gs; checkpoints = cs; attempts = rows }
      → Step auth db after

pub data Reach (auth : Authorizer) (db : Database) : Database → Type 0 where
  here : Reach auth db db
  next : {mid after : Database} → Reach auth db mid → Step auth mid after → Reach auth db after
