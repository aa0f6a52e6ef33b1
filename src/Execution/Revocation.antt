-- ===== src/Execution/Revocation.antt =====
-- Revoked grants and `owned` of lib/external-execution/authority.ts.
use vigilo.Prelude.{
  ℕ, String, ◌≡◌, ◌≢◌, ◌⊎◌, inl, inr, refl, sym, ap, true, contains, arith, string_eq,
}
use vigilo.Execution.Types.{succeeded, ok}
use vigilo.Execution.Store.{Reservation, Database, Authorizer, Times}
use vigilo.Execution.Reserve.{record_reservation, expire_leases}
use vigilo.Execution.Permit.{Permit, TransportKind, Usage, begin, finish, renew, live_grants}
use vigilo.Execution.Steps.Relation.{
  Step, Reach, here, next, reserves, begins, finishes, renews, completes, stages, revokes, others,
}
use vigilo.Execution.Steps.Attempts.{begin_lem, finish_lem}
use vigilo.Execution.Steps.Leases.{renew_lem}
use vigilo.Execution.Steps.Reservations.{reserve_lem}
use vigilo.Execution.Steps.Frames.{begin-IsFrame, finish-IsFrame, renew-IsFrame, complete-IsFrame}

-- The operation grant or the account grant of a reservation is revoked.
abbrev pub IsRevoked : Reservation → Database → Type 0
IsRevoked r db =
    (contains db.revocations r.grant_id ≡ true)
    ⊎ (contains db.revocations r.account_grant_id ≡ true)

contains-revocations-Step :
    {auth : Authorizer} {db after : Database} (id : String)
    → Step auth db after
    → contains db.revocations id ≡ true
    → contains after.revocations id ≡ true
unfolding record_reservation expire_leases
contains-revocations-Step {auth} {db} id (reserves t ids q g fresh h) c =
    let (d, decided, done) = reserve_lem auth t q db ids h in rw (sym (ap (λ x. x.1) done)) c
contains-revocations-Step {auth} id (begins p t kind n _ h) c =
    rw (begin-IsFrame auth p t kind n h).revocations c
contains-revocations-Step {auth} id (finishes p t n o u kind _ h) c =
    rw (finish-IsFrame auth p t n o u kind h).revocations c
contains-revocations-Step {auth} id (renews p t _ h) c = rw (renew-IsFrame auth p t h).revocations c
contains-revocations-Step {auth} id (completes p t o code _ h) c =
    rw (complete-IsFrame auth p t o code h).revocations c
contains-revocations-Step id (stages g new unused e) c = rw e c
contains-revocations-Step id (revokes other e) c = rw e (ground (arith, c))
contains-revocations-Step id (others is gs cs rows e) c = rw e c

Step-IsRevoked :
    {auth : Authorizer} {db after : Database} (r : Reservation)
    → Step auth db after
    → IsRevoked r db
    → IsRevoked r after
Step-IsRevoked r s (inl c) = inl (contains-revocations-Step r.grant_id s c)
Step-IsRevoked r s (inr c) = inr (contains-revocations-Step r.account_grant_id s c)

Reach-IsRevoked :
    {auth : Authorizer} {db after : Database} (r : Reservation)
    → Reach auth db after
    → IsRevoked r db
    → IsRevoked r after
Reach-IsRevoked r here c = c
Reach-IsRevoked r (next steps s) c = Step-IsRevoked r s (Reach-IsRevoked r steps c)

not_live :
    (r : Reservation) (now : ℕ) (db : Database) → IsRevoked r db → live_grants r now db ≢ true
unfolding live_grants
not_live r now db (inl c) h = ground arith
not_live r now db (inr c) h = ground arith

-- Once a grant of a reservation is revoked, then after any further history its permit starts no
-- provider attempt, records no successful one, and does not renew its lease.
pub revocation_permanent :
    {auth : Authorizer} {db after : Database} (p : Permit)
    → IsRevoked p.reservation db
    → Reach auth db after
    → (t : Times)
    → ((kind : TransportKind) (x : ℕ × Database) → begin auth p t kind after ≢ ok x)
      × ((n : ℕ) (u : Usage) (kind : TransportKind) (x : Database)
          → finish auth p t n succeeded u kind after ≢ ok x)
      × ((x : Database) → renew auth p t after ≢ ok x)
revocation_permanent {auth} {after} p c r t =
    let dead = not_live p.reservation t.commit after (Reach-IsRevoked p.reservation r c) in
    (
      (λ kind x h. dead (begin_lem auth p t kind after h).live),
      (λ n u kind x h. dead ((finish_lem auth p t n u kind after succeeded h).live refl)),
      (λ x h. dead (renew_lem auth p t after h).live),
    )
