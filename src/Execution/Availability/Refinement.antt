-- ===== src/Execution/Availability/Refinement.antt =====
-- The answer of lib/external-execution/availability.ts against the checks of `reserve` of
-- lib/external-execution/authority.ts.
use vigilo.Prelude.{
  ℕ, ◌+◌, ◌<◌, String, ◌≡◌, refl, ap, ◌∙◌, inl, inr, Bool, true, false, List, [], ◌∷◌, Option, some,
  Memᴰ, arith, map, keep, length, Bool-cases, truthy, suc, string_eq, and-eq-true,
}
use vigilo.Execution.Types.{ok, Request, >>=-ok, throw_if-ok, or_throw-ok, SandboxBinding}
use vigilo.Execution.Store.{Grant, Database, Authorizer, Times, Lease}
use vigilo.Execution.Fence.{is_live, lock_external_execution}
use vigilo.Execution.Reserve.{
  Decision, admit, is_in_scope, has_provenance, expire, is_overdue, on_grant, on_account,
  decide_reservation,
}
use vigilo.Execution.Budget.{WithinBudget}
use vigilo.Execution.Availability.{
  available, resolve_execution_availability, snapshot, is_operation_candidate,
}
use vigilo.Execution.Availability.Usages.{IsLeast, useful-exhausts}
use vigilo.Execution.Availability.Choices.{
  Keyed, select_account-answer, select_operation-answer, operation-identity, account-identity,
  operation-stored, operation-candidate, account-stored, operation-unexpired, account-unexpired,
}
use vigilo.Execution.Availability.Openness.{IsOpen, available-IsOpen}

overdue-live : (now : ℕ) (l : Lease) → is_overdue now l ≡ true → is_live now l ≡ false
overdue-live now l h = ground arith

-- Marking overdue leases changes none that lives.
length-live_expire :
    (now : ℕ) (ls : List Lease)
    → length (keep (is_live now) (map (expire now) ls)) ≡ length (keep (is_live now) ls)
length-live_expire now [] = refl
length-live_expire now (l ∷ ls) = elim (Bool-cases (is_overdue now l)) [
  | inl e ↦ rw (e, overdue-live now l e) (length-live_expire now ls)
  | inr e ↦ elim (Bool-cases (is_live now l)) [
    | inl f ↦ rw (e, f) (ap suc (length-live_expire now ls))
    | inr f ↦ rw (e, f) (length-live_expire now ls)
  ]
]

-- What a request asks of an operation grant by name: its scope, the least amounts, and what the
-- answer does not look at, the business rules and the provenance.
pub record IsAsk (auth : Authorizer) (t : Times) (db : Database) (q : Request) (g : Grant)
    : Type 0 where
  pub named : q.grant_id ≡ some g.id
  pub real : truthy q.grant_id ≡ true
  pub any_account : truthy q.account_grant_id ≡ false
  pub scoped : is_in_scope q g ≡ true
  pub least : IsLeast g.operation_category q.amounts
  pub binding : Option SandboxBinding
  pub admitted : admit auth t db q ≡ ok binding
  pub provenance : has_provenance auth q g ≡ true

module _ (auth : Authorizer) (t : Times) (workspace_id : String) (ready : Option Bool)
    (db : Database) where
  open-decides :
      (q : Request) (o : IsOpen auth t.authority workspace_id db)
      → Keyed db.grants
      → WithinBudget db
      → (a : IsAsk auth t db q o.grant)
      → decide_reservation auth t q db
        ≡ ok (record {
          fence = o.fence + 1;
          binding = a.binding;
          account = o.account;
          grant = o.grant;
        })
  unfolding decide_reservation lock_external_execution
  open-decides q o keyed within a =
      let (own, shared) = and-eq-true _ _ o.room in
      let one = account-identity auth t.authority workspace_id db o.found q in
      let other = operation-identity auth t.authority workspace_id db o.found q o.listed in
      let on_one =
        useful-exhausts o.grant.operation_category q.amounts o.grant.limits (on_grant o.grant.id)
          db.reservations a.least
          (λ d.
            within.operation o.grant d
              (operation-stored auth t.authority workspace_id db o.found q o.listed))
          own in
      let on_all =
        useful-exhausts o.grant.operation_category q.amounts o.account.limits
          (on_account o.account.id) db.reservations a.least
          (λ d.
            within.account o.account d (account-stored auth t.authority workspace_id db o.found q))
          shared in
      let count = length-live_expire t.authority db.leases in
      >>=-ok _ _ (or_throw-ok _ _ o.locked)
      ∙ >>=-ok _ _ a.admitted
      ∙ >>=-ok _ _ (select_account-answer auth t.authority workspace_id db o.found q a.any_account)
      ∙ >>=-ok _ _ (
          select_operation-answer auth t.authority workspace_id db o.found q keyed o.listed a.named
            a.real a.scoped)
      ∙ throw_if-ok _ _ _ (rw (one, other) refl)
      ∙ throw_if-ok _ _ _ (rw a.provenance refl)
      ∙ throw_if-ok _ _ _ (rw (on_one, on_all) refl)
      ∙ throw_if-ok _ _ _ (rw count o.live)

  -- Where grants have distinct ids and nothing is overspent, if the answer for a workspace is
  -- available, then of the requests made for its operation grants by name, each for its grant's
  -- scope, with the least amounts for its category, and within the business rules and the provenance
  -- that the answer does not look at, one passes every check that `reserve` makes before it writes,
  -- with this grant and an account grant, neither of which has expired at the time of the checks.
  -- The checks that come with the write and after it are no part of this: the guards of the table on
  -- an insertion, its unique keys, and the transport policy of the permit.
  pub available-decide_reservation :
      (ask : Grant → Request)
      → Keyed db.grants
      → WithinBudget db
      → ((g : Grant)
          → Memᴰ g db.grants
          → is_operation_candidate workspace_id g ≡ true
          → IsAsk auth t db (ask g) g)
      → resolve_execution_availability auth.grant_identity t.authority workspace_id ready
          (snapshot db)
        ≡ available
      → (g : Grant) × (d : Decision) × (Memᴰ g db.grants
          × (is_operation_candidate workspace_id g ≡ true)
          × (d.grant ≡ g))
        × ((t.authority < g.expires_at) × (t.authority < d.account.expires_at))
        × (decide_reservation auth t (ask g) db ≡ ok d)
  available-decide_reservation ask keyed within asks h =
      let o = available-IsOpen auth t.authority workspace_id ready db h in
      let q = ask o.grant in
      let stored = operation-stored auth t.authority workspace_id db o.found q o.listed in
      let candidate = operation-candidate auth t.authority workspace_id db o.found q o.listed in
      let a = asks o.grant stored candidate in
      let d : Decision = record {
        fence = o.fence + 1;
        binding = a.binding;
        account = o.account;
        grant = o.grant;
      } in
      (
        o.grant,
        d,
        (stored, candidate, refl),
        (
          operation-unexpired auth t.authority workspace_id db o.found q o.listed,
          account-unexpired auth t.authority workspace_id db o.found q,
        ),
        open-decides q o keyed within a,
      )
