-- ===== src/Execution/Steps/Reservations.antt =====
-- What `reserve` has passed when it commits.
use vigilo.Prelude.{
  ℕ, ◌+◌, ◌<◌, ◌≡◌, refl, sym, Bool, true, false, some, List, [], ◌∷◌, map, keep, length, Memᴰ,
  mem-keep, or-eq-false, not-eq-false, not-eq-true, leb-eq-false, ltb→lt, not, nat_eq,
}
use vigilo.Execution.Types.{
  FailureCode, Request, ok, >>=-eq-ok, throw_if-eq-ok, ok-injective, or_throw-eq-ok,
}
use vigilo.Execution.Store.{Database, Times, Authorizer, Grant}
use vigilo.Execution.Fence.{lock_external_execution, is_live}
use vigilo.Execution.Reserve.{
  Decision, Granted, Ids, reserve, perform, decide_reservation, admit, is_revoked, is_unexpired,
  is_account_choice, is_in_scope, the_only, select_account, select_operation, has_provenance,
  exhausts, on_grant, on_account, expire,
}

the_only-eq-ok : (e : FailureCode) (gs : List Grant) {g : Grant} → the_only e gs ≡ ok g → Memᴰ g gs
the_only-eq-ok e [] h = cc
the_only-eq-ok e (x ∷ []) h = Memᴰ.head (sym (ok-injective h))
the_only-eq-ok e (x ∷ y ∷ gs) h = cc

-- A grant that a request may use: stored, unrevoked and unexpired.
pub record IsUsable (now : ℕ) (db : Database) (g : Grant) : Type 0 where
  pub stored : Memᴰ g db.grants
  pub unrevoked : is_revoked db g ≡ false
  pub unexpired : now < g.expires_at

module _ (now : ℕ) (db : Database) (p : Grant → Bool) where
  abbrev choices : List Grant
  choices = keep p (keep (is_unexpired now) (keep (λ g. not (is_revoked db g)) db.grants))

  mem-choices : {g : Grant} → Memᴰ g choices → IsUsable now db g × (p g ≡ true)
  mem-choices {g} m =
      let (m₁, chosen) = mem-keep p _ m in
      let (m₂, later) = mem-keep (is_unexpired now) _ m₁ in
      let (m₃, unrevoked) = mem-keep (λ g. not (is_revoked db g)) _ m₂ in
      (
        record { stored = m₃; unrevoked = not-eq-true _ unrevoked; unexpired = ltb→lt _ _ later },
        chosen,
      )

-- What the checks of a reservation guarantee of its decision.
pub record IsDecided (auth : Authorizer) (t : Times) (q : Request) (db : Database) (d : Decision)
    : Type 0 where
  pub next : ℕ
  pub locked : db.next_fence ≡ some next
  pub fence : d.fence ≡ next + 1
  pub admitted : admit auth t db q ≡ ok d.binding
  pub account : IsUsable t.authority db d.account
  pub account_choice : is_account_choice q d.account ≡ true
  pub grant : IsUsable t.authority db d.grant
  pub in_scope : is_in_scope q d.grant ≡ true
  pub provenance : has_provenance auth q d.grant ≡ true
  pub grant_budget : exhausts (on_grant d.grant.id) db.reservations q.amounts d.grant.limits ≡ false
  pub account_budget :
      exhausts (on_account d.account.id) db.reservations q.amounts d.account.limits ≡ false
  pub concurrency :
      length (keep (is_live t.authority) (map (expire t.authority) db.leases))
      < d.account.max_concurrent_external_operations

module _ (auth : Authorizer) (t : Times) (q : Request) (db : Database) where
  select_account_lem :
      {g : Grant}
      → select_account t.authority q (keep (λ g. not (is_revoked db g)) db.grants) ≡ ok g
      → IsUsable t.authority db g × (is_account_choice q g ≡ true)
  unfolding select_account
  select_account_lem h = mem-choices t.authority db (is_account_choice q) (the_only-eq-ok _ _ h)

  select_operation_lem :
      {g : Grant}
      → select_operation t.authority q (keep (λ g. not (is_revoked db g)) db.grants) ≡ ok g
      → IsUsable t.authority db g × (is_in_scope q g ≡ true)
  unfolding select_operation
  select_operation_lem h = mem-choices t.authority db (is_in_scope q) (the_only-eq-ok _ _ h)

  decide_lem : {d : Decision} → decide_reservation auth t q db ≡ ok d → IsDecided auth t q db d
  unfolding decide_reservation lock_external_execution
  decide_lem {d} h =
      let (next, locked, h₁) = >>=-eq-ok _ _ h in
      let (binding, admitted, h₂) = >>=-eq-ok _ _ h₁ in
      let (account, accounts, h₃) = >>=-eq-ok _ _ h₂ in
      let (grant, grants, h₄) = >>=-eq-ok _ _ h₃ in
      let (_, h₅) = throw_if-eq-ok _ _ _ h₄ in
      let (provenance, h₆) = throw_if-eq-ok _ _ _ h₅ in
      let (budget, h₇) = throw_if-eq-ok _ _ _ h₆ in
      let (room, h₈) = throw_if-eq-ok _ _ _ h₇ in
      let (on_one, on_all) = or-eq-false _ _ budget in
      let (usable_account, choice) = select_account_lem accounts in
      let (usable_grant, scoped) = select_operation_lem grants in
      let facts : IsDecided auth t q db
          (record { fence = next + 1; binding = binding; account = account; grant = grant }) =
        record {
          next = next;
          locked = or_throw-eq-ok _ _ locked;
          fence = refl;
          admitted = admitted;
          account = usable_account;
          account_choice = choice;
          grant = usable_grant;
          in_scope = scoped;
          provenance = not-eq-false _ provenance;
          grant_budget = on_one;
          account_budget = on_all;
          concurrency = leb-eq-false _ _ room;
        } in
      rw (← ok-injective h₈) facts

  pub reserve_lem :
      (ids : Ids) {g : Granted} {after : Database}
      → reserve auth t ids q db ≡ ok (g, after)
      → (d : Decision) × IsDecided auth t q db d × (perform auth t ids q db d ≡ (g, after))
  unfolding reserve
  reserve_lem ids h =
      let (d, decided, done) = >>=-eq-ok _ _ h in (d, decide_lem decided, ok-injective done)
