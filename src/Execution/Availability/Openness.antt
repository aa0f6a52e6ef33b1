-- ===== src/Execution/Availability/Openness.antt =====
-- What the answer `available` of lib/external-execution/availability.ts rests on.
use mathlib.Core.Path.{subst}
use vigilo.Prelude.{
  ℕ, String, ◌≡◌, refl, sym, ap, ◌∙◌, inl, inr, Bool, true, false, List, [], ◌∷◌, Option, some,
  Memᴰ, keep, mem-keep, length, leb, is_some, Option-cases, not-eq-false, string_eq,
}
use vigilo.Prelude.Options.{some-injective}
use vigilo.Prelude.Checks.{passed, bind-eq-passed, refuse_if-eq-passed, present_or-eq-passed}
use vigilo.Execution.Store.{Grant, Database, Authorizer}
use vigilo.Execution.Fence.{is_live}
use vigilo.Execution.Availability.{
  available, resolve_execution_availability, checked_availability, snapshot, authority,
  has_capacity, is_empty, revocations_of,
}
use vigilo.Execution.Availability.Choices.{IsAuthority, authority-IsAuthority}
use vigilo.Execution.Availability.Refusals.{resolve-passed}

-- What an answer rests on.
pub record IsOpen (auth : Authorizer) (now : ℕ) (workspace_id : String) (db : Database)
    : Type 0 where
  pub fence : ℕ
  pub locked : db.next_fence ≡ some fence
  pub account : Grant
  pub operations : List Grant
  pub found : IsAuthority auth now workspace_id db account operations
  pub grant : Grant
  pub listed : Memᴰ grant operations
  pub room : has_capacity account db.reservations grant ≡ true
  pub live :
      leb account.max_concurrent_external_operations (length (keep (is_live now) db.leases)) ≡ false

nonempty-mem : (gs : List Grant) → is_empty gs ≡ false → (g : Grant) × Memᴰ g gs
nonempty-mem [] h = cc
nonempty-mem (g ∷ gs) h = (g, Memᴰ.head refl)

module _ (auth : Authorizer) (now : ℕ) (workspace_id : String) (ready : Option Bool)
    (db : Database) where
  same_revocations :
      (grants : List Grant) {revocations : List String}
      → revocations_of grants (some db.revocations) ≡ some revocations
      → authority auth.grant_identity now workspace_id grants revocations
        ≡ authority auth.grant_identity now workspace_id grants db.revocations
  unfolding authority
  same_revocations [] e = refl
  same_revocations (g ∷ gs) e =
      ap (authority auth.grant_identity now workspace_id (g ∷ gs)) (some-injective (sym e))

  pub available-IsOpen :
      resolve_execution_availability auth.grant_identity now workspace_id ready (snapshot db)
        ≡ available
      → IsOpen auth now workspace_id db
  unfolding checked_availability
  available-IsOpen h =
      let h₀ = resolve-passed auth now workspace_id ready db h in
      let (semaphore, e₁, h₁) = present_or-eq-passed _ _ _ h₀ in
      let (exists, h₂) = refuse_if-eq-passed _ _ _ h₁ in
      let (grants, e₂, h₃) = present_or-eq-passed _ _ _ h₂ in
      let (revocations, e₃, h₄) = present_or-eq-passed _ _ _ h₃ in
      let ((account, operations), found, h₅) = bind-eq-passed _ _ h₄ in
      let (reservations, e₄, h₆) = present_or-eq-passed _ _ _ h₅ in
      let (some_room, h₇) = refuse_if-eq-passed _ _ _ h₆ in
      let (leases, e₅, h₈) = present_or-eq-passed _ _ _ h₇ in
      let (room, _) = refuse_if-eq-passed _ _ _ h₈ in
      let (fence, locked) =
        present (subst (λ b. b ≡ true) (sym (some-injective e₁)) (not-eq-false semaphore exists)) in
      let (grant, m) = nonempty-mem _ some_room in
      let (listed, fits) = mem-keep _ operations m in
      let here =
        subst
          (λ gs.
            authority auth.grant_identity now workspace_id gs revocations
            ≡ passed (account, operations))
          (sym (some-injective e₂)) found in
      record {
        fence = fence;
        locked = locked;
        account = account;
        operations = operations;
        found = authority-IsAuthority auth now workspace_id db (
            sym (
              same_revocations db.grants (
                subst (λ gs. revocations_of gs (some db.revocations) ≡ some revocations)
                  (sym (some-injective e₂)) e₃))
            ∙ here);
        grant = grant;
        listed = listed;
        room = subst (λ rs. has_capacity account rs grant ≡ true) (sym (some-injective e₄)) fits;
        live =
            subst
              (λ ls.
                leb account.max_concurrent_external_operations (length (keep (is_live now) ls))
                ≡ false)
              (sym (some-injective e₅)) room;
      }
    where
      present : is_some db.next_fence ≡ true → (fence : ℕ) × (db.next_fence ≡ some fence)
      present e = elim (Option-cases db.next_fence) [
        | inl f ↦ let clash : false ≡ true = rw f at e in cc
        | inr found ↦ found
      ]
