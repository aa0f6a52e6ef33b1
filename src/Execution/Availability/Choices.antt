-- ===== src/Execution/Availability/Choices.antt =====
-- The grants that lib/external-execution/availability.ts finds, and those that a reservation selects.
use vigilo.Prelude.{
  ℕ, String, ◌<◌, ◌≡◌, ◌≢◌, refl, arith, sym, ap, ◌∙◌, inl, inr, Bool, true, false, not, ◌&&◌, List,
  [], ◌∷◌, Option, some, Memᴰ, keep, keep-same, keep-none, keep-swap, mem-keep, Bool-cases, if-eq,
  truthy, ◌==◌, string_eq, option_eq, ==→≡, Memᴰ, not-eq-false, and-eq-true,
}
use mathlib.Core.Path.{subst}
use vigilo.Prelude.Options.{some-injective}
use vigilo.Prelude.Checks.{
  passed, bind-eq-passed, passed-injective, refuse_if-eq-passed, present_or-eq-passed,
}
use vigilo.Execution.Types.{ok, Request}
use vigilo.Execution.Store.{Grant, Database, Authorizer, is_account}
use vigilo.Execution.Reserve.{
  is_unexpired, is_revoked, is_account_choice, is_in_scope, is_operation_choice, unset_or,
  select_account, select_operation, identity_matches,
}
use vigilo.Execution.Availability.{all_match, the_account, authority, is_operation_candidate}

-- Grants under distinct ids, as the primary key of their table has it.
abbrev pub Keyed : List Grant → Type 0
Keyed [] = Unit
Keyed (g ∷ gs) = ((h : Grant) → Memᴰ h gs → h.id ≢ g.id) × Keyed gs

pub Keyed-keys :
    (gs : List Grant) → Keyed gs → (g h : Grant) → Memᴰ g gs → Memᴰ h gs → g.id ≡ h.id → g ≡ h
Keyed-keys [] k g h m n same = elim m [ ]
Keyed-keys (x ∷ gs) (new, k) g h (Memᴰ.head e) (Memᴰ.head f) same = e ∙ sym f
Keyed-keys (x ∷ gs) (new, k) g h (Memᴰ.head e) (Memᴰ.tail n) same =
    absurd (new h n (sym same ∙ ap (λ (y : Grant). y.id) e))
Keyed-keys (x ∷ gs) (new, k) g h (Memᴰ.tail m) (Memᴰ.head f) same =
    absurd (new g m (same ∙ ap (λ (y : Grant). y.id) f))
Keyed-keys (x ∷ gs) (new, k) g h (Memᴰ.tail m) (Memᴰ.tail n) same = Keyed-keys gs k g h m n same

Keyed-keep : (p : Grant → Bool) (gs : List Grant) → Keyed gs → Keyed (keep p gs)
Keyed-keep p [] k = tt
Keyed-keep p (g ∷ gs) (new, k) = elim (Bool-cases (p g)) [
  | inl e ↦ rw e ((λ h m. new h (mem-keep p gs m).0, Keyed-keep p gs k))
  | inr e ↦ rw e (Keyed-keep p gs k)
]

-- A test that only the grants under one id pass keeps one of them.
keep-one :
    (p : Grant → Bool) (gs : List Grant) {g : Grant}
    → Keyed gs
    → Memᴰ g gs
    → p g ≡ true
    → ((h : Grant) → p h ≡ true → h.id ≡ g.id)
    → keep p gs ≡ g ∷ []
keep-one p [] k m passes same = elim m [ ]
keep-one p (x ∷ gs) {g} (new, k) (Memᴰ.head e) passes same =
    let here : p x ≡ true = rw (← e) passes in
    rw here (
      rw e (
        ap (λ r. x ∷ r)
          (keep-none p gs λ h m. elim (Bool-cases (p h)) [
            | inl f ↦ absurd (new h m (same h f ∙ ap (λ (y : Grant). y.id) e))
            | inr f ↦ f
          ])))
keep-one p (x ∷ gs) {g} (new, k) (Memᴰ.tail m) passes same = elim (Bool-cases (p x)) [
  | inl f ↦ absurd (new g m (sym (same x f)))
  | inr f ↦ rw f (keep-one p gs k m passes same)
]

the_account-eq-passed :
    (gs : List Grant) {account : Grant} → the_account gs ≡ passed account → gs ≡ account ∷ []
the_account-eq-passed [] h = cc
the_account-eq-passed (g ∷ []) h = ap (λ x. x ∷ []) (passed-injective h)
the_account-eq-passed (g ∷ h ∷ gs) e = cc

all_match-step :
    (auth : Authorizer) (x : Grant) (gs : List Grant)
    → all_match auth.grant_identity (x ∷ gs) ≡ passed true
    → (identity_matches auth x ≡ true) × (all_match auth.grant_identity gs ≡ passed true)
unfolding all_match
all_match-step auth x gs h =
    let (computed, found, h₁) = present_or-eq-passed _ _ _ h in
    elim (if-eq (x.grant_identity == computed) _ _ h₁) [
      | inl (e, rest) ↦ (rw found e, rest)
      | inr (e, rest) ↦ cc
    ]

all_match-mem :
    (auth : Authorizer) (gs : List Grant) {g : Grant}
    → all_match auth.grant_identity gs ≡ passed true
    → Memᴰ g gs
    → identity_matches auth g ≡ true
all_match-mem auth [] h m = elim m [ ]
all_match-mem auth (x ∷ gs) h (Memᴰ.head e) = rw e (all_match-step auth x gs h).0
all_match-mem auth (x ∷ gs) h (Memᴰ.tail m) = all_match-mem auth gs (all_match-step auth x gs h).1 m

-- The first of the conditions of `is_in_scope`.
first-and :
    (a b c d e f g h i j : Bool)
    → (a && b && c && d && e && f && g && h && i && j) ≡ true
    → a ≡ true
first-and true b c d e f g h i j k = refl
first-and false b c d e f g h i j k = cc

unset_or-same :
    (wanted : Option String) (id : String)
    → truthy wanted ≡ true
    → unset_or wanted id ≡ true
    → wanted ≡ some id
unset_or-same wanted id real h = sym (==→≡ (some id) wanted (rw real at h))

module _ (auth : Authorizer) (now : ℕ) (workspace_id : String) (db : Database) where
  abbrev unrevoked : List Grant
  unrevoked = keep (λ (g : Grant). not (is_revoked db g)) db.grants

  -- What the grants of an answer are.
  pub record IsAuthority (account : Grant) (operations : List Grant) : Type 0 where
    pub accounts :
        keep (is_unexpired now) (keep (λ (g : Grant). is_account g.scope) unrevoked) ≡ account ∷ []
    pub candidates :
        operations ≡ keep (is_unexpired now) (keep (is_operation_candidate workspace_id) unrevoked)
    pub identities : all_match auth.grant_identity (account ∷ operations) ≡ passed true

  pub authority-IsAuthority :
      {account : Grant} {operations : List Grant}
      → authority auth.grant_identity now workspace_id db.grants db.revocations
        ≡ passed (account, operations)
      → IsAuthority account operations
  unfolding authority
  authority-IsAuthority {account} {operations} h =
      let (_, h₁) = refuse_if-eq-passed _ _ _ h in
      let (_, h₂) = refuse_if-eq-passed _ _ _ h₁ in
      let (one, found, h₃) = bind-eq-passed _ _ h₂ in
      let (_, h₄) = refuse_if-eq-passed _ _ _ h₃ in
      let (same, matched, h₅) = bind-eq-passed _ _ h₄ in
      let (right, h₆) = refuse_if-eq-passed _ _ _ h₅ in
      let e₁ : one ≡ account = ap (λ x. x.0) (passed-injective h₆) in
      let listed = keep (is_unexpired now) (keep (is_operation_candidate workspace_id) unrevoked) in
      let e₂ : listed ≡ operations = ap (λ x. x.1) (passed-injective h₆) in
      let matched_all = matched ∙ ap passed (not-eq-false _ right) in
      record {
        accounts = the_account-eq-passed _ found ∙ ap (λ x. x ∷ []) e₁;
        candidates = sym e₂;
        identities =
            subst (λ xs. all_match auth.grant_identity xs ≡ passed true)
              (ap (λ x. x ∷ listed) e₁ ∙ ap (λ xs. account ∷ xs) e₂) matched_all;
      }

  module _ {account : Grant} {operations : List Grant} (a : IsAuthority account operations)
      (q : Request) where
    -- A request that names no account gets the account of the answer.
    pub select_account-answer :
        truthy q.account_grant_id ≡ false → select_account now q unrevoked ≡ ok account
    unfolding select_account
    select_account-answer h =
        let kept : keep (is_account_choice q) (keep (is_unexpired now) unrevoked) ≡ account ∷ [] =
          keep-same (is_account_choice q) (λ (g : Grant). is_account g.scope)
            (keep (is_unexpired now) unrevoked) (λ g. rw h (both (is_account g.scope)))
          ∙ keep-swap _ _ unrevoked
          ∙ a.accounts in
        rw kept refl
      where
        both : (b : Bool) → (b && true) ≡ b
        both true = refl
        both false = refl

    module _ (keyed : Keyed db.grants) {g : Grant} (m : Memᴰ g operations)
        (named : q.grant_id ≡ some g.id) (real : truthy q.grant_id ≡ true)
        (scoped : is_in_scope q g ≡ true) where
      mem-candidates :
          Memᴰ g (keep (is_unexpired now) (keep (is_operation_candidate workspace_id) unrevoked))
      mem-candidates = subst (Memᴰ g) a.candidates m

      mem-unexpired : Memᴰ g (keep (is_unexpired now) unrevoked)
      mem-unexpired =
          (mem-keep (is_operation_candidate workspace_id) _
            (subst (Memᴰ g) (keep-swap _ _ unrevoked) mem-candidates)).0

      in_scope-id : (h : Grant) → is_in_scope q h ≡ true → h.id ≡ g.id
      in_scope-id h e =
          let chosen = first-and (is_operation_choice q h) _ _ _ _ _ _ _ _ _ e in
          let (_, mine) =
            and-eq-true (not (is_account h.scope)) (unset_or q.grant_id h.id) chosen in
          some-injective (sym (unset_or-same q.grant_id h.id real mine) ∙ named)

      -- A request for the scope of an operation grant that it names gets this grant.
      pub select_operation-answer : select_operation now q unrevoked ≡ ok g
      unfolding select_operation
      select_operation-answer =
          let kept : keep (is_in_scope q) (keep (is_unexpired now) unrevoked) ≡ g ∷ [] =
            keep-one _ _ (Keyed-keep _ _ (Keyed-keep _ _ keyed)) mem-unexpired scoped in_scope-id in
          rw kept refl

    pub operation-identity : {g : Grant} → Memᴰ g operations → identity_matches auth g ≡ true
    operation-identity m = all_match-mem auth _ a.identities (Memᴰ.tail m)

    pub account-identity : identity_matches auth account ≡ true
    account-identity = all_match-mem auth _ a.identities (Memᴰ.head refl)

    pub operation-unexpired : {g : Grant} → Memᴰ g operations → now < g.expires_at
    operation-unexpired {g} m =
        let (_, later) = mem-keep (is_unexpired now) _ (subst (Memᴰ g) a.candidates m) in
        ground arith

    pub account-unexpired : now < account.expires_at
    account-unexpired =
        let one : Memᴰ account (account ∷ []) = Memᴰ.head refl in
        let (_, later) =
          mem-keep (is_unexpired now) _ (subst (Memᴰ account) (sym a.accounts) one) in
        ground arith

    pub operation-candidate :
        {g : Grant} → Memᴰ g operations → is_operation_candidate workspace_id g ≡ true
    operation-candidate {g} m =
        (mem-keep (is_operation_candidate workspace_id) unrevoked
          (mem-keep (is_unexpired now) _ (subst (Memᴰ g) a.candidates m)).0).1

    pub operation-stored : {g : Grant} → Memᴰ g operations → Memᴰ g db.grants
    operation-stored {g} m =
        (mem-keep (λ (h : Grant). not (is_revoked db h)) db.grants
          (mem-keep (is_operation_candidate workspace_id) unrevoked
            (mem-keep (is_unexpired now) _ (subst (Memᴰ g) a.candidates m)).0).0).0

    pub account-stored : Memᴰ account db.grants
    account-stored =
        (mem-keep (λ (h : Grant). not (is_revoked db h)) db.grants
          (mem-keep (λ (h : Grant). is_account h.scope) unrevoked
            (mem-keep (is_unexpired now) _
              (subst (Memᴰ account) (sym a.accounts) (Memᴰ.head refl))).0).0).0
