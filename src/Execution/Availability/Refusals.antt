-- ===== src/Execution/Availability/Refusals.antt =====
-- The checks of lib/external-execution/availability.ts end early with any status but `available`.
use vigilo.Prelude.{
  ℕ, String, ◌≡◌, ◌≢◌, ap, Bool, true, false, List, [], ◌∷◌, Option, none, some, ◌==◌, string_eq,
}
use vigilo.Prelude.Checks.{
  Checked, refused, passed, Refuses, Refuses-bind, Refuses-if, Refuses-refuse_if,
  Refuses-present_or,
}
use vigilo.Execution.Store.{Grant, Database, Authorizer}
use vigilo.Execution.Availability.{
  Status, available, resolve_execution_availability, checked_availability, snapshot, authority,
  readiness, all_match, the_account, unknown, status_of,
}

abbrev Other : Status → Type 0
Other status = status ≢ available

Refuses-all_match :
    (identity : Grant → Option String) (gs : List Grant) → Refuses Other (all_match identity gs)
unfolding all_match
Refuses-all_match identity [] = tt
Refuses-all_match identity (g ∷ gs) =
    Refuses-present_or Other (identity g) unknown _ (λ e. cc)
      λ computed.
        Refuses-if Other (g.grant_identity == computed) _ (passed false)
          (Refuses-all_match identity gs) tt

Refuses-the_account : (gs : List Grant) → Refuses Other (the_account gs)
Refuses-the_account [] = λ e. cc
Refuses-the_account (g ∷ []) = tt
Refuses-the_account (g ∷ h ∷ gs) = λ e. cc

Refuses-readiness : (ready : Option Bool) → Refuses Other (readiness ready)
unfolding readiness
Refuses-readiness none = λ e. cc
Refuses-readiness (some true) = tt
Refuses-readiness (some false) = λ e. cc

module _ (auth : Authorizer) (now : ℕ) (workspace_id : String) (ready : Option Bool)
    (db : Database) where
  Refuses-authority :
      (grants : List Grant) (revocations : List String)
      → Refuses Other (authority auth.grant_identity now workspace_id grants revocations)
  unfolding authority
  Refuses-authority grants revocations =
      Refuses-refuse_if Other _ _ _ (λ e. cc)
        (Refuses-refuse_if Other _ _ _ (λ e. cc)
          (Refuses-bind Other _ _ (Refuses-the_account _) λ account.
            Refuses-refuse_if Other _ _ _ (λ e. cc)
              (Refuses-bind Other _ _ (Refuses-all_match auth.grant_identity _)
                λ same. Refuses-refuse_if Other _ _ _ (λ e. cc) tt)))

  Refuses-checked :
      Refuses Other (checked_availability auth.grant_identity now workspace_id ready (snapshot db))
  unfolding checked_availability
  Refuses-checked =
      Refuses-present_or Other _ _ _ (λ e. cc)
        λ semaphore.
          Refuses-refuse_if Other _ _ _ (λ e. cc)
            (Refuses-present_or Other _ _ _ (λ e. cc)
              λ grants.
                Refuses-present_or Other _ _ _ (λ e. cc)
                  λ revocations.
                    Refuses-bind Other _ _ (Refuses-authority grants revocations) λ found.
                      Refuses-present_or Other _ _ _ (λ e. cc)
                        λ reservations.
                          Refuses-refuse_if Other _ _ _ (λ e. cc)
                            (Refuses-present_or Other _ _ _ (λ e. cc)
                              λ leases.
                                Refuses-refuse_if Other _ _ _ (λ e. cc) (Refuses-readiness ready)))

  passed_of :
      (c : Checked Status Status) → Refuses Other c → status_of c ≡ available → c ≡ passed available
  passed_of (refused s) r h = absurd (r h)
  passed_of (passed s) r h = ap passed h

  -- The answer is available only after all of its checks.
  pub resolve-passed :
      resolve_execution_availability auth.grant_identity now workspace_id ready (snapshot db)
        ≡ available
      → checked_availability auth.grant_identity now workspace_id ready (snapshot db)
        ≡ passed available
  unfolding resolve_execution_availability
  resolve-passed h = passed_of _ Refuses-checked h
