-- ===== src/Execution/Metered/Settlement.antt =====
-- What `meteredFetch` has recorded when it returns a response.
use mathlib.Core.Path.{subst}
use vigilo.Prelude.{
  ℕ, ◌≡◌, refl, sym, ap, ◌∙◌, ◌⊎◌, inl, inr, Bool, true, false, not, ◌&&◌, ◌∷◌, Option, none, some,
  if◌then◌else◌, leb, is_some, ◌==◌, string_eq,
}
use vigilo.Prelude.Checks.{Checked, refused, passed}
use vigilo.Transport.Policy.{Policy, Call, observe_network_policy_update}
use vigilo.Execution.Types.{succeeded, failed, Result, ok, err}
use vigilo.Execution.Store.{Database}
use vigilo.Execution.Permit.{TransportKind, is_create, is_cleanup, begin}
use vigilo.Execution.Metered.{
  Failure, aborted, network, Response, Ending, returned, threw, World, Surroundings, is_ok,
  is_redirect, kind_for, settle, unsent, unresolved, rethrown, lost, observe_network, observed,
  observe, received, answered, settled, responded, send, dispatch, begun, classified, metered_fetch,
}

-- What holds of a call if it returns a response.
record Returning (P : Response → World → Type 0) (result : Ending × World) : Type 0 where
  on : (r : Response) → result.0 ≡ returned r → P r result.1

module _ {P : Response → World → Type 0} where
  threw-Returning : (f : Failure) (w : World) → Returning P ((threw f, w))
  threw-Returning f w = record { on = λ r h. cc }

  if-Returning :
      (b : Bool) (x y : Ending × World)
      → (b ≡ true → Returning P x)
      → (b ≡ false → Returning P y)
      → Returning P (if b then x else y)
  if-Returning true x y h k = h refl
  if-Returning false x y h k = k refl

  unsent-Returning : (f : Failure) (w : World) (d : Result Database) → Returning P (unsent f w d)
  unfolding unsent
  unsent-Returning f w (ok db) = record { on = λ r h. cc }
  unsent-Returning f w (err code) = record { on = λ r h. cc }

  unresolved-Returning : (w : World) (d : Result Database) → Returning P (unresolved w d)
  unfolding unresolved
  unresolved-Returning w (ok db) = record { on = λ r h. cc }
  unresolved-Returning w (err code) = record { on = λ r h. cc }

  rethrown-Returning :
      (f : Failure) (w : World) (d : Result Database) → Returning P (rethrown f w d)
  unfolding rethrown
  rethrown-Returning f w (ok db) = record { on = λ r h. cc }
  rethrown-Returning f w (err code) = record { on = λ r h. cc }

  lost-Returning :
      (s : Surroundings) (kind : TransportKind) (ordinal : ℕ) (f : Failure) (w : World)
      → Returning P (lost s kind ordinal f w)
  unfolding lost
  lost-Returning s kind ordinal f w =
      if-Returning (is_create kind) _ _ (λ e. unresolved-Returning w _)
        (λ e. rethrown-Returning f w _)

-- The response of the provider, with the database as it was.
abbrev Keeps : Response → World → Response → World → Type 0
Keeps given w r after = (r ≡ given) × (after.database ≡ w.database)

module _ (c : Call) (given : Response) where
  returned-Keeps : (w : World) → Returning (Keeps given w) ((returned given, w))
  returned-Keeps w = record { on = λ r h. (sym (given_of h), refl) }
    where
      given_of : {x y : Response} → returned x ≡ returned y → x ≡ y
      given_of e = cc

  observe_network-Keeps :
      (w : World) (p : Option Policy) → Returning (Keeps given w) (observe_network c given w p)
  unfolding observe_network
  observe_network-Keeps w none = returned-Keeps w
  observe_network-Keeps w (some policy) =
      if-Returning
        (c.method == "PATCH"
          && is_ok given
          && not (is_some (observe_network_policy_update given.body policy)))
        _ _ (λ e. threw-Returning _ w) (λ e. returned-Keeps w)

  observed-Keeps :
      (w : World) (p : Option Policy) → Returning (Keeps given w) (observed c given w p)
  unfolding observed
  observed-Keeps w none = threw-Returning _ w
  observed-Keeps w (some policy) =
      observe_network-Keeps (record w { policy = some policy }) (some policy)

  observe-Keeps :
      (kind : TransportKind) (w : World) (p : Option Policy)
      → Returning (Keeps given w) (observe kind c given w p)
  unfolding observe
  observe-Keeps kind w none = returned-Keeps w
  observe-Keeps kind w (some policy) =
      if-Returning (is_cleanup kind && c.method == "GET") _ _ (λ e. observed-Keeps w _)
        (λ e. observe_network-Keeps w (some policy))

  answered-Keeps :
      (s : Surroundings) (kind : TransportKind) (w : World)
      → Returning (Keeps given w) (answered s kind c given w)
  unfolding answered
  answered-Keeps s kind w =
      if-Returning (s.sandbox && is_redirect given) _ _ (λ e. threw-Returning _ w)
        (λ e.
          if-Returning (is_create kind && not (is_ok given)) _ _ (λ f. threw-Returning _ w)
            (λ f. observe-Keeps kind w w.policy))

-- A response to a creation that went well leaves the attempt to the confirmation of its identity; any
-- other is recorded as it is.
abbrev pub IsRecorded : Surroundings → TransportKind → ℕ → Database → Response → Database → Type 0
IsRecorded s kind ordinal before r after =
    ((is_create kind && is_ok r) ≡ true) × (after ≡ before)
    ⊎ (settle s kind ordinal (if is_ok r then succeeded else failed) before ≡ ok after)

-- What a call has done when it returns a response.
pub record IsAnswered (s : Surroundings) (c : Call) (w : World) (r : Response) (after : World)
    : Type 0 where
  pub kind : TransportKind
  pub ordinal : ℕ
  pub started : Database
  pub allowed : kind_for s c w.policy ≡ passed kind
  pub began : begin s.auth s.permit s.begin_times kind w.database ≡ ok (ordinal, started)
  pub response : s.fetch c ≡ some r
  pub recorded : IsRecorded s kind ordinal (s.after_fetch (s.after_begin started)) r after.database

module _ (s : Surroundings) (kind : TransportKind) (ordinal : ℕ) (c : Call) where
  -- The response with what is recorded of it.
  abbrev Records : World → Response → Response → World → Type 0
  Records w given r after = (r ≡ given) × IsRecorded s kind ordinal w.database r after.database

  responded-Records :
      (given : Response) (w : World)
      → Returning (Records w given) (responded s kind ordinal c given w)
  unfolding responded settled
  responded-Records given w =
      if-Returning (is_create kind && leb 500 given.status) _ _ (λ e. unresolved-Returning w _)
        λ e.
          if-Returning (is_create kind && is_ok given) _ _ (λ f. left_open f) (λ f. recorded _ refl)
    where
      left_open :
          (is_create kind && is_ok given) ≡ true
          → Returning (Records w given) (answered s kind c given w)
      left_open f = record {
        on = λ r h.
            let (same, kept) = (answered-Keeps c given s kind w).on r h in
            (same, inl (subst (λ x. (is_create kind && is_ok x) ≡ true) (sym same) f, kept));
      }

      recorded :
          (d : Result Database)
          → settle s kind ordinal (if is_ok given then succeeded else failed) w.database ≡ d
          → Returning (Records w given) (settled s kind c given w d)
      recorded (err code) e = threw-Returning _ w
      recorded (ok db) e = record {
        on = λ r h.
            let (same, kept) =
              (answered-Keeps c given s kind (record w { database = db })).on r h in
            (
              same,
              inr (
                  subst
                    (λ x.
                      settle s kind ordinal (if is_ok x then succeeded else failed) w.database
                      ≡ ok db)
                    (sym same) e
                  ∙ ap ok (sym kept)),
            );
      }

  -- The response that the provider has given, recorded.
  abbrev Fetched : World → Response → World → Type 0
  Fetched w r after =
      (s.fetch c ≡ some r) × IsRecorded s kind ordinal (s.after_fetch w.database) r after.database

  received-Fetched :
      (w : World) (o : Option Response)
      → s.fetch c ≡ o
      → Returning (Fetched w) (
          received s kind ordinal c
            (record w { database = s.after_fetch w.database; sent = (c, ordinal) ∷ w.sent })
            o)
  received-Fetched w none e = lost-Returning s kind ordinal network _
  received-Fetched w (some given) e = record {
    on = λ r h.
        let (same, recorded) = (responded-Records given _).on r h in
        (e ∙ ap some (sym same), recorded);
  }

  send-Fetched : (w : World) → Returning (Fetched w) (send s kind ordinal c w)
  unfolding send
  send-Fetched w =
      if-Returning s.aborted_third _ _ (λ e. lost-Returning s kind ordinal aborted w)
        (λ e. received-Fetched w (s.fetch c) refl)

  dispatch-Fetched :
      (w : World) (k : Checked Failure (Unit {0}))
      → Returning (Fetched w) (dispatch s kind ordinal c w k)
  unfolding dispatch
  dispatch-Fetched w (refused failure) = unsent-Returning failure w _
  dispatch-Fetched w (passed _) = send-Fetched w

module _ (s : Surroundings) (c : Call) (w : World) where
  begun-IsAnswered :
      (kind : TransportKind)
      → kind_for s c w.policy ≡ passed kind
      → (b : Result (ℕ × Database)) → begin s.auth s.permit s.begin_times kind w.database ≡ b
      → Returning (IsAnswered s c w) (begun s kind c w b)
  unfolding begun
  begun-IsAnswered kind allowed (err code) e = threw-Returning _ w
  begun-IsAnswered kind allowed (ok (ordinal, db)) e = record {
    on = λ r h.
        let (response, recorded) =
          (dispatch-Fetched s kind ordinal c (record w { database = s.after_begin db }) _).on r h in
        record {
          kind = kind;
          ordinal = ordinal;
          started = db;
          allowed = allowed;
          began = e;
          response = response;
          recorded = recorded;
        };
  }

  classified-IsAnswered :
      (k : Checked Failure TransportKind)
      → kind_for s c w.policy ≡ k
      → Returning (IsAnswered s c w) (classified s c w k)
  unfolding classified
  classified-IsAnswered (refused failure) e = threw-Returning failure w
  classified-IsAnswered (passed kind) e =
      if-Returning s.aborted_first _ _ (λ f. threw-Returning aborted w)
        (λ f. begun-IsAnswered kind e _ refl)

  -- A call returns only a response that the provider has given, for an attempt that was committed; and
  -- either the database has recorded of the attempt whether the response is a success, or the response
  -- is the success of a creation, which stays open.
  pub metered-IsAnswered :
      (r : Response)
      → (metered_fetch s c w).0 ≡ returned r
      → IsAnswered s c w r (metered_fetch s c w).1
  unfolding metered_fetch
  metered-IsAnswered r h = (classified-IsAnswered (kind_for s c w.policy) refl).on r h
