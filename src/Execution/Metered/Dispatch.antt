-- ===== src/Execution/Metered/Dispatch.antt =====
-- When `meteredFetch` lets a request leave, and when it returns a response.
use vigilo.Prelude.{
  ℕ, ◌≡◌, refl, ◌⊎◌, inl, inr, Bool, true, false, ◌∷◌, Option, none, some, arith, Bool-cases,
  if◌then◌else◌, if-eq,
}
use vigilo.Prelude.Checks.{Checked, refused, passed}
use vigilo.Transport.Policy.{Policy, Call, observe_lookup}
use vigilo.Execution.Types.{succeeded, failed, ambiguous, Result, ok, err}
use vigilo.Execution.Store.{Database}
use vigilo.Execution.Permit.{TransportKind, business, is_create, begin, assert_ownership}
use vigilo.Execution.Metered.{
  Failure, aborted, network, Response, Ending, World, Surroundings, is_ok, kind_for, settle, unsent,
  unresolved, rethrown, lost, observe_network, observed, observe, received, answered, settled,
  responded, send, held, check, dispatch, begun, classified, metered_fetch,
}

-- Nothing but what had left before.
abbrev Same : World → Ending × World → Type 0
Same w result = result.1.sent ≡ w.sent

unsent-Same : (f : Failure) (w : World) (r : Result Database) → Same w (unsent f w r)
unfolding unsent
unsent-Same f w (ok db) = refl
unsent-Same f w (err code) = refl

unresolved-Same : (w : World) (r : Result Database) → Same w (unresolved w r)
unfolding unresolved
unresolved-Same w (ok db) = refl
unresolved-Same w (err code) = refl

rethrown-Same : (f : Failure) (w : World) (r : Result Database) → Same w (rethrown f w r)
unfolding rethrown
rethrown-Same f w (ok db) = refl
rethrown-Same f w (err code) = refl

module _ (s : Surroundings) (kind : TransportKind) (ordinal : ℕ) (c : Call) where
  lost-Same : (f : Failure) (w : World) → Same w (lost s kind ordinal f w)
  unfolding lost
  lost-Same f w = elim (Bool-cases (is_create kind)) [
    | inl e ↦ rw e (unresolved-Same w _)
    | inr e ↦ rw e (rethrown-Same f w _)
  ]

  observe_network-Same :
      (r : Response) (w : World) (p : Option Policy) → Same w (observe_network c r w p)
  unfolding observe_network
  observe_network-Same r w none = refl
  observe_network-Same r w (some policy) = ground arith

  observed-Same : (r : Response) (w : World) (p : Option Policy) → Same w (observed c r w p)
  unfolding observed
  observed-Same r w none = refl
  observed-Same r w (some policy) =
      observe_network-Same r (record w { policy = some policy }) (some policy)

  observe-Same : (r : Response) (w : World) (p : Option Policy) → Same w (observe kind c r w p)
  unfolding observe
  observe-Same r w none = refl
  observe-Same r w (some policy) =
      let looked =
        observed-Same r w (if is_ok r then observe_lookup r.body policy else some policy) in
      let updated = observe_network-Same r w (some policy) in ground arith

  answered-Same : (r : Response) (w : World) → Same w (answered s kind c r w)
  unfolding answered
  answered-Same r w = let o = observe-Same r w w.policy in ground arith

  settled-Same : (r : Response) (w : World) (d : Result Database) → Same w (settled s kind c r w d)
  unfolding settled
  settled-Same r w (err code) = refl
  settled-Same r w (ok db) = answered-Same r (record w { database = db })

  responded-Same : (r : Response) (w : World) → Same w (responded s kind ordinal c r w)
  unfolding responded
  responded-Same r w =
      let a = unresolved-Same w (settle s business ordinal ambiguous w.database) in
      let b = answered-Same r w in
      let d =
        settled-Same r w
          (settle s kind ordinal (if is_ok r then succeeded else failed) w.database) in
      ground arith

  received-Same : (w : World) (o : Option Response) → Same w (received s kind ordinal c w o)
  received-Same w none = lost-Same network w
  received-Same w (some r) = responded-Same r w

  -- Nothing leaves, or just this request under its attempt.
  abbrev OneMore : World → Ending × World → Type 0
  OneMore w result = Same w result ⊎ (result.1.sent ≡ (c, ordinal) ∷ w.sent)

  if-one :
      (w : World) (b : Bool) (x y : Ending × World)
      → OneMore w x
      → OneMore w y
      → OneMore w (if b then x else y)
  if-one w true x y h k = h
  if-one w false x y h k = k

  send-one : (w : World) → OneMore w (send s kind ordinal c w)
  unfolding send
  send-one w = if-one w s.aborted_third _ _ (inl (lost-Same aborted w)) (
      inr (
        received-Same
          (record w { database = s.after_fetch w.database; sent = (c, ordinal) ∷ w.sent })
          (s.fetch c)))

-- What has been checked when a request leaves.
pub record IsDispatched (s : Surroundings) (c : Call) (w after : World) : Type 0 where
  pub kind : TransportKind
  pub ordinal : ℕ
  pub started : Database
  pub allowed : kind_for s c w.policy ≡ passed kind
  pub began : begin s.auth s.permit s.begin_times kind w.database ≡ ok (ordinal, started)
  pub owns : assert_ownership s.auth s.permit s.check_times (s.after_begin started) ≡ ok tt
  pub sent : after.sent ≡ (c, ordinal) ∷ w.sent

held-ok : (r : Result (Unit {0})) → held r ≡ passed tt → r ≡ ok tt
unfolding held
held-ok (ok _) e = refl
held-ok (err code) e = cc

module _ (s : Surroundings) (c : Call) (w : World) where
  abbrev Dispatches : Ending × World → Type 0
  Dispatches result = Same w result ⊎ IsDispatched s c w result.1

  check-owns :
      (db : Database)
      → check s db ≡ passed tt
      → assert_ownership s.auth s.permit s.check_times db ≡ ok tt
  unfolding check
  check-owns db h = elim (if-eq s.aborted_second _ _ h) [
    | inl (_, e) ↦ cc
    | inr (_, e) ↦ held-ok _ e
  ]

  module _ (kind : TransportKind) (allowed : kind_for s c w.policy ≡ passed kind) where
    module _ (ordinal : ℕ) (db : Database)
        (began : begin s.auth s.permit s.begin_times kind w.database ≡ ok (ordinal, db)) where
      now : World
      now = record w { database = s.after_begin db }

      dispatch-Dispatches :
          (k : Checked Failure (Unit {0}))
          → check s (s.after_begin db) ≡ k
          → Dispatches (dispatch s kind ordinal c now k)
      unfolding dispatch now
      dispatch-Dispatches (refused failure) e = inl (unsent-Same failure now _)
      dispatch-Dispatches (passed _) e = elim (send-one s kind ordinal c now) [
        | inl same ↦ inl same
        | inr one ↦ inr (record {
          kind = kind;
          ordinal = ordinal;
          started = db;
          allowed = allowed;
          began = began;
          owns = check-owns (s.after_begin db) e;
          sent = one;
        })
      ]

    begun-Dispatches :
        (b : Result (ℕ × Database))
        → begin s.auth s.permit s.begin_times kind w.database ≡ b
        → Dispatches (begun s kind c w b)
    unfolding begun now
    begun-Dispatches (err code) e = inl refl
    begun-Dispatches (ok (ordinal, db)) e =
        dispatch-Dispatches ordinal db e (check s (s.after_begin db)) refl

  classified-Dispatches :
      (k : Checked Failure TransportKind)
      → kind_for s c w.policy ≡ k
      → Dispatches (classified s c w k)
  unfolding classified
  classified-Dispatches (refused failure) e = inl refl
  classified-Dispatches (passed kind) e =
      if-Dispatches s.aborted_first _ _ (inl refl) (begun-Dispatches kind e _ refl)
    where
      if-Dispatches :
          (b : Bool) (x y : Ending × World)
          → Dispatches x
          → Dispatches y
          → Dispatches (if b then x else y)
      if-Dispatches true x y h k = h
      if-Dispatches false x y h k = k

  -- A call lets at most one request leave, and this only if the transport policy of the permit allows
  -- it, an attempt for it was committed, and the permit was still owned after that.
  pub metered-IsDispatched :
      ((metered_fetch s c w).1.sent ≡ w.sent) ⊎ IsDispatched s c w (metered_fetch s c w).1
  unfolding metered_fetch
  metered-IsDispatched = classified-Dispatches (kind_for s c w.policy) refl
