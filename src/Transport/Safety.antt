-- ===== src/Transport/Safety.antt =====
-- The requests that lib/external-execution/sandbox-transport.ts admits, and the session of a policy.
use mathlib.Core.Path.{subst}
use vigilo.Prelude.{
  ℕ, ◌*◌, ◌≡◌, ◌≢◌, refl, sym, ap, ◌∙◌, inl, inr, Bool, true, false, not, ◌&&◌, ◌||◌, List, [], ◌∷◌,
  ◌++◌, Option, none, some, String, eqb, codes, arith, if-eq, or-eq-false, and-eq-true,
  not-eq-false, ==→≡, ◌==◌, string_eq, option_eq, list_eq, nat_eq, is_some, Bool-cases,
  if◌then◌else◌,
}
use vigilo.Prelude.Options.{bind-eq-some, reject_if-eq-some, some-injective}
use vigilo.Json.{Json}
use vigilo.Transport.Policy.{
  Policy, Body, observe_lookup, Kind, create, cleanup, business, Call, is_exact_create, only_value,
  is_deny_all, strip_prefix, is_session_operation, classify_create, classify_update,
  classify_lookup, classify_session, classify_suffix, session_path, present, classify, confirm,
  parsed_body, keys_within, asks_stop, asks_create, asks_update, asks_lookup, name_path,
}

-- What a request of each kind has passed: only a first permit creates, with the exact body, or works
-- on the sandbox, and that only once a session is confirmed. `body` is what the request's own body
-- parses to, within the limit of bytes for its kind.
pub data IsAdmitted (encode : String → List ℕ) (p : Policy) (c : Call) : Kind → Type 0 where
  creates :
      (body : Json)
      → p.recovery ≡ false
      → parsed_body (64 * 1024) c ≡ some body
      → c.method ≡ "POST"
      → c.url.pathname ≡ codes "/api/v3/sandboxes"
      → is_exact_create p body ≡ true
      → IsAdmitted encode p c create
  updates :
      (body : Json)
      → p.recovery ≡ false
      → is_some (present p.session_id) ≡ true
      → c.method ≡ "PATCH"
      → parsed_body 4096 c ≡ some body
      → c.url.pathname ≡ codes "/api/v2/sandboxes/" ++ encode p.binding.name
      → is_deny_all body ≡ true
      → IsAdmitted encode p c business
  operates :
      (session : String) (suffix : List ℕ)
      → p.recovery ≡ false
      → present p.session_id ≡ some session
      → c.url.pathname ≡ session_path encode session ++ codes "/" ++ suffix
      → is_session_operation c suffix ≡ true
      → IsAdmitted encode p c business
  looks_up :
      c.url.pathname ≡ codes "/api/v2/sandboxes/" ++ encode p.binding.name
      → only_value "projectId" p.binding.project_id c.url ≡ true
      → IsAdmitted encode p c cleanup
  stops :
      (session : String)
      → present p.session_id ≡ some session
      → c.method ≡ "POST"
      → c.url.pathname ≡ session_path encode session ++ codes "/stop"
      → IsAdmitted encode p c cleanup

strip_prefix-eq-some :
    (ps cs : List ℕ) {rest : List ℕ} → strip_prefix ps cs ≡ some rest → cs ≡ ps ++ rest
unfolding strip_prefix
strip_prefix-eq-some [] cs h = some-injective h
strip_prefix-eq-some (p ∷ ps) [] h = cc
strip_prefix-eq-some (p ∷ ps) (c ∷ cs) h = elim (if-eq (eqb p c) _ _ h) [
  | inl (e, g) ↦
      let same : c ≡ p = ground (arith, e) in
      ap (λ x. x ∷ cs) same ∙ ap (λ xs. p ∷ xs) (strip_prefix-eq-some ps cs g)
  | inr (_, g) ↦ cc
]

module _ (encode : String → List ℕ) (p : Policy) (c : Call) where
  create-IsAdmitted :
      {k : Kind}
      → c.method ≡ "POST"
      → c.url.pathname ≡ codes "/api/v3/sandboxes"
      → classify_create p c ≡ some k
      → IsAdmitted encode p c k
  unfolding classify_create
  create-IsAdmitted m path h =
      let (h₁, r₁) = reject_if-eq-some _ _ h in
      let (body, parsed, r₂) = bind-eq-some _ _ r₁ in
      let (h₃, r₃) = reject_if-eq-some _ _ r₂ in
      subst (IsAdmitted encode p c) (some-injective r₃)
        (creates body (or-eq-false p.recovery _ h₁).0 parsed m path (not-eq-false _ h₃))

  update-IsAdmitted :
      {k : Kind}
      → c.url.pathname ≡ codes "/api/v2/sandboxes/" ++ encode p.binding.name
      → c.method ≡ "PATCH"
      → classify_update p c ≡ some k
      → IsAdmitted encode p c k
  unfolding classify_update
  update-IsAdmitted path m h =
      let (h₁, r₁) = reject_if-eq-some _ _ h in
      let (body, parsed, r₂) = bind-eq-some _ _ r₁ in
      let (h₃, r₃) = reject_if-eq-some _ _ r₂ in
      let (h₄, _) = or-eq-false _ _ h₁ in
      let (h₅, _) = or-eq-false _ _ h₄ in
      let (first, session) = or-eq-false p.recovery (not (is_some (present p.session_id))) h₅ in
      subst (IsAdmitted encode p c) (some-injective r₃)
        (updates body first (not-eq-false _ session) m parsed path (not-eq-false _ h₃))

  lookup-IsAdmitted :
      {k : Kind}
      → c.url.pathname ≡ codes "/api/v2/sandboxes/" ++ encode p.binding.name
      → classify_lookup p c ≡ some k
      → IsAdmitted encode p c k
  unfolding classify_lookup
  lookup-IsAdmitted path h =
      let (h₁, r₁) = reject_if-eq-some _ _ h in
      let (h₂, _) = or-eq-false _ _ h₁ in
      let (h₃, _) = or-eq-false (not (only_value "projectId" p.binding.project_id c.url)) _ h₂ in
      subst (IsAdmitted encode p c) (some-injective r₁) (looks_up path (not-eq-false _ h₃))

  suffix-IsAdmitted :
      (session : String) (suffix : Option (List ℕ)) {k : Kind}
      → present p.session_id ≡ some session
      → strip_prefix (session_path encode session ++ codes "/") c.url.pathname ≡ suffix
      → classify_suffix p c suffix ≡ some k
      → IsAdmitted encode p c k
  suffix-IsAdmitted session none s e h = cc
  suffix-IsAdmitted session (some suffix) s e h =
      let (h₁, r₁) = reject_if-eq-some _ _ h in
      let (first, operation) = or-eq-false p.recovery (not (is_session_operation c suffix)) h₁ in
      subst (IsAdmitted encode p c) (some-injective r₁) (
        operates session suffix first s
          (strip_prefix-eq-some (session_path encode session ++ codes "/") c.url.pathname e)
          (not-eq-false _ operation))

  stopped :
      (session : String)
      → asks_stop encode session c ≡ true
      → (c.url.pathname ≡ session_path encode session ++ codes "/stop") × (c.method ≡ "POST")
  unfolding asks_stop
  stopped session e =
      let (path, rest) =
        and-eq-true _ (c.method == "POST" && keys_within ("teamId" ∷ []) c.url) e in
      let (method, _) = and-eq-true (c.method == "POST") _ rest in (==→≡ _ _ path, ==→≡ _ _ method)

  session-IsAdmitted :
      (session : Option String) {k : Kind}
      → present p.session_id ≡ session
      → classify_session encode p c session ≡ some k
      → IsAdmitted encode p c k
  unfolding classify_session
  session-IsAdmitted none s h = cc
  session-IsAdmitted (some session) s h =
      elim (if-eq (asks_stop encode session c) (some cleanup)
        (classify_suffix p c
          (strip_prefix (session_path encode session ++ codes "/") c.url.pathname))
        h) [
          | inl (stop, g) ↦
              let (path, method) = stopped session stop in
              subst (IsAdmitted encode p c) (some-injective g) (stops session s method path)
          | inr (_, g) ↦ suffix-IsAdmitted session _ s refl g
        ]

  created :
      asks_create c ≡ true → (c.url.pathname ≡ codes "/api/v3/sandboxes") × (c.method ≡ "POST")
  unfolding asks_create
  created e = let (a, b) = and-eq-true _ (c.method == "POST") e in (==→≡ _ _ a, ==→≡ _ _ b)

  updated :
      asks_update encode p c ≡ true → (c.url.pathname ≡ name_path encode p) × (c.method ≡ "PATCH")
  unfolding asks_update
  updated e = let (a, b) = and-eq-true _ (c.method == "PATCH") e in (==→≡ _ _ a, ==→≡ _ _ b)

  looked_up : asks_lookup encode p c ≡ true → c.url.pathname ≡ name_path encode p
  unfolding asks_lookup
  looked_up e = ==→≡ _ _ (and-eq-true _ (c.method == "GET" || c.method == "DELETE") e).0

  -- Every request that is classified goes to https://vercel.com for the team of the permit, and has
  -- passed what its kind asks for: `create` and `business` are for a first permit only, so that a
  -- recovery permit gets nothing but `cleanup`; `create` is a POST to the path of creations whose
  -- body, of at most 64 KiB, parses to the exact body; `business` is a PATCH of the named sandbox
  -- whose body, of at most 4096 bytes, parses to the `deny-all` update, once a session is confirmed,
  -- or one of the listed operations below the path of the confirmed session; `cleanup` is on the
  -- named sandbox in its project, or a POST that stops the confirmed session.
  pub classify-IsAdmitted :
      {k : Kind}
      → classify encode p c ≡ some k
      → (c.url.origin ≡ "https://vercel.com")
        × (only_value "teamId" p.binding.team_id c.url ≡ true)
        × IsAdmitted encode p c k
  unfolding classify
  classify-IsAdmitted h =
      let (h₁, r₁) = reject_if-eq-some _ _ h in
      let (h₂, team) = or-eq-false _ (not (only_value "teamId" p.binding.team_id c.url)) h₁ in
      let (h₃, _) = or-eq-false _ _ h₂ in
      let (h₄, _) = or-eq-false _ _ h₃ in
      let (origin, _) = or-eq-false (not (c.url.origin == "https://vercel.com")) _ h₄ in
      (==→≡ _ _ (not-eq-false _ origin), not-eq-false _ team, admitted r₁)
    where
      third : Option Kind
      third =
          if asks_lookup encode p c
          then classify_lookup p c
          else classify_session encode p c (present p.session_id)

      second : Option Kind
      second = if asks_update encode p c then classify_update p c else third

      admitted :
          {k : Kind}
          → (if asks_create c then classify_create p c else second) ≡ some k
          → IsAdmitted encode p c k
      admitted h = elim (if-eq (asks_create c) (classify_create p c) second h) [
        | inl (e, g) ↦ let (path, method) = created e in create-IsAdmitted method path g
        | inr (_, g) ↦ elim (if-eq (asks_update encode p c) (classify_update p c) third g) [
          | inl (e, g) ↦ let (path, method) = updated e in update-IsAdmitted path method g
          | inr (_, g) ↦
              elim (if-eq (asks_lookup encode p c) (classify_lookup p c)
                (classify_session encode p c (present p.session_id)) g) [
                  | inl (e, g) ↦ lookup-IsAdmitted (looked_up e) g
                  | inr (_, g) ↦ session-IsAdmitted _ refl g
                ]
        ]
      ]

-- What a permit may learn of its session, in any order: a creation that is confirmed, and lookups.
pub data Learns : Policy → Policy → Type 0 where
  here : {p : Policy} → Learns p p
  confirms :
      (name session : String) {p q r : Policy}
      → Learns p q
      → confirm name session q ≡ some r
      → Learns p r
  looks :
      (response : Option Body) {p q r : Policy}
      → Learns p q
      → observe_lookup response q ≡ some r
      → Learns p r

and-not-eq-false : (a b : Bool) → (a && not b) ≡ false → a ≡ true → b ≡ true
and-not-eq-false a b h e = ground arith

present-eq-some : (s : Option String) {old : String} → present s ≡ some old → s ≡ some old
present-eq-some none h = cc
present-eq-some (some s) h = elim (Bool-cases (s == "")) [
  | inl e ↦ absurd (empty (rw e at h))
  | inr e ↦ rw e at h
]
  where
    empty : {t : String} → none ≢ some t
    empty h = cc

confirm-kept :
    (name session old : String) (p : Policy) {after : Policy}
    → present p.session_id ≡ some old
    → confirm name session p ≡ some after
    → present after.session_id ≡ some old
unfolding confirm
confirm-kept name session old p e h =
    let (h₁, r₁) = reject_if-eq-some _ _ h in
    let (_, h₂) =
      or-eq-false _ (is_some (present p.session_id) && not (p.session_id == some session)) h₁ in
    let same = and-not-eq-false (is_some (present p.session_id)) _ h₂ (ap is_some e) in
    subst (λ (q : Policy). present q.session_id ≡ some old) (some-injective r₁)
      (ap present (sym (==→≡ p.session_id (some session) same)) ∙ e)

observe_lookup-kept :
    (response : Option Body) (old : String) (p : Policy) {after : Policy}
    → present p.session_id ≡ some old
    → observe_lookup response p ≡ some after
    → present after.session_id ≡ some old
unfolding observe_lookup
observe_lookup-kept response old p e h =
    let (_, _, r₁) = bind-eq-some _ _ h in
    let (_, _, r₂) = bind-eq-some _ _ r₁ in
    let (_, _, r₃) = bind-eq-some _ _ r₂ in
    let (name, _, r₄) = bind-eq-some _ _ r₃ in
    let (_, _, r₅) = bind-eq-some _ _ r₄ in
    let (id, _, r₆) = bind-eq-some _ _ r₅ in
    let (_, r₇) = reject_if-eq-some _ _ r₆ in confirm-kept name id old p e r₇

-- Once a session is known, no confirmation and no lookup that is accepted, in any order, makes it
-- another one.
pub Learns-session :
    (old : String) {p after : Policy}
    → Learns p after
    → present p.session_id ≡ some old
    → present after.session_id ≡ some old
Learns-session old here e = e
Learns-session old (confirms name session {q = q} l h) e =
    confirm-kept name session old q (Learns-session old l e) h
Learns-session old (looks response {q = q} l h) e =
    observe_lookup-kept response old q (Learns-session old l e) h
