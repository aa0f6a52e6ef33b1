-- ===== src/Execution/Types.antt =====
-- lib/external-execution/types.ts: scopes, amounts, requests and failure codes of external
-- execution, and the result of a database transaction.
use vigilo.Prelude.{
  ℕ, String, ◌≡◌, refl, ◌↔◌, Bool, true, false, List, [], ◌∷◌, Option, none, some, arith, Eq, eqb,
  by_code,
}

pub data FailureCode : Type 0 where
  execution_authority_missing execution_authority_expired execution_budget_exhausted : FailureCode
  external_concurrency_unavailable execution_authority_mismatch : FailureCode
  provider_attempt_ambiguous sandbox_creation_failed sandbox_cleanup_unresolved : FailureCode

pub data Category : Type 0 where
  gemini_investigation gemini_candidate_generation sandbox_baseline : Category
  sandbox_verification repair_loop_iteration release_acceptance_one_shot : Category

abbrev pub category_code : Category → ℕ
category_code gemini_investigation = 0
category_code gemini_candidate_generation = 1
category_code sandbox_baseline = 2
category_code sandbox_verification = 3
category_code repair_loop_iteration = 4
category_code release_acceptance_one_shot = 5

pub category_code_iff :
    (a b : Category) → (eqb (category_code a) (category_code b) ≡ true) ↔ (a ≡ b)
category_code_iff a b = ground arith

instance abbrev pub category_eq : Eq Category
category_eq = by_code category_code category_code_iff

-- `operationCategory.startsWith('gemini_')`
abbrev pub is_gemini : Category → Bool
is_gemini gemini_investigation = true
is_gemini gemini_candidate_generation = true
is_gemini _ = false

-- the test by which a permit knows that it is for a sandbox
abbrev pub is_sandbox : Category → Bool
is_sandbox sandbox_baseline = true
is_sandbox sandbox_verification = true
is_sandbox _ = false

pub data ResourceClass : Type 0 where
  vcpu_1 vcpu_2 vcpu_4 vcpu_8 : ResourceClass

-- `Number(sandboxResourceClass.slice('vcpu_'.length))`
abbrev pub vcpus : ResourceClass → ℕ
vcpus vcpu_1 = 1
vcpus vcpu_2 = 2
vcpus vcpu_4 = 4
vcpus vcpu_8 = 8

pub vcpus_iff : (a b : ResourceClass) → (eqb (vcpus a) (vcpus b) ≡ true) ↔ (a ≡ b)
vcpus_iff a b = ground arith

instance abbrev pub resource_class_eq : Eq ResourceClass
resource_class_eq = by_code vcpus vcpus_iff

pub record Scope : Type 0 where
  pub workspace_id : String
  pub repair_run_id : Option String
  pub github_repository_id : Option ℕ
  pub base_commit_sha : Option String
  pub operation_category : Category
  pub provider_id : String
  pub model_id : Option String
  pub acceptance_purpose : Option String

pub record Amounts : Type 0 where
  pub logical_requests : ℕ
  pub provider_attempts : ℕ
  pub input_tokens : ℕ
  pub output_tokens : ℕ
  pub sandbox_identities : ℕ
  pub sandbox_runtime_ms : ℕ
  pub sandbox_resource_class : Option ResourceClass
  pub verification_attempts : ℕ
  pub repair_loop_iterations : ℕ

-- The eight amounts that a grant limits, in the order in which the code compares them.
pub data Dimension : Type 0 where
  logical_requests provider_attempts input_tokens output_tokens sandbox_identities : Dimension
  sandbox_runtime_ms verification_attempts repair_loop_iterations : Dimension

abbrev pub dimensions : List Dimension
dimensions =
    logical_requests ∷ provider_attempts ∷ input_tokens ∷ output_tokens ∷ sandbox_identities
    ∷ sandbox_runtime_ms ∷ verification_attempts ∷ repair_loop_iterations ∷ []

abbrev pub amount : Dimension → Amounts → ℕ
amount logical_requests a = a.logical_requests
amount provider_attempts a = a.provider_attempts
amount input_tokens a = a.input_tokens
amount output_tokens a = a.output_tokens
amount sandbox_identities a = a.sandbox_identities
amount sandbox_runtime_ms a = a.sandbox_runtime_ms
amount verification_attempts a = a.verification_attempts
amount repair_loop_iterations a = a.repair_loop_iterations

pub data ProviderAccount : Type 0 where
  google_project : (project_id : String) → ProviderAccount
  vercel_team_project : (team_id project_id : String) → ProviderAccount

pub record SandboxBinding : Type 0 where
  pub name : String
  pub project_id : String
  pub team_id : String
  pub session_id : Option String

pub data CleanupKind : Type 0 where
  baseline verification : CleanupKind

pub record Cleanup : Type 0 where
  pub kind : CleanupKind
  pub attempt_id : String

pub record Request : Type 0 where
  pub scope : Scope
  pub amounts : Amounts
  pub provider_account_identity : Option ProviderAccount
  pub operation_key : Option String
  pub grant_id : Option String
  pub account_grant_id : Option String
  pub sandbox : Option SandboxBinding
  pub cleanup : Option Cleanup

pub data AttemptOutcome : Type 0 where
  succeeded failed ambiguous : AttemptOutcome

-- A transaction returns its value, or throws and leaves the database as it was.
pub data Result {ℓ} (A : Type ℓ) : Type ℓ where
  ok : A → Result A
  err : FailureCode → Result A

infixl 5 ◌>>◌ ◌>>=◌
-- `await check; rest`
unfoldable pub ◌>>◌ {κ} : {B : Type κ} → Result (Unit {0}) → Result B → Result B
err code >> rest = err code
ok _ >> rest = rest

-- `const value = await step; rest`
unfoldable pub ◌>>=◌ {ℓ κ} : {A : Type ℓ} {B : Type κ} → Result A → (A → Result B) → Result B
err code >>= rest = err code
ok value >>= rest = rest value

-- `if (b) throw new ExternalExecutionAuthorityError(code)`
unfoldable pub throw_if : Bool → FailureCode → Result (Unit {0})
throw_if true e = err e
throw_if false e = ok tt

-- `if (!value) throw …`
unfoldable pub or_throw {ℓ} : {A : Type ℓ} → Option A → FailureCode → Result A
or_throw none e = err e
or_throw (some a) e = ok a

module _ {ℓ κ} {A : Type ℓ} {B : Type κ} where
  -- A chain that returns has a first step that returns.
  pub >>=-eq-ok :
      (step : Result A) (rest : A → Result B) {value : B}
      → (step >>= rest) ≡ ok value
      → (mid : A) × (step ≡ ok mid) × (rest mid ≡ ok value)
  unfolding ◌>>=◌
  >>=-eq-ok (err code) rest h = cc
  >>=-eq-ok (ok mid) rest h = (mid, refl, h)

module _ {ℓ} {B : Type ℓ} where
  pub >>-eq-ok :
      (m : Result (Unit {0})) (k : Result B) {b : B} → (m >> k) ≡ ok b → (m ≡ ok tt) × (k ≡ ok b)
  unfolding ◌>>◌
  >>-eq-ok (ok tt) k h = (refl, h)
  >>-eq-ok (err e) k h = cc

  pub throw_if-eq-ok :
      (c : Bool) (e : FailureCode) (k : Result B) {b : B}
      → (throw_if c e >> k) ≡ ok b
      → (c ≡ false) × (k ≡ ok b)
  unfolding throw_if ◌>>◌
  throw_if-eq-ok true e k h = cc
  throw_if-eq-ok false e k h = (refl, h)

pub or_throw-eq-ok {ℓ} :
    {A : Type ℓ} (o : Option A) (e : FailureCode) {a : A} → or_throw o e ≡ ok a → o ≡ some a
unfolding or_throw
or_throw-eq-ok none e h = cc
or_throw-eq-ok (some a) e h = cc

pub ok-injective {ℓ} : {A : Type ℓ} {a b : A} → ok a ≡ ok b → a ≡ b
ok-injective h = cc

-- The steps of a chain that do not throw.
pub >>=-ok {ℓ κ} :
    {A : Type ℓ} {B : Type κ} (step : Result A) (rest : A → Result B) {mid : A}
    → step ≡ ok mid
    → (step >>= rest) ≡ rest mid
unfolding ◌>>=◌
>>=-ok step rest e = rw e refl

pub throw_if-ok {ℓ} :
    {B : Type ℓ} (c : Bool) (e : FailureCode) (rest : Result B)
    → c ≡ false
    → (throw_if c e >> rest) ≡ rest
unfolding throw_if ◌>>◌
throw_if-ok c e rest h = rw h refl

pub or_throw-ok {ℓ} :
    {A : Type ℓ} (o : Option A) (e : FailureCode) {a : A} → o ≡ some a → or_throw o e ≡ ok a
unfolding or_throw
or_throw-ok o e h = rw h refl
