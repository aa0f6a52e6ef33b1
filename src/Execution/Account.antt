-- ===== src/Execution/Account.antt =====
-- lib/external-execution/provider-account.ts.
use vigilo.Prelude.{
  String, Bool, true, false, not, ◌&&◌, ◌||◌, Option, none, some, ◌==◌, Eq, ◌≡◌, ◌↔◌, arith,
  string_eq, if◌then◌else◌, is_identifier, is_some,
}
use text.Mathlib.TextEquality.{eq_iff}
use vigilo.Execution.Types.{ProviderAccount, google_project, vercel_team_project}

abbrev account_beq : ProviderAccount → ProviderAccount → Bool
account_beq (google_project p) (google_project q) = p == q
account_beq (vercel_team_project t p) (vercel_team_project u q) = t == u && p == q
account_beq _ _ = false

pub account_beq_iff : (a b : ProviderAccount) → (account_beq a b ≡ true) ↔ (a ≡ b)
account_beq_iff (google_project p) (google_project q) = ground (arith, eq_iff p q)
account_beq_iff (vercel_team_project t p) (vercel_team_project u q) =
    ground (arith, eq_iff p q, eq_iff t u)
account_beq_iff (google_project p) (vercel_team_project u q) = ground arith
account_beq_iff (vercel_team_project t p) (google_project q) = ground arith

instance abbrev pub account_eq : Eq ProviderAccount
account_eq = record { same = account_beq; same_iff = account_beq_iff }

-- The canonical text of an account, which stands for the account itself: two canonical texts are
-- equal just when the accounts are. `none` where the code throws `provider_account_identity_invalid`.
unfoldable pub canonical_provider_account_identity : Option ProviderAccount → Option ProviderAccount
canonical_provider_account_identity none = none
canonical_provider_account_identity (some (google_project p)) =
    if is_identifier p then some (google_project p) else none
canonical_provider_account_identity (some (vercel_team_project t p)) =
    if is_identifier t && is_identifier p then some (vercel_team_project t p) else none

abbrev of_kind : String → Option ProviderAccount → Bool
of_kind provider none = false
of_kind provider (some (google_project p)) = provider == "google"
of_kind provider (some (vercel_team_project t p)) =
    provider == "vercel" || provider == "vercel-sandbox"

unfoldable pub account_identity_matches : String → Option ProviderAccount → Bool
unfolding canonical_provider_account_identity
account_identity_matches provider value =
    if provider == "vigilo"
    then not (is_some value)
    else of_kind provider (canonical_provider_account_identity value)
