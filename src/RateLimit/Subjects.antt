-- ===== src/RateLimit/Subjects.antt =====
-- lib/operations/rate-limit.ts, and `classifyRateLimitAction` and `rateLimitRequest` of
-- lib/operations/http-rate-limit.ts: on whose account, and as which action, a request counts. A text
-- is the list of its code points.
use vigilo.Prelude.{
  ℕ, ◌-◌, Bool, true, false, not, ◌&&◌, ◌||◌, List, [], ◌∷◌, ◌++◌, Option, none, some, String, eqb,
  leb, ltb, if◌then◌else◌, length, map, get_elem?, codes, trim, split_on, starts_with, ends_with,
  includes, in_class, is_upper, is_lower, is_digit, drop, take, ◌+◌, ◌==◌, nat_eq, list_eq,
}
use vigilo.Prelude.Checks.{Checked, refused, passed, ◌>>=◌, ◌>>◌, refuse_if, present_or}
use vigilo.RateLimit.Buckets.{
  Action, auth, oauth_callback, repository_connect, repository_select, profile_detect, repair_start,
  workflow_start, human_review, publication, poll, health, readiness, Bucket, Answer,
  consume_rate_limit,
}

pub data RateLimitError : Type 0 where
  proxy_attribution_unavailable rate_limit_configuration_invalid : RateLimitError

-- `isIP` of node:net, the length in UTF-8 of Buffer, and HMAC-SHA-256 in hexadecimal digits.
pub record Host : Type 0 where
  pub is_ip : List ℕ → Bool
  pub byte_length : List ℕ → ℕ
  pub hmac : List ℕ → List ℕ → String

-- `Number` of one digit from 1 to 8.
unfoldable pub parse_hops : List ℕ → Checked RateLimitError (Option ℕ)
parse_hops (c ∷ []) =
    if leb b'1' c && leb c b'8'
    then passed (some (c - b'0'))
    else refused proxy_attribution_unavailable
parse_hops _ = refused proxy_attribution_unavailable

unfoldable pub parse_trusted_proxy_hops : Option (List ℕ) → Checked RateLimitError (Option ℕ)
parse_trusted_proxy_hops none = passed none
parse_trusted_proxy_hops (some value) = parse_hops value

pub record Options : Type 0 where
  pub production : Bool
  pub trusted_proxy_hops : Option ℕ
  pub direct_address : Option (List ℕ)

-- `!value`
abbrev is_absent : Option (List ℕ) → Bool
is_absent none = true
is_absent (some value) = value == []

-- `if (!address || !isIP(address)) throw …; return 'ip:' + address`
unfoldable pub address_subject : Host → Option (List ℕ) → Checked RateLimitError (List ℕ)
address_subject host found = do
  address ← present_or found proxy_attribution_unavailable
  refuse_if (address == [] || not (host.is_ip address)) proxy_attribution_unavailable
  passed (codes "ip:" ++ address)

-- `chain[chain.length - hops]`
unfoldable pub from_end : List (List ℕ) → ℕ → Option (List ℕ)
from_end chain hops =
    if leb hops (length chain) then get_elem? chain (length chain - hops) else none

unfoldable pub forwarded_subject : Host → Option (List ℕ) → ℕ → Checked RateLimitError (List ℕ)
forwarded_subject host forwarded hops = do
  refuse_if (ltb hops 1 || ltb 8 hops) proxy_attribution_unavailable
  header ← present_or forwarded proxy_attribution_unavailable
  refuse_if (header == []) proxy_attribution_unavailable
  address_subject host (from_end (map trim (split_on b',' header)) hops)

-- `forwarded` is the header `x-forwarded-for`.
unfoldable pub resolve_rate_limit_subject :
    Host → Option (List ℕ) → Options → Checked RateLimitError (List ℕ)
resolve_rate_limit_subject host forwarded options = elim options.trusted_proxy_hops [
  | some hops ↦ forwarded_subject host forwarded hops
  | none ↦
      refuse_if options.production proxy_attribution_unavailable
      >> address_subject host options.direct_address
]

unfoldable pub hash_rate_limit_subject : Host → List ℕ → List ℕ → Checked RateLimitError String
hash_rate_limit_subject host secret subject = do
  refuse_if (ltb (host.byte_length secret) 32) rate_limit_configuration_invalid
  passed (host.hmac secret subject)

abbrev pub get : List ℕ
get = codes "GET"

unfoldable pub classify_write : List ℕ → Action
classify_write pathname =
    if includes (codes "/repositories/selected") pathname
    then repository_select
    else if includes (codes "/repositories/profile") pathname
    then profile_detect
    else if includes (codes "/repositories") pathname || includes (codes "/installations") pathname
    then repository_connect
    else if pathname == codes "/api/repair-runs"
    then repair_start
    else workflow_start

unfoldable pub classify_other : List ℕ → List ℕ → Action
classify_other pathname method =
    if includes (codes "/publications") pathname
    then (if method == get then poll else publication)
    else if includes (codes "/human-review") pathname
    then (if method == get then poll else human_review)
    else if method == get
    then poll
    else classify_write pathname

unfoldable pub classify_rate_limit_action : List ℕ → List ℕ → Action
classify_rate_limit_action pathname method =
    if pathname == codes "/api/health/readiness"
    then readiness
    else if pathname == codes "/api/health"
    then health
    else if ends_with (codes "/callback") pathname || includes (codes "/callback/") pathname
    then oauth_callback
    else if starts_with (codes "/api/auth/") pathname
    then auth
    else classify_other pathname method

abbrev lower : ℕ → ℕ
lower c = if is_upper c then c + 32 else c

-- `/^user:[0-9a-z-]{1,128}$/i`
abbrev is_user : List ℕ → Bool
is_user subject =
    map lower (take 5 subject) == codes "user:"
    && in_class (λ c. is_upper c || is_lower c || is_digit c || eqb c b'-') 1 128 (drop 5 subject)

-- What the process and the request give.
pub record Request : Type 0 where
  pub forwarded : Option (List ℕ)
  pub pathname : List ℕ
  pub method : List ℕ
  pub authenticated_subject : Option (List ℕ)
  pub direct_address : Option (List ℕ)

pub record Environment : Type 0 where
  pub production : Bool
  pub trust_proxy_hops : Option (List ℕ)
  pub hmac_key : Option (List ℕ)

abbrev user_of : Option (List ℕ) → Option (List ℕ)
user_of none = none
user_of (some subject) = if is_user subject then some subject else none

-- `production ? undefined : directAddress ?? '127.0.0.1'`
abbrev direct_of : Bool → Option (List ℕ) → Option (List ℕ)
direct_of true given = none
direct_of false none = some (codes "127.0.0.1")
direct_of false (some address) = some address

unfoldable pub subject_of :
    Host → Environment → Request → Option ℕ → Checked RateLimitError (List ℕ)
subject_of host env request hops = elim (user_of request.authenticated_subject) [
  | some subject ↦ passed subject
  | none ↦ resolve_rate_limit_subject host request.forwarded (record {
    production = env.production;
    trusted_proxy_hops = hops;
    direct_address = direct_of env.production request.direct_address;
  })
]

unfoldable pub rate_limit_request :
    Host
    → (String → Bool)
    → Environment
    → Request
    → ℕ
    → List Bucket
    → Checked RateLimitError (Answer × List Bucket)
rate_limit_request host sweeps env request now buckets = do
  hops ← parse_trusted_proxy_hops env.trust_proxy_hops
  subject ← subject_of host env request hops
  key ← present_or env.hmac_key rate_limit_configuration_invalid
  refuse_if (key == []) rate_limit_configuration_invalid
  hash ← hash_rate_limit_subject host key subject
  passed (
      consume_rate_limit sweeps (classify_rate_limit_action request.pathname request.method) hash
        now buckets)
