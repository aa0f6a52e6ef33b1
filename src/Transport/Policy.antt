-- ===== src/Transport/Policy.antt =====
-- `SandboxTransportPolicy` of lib/external-execution/sandbox-transport.ts. A URL is the parts that
-- `new URL` gives; a body is its length in bytes with what `JSON.parse` makes of it.
use vigilo.Prelude.{
  ℕ, ◌*◌, ◌+◌, Bool, true, false, not, ◌&&◌, ◌||◌, List, [], ◌∷◌, ◌++◌, Option, none, some, String,
  eqb, ltb, leb, if◌then◌else◌, length, all, keep, map, is_digit, is_lower, is_word, in_class,
  is_identifier, is_some, codes, contains, ◌==◌, nat_eq, string_eq, list_eq, option_eq,
}
use vigilo.Prelude.Options.{◌>>=◌, ◌>>◌, reject_if}
use vigilo.Json.{Json, null, boolean, number, string, array, object, property, members, nil}

pub record Binding : Type 0 where
  pub name : String
  pub project_id : String
  pub team_id : String
  pub session_id : Option String

pub record Policy : Type 0 where
  pub binding : Binding
  pub recovery : Bool
  pub runtime_ms : ℕ
  pub vcpus : ℕ
  pub session_id : Option String

pub data Kind : Type 0 where
  create cleanup business : Kind

pub record Body : Type 0 where
  pub bytes : ℕ
  pub parsed : Option Json

pub record Url : Type 0 where
  pub origin : String
  pub username : String
  pub password : String
  pub hash : String
  pub pathname : List ℕ
  pub params : List (String × String)

pub record Call : Type 0 where
  pub url : Url
  pub method : String
  pub body : Option Body

-- `/^[a-z0-9][a-z0-9-]{0,99}$/`
unfoldable pub is_name : List ℕ → Bool
is_name [] = false
is_name (c ∷ cs) =
    (is_lower c || is_digit c) && in_class (λ d. is_lower d || is_digit d || eqb d b'-') 0 99 cs

unfoldable pub new_policy : Binding → Bool → ℕ → ℕ → Option Policy
new_policy binding recovery runtime_ms vcpus = do
  reject_if
      (not (is_name (codes binding.name)) || binding.project_id == "" || binding.team_id == "")
  some (record {
    binding = binding;
    recovery = recovery;
    runtime_ms = runtime_ms;
    vcpus = vcpus;
    session_id = binding.session_id;
  })

-- `sessionId` in a condition: an empty text is no session.
abbrev pub present : Option String → Option String
present none = none
present (some s) = if s == "" then none else some s

-- `searchParams.getAll(key)`
abbrev pub all_of : String → Url → List String
all_of key url = map (λ (k, v). v) (keep (λ (k, v). k == key) url.params)

-- `getAll(key).length === 1 && get(key) === value`
abbrev pub only_value : String → String → Url → Bool
only_value key value url = all_of key url == (value ∷ [])

abbrev pub keys_within : List String → Url → Bool
keys_within allowed url = all (λ (k, v). contains allowed k) url.params

-- `record[key]` of a value that may be no object.
abbrev pub field : String → Json → Option Json
field key (object ms) = property key ms
field key _ = none

abbrev pub is_text : String → Option Json → Bool
is_text s (some (string t)) = t == s
is_text s _ = false

abbrev pub is_number : ℕ → Option Json → Bool
is_number n (some (number m)) = eqb m n
is_number n _ = false

abbrev pub is_false : Option Json → Bool
is_false (some (boolean b)) = not b
is_false _ = false

-- `ports === undefined || Array.isArray(ports) && !ports.length`
abbrev pub has_no_ports : Option Json → Bool
has_no_ports none = true
has_no_ports (some (array nil)) = true
has_no_ports _ = false

abbrev or_nothing : Option Json → Json
or_nothing none = null
or_nothing (some v) = v

-- The body that `create` must carry.
unfoldable pub is_exact_create : Policy → Json → Bool
is_exact_create p body =
    is_text p.binding.name (field "name" body)
    && is_text p.binding.project_id (field "projectId" body)
    && not (is_some (field "runtime" body))
    && is_text "vercel/sandbox/node:24" (field "image" body)
    && is_false (field "persistent" body)
    && is_number p.runtime_ms (field "timeout" body)
    && is_number p.vcpus (field "vcpus" (or_nothing (field "resources" body)))
    && not (is_some (field "source" body))
    && not (is_some (field "env" body))
    && has_no_ports (field "ports" body)

-- An object with one property: its value under that key.
abbrev only_property : String → Json → Option Json
only_property key (object ms) = if eqb (length (members ms)) 1 then property key ms else none
only_property key _ = none

unfoldable pub is_deny_all : Json → Bool
is_deny_all body =
    is_text "deny-all" (only_property "mode" (or_nothing (only_property "networkPolicy" body)))

-- `JSON.parse(init.body)` of a text body within a number of bytes.
unfoldable pub parsed_body : ℕ → Call → Option Json
parsed_body limit c = do body ← c.body; reject_if (ltb limit body.bytes); body.parsed

-- What is left of a text behind a prefix.
unfoldable pub strip_prefix : List ℕ → List ℕ → Option (List ℕ)
strip_prefix [] cs = some cs
strip_prefix (p ∷ ps) [] = none
strip_prefix (p ∷ ps) (c ∷ cs) = let rest = strip_prefix ps cs in if eqb p c then rest else none

-- `/^[A-Za-z0-9_-]{1,128}$/` in front of an ending.
unfoldable pub is_command_with : List ℕ → ℕ → List ℕ → Bool
is_command_with ending n [] = false
is_command_with ending n (c ∷ cs) =
    let rest = is_command_with ending (n + 1) cs in
    (is_word c && leb (n + 1) 128) && (cs == ending || rest)

abbrev is_command : String → List ℕ → Bool
is_command ending suffix = elim (strip_prefix (codes "cmd/") suffix) [
  | none ↦ false
  | some rest ↦ is_command_with (codes ending) 0 rest
]

abbrev session_commands : List (List ℕ)
session_commands =
    codes "cmd"
    ∷ codes "fs/mkdir"
    ∷ codes "fs/write"
    ∷ codes "fs/read"
    ∷ codes "network-policy"
    ∷ []

-- The operations on the confirmed session.
unfoldable pub is_session_operation : Call → List ℕ → Bool
is_session_operation c suffix =
    (c.method == "GET"
      && is_command "" suffix
      && keys_within ("teamId" ∷ "wait" ∷ []) c.url
      && (all_of "wait" c.url == [] || only_value "wait" "true" c.url))
    || (keys_within ("teamId" ∷ []) c.url
        && ((c.method == "POST" && (contains session_commands suffix || is_command "/kill" suffix))
            || (c.method == "GET" && is_command "/logs" suffix)))

unfoldable pub classify_create : Policy → Call → Option Kind
classify_create p c = do
  reject_if (p.recovery || not (keys_within ("teamId" ∷ []) c.url))
  body ← parsed_body (64 * 1024) c
  reject_if (not (is_exact_create p body))
  some create

unfoldable pub classify_update : Policy → Call → Option Kind
classify_update p c = do
  reject_if (
      p.recovery
      || not (is_some (present p.session_id))
      || not (only_value "projectId" p.binding.project_id c.url)
      || not (keys_within ("teamId" ∷ "projectId" ∷ []) c.url))
  body ← parsed_body 4096 c
  reject_if (not (is_deny_all body))
  some business

abbrev pub lookup_keys : String → List String
lookup_keys method =
    "teamId" ∷ "projectId" ∷ (if method == "GET" then "resume" else "deleteOrphanSnapshots") ∷ []

unfoldable pub classify_lookup : Policy → Call → Option Kind
classify_lookup p c = do
  reject_if (
      not (only_value "projectId" p.binding.project_id c.url)
      || (c.method == "GET" && not (only_value "resume" "false" c.url))
      || not (keys_within (lookup_keys c.method) c.url))
  some cleanup

abbrev pub session_path : (String → List ℕ) → String → List ℕ
session_path encode session = codes "/api/v2/sandboxes/sessions/" ++ encode session

abbrev pub classify_suffix : Policy → Call → Option (List ℕ) → Option Kind
classify_suffix p c none = none
classify_suffix p c (some suffix) = do
  reject_if (p.recovery || not (is_session_operation c suffix))
  some business

unfoldable pub asks_stop : (String → List ℕ) → String → Call → Bool
asks_stop encode session c =
    (c.url.pathname == session_path encode session ++ codes "/stop")
    && (c.method == "POST" && keys_within ("teamId" ∷ []) c.url)

unfoldable pub classify_session : (String → List ℕ) → Policy → Call → Option String → Option Kind
classify_session encode p c none = none
classify_session encode p c (some session) =
    if asks_stop encode session c
    then some cleanup
    else classify_suffix p c
        (strip_prefix (session_path encode session ++ codes "/") c.url.pathname)

abbrev pub name_path : (String → List ℕ) → Policy → List ℕ
name_path encode p = codes "/api/v2/sandboxes/" ++ encode p.binding.name

unfoldable pub asks_create : Call → Bool
asks_create c = c.url.pathname == codes "/api/v3/sandboxes" && c.method == "POST"

unfoldable pub asks_update : (String → List ℕ) → Policy → Call → Bool
asks_update encode p c = c.url.pathname == name_path encode p && c.method == "PATCH"

unfoldable pub asks_lookup : (String → List ℕ) → Policy → Call → Bool
asks_lookup encode p c =
    c.url.pathname == name_path encode p && (c.method == "GET" || c.method == "DELETE")

-- `encode` is `encodeURIComponent`; `none` is `deny()`.
unfoldable pub classify : (String → List ℕ) → Policy → Call → Option Kind
classify encode p c = do
  reject_if (
      not (c.url.origin == "https://vercel.com")
      || not (c.url.username == "")
      || not (c.url.password == "")
      || not (c.url.hash == "")
      || not (only_value "teamId" p.binding.team_id c.url))
  if asks_create c
      then classify_create p c
      else if asks_update encode p c
      then classify_update p c
      else if asks_lookup encode p c
      then classify_lookup p c
      else classify_session encode p c (present p.session_id)

unfoldable pub confirm : String → String → Policy → Option Policy
confirm name session p = do
  reject_if (
      not (name == p.binding.name)
      || not (is_identifier session)
      || (is_some (present p.session_id) && not (p.session_id == some session)))
  some (record p { session_id = some session })

-- `readMetadata`: an object in a body of at most 128 KiB.
abbrev is_object : Json → Bool
is_object (object ms) = true
is_object _ = false

unfoldable pub read_metadata : Option Body → Option Json
read_metadata response = do
  body ← response
  reject_if (ltb (128 * 1024) body.bytes)
  value ← body.parsed
  reject_if (not (is_object value))
  some value

abbrev text_of : Json → Option String
text_of (string s) = some s
text_of _ = none

-- `observeLookup`, on the body of a response that is ok. The ids of the metadata are texts.
unfoldable pub observe_lookup : Option Body → Policy → Option Policy
observe_lookup response p = do
  value ← read_metadata response
  sandbox ← field "sandbox" value
  session ← field "session" value
  name ← field "name" sandbox >>= text_of
  current ← field "currentSessionId" sandbox >>= text_of
  id ← field "id" session >>= text_of
  reject_if (not (name == p.binding.name) || not (current == id) || id == "")
  confirm name id p

abbrev is_current : Option String → Option Json → Bool
is_current session (some (string s)) = some s == session
is_current session (some null) = not (is_some session)
is_current session _ = false

-- `observeNetworkPolicyUpdate`, on the body of a response that is ok.
unfoldable pub observe_network_policy_update : Option Body → Policy → Option (Unit {0})
observe_network_policy_update response p = do
  value ← read_metadata response
  sandbox ← field "sandbox" value
  reject_if (
      not (is_text p.binding.name (field "name" sandbox))
      || not (is_current p.session_id (field "currentSessionId" sandbox))
      || not (is_false (field "persistent" sandbox)))
  some tt
