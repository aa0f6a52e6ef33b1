-- ===== src/Candidate/Context.antt =====
-- lib/investigations/policy.ts. A text is the list of its UTF-16 units.
use vigilo.Prelude.{
  ends_with, ℕ, Bool, not, ◌&&◌, ◌||◌, List, [], ◌∷◌, Option, none, eqb, ltb, leb, any, length,
  codes, if◌then◌else◌, contains, trim, starts_with, ◌==◌, nat_eq, list_eq,
}
use vigilo.Prelude.Checks.{Checked, refused, passed, ◌>>=◌, ◌>>◌, refuse_if}
use vigilo.Archive.Bytes.{split_slash, is_bad_part, starts_with_slash, dot}

-- `normalize('NFC')` and `toLowerCase` of texts, `posix.normalize`, `extname` and `posix.basename` of
-- node:path, the UTF-8 coders of Buffer and TextDecoder, SHA-256, and the order of `localeCompare`.
pub record Host : Type 0 where
  pub nfc : List ℕ → List ℕ
  pub lower : List ℕ → List ℕ
  pub normalize_path : List ℕ → List ℕ
  pub extname : List ℕ → List ℕ
  pub basename : List ℕ → List ℕ
  pub encode : List ℕ → List ℕ
  pub decode : List ℕ → List ℕ
  pub strict_decode : List ℕ → Option (List ℕ)
  pub sha256 : List ℕ → List ℕ
  pub at_most : List ℕ → List ℕ → Bool

-- A field of a value of type `unknown`.
pub data Field : Type 0 where
  missing null_value other_value : Field
  text bytes : List ℕ → Field

pub data ContextPolicyError : Type 0 where
  unsafe_path path_denied query_invalid : ContextPolicyError

abbrev pub max_path_characters : ℕ
max_path_characters = 240

abbrev pub max_path_depth : ℕ
max_path_depth = 20

abbrev pub max_search_query_bytes : ℕ
max_search_query_bytes = 128

abbrev pub denied_segments : List (List ℕ)
denied_segments =
    codes ".git"
    ∷ codes "node_modules"
    ∷ codes ".next"
    ∷ codes "dist"
    ∷ codes "build"
    ∷ codes "coverage"
    ∷ codes "vendor"
    ∷ []

abbrev pub denied_names : List (List ℕ)
denied_names =
    codes ".env"
    ∷ codes ".npmrc"
    ∷ codes ".pypirc"
    ∷ codes ".netrc"
    ∷ codes "credentials"
    ∷ codes "credentials.json"
    ∷ codes "service-account.json"
    ∷ codes "secrets.json"
    ∷ codes "secrets.yml"
    ∷ codes "secrets.yaml"
    ∷ codes "id_rsa"
    ∷ codes "id_ed25519"
    ∷ []

abbrev pub denied_extensions : List (List ℕ)
denied_extensions =
    codes ".pem"
    ∷ codes ".key"
    ∷ codes ".p12"
    ∷ codes ".pfx"
    ∷ codes ".crt"
    ∷ codes ".cer"
    ∷ codes ".der"
    ∷ codes ".zip"
    ∷ codes ".gz"
    ∷ codes ".tgz"
    ∷ codes ".tar"
    ∷ codes ".7z"
    ∷ codes ".rar"
    ∷ codes ".png"
    ∷ codes ".jpg"
    ∷ codes ".jpeg"
    ∷ codes ".gif"
    ∷ codes ".webp"
    ∷ codes ".ico"
    ∷ codes ".pdf"
    ∷ codes ".mp3"
    ∷ codes ".mp4"
    ∷ codes ".mov"
    ∷ codes ".avi"
    ∷ codes ".woff"
    ∷ codes ".woff2"
    ∷ codes ".ttf"
    ∷ codes ".eot"
    ∷ codes ".map"
    ∷ []

abbrev pub searchable_extensions : List (List ℕ)
searchable_extensions =
    []
    ∷ codes ".ts"
    ∷ codes ".tsx"
    ∷ codes ".js"
    ∷ codes ".jsx"
    ∷ codes ".mjs"
    ∷ codes ".cjs"
    ∷ codes ".json"
    ∷ codes ".md"
    ∷ codes ".txt"
    ∷ codes ".css"
    ∷ codes ".scss"
    ∷ codes ".html"
    ∷ codes ".yml"
    ∷ codes ".yaml"
    ∷ codes ".toml"
    ∷ codes ".sql"
    ∷ codes ".sh"
    ∷ []

-- `[\u0000-\u001f\u007f]`
abbrev pub is_control : ℕ → Bool
is_control c = leb c 0x1f || eqb c 0x7f

unfoldable pub is_unsafe_text : List ℕ → Bool
is_unsafe_text value =
    value == []
    || ltb max_path_characters (length value)
    || any (λ c. eqb c b'\\') value
    || starts_with_slash value
    || any is_control value

unfoldable pub is_unsafe_path : List ℕ → List ℕ → Bool
is_unsafe_path normalized value =
    not (normalized == value)
    || normalized == dot
    || any is_bad_part (split_slash normalized)
    || ltb max_path_depth (length (split_slash normalized))

unfoldable pub normalize_context_path : Host → Field → Checked ContextPolicyError (List ℕ)
normalize_context_path host (text value) = do
  refuse_if (is_unsafe_text value) unsafe_path
  let normalized = host.normalize_path value
  refuse_if (is_unsafe_path normalized value) unsafe_path
  passed normalized
normalize_context_path host _ = refused unsafe_path

abbrev pub last : List (List ℕ) → List ℕ
last [] = []
last (x ∷ []) = x
last (x ∷ y ∷ ys) = last (y ∷ ys)

-- `/\.min\.(?:js|css)$/`
abbrev is_minified : List ℕ → Bool
is_minified name = ends_with (codes ".min.js") name || ends_with (codes ".min.css") name

unfoldable pub path_denied_by : Host → List (List ℕ) → Bool
path_denied_by host segments =
    any (contains denied_segments) segments
    || starts_with (codes ".env.") (last segments)
    || contains denied_names (last segments)
    || contains denied_extensions (host.extname (last segments))
    || is_minified (last segments)

-- `pathDenied`
abbrev pub path_denied_in : Host → List ℕ → Bool
path_denied_in host path = path_denied_by host (split_slash (host.lower path))

unfoldable pub require_readable_path : Host → Field → Checked ContextPolicyError (List ℕ)
require_readable_path host value = do
  path ← normalize_context_path host value
  refuse_if (path_denied_in host path) path_denied
  passed path

unfoldable pub normalize_search_query : Host → Field → Checked ContextPolicyError (List ℕ)
normalize_search_query host (text value) = do
  let query = trim (host.nfc value)
  refuse_if
      (query == []
        || ltb max_search_query_bytes (length (host.encode query))
        || any is_control query)
      query_invalid
  passed query
normalize_search_query host _ = refused query_invalid

unfoldable pub searchable_path : Host → List ℕ → Bool
searchable_path host path =
    not (path_denied_in host path)
    && contains searchable_extensions (host.extname (host.lower path))

unfoldable pub strict_utf8 : Host → List ℕ → Option (List ℕ)
strict_utf8 host bs = if any (λ b. eqb b 0) bs then none else host.strict_decode bs
