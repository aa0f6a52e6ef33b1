-- ===== src/Prelude/Text.antt =====
-- Texts as the regular expressions and prefix tests of the program read them.
use Prim.Native.Char.{code}
use Prim.Native.String.{String}
use Prim.Native.Nat.{ℕ}
use mathlib.Core.Bool.{Bool, true, false, not, ◌&&◌, ◌||◌}
use mathlib.Core.Option.{Option, none, some}
use mathlib.Core.List.{List, [], ◌∷◌}
use vigilo.Prelude.Tests.{leb, eqb, if◌then◌else◌}
use vigilo.Prelude.Lists.{length, all}
use vigilo.Prelude.Equality.{◌==◌, string_eq, list_eq, nat_eq}

-- The code points of a text.
abbrev pub codes : String → List ℕ
codes String.[] = []
codes (String.◌∷◌ c s) = code c ∷ codes s

abbrev pub is_digit : ℕ → Bool
is_digit c = leb b'0' c && leb c b'9'

abbrev pub is_lower : ℕ → Bool
is_lower c = leb b'a' c && leb c b'z'

abbrev pub is_upper : ℕ → Bool
is_upper c = leb b'A' c && leb c b'Z'

-- `[0-9a-f]`
abbrev pub is_hex : ℕ → Bool
is_hex c = is_digit c || (leb b'a' c && leb c b'f')

-- `[A-Za-z0-9_-]`
abbrev pub is_word : ℕ → Bool
is_word c = is_upper c || is_lower c || is_digit c || eqb c b'_' || eqb c b'-'

-- `^[class]{least,most}$`
abbrev pub in_class : (ℕ → Bool) → ℕ → ℕ → List ℕ → Bool
in_class class least most cs = leb least (length cs) && leb (length cs) most && all class cs

-- `/^[0-9a-f]{40}$/`
abbrev pub is_git_sha : String → Bool
is_git_sha s = in_class is_hex 40 40 (codes s)

-- `/^[A-Za-z0-9_-]{1,128}$/`
abbrev pub is_identifier : String → Bool
is_identifier s = in_class is_word 1 128 (codes s)

-- A text in a condition: `undefined`, `null` and `''` are false.
abbrev pub truthy : Option String → Bool
truthy none = false
truthy (some s) = not (s == "")

-- `\s`, and what `trim` removes.
abbrev pub is_white : ℕ → Bool
is_white c =
    (leb 9 c && leb c 13)
    || eqb c 32
    || eqb c 160
    || eqb c 0x1680
    || (leb 0x2000 c && leb c 0x200a)
    || eqb c 0x2028
    || eqb c 0x2029
    || eqb c 0x202f
    || eqb c 0x205f
    || eqb c 0x3000
    || eqb c 0xfeff

unfoldable pub trim_left : List ℕ → List ℕ
trim_left [] = []
trim_left (c ∷ cs) = let rest = trim_left cs in if is_white c then rest else c ∷ cs

unfoldable pub trim_right : List ℕ → List ℕ
trim_right [] = []
trim_right (c ∷ cs) = let rest = trim_right cs in if all is_white (c ∷ cs) then [] else c ∷ rest

abbrev pub trim : List ℕ → List ℕ
trim cs = trim_left (trim_right cs)

-- `text.startsWith(prefix)`
unfoldable pub starts_with : List ℕ → List ℕ → Bool
starts_with [] text = true
starts_with (p ∷ ps) [] = false
starts_with (p ∷ ps) (c ∷ cs) = eqb p c && starts_with ps cs

abbrev pub cons_piece : ℕ → List (List ℕ) → List (List ℕ)
cons_piece c [] = (c ∷ []) ∷ []
cons_piece c (piece ∷ pieces) = (c ∷ piece) ∷ pieces

-- `text.split(separator)` at one character.
unfoldable pub split_on : ℕ → List ℕ → List (List ℕ)
split_on separator [] = [] ∷ []
split_on separator (c ∷ cs) =
    let pieces = split_on separator cs in
    if eqb c separator then [] ∷ pieces else cons_piece c pieces

-- `text.endsWith(suffix)`
unfoldable pub ends_with : List ℕ → List ℕ → Bool
ends_with suffix [] = suffix == []
ends_with suffix (c ∷ cs) =
    let rest = ends_with suffix cs in if suffix == c ∷ cs then true else rest

-- `text.includes(part)`
unfoldable pub includes : List ℕ → List ℕ → Bool
includes part [] = part == []
includes part (c ∷ cs) = starts_with part (c ∷ cs) || includes part cs
