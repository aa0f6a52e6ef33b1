-- ===== src/Json.antt =====
-- JSON values, as `JSON.parse` returns them. A number that is not a natural number is kept by its text.
use vigilo.Prelude.{
  ℕ, String, Bool, List, [], ◌∷◌, Option, none, some, ◌==◌, string_eq, if◌then◌else◌,
}

mutual
  pub data Json : Type 0 where
    null : Json
    boolean : Bool → Json
    number : ℕ → Json
    other_number : String → Json
    string : String → Json
    array : Elements → Json
    object : Members → Json

  pub data Elements : Type 0 where
    nil : Elements
    cons : Json → Elements → Elements

  pub data Members : Type 0 where
    end : Members
    member : String → Json → Members → Members

abbrev pub members : Members → List (String × Json)
members end = []
members (member k v ms) = (k, v) ∷ members ms

-- `record[key]`, `none` for `undefined`.
unfoldable pub property : String → Members → Option Json
property k end = none
property k (member j v ms) = if j == k then some v else property k ms

abbrev pub object_of : List (String × Json) → Members
object_of [] = end
object_of ((k, v) ∷ ms) = member k v (object_of ms)
