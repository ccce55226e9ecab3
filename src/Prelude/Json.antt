-- ===== src/Prelude/Json.antt =====
-- The values that JSON.parse gives and JSON.stringify writes.
use zk_voting.Prelude.Tests.{if◌then◌else◌}
use Prim.Native.Nat.{ℕ}
use mathlib.Core.Bool.{Bool}
use mathlib.Core.Option.{Option, none, some}
use mathlib.Core.List.{List, [], ◌∷◌}
use zk_voting.Prelude.Int.{ℤ, pos}
use zk_voting.Prelude.Text.{Text, text_eq}

mutual
  -- `fraction` is a number that is no integer.
  pub data Json : Type 0 where
    null fraction : Json
    bool : Bool → Json
    number : ℤ → Json
    string : Text → Json
    array : JsonItems → Json
    object : JsonMembers → Json

  pub data JsonItems : Type 0 where
    no_items : JsonItems
    item : Json → JsonItems → JsonItems

  pub data JsonMembers : Type 0 where
    no_members : JsonMembers
    member : Text → Json → JsonMembers → JsonMembers

-- The value of a member, or nothing where it is `undefined`.
abbrev pub find_member : Text → JsonMembers → Option Json
find_member k no_members = none
find_member k (member j v ms) = if text_eq j k then some v else find_member k ms

-- An optional member: JSON.stringify leaves out one that is `undefined`.
abbrev pub member? : Text → Option Json → JsonMembers → JsonMembers
member? k none ms = ms
member? k (some v) ms = member k v ms

abbrev pub json_text : Option Text → Option Json
json_text none = none
json_text (some s) = some (string s)

abbrev pub json_number : Option ℕ → Option Json
json_number none = none
json_number (some n) = some (number (pos n))

-- A list of numbers as an array.
abbrev pub json_numbers : List ℕ → JsonItems
json_numbers [] = no_items
json_numbers (n ∷ ns) = item (number (pos n)) (json_numbers ns)

-- What `v.name` is read from: the members of an object, and no members of any other value. Of `null`
-- it is nothing, since the read throws.
abbrev pub members_of : Json → Option JsonMembers
members_of null = none
members_of (object ms) = some ms
members_of _ = some no_members

-- `typeof v === "string" ? v : ""`
abbrev pub text_or_empty : Option Json → Text
text_or_empty (some (string s)) = s
text_or_empty _ = []
