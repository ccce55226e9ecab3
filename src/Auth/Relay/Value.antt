-- ===== src/Auth/Relay/Value.antt =====
-- The values of a request's arguments, which the source types as `unknown`.
use zk_voting.Prelude.{ℕ, suc, Bool, true, false, [], ◌∷◌, ◌==◌, not}
use zk_voting.Prelude.Int.{ℤ, pos, negsuc}
use zk_voting.Prelude.Text.{Text}

-- A number of JavaScript: an integer, NaN, or a fraction or infinity.
pub data Number : Type 0 where
  integer : ℤ → Number
  not_a_number : Number
  fractional : Number

mutual
  pub data Value : Type 0 where
    undefined null : Value
    bool : Bool → Value
    number : Number → Value
    bigint : ℤ → Value
    string : Text → Value
    array : Values → Value
    object : Value

  pub data Values : Type 0 where
    end : Values
    item : Value → Values → Values

abbrev pub count : Values → ℕ
count end = 0
count (item v vs) = suc (count vs)

-- `vs[i]`, which is `undefined` past the end
abbrev pub at : Values → ℕ → Value
at end i = undefined
at (item v vs) Prim.Native.Nat.zero = v
at (item v vs) (suc i) = at vs i

abbrev pub is_zero : ℤ → Bool
is_zero (pos n) = n == 0
is_zero (negsuc n) = false

abbrev pub is_empty : Text → Bool
is_empty [] = true
is_empty (_ ∷ _) = false

-- `Boolean(v)`
abbrev pub is_truthy : Value → Bool
is_truthy undefined = false
is_truthy null = false
is_truthy (bool b) = b
is_truthy (number (integer z)) = not (is_zero z)
is_truthy (number not_a_number) = false
is_truthy (number fractional) = true
is_truthy (bigint z) = not (is_zero z)
is_truthy (string s) = not (is_empty s)
is_truthy (array vs) = true
is_truthy object = true
