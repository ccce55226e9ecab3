-- ===== src/Prelude/Bytes.antt =====
-- Buffers of bytes, and what UTF-8 makes of texts.
use zk_voting.Prelude.Tests.{ltb}
use Prim.Native.Nat.{ℕ}
use mathlib.Core.Path.{◌≡◌, refl}
use mathlib.Core.Bool.{Bool, true, false, not, ◌&&◌}
use mathlib.Core.List.{List, [], ◌∷◌}
use native.Mathlib.Omega.{arith}
use zk_voting.Prelude.Lists.{all}
use zk_voting.Prelude.Tests.{if◌then◌else◌}
use zk_voting.Prelude.Text.{Text, in_range}

abbrev pub Bytes : Type 0
Bytes = List ℕ

abbrev pub is_byte : ℕ → Bool
is_byte b = ltb b 256

abbrev is_high : ℕ → Bool
is_high c = in_range 55296 56319 c

abbrev is_low : ℕ → Bool
is_low c = in_range 56320 57343 c

-- The surrogates of a text stand in pairs; the flag is whether a high one has come.
unfoldable pairs_from : Bool → Text → Bool
pairs_from pending [] = not pending
pairs_from pending (c ∷ s) =
    let after_high = pairs_from true s in
    let rest = pairs_from false s in
    if is_high c
    then not pending && after_high
    else if is_low c
    then pending && rest
    else not pending && ltb c 65536 && rest

-- `s.isWellFormed()`: no surrogate stands alone.
unfoldable pub is_well_formed : Text → Bool
unfolding pairs_from
is_well_formed s = pairs_from false s

pub well_formed_plain : (s : Text) → all (λ c. ltb c 55296) s ≡ true → is_well_formed s ≡ true
unfolding is_well_formed pairs_from
well_formed_plain [] h = refl
well_formed_plain (c ∷ s) h = ground (arith, well_formed_plain s)

-- Whether a number is a safe integer: JavaScript has it, and JSON writes and reads it as it is.
abbrev pub is_safe : ℕ → Bool
is_safe n = ltb n 9007199254740992

abbrev is_nothing : List ℕ → Bool
is_nothing [] = true
is_nothing (c ∷ s) = false

-- What is documented of Buffer.from(s) and toString(): they write bytes, lose no text that is well
-- formed, and write something of one that is not empty.
pub record IsUtf8 (utf8 : Text → Bytes) (from_utf8 : Bytes → Text) : Type 0 where
  pub writes_bytes : (s : Text) → all is_byte (utf8 s) ≡ true
  pub decodes : (s : Text) → is_well_formed s ≡ true → from_utf8 (utf8 s) ≡ s
  pub writes : (s : Text) → is_nothing s ≡ false → is_nothing (utf8 s) ≡ false
