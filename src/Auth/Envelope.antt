-- ===== src/Auth/Envelope.antt =====
-- packages/nextjs/services/auth/crypto.ts, encryptSecret and decryptSecret. The cipher AES-256-GCM
-- and UTF-8 are those of the runtime, and arguments here.
pub mod RoundTrip
mod Tests
use Prim.Native.Nat.{◌/◌, ◌%◌}
use zk_voting.Prelude.{
  ℕ, ◌+◌, ◌-◌, ◌*◌, ◌≡◌, Bool, true, false, not, ◌&&◌, ◌||◌, Option, none, some, List, [], ◌∷◌,
  ◌++◌, ltb, ◌==◌, length, all, if◌then◌else◌,
}
use zk_voting.Prelude.Bytes.{Bytes}
use zk_voting.Prelude.Outcome.{Outcome, ok, err, ◌>>◌, guard}
use zk_voting.Prelude.Text.{Text, codes, text_eq, in_range, is_digit}

-- `unseal` gives none where the tag does not fit.
pub record Cipher : Type 0 where
  pub seal : (key iv aad plaintext : Bytes) → Bytes × Bytes
  pub unseal : (key iv aad tag ciphertext : Bytes) → Option Bytes
  pub utf8 : Text → Bytes
  pub from_utf8 : Bytes → Text

pub data AuthCryptoError : Type 0 where
  bad_key_length unrecognised_envelope failed_to_decrypt : AuthCryptoError

abbrev pub key_bytes : ℕ
key_bytes = 32

abbrev pub envelope_version : Text
envelope_version = codes "v1"

abbrev pub hex_digit : ℕ → ℕ
hex_digit n = if ltb n 10 then b'0' + n else b'a' + (n - 10)

-- `buffer.toString("hex")`
unfoldable pub to_hex : Bytes → Text
to_hex [] = []
to_hex (b ∷ bytes) = hex_digit (b / 16) ∷ hex_digit (b % 16) ∷ to_hex bytes

abbrev pub hex_value : ℕ → Option ℕ
hex_value c =
    if is_digit c
    then some (c - b'0')
    else if in_range b'a' b'f' c
    then some (c - b'a' + 10)
    else if in_range b'A' b'F' c
    then some (c - b'A' + 10)
    else none

abbrev pub add_byte : Option ℕ → Option ℕ → Bytes → Bytes
add_byte (some hi) (some lo) rest = (hi * 16 + lo) ∷ rest
add_byte _ _ rest = []

-- `Buffer.from(s, "hex")`, which stops at the first pair that is no byte
unfoldable pub from_hex : Text → Bytes
from_hex (c ∷ d ∷ s) = add_byte (hex_value c) (hex_value d) (from_hex s)
from_hex _ = []

-- `parts.join(":")`
unfoldable pub join : List Text → Text
join [] = []
join (part ∷ []) = part
join (part ∷ next ∷ parts) = part ++ b':' ∷ join (next ∷ parts)

abbrev pub add_unit : ℕ → List Text → List Text
add_unit c [] = (c ∷ []) ∷ []
add_unit c (part ∷ parts) = (c ∷ part) ∷ parts

-- `s.split(":")`
unfoldable pub split : Text → List Text
split [] = [] ∷ []
split (c ∷ s) = let parts = split s in if c == b':' then [] ∷ parts else add_unit c parts

module _ (cipher : Cipher) where
  abbrev pub sealed_envelope : Bytes → Bytes × Bytes → Text
  sealed_envelope iv (ciphertext, tag) =
      join (envelope_version ∷ to_hex iv ∷ to_hex tag ∷ to_hex ciphertext ∷ [])

  -- `encryptSecret(plaintext, key, aad)` for the nonce drawn
  unfoldable pub encrypt_secret : Bytes → Text → Bytes → Text → Outcome AuthCryptoError Text
  unfolding to_hex join
  encrypt_secret iv plaintext key aad =
      if not (length key == key_bytes)
      then err bad_key_length
      else ok (sealed_envelope iv (cipher.seal key iv (cipher.utf8 aad) (cipher.utf8 plaintext)))

  abbrev pub as_text : Option Bytes → Outcome AuthCryptoError Text
  as_text none = err failed_to_decrypt
  as_text (some bytes) = ok (cipher.from_utf8 bytes)

  abbrev pub unseal_parts : Bytes → Text → List Text → Outcome AuthCryptoError Text
  unseal_parts key aad (version ∷ iv ∷ tag ∷ ciphertext ∷ []) =
      if not (text_eq version envelope_version)
      then err unrecognised_envelope
      else as_text
          (cipher.unseal key (from_hex iv) (cipher.utf8 aad) (from_hex tag) (from_hex ciphertext))
  unseal_parts key aad _ = err unrecognised_envelope

  -- `decryptSecret(envelope, key, aad)`
  unfoldable pub decrypt_secret : Text → Bytes → Text → Outcome AuthCryptoError Text
  unfolding split from_hex text_eq
  decrypt_secret envelope key aad =
      if not (length key == key_bytes)
      then err bad_key_length
      else unseal_parts key aad (split envelope)
