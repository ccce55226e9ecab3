-- ===== src/Auth/Envelope/RoundTrip.antt =====
-- What an envelope holds is what was sealed in it, for its own record only.
use Prim.Native.Nat.{◌/◌, ◌%◌}
use zk_voting.Prelude.{
  ℕ, ◌<◌, ◌≡◌, refl, ap, Bool, true, false, not, none, some, [], ◌∷◌, ◌++◌, arith, ◌==◌, length,
  all, inl, inr, Bool-cases, if◌then◌else◌,
}
use zk_voting.Prelude.Bytes.{Bytes, is_byte, is_well_formed, IsUtf8}
use zk_voting.Prelude.Outcome.{ok, err, ◌>>=◌}
use zk_voting.Prelude.Text.{Text, text_eq, text_eq_refl, text_eq_sound}
use zk_voting.Auth.Envelope.{
  Cipher, failed_to_decrypt, key_bytes, envelope_version, hex_digit, to_hex, hex_value, from_hex,
  join, split, encrypt_secret, as_text, decrypt_secret,
}

-- the length of the nonces that `encryptSecret` draws
abbrev pub nonce_bytes : ℕ
nonce_bytes = 12

abbrev is_plain : ℕ → Bool
is_plain c = not (c == b':')

value_of_digit : (n : ℕ) → n < 16 → hex_value (hex_digit n) ≡ some n
value_of_digit n h = ground arith

digit_plain : (n : ℕ) → n < 16 → is_plain (hex_digit n) ≡ true
digit_plain n h = ground arith

from_hex-to_hex : (bytes : Bytes) → all is_byte bytes ≡ true → from_hex (to_hex bytes) ≡ bytes
unfolding from_hex to_hex
from_hex-to_hex [] h = refl
from_hex-to_hex (b ∷ bytes) h =
    let small : b < 256 = ground arith in
    let rest = from_hex-to_hex bytes (ground arith) in
    rw (value_of_digit (b / 16) (omega (arith, small)), value_of_digit (b % 16) (omega arith), rest)
      (ap (λ n. n ∷ bytes) (omega arith))

to_hex_plain : (bytes : Bytes) → all is_byte bytes ≡ true → all is_plain (to_hex bytes) ≡ true
unfolding to_hex
to_hex_plain [] h = refl
to_hex_plain (b ∷ bytes) h =
    let small : b < 256 = ground arith in
    rw (digit_plain (b / 16) (omega (arith, small)), digit_plain (b % 16) (omega arith))
      (to_hex_plain bytes (ground arith))

split-append : (p s : Text) → all is_plain p ≡ true → split (p ++ b':' ∷ s) ≡ p ∷ split s
unfolding split
split-append [] s h = refl
split-append (c ∷ p) s h = ground (arith, split-append p s)

split_plain : (p : Text) → all is_plain p ≡ true → split p ≡ p ∷ []
unfolding split
split_plain [] h = refl
split_plain (c ∷ p) h = ground (arith, split_plain p)

-- A key, a nonce, additional data and a plaintext that AES-256-GCM takes.
pub record AreSealable (key iv aad plaintext : Bytes) : Type 0 where
  pub long : (length key == key_bytes) ≡ true
  pub key_of_bytes : all is_byte key ≡ true
  pub nonce_long : (length iv == nonce_bytes) ≡ true
  pub nonce_of_bytes : all is_byte iv ≡ true
  pub aad_bytes : all is_byte aad ≡ true
  pub plaintext_bytes : all is_byte plaintext ≡ true

-- What the envelope relies on: the cipher opens what it sealed, and only with the additional data
-- that it was sealed with; its outputs are bytes, and UTF-8 is what it is.
pub record IsAuthenticated (cipher : Cipher) : Type 0 where
  pub opens :
      (key iv aad plaintext : Bytes)
      → AreSealable key iv aad plaintext
      → cipher.unseal key iv aad
          (cipher.seal key iv aad plaintext).1
          (cipher.seal key iv aad plaintext).0
        ≡ some plaintext
  pub rejects :
      (key iv aad presented plaintext : Bytes)
      → AreSealable key iv aad plaintext
      → all is_byte presented ≡ true
      → text_eq aad presented ≡ false
      → cipher.unseal key iv presented
          (cipher.seal key iv aad plaintext).1
          (cipher.seal key iv aad plaintext).0
        ≡ none
  pub seals_bytes :
      (key iv aad plaintext : Bytes)
      → AreSealable key iv aad plaintext
      → all is_byte (cipher.seal key iv aad plaintext).0 ≡ true
  pub tags_bytes :
      (key iv aad plaintext : Bytes)
      → AreSealable key iv aad plaintext
      → all is_byte (cipher.seal key iv aad plaintext).1 ≡ true
  pub encoding : IsUtf8 cipher.utf8 cipher.from_utf8

split_envelope :
    (a b c d : Text)
    → all is_plain a ≡ true
    → all is_plain b ≡ true
    → all is_plain c ≡ true
    → all is_plain d ≡ true
    → split (join (a ∷ b ∷ c ∷ d ∷ [])) ≡ a ∷ b ∷ c ∷ d ∷ []
unfolding join
split_envelope a b c d ha hb hc hd =
    rw (split-append a _ ha, split-append b _ hb, split-append c d hc, split_plain d hd) refl

module _ (cipher : Cipher) (safe : IsAuthenticated cipher) (aad presented : Text)
    (aad_form : is_well_formed aad ≡ true) (presented_form : is_well_formed presented ≡ true) where
  utf8-apart :
      text_eq aad presented ≡ false → text_eq (cipher.utf8 aad) (cipher.utf8 presented) ≡ false
  utf8-apart apart = elim (Bool-cases (text_eq (cipher.utf8 aad) (cipher.utf8 presented))) [
    | inr differ ↦ differ
    | inl alike ↦
        let same : cipher.utf8 aad ≡ cipher.utf8 presented =
          text_eq_sound (cipher.utf8 aad) (cipher.utf8 presented) alike in
        let equal : aad ≡ presented =
          rw (← safe.encoding.decodes aad aad_form, same)
            (safe.encoding.decodes presented presented_form) in
        absurd (ground (arith, equal, apart, text_eq_refl presented))
  ]

  unsealed :
      (iv key : Bytes) (secret : Text)
      → is_well_formed secret ≡ true
      → AreSealable key iv (cipher.utf8 aad) (cipher.utf8 secret)
      → as_text cipher (
          cipher.unseal key iv
            (cipher.utf8 presented)
            (cipher.seal key iv (cipher.utf8 aad) (cipher.utf8 secret)).1
            (cipher.seal key iv (cipher.utf8 aad) (cipher.utf8 secret)).0)
        ≡ (if text_eq aad presented then ok secret else err failed_to_decrypt)
  unsealed iv key secret secret_form sealable = elim (Bool-cases (text_eq aad presented)) [
    | inl e ↦
        rw
          (
            e,
            ← text_eq_sound aad presented e,
            safe.opens key iv (cipher.utf8 aad) (cipher.utf8 secret) sealable,
          )
          (ap ok (safe.encoding.decodes secret secret_form))
    | inr e ↦
        rw
          (
            e,
            safe.rejects key iv (cipher.utf8 aad) (cipher.utf8 presented) (cipher.utf8 secret)
                sealable (safe.encoding.writes_bytes presented) (utf8-apart e),
          )
          refl
  ]

  -- With a key of 32 bytes, a nonce of 12 and an authenticated cipher, what `encryptSecret` made of a
  -- secret for a username `decryptSecret` opens with that username, to the secret, and refuses with
  -- every other, where the texts have no lone surrogates.
  pub decrypt-encrypt_secret :
      (iv key : Bytes) (secret : Text)
      → is_well_formed secret ≡ true
      → all is_byte iv ≡ true
      → (length iv == nonce_bytes) ≡ true
      → all is_byte key ≡ true
      → (length key == key_bytes) ≡ true
      → (encrypt_secret cipher iv secret key aad >>= λ envelope.
          decrypt_secret cipher envelope key presented)
        ≡ (if text_eq aad presented then ok secret else err failed_to_decrypt)
  unfolding encrypt_secret decrypt_secret text_eq
  decrypt-encrypt_secret iv key secret secret_form iv_bytes iv_long key_are long =
      let made = cipher.seal key iv (cipher.utf8 aad) (cipher.utf8 secret) in
      let sealable : AreSealable key iv (cipher.utf8 aad) (cipher.utf8 secret) = record {
        long = long;
        key_of_bytes = key_are;
        nonce_long = iv_long;
        nonce_of_bytes = iv_bytes;
        aad_bytes = safe.encoding.writes_bytes aad;
        plaintext_bytes = safe.encoding.writes_bytes secret;
      } in
      let sealed = safe.seals_bytes key iv (cipher.utf8 aad) (cipher.utf8 secret) sealable in
      let tagged = safe.tags_bytes key iv (cipher.utf8 aad) (cipher.utf8 secret) sealable in
      rw
        (
          long,
          split_envelope envelope_version (to_hex iv) (to_hex made.1) (to_hex made.0) refl
              (to_hex_plain iv iv_bytes) (to_hex_plain made.1 tagged) (to_hex_plain made.0 sealed),
          from_hex-to_hex iv iv_bytes,
          from_hex-to_hex made.1 tagged,
          from_hex-to_hex made.0 sealed,
        )
        (unsealed iv key secret secret_form sealable)
