-- ===== src/Otp/Token/RoundTrip.antt =====
-- A token that was signed verifies until it expires.
use zk_voting.Prelude.{
  ℕ, ◌+◌, ◌≡◌, refl, sym, ap, ◌∙◌, Bool, true, false, not, none, some, [], ◌∷◌, ◌++◌, arith, ltb,
  ◌==◌, all, Bool-cases, inl, inr, if◌then◌else◌,
}
use zk_voting.Prelude.Text.{Text, text_eq_refl}
use zk_voting.Prelude.Bytes.{Bytes, is_byte, is_safe}
use zk_voting.Auth.Relay.Value.{is_empty}
use zk_voting.Otp.{token_ttl_ms}
use zk_voting.Otp.Token.{
  IsBase64, Runtime, replace_unit, only_padding, strip_padding, before_dot, second_part, base64url,
  sign_phone_token, verify_phone_token, is_base64_unit, IsSuitable,
}

abbrev pub is_plain : ℕ → Bool
is_plain c = not (c == b'.')

pub before_dot-append : (p q : Text) → all is_plain p ≡ true → before_dot (p ++ b'.' ∷ q) ≡ p
unfolding before_dot
before_dot-append [] q h = refl
before_dot-append (c ∷ p) q h = ground (arith, before_dot-append p q)

pub second_part-append :
    (p q : Text) → all is_plain p ≡ true → second_part (p ++ b'.' ∷ q) ≡ before_dot q
unfolding second_part
second_part-append [] q h = refl
second_part-append (c ∷ p) q h = ground (arith, second_part-append p q)

pub before_dot_plain : (p : Text) → all is_plain p ≡ true → before_dot p ≡ p
unfolding before_dot
before_dot_plain [] h = refl
before_dot_plain (c ∷ p) h = ground (arith, before_dot_plain p)

module _ (a b : ℕ) (ha : (a == b'=') ≡ false) (hb : (b == b'=') ≡ false) where
  padding-replace : (s : Text) → only_padding (replace_unit a b s) ≡ only_padding s
  unfolding replace_unit
  padding-replace [] = refl
  padding-replace (c ∷ s) = ground (arith, padding-replace s)

  strip-replace :
      (s : Text) → strip_padding (replace_unit a b s) ≡ replace_unit a b (strip_padding s)
  unfolding strip_padding replace_unit
  strip-replace [] = refl
  strip-replace (c ∷ s) = elim (Bool-cases (only_padding (c ∷ s))) [
    | inl pad ↦ rw (padding-replace (c ∷ s), pad) refl
    | inr more ↦ rw (padding-replace (c ∷ s), more, strip-replace s) refl
  ]

abbrev to_url : Text → Text
to_url s = replace_unit b'/' b'_' (replace_unit b'+' b'-' s)

abbrev pub from_url : Text → Text
from_url s = replace_unit b'_' b'/' (replace_unit b'-' b'+' s)

from_to_url : (s : Text) → all is_base64_unit s ≡ true → from_url (to_url s) ≡ s
unfolding replace_unit
from_to_url [] h = refl
from_to_url (c ∷ s) h = ground (arith, from_to_url s)

to_url_plain : (s : Text) → all is_base64_unit s ≡ true → all is_plain (to_url s) ≡ true
unfolding replace_unit
to_url_plain [] h = refl
to_url_plain (c ∷ s) h = ground (arith, to_url_plain s)

strip_alphabet :
    (s : Text) → all is_base64_unit s ≡ true → all is_base64_unit (strip_padding s) ≡ true
unfolding strip_padding
strip_alphabet [] h = refl
strip_alphabet (c ∷ s) h = elim (Bool-cases (only_padding (c ∷ s))) [
  | inl pad ↦ rw pad refl
  | inr more ↦ rw more (ground (arith, strip_alphabet s))
]

base64url-eq :
    (to_base64 : Bytes → Text) (bytes : Bytes)
    → base64url to_base64 bytes ≡ to_url (strip_padding (to_base64 bytes))
unfolding base64url
base64url-eq to_base64 bytes =
    strip-replace b'/' b'_' refl refl (replace_unit b'+' b'-' (to_base64 bytes))
    ∙ ap (replace_unit b'/' b'_') (strip-replace b'+' b'-' refl refl (to_base64 bytes))

is_empty-to_url : (s : Text) → is_empty (to_url s) ≡ is_empty s
unfolding replace_unit
is_empty-to_url [] = refl
is_empty-to_url (c ∷ s) = refl

empty_text : (s : Text) → is_empty s ≡ true → s ≡ []
empty_text [] h = refl
empty_text (c ∷ s) h = absurd (cc)

module _ (to_base64 : Bytes → Text) (from_base64 : Text → Bytes)
    (base64 : IsBase64 to_base64 from_base64) (bytes : Bytes) (are : all is_byte bytes ≡ true) where
  in_alphabet : all is_base64_unit (strip_padding (to_base64 bytes)) ≡ true
  in_alphabet = strip_alphabet (to_base64 bytes) (base64.alphabet bytes are)

  pub plain_base64url : all is_plain (base64url to_base64 bytes) ≡ true
  plain_base64url = rw (base64url-eq to_base64 bytes) (to_url_plain _ in_alphabet)

  pub decoded : from_base64 (from_url (base64url to_base64 bytes)) ≡ bytes
  decoded = rw (base64url-eq to_base64 bytes, from_to_url _ in_alphabet) (base64.decodes bytes are)

  pub nonempty_base64url : is_empty bytes ≡ false → is_empty (base64url to_base64 bytes) ≡ false
  unfolding replace_unit
  nonempty_base64url full = elim (Bool-cases (is_empty (base64url to_base64 bytes))) [
    | inr full_text ↦ full_text
    | inl empty ↦
        let none_left : base64url to_base64 bytes ≡ [] = empty_text _ empty in
        let same : from_base64 (from_url []) ≡ bytes = rw none_left at decoded in
        let gone : bytes ≡ [] = sym same ∙ base64.decodes_empty in
        absurd (ground (arith, gone, full))
  ]

module _ (runtime : Runtime) (suitable : IsSuitable runtime) where
  -- Under the documented behaviour of HMAC, base64, UTF-8 and JSON, a token that `signPhoneToken`
  -- made verifies to its phone for the ten minutes that it is valid, and to nothing after them.
  pub verify-sign_phone_token :
      (now later : ℕ) (phone : Text)
      → is_safe (now + token_ttl_ms) ≡ true
      → verify_phone_token runtime later (sign_phone_token runtime now phone)
        ≡ (if ltb (now + token_ttl_ms) later then none else some phone)
  unfolding verify_phone_token sign_phone_token
  verify-sign_phone_token now later phone safe =
      let json = runtime.stringify phone (now + token_ttl_ms) in
      let written = suitable.encoding.writes_bytes json in
      let payload = base64url runtime.to_base64 (runtime.utf8 json) in
      let mac = base64url runtime.to_base64 (runtime.hmac payload) in
      let signed = suitable.mac_bytes payload in
      let plain =
        plain_base64url runtime.to_base64 runtime.from_base64 suitable.base64 (runtime.utf8 json)
          written in
      rw
        (
          before_dot-append payload mac plain,
          second_part-append payload mac plain,
          before_dot_plain mac (
              plain_base64url runtime.to_base64 runtime.from_base64 suitable.base64
                (runtime.hmac payload) signed),
          nonempty_base64url runtime.to_base64 runtime.from_base64 suitable.base64
              (runtime.utf8 json) written
              (suitable.encoding.writes json (suitable.has_payload phone (now + token_ttl_ms))),
          nonempty_base64url runtime.to_base64 runtime.from_base64 suitable.base64
              (runtime.hmac payload) signed (suitable.has_mac payload),
          text_eq_refl mac,
          decoded runtime.to_base64 runtime.from_base64 suitable.base64 (runtime.utf8 json) written,
          suitable.encoding.decodes json (suitable.well_formed phone (now + token_ttl_ms)),
          suitable.reads phone (now + token_ttl_ms) safe,
        )
        refl
