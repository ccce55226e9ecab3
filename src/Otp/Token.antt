-- ===== src/Otp/Token.antt =====
-- packages/nextjs/services/otp/otpService.ts, signPhoneToken and verifyPhoneToken. HMAC-SHA256,
-- base64 and JSON are those of the runtime, and arguments here.
pub mod RoundTrip
pub mod TwoLetters
use zk_voting.Prelude.{
  ℕ, ◌+◌, ◌≡◌, refl, sym, ap, ◌∙◌, Bool, true, false, not, ◌&&◌, ◌||◌, Option, none, some, List, [],
  ◌∷◌, ◌++◌, arith, ltb, leb, ◌==◌, all, Bool-cases, inl, inr, if◌then◌else◌,
}
use zk_voting.Prelude.Text.{Text, text_eq, text_eq_refl, in_range}
use zk_voting.Prelude.Int.{ℤ, pos, negsuc}
use zk_voting.Prelude.Bytes.{Bytes, is_byte, is_well_formed, is_safe, IsUtf8}
use zk_voting.Auth.Relay.Value.{is_empty}
use zk_voting.Otp.{token_ttl_ms}

-- What a payload parses to; `exp` is none where it is no number, and is rounded down, which changes
-- no comparison with a time in milliseconds; an infinite one, which no token has, is left out.
pub record Payload : Type 0 where
  pub phone : Text
  pub exp : Option ℤ

-- The runtime's functions: the MAC under the server's secret, Buffer.from(s) and toString(), base64,
-- and JSON. `parse` gives none where it throws.
pub record Runtime : Type 0 where
  pub hmac : Text → Bytes
  pub utf8 : Text → Bytes
  pub from_utf8 : Bytes → Text
  pub to_base64 : Bytes → Text
  pub from_base64 : Text → Bytes
  pub stringify : Text → ℕ → Text
  pub parse : Text → Option Payload

-- `s.replace(/a/g, "b")` for single characters
unfoldable pub replace_unit : ℕ → ℕ → Text → Text
replace_unit a b [] = []
replace_unit a b (c ∷ s) = (if c == a then b else c) ∷ replace_unit a b s

abbrev pub only_padding : Text → Bool
only_padding s = all (λ c. c == b'=') s

-- `s.replace(/=+$/, "")`
unfoldable pub strip_padding : Text → Text
strip_padding [] = []
strip_padding (c ∷ s) = let rest = strip_padding s in if only_padding (c ∷ s) then [] else c ∷ rest

-- `s.split(".")[0]`
unfoldable pub before_dot : Text → Text
before_dot [] = []
before_dot (c ∷ s) = let rest = before_dot s in if c == b'.' then [] else c ∷ rest

-- `s.split(".")[1]`, or the empty text where there is none; both are refused
unfoldable pub second_part : Text → Text
unfolding before_dot
second_part [] = []
second_part (c ∷ s) = let rest = second_part s in if c == b'.' then before_dot s else rest

-- A unit of base64: a letter, a digit, `+`, `/` or `=`.
abbrev pub is_base64_unit : ℕ → Bool
is_base64_unit c =
    in_range b'A' b'Z' c
    || in_range b'a' b'z' c
    || in_range b'0' b'9' c
    || c == b'+'
    || c == b'/'
    || c == b'='

-- `base64url(input)`, of the bytes of the input
unfoldable pub base64url : (Bytes → Text) → Bytes → Text
unfolding replace_unit strip_padding
base64url to_base64 input =
    strip_padding (replace_unit b'/' b'_' (replace_unit b'+' b'-' (to_base64 input)))

-- `Date.now() > exp`
abbrev pub is_past : ℕ → ℤ → Bool
is_past now (pos exp) = ltb exp now
is_past now (negsuc n) = true

module _ (runtime : Runtime) where
  -- `signPhoneToken(phone)`
  unfoldable pub sign_phone_token : ℕ → Text → Text
  unfolding base64url
  sign_phone_token now phone =
      let payload =
        base64url runtime.to_base64 (runtime.utf8 (runtime.stringify phone (now + token_ttl_ms))) in
      payload ++ b'.' ∷ base64url runtime.to_base64 (runtime.hmac payload)

  abbrev pub unexpired : ℕ → Option Payload → Option Text
  unexpired now none = none
  unexpired now (some p) = elim p.exp [
    | none ↦ none
    | some exp ↦ if is_past now exp then none else some p.phone
  ]

  -- `verifyPhoneToken(token)`
  unfoldable pub verify_phone_token : ℕ → Text → Option Text
  unfolding base64url before_dot second_part text_eq replace_unit
  verify_phone_token now token =
      let payload = before_dot token in
      let sig = second_part token in
      if is_empty payload || is_empty sig
      then none
      else if not (text_eq sig (base64url runtime.to_base64 (runtime.hmac payload)))
      then none
      else unexpired now (
          runtime.parse (
            runtime.from_utf8
              (runtime.from_base64 (replace_unit b'_' b'/' (replace_unit b'-' b'+' payload)))))

-- What is documented of base64: it has its alphabet, and decodes without padding.
pub record IsBase64 (to_base64 : Bytes → Text) (from_base64 : Text → Bytes) : Type 0 where
  pub alphabet :
      (bytes : Bytes) → all is_byte bytes ≡ true → all is_base64_unit (to_base64 bytes) ≡ true
  pub decodes :
      (bytes : Bytes)
      → all is_byte bytes ≡ true
      → from_base64 (strip_padding (to_base64 bytes)) ≡ bytes
  pub decodes_empty : from_base64 [] ≡ []

-- What the tokens rely on: base64 and UTF-8 are what they are; JSON.stringify writes well-formed
-- texts, and JSON.parse reads what it wrote of a safe integer; a MAC is some bytes.
pub record IsSuitable (runtime : Runtime) : Type 0 where
  pub base64 : IsBase64 runtime.to_base64 runtime.from_base64
  pub encoding : IsUtf8 runtime.utf8 runtime.from_utf8
  pub reads :
      (phone : Text) (exp : ℕ)
      → is_safe exp ≡ true
      → runtime.parse (runtime.stringify phone exp)
        ≡ some (record { phone = phone; exp = some (pos exp) })
  pub well_formed : (phone : Text) (exp : ℕ) → is_well_formed (runtime.stringify phone exp) ≡ true
  pub has_payload : (phone : Text) (exp : ℕ) → is_empty (runtime.stringify phone exp) ≡ false
  pub has_mac : (s : Text) → is_empty (runtime.hmac s) ≡ false
  pub mac_bytes : (s : Text) → all is_byte (runtime.hmac s) ≡ true
