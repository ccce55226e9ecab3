-- ===== src/Voters/EnrolmentToken.antt =====
-- packages/nextjs/services/voters/enrolmentToken.ts. HMAC-SHA256, base64 and JSON are those of the
-- runtime, and arguments here; base64url is the same code as in services/otp/otpService.ts.
pub mod RoundTrip
mod Tests
use zk_voting.Prelude.{
  ℕ, ◌+◌, ◌*◌, ◌≡◌, Bool, true, false, not, ◌&&◌, ◌||◌, Option, none, some, [], ◌∷◌, ◌++◌, ltb, all,
  if◌then◌else◌,
}
use zk_voting.Prelude.Text.{Text, text_eq}
use zk_voting.Auth.Relay.Value.{Number, integer, is_empty}
use zk_voting.Prelude.Int.{ℤ, pos}
use zk_voting.Prelude.Bytes.{Bytes, is_byte, is_well_formed, is_safe, IsUtf8}
use zk_voting.Otp.Token.{base64url, before_dot, second_part, replace_unit, is_past, IsBase64}

abbrev pub default_ttl_ms : ℕ
default_ttl_ms = 72 * 60 * 60 * 1000

-- What a payload parses to; a member is none where it has another type. `exp` is rounded down, which
-- changes no comparison with a time in milliseconds; an infinite one, which no token has, is left out.
pub record TokenPayload : Type 0 where
  pub nic_hash : Option Text
  pub division_id : Option Number
  pub exp : Option ℤ

-- Whom a token is for.
pub record TokenClaim : Type 0 where
  pub nic_hash : Text
  pub division_id : Number

-- The runtime's functions: the MAC under the server's secret, Buffer.from(s) and toString(), base64,
-- and JSON. `parse` gives none where it throws, and where what it gives has no members.
pub record TokenRuntime : Type 0 where
  pub hmac : Text → Bytes
  pub utf8 : Text → Bytes
  pub from_utf8 : Bytes → Text
  pub to_base64 : Bytes → Text
  pub from_base64 : Text → Bytes
  pub stringify : Text → ℕ → ℕ → Text
  pub parse : Text → Option TokenPayload

abbrev pub claim_if_whole : Option Text → Option Number → Option TokenClaim
claim_if_whole (some nic_hash) (some division_id) =
    some (record { nic_hash = nic_hash; division_id = division_id })
claim_if_whole _ _ = none

abbrev pub claim_until : ℕ → TokenPayload → Option ℤ → Option TokenClaim
claim_until now p none = none
claim_until now p (some exp) =
    if is_past now exp then none else claim_if_whole p.nic_hash p.division_id

abbrev pub claim_of : ℕ → Option TokenPayload → Option TokenClaim
claim_of now none = none
claim_of now (some p) = claim_until now p p.exp

module _ (runtime : TokenRuntime) where
  -- `signEnrolmentToken(nicHash, divisionId, ttlMs)`
  unfoldable pub sign_enrolment_token : ℕ → Text → ℕ → ℕ → Text
  unfolding base64url
  sign_enrolment_token now nic_hash division_id ttl_ms =
      let payload =
        base64url runtime.to_base64
          (runtime.utf8 (runtime.stringify nic_hash division_id (now + ttl_ms))) in
      payload ++ b'.' ∷ base64url runtime.to_base64 (runtime.hmac payload)

  -- `verifyEnrolmentToken(token)`
  unfoldable pub verify_enrolment_token : ℕ → Text → Option TokenClaim
  unfolding base64url before_dot second_part text_eq replace_unit
  verify_enrolment_token now token =
      let payload = before_dot token in
      let sig = second_part token in
      if is_empty payload || is_empty sig
      then none
      else if not (text_eq sig (base64url runtime.to_base64 (runtime.hmac payload)))
      then none
      else claim_of now (
          runtime.parse (
            runtime.from_utf8
              (runtime.from_base64 (replace_unit b'_' b'/' (replace_unit b'-' b'+' payload)))))

-- What the tokens rely on: base64 and UTF-8 are what they are; JSON.stringify writes well-formed
-- texts, and JSON.parse reads what it wrote of safe integers; a MAC is some bytes.
pub record IsSuitable (runtime : TokenRuntime) : Type 0 where
  pub base64 : IsBase64 runtime.to_base64 runtime.from_base64
  pub encoding : IsUtf8 runtime.utf8 runtime.from_utf8
  pub reads :
      (nic_hash : Text) (division_id exp : ℕ)
      → is_safe division_id ≡ true
      → is_safe exp ≡ true
      → runtime.parse (runtime.stringify nic_hash division_id exp)
        ≡ some (record {
          nic_hash = some nic_hash;
          division_id = some (integer (pos division_id));
          exp = some (pos exp);
        })
  pub well_formed :
      (nic_hash : Text) (division_id exp : ℕ)
      → is_well_formed (runtime.stringify nic_hash division_id exp) ≡ true
  pub has_payload :
      (nic_hash : Text) (division_id exp : ℕ)
      → is_empty (runtime.stringify nic_hash division_id exp) ≡ false
  pub has_mac : (s : Text) → is_empty (runtime.hmac s) ≡ false
  pub mac_bytes : (s : Text) → all is_byte (runtime.hmac s) ≡ true
