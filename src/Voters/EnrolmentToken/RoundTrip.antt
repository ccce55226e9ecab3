-- ===== src/Voters/EnrolmentToken/RoundTrip.antt =====
-- A claim link's token verifies to what it was signed for, until it expires.
use zk_voting.Prelude.{ℕ, ◌+◌, ◌≡◌, refl, true, none, some, ltb, if◌then◌else◌}
use zk_voting.Prelude.Int.{pos}
use zk_voting.Prelude.Bytes.{is_safe}
use zk_voting.Prelude.Text.{Text, text_eq_refl}
use zk_voting.Auth.Relay.Value.{integer}
use zk_voting.Otp.Token.{base64url}
use zk_voting.Otp.Token.RoundTrip.{
  before_dot-append, second_part-append, before_dot_plain, plain_base64url, decoded,
  nonempty_base64url,
}
use zk_voting.Voters.EnrolmentToken.{
  TokenRuntime, sign_enrolment_token, verify_enrolment_token, IsSuitable,
}

module _ (runtime : TokenRuntime) (suitable : IsSuitable runtime) where
  -- Under the documented behaviour of HMAC, base64, UTF-8 and JSON, a token that
  -- `signEnrolmentToken` made for a division and a time that are safe integers verifies to its NIC
  -- and division for its time to live, and to nothing after it.
  pub verify-sign_enrolment_token :
      (now later : ℕ) (nic_hash : Text) (division_id ttl_ms : ℕ)
      → is_safe division_id ≡ true
      → is_safe (now + ttl_ms) ≡ true
      → verify_enrolment_token runtime later
          (sign_enrolment_token runtime now nic_hash division_id ttl_ms)
        ≡ (if ltb (now + ttl_ms) later
            then none
            else some (record { nic_hash = nic_hash; division_id = integer (pos division_id) }))
  unfolding verify_enrolment_token sign_enrolment_token
  verify-sign_enrolment_token now later nic_hash division_id ttl_ms safe_id safe_exp =
      let json = runtime.stringify nic_hash division_id (now + ttl_ms) in
      let written = suitable.encoding.writes_bytes json in
      let payload = base64url runtime.to_base64 (runtime.utf8 json) in
      let mac = base64url runtime.to_base64 (runtime.hmac payload) in
      let signed = suitable.mac_bytes payload in
      let plain =
        plain_base64url runtime.to_base64 runtime.from_base64 suitable.base64 (runtime.utf8 json)
          written in
      rw
        (
          before_dot-append payload mac plain,
          second_part-append payload mac plain,
          before_dot_plain mac (
              plain_base64url runtime.to_base64 runtime.from_base64 suitable.base64
                (runtime.hmac payload) signed),
          nonempty_base64url runtime.to_base64 runtime.from_base64 suitable.base64
              (runtime.utf8 json) written
              (suitable.encoding.writes json
                (suitable.has_payload nic_hash division_id (now + ttl_ms))),
          nonempty_base64url runtime.to_base64 runtime.from_base64 suitable.base64
              (runtime.hmac payload) signed (suitable.has_mac payload),
          text_eq_refl mac,
          decoded runtime.to_base64 runtime.from_base64 suitable.base64 (runtime.utf8 json) written,
          suitable.encoding.decodes json (suitable.well_formed nic_hash division_id (now + ttl_ms)),
          suitable.reads nic_hash division_id (now + ttl_ms) safe_id safe_exp,
        )
        refl
