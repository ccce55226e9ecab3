-- ===== src/Voters/EnrolmentToken/Tests.antt =====
-- A token of a claim link, with a code of two letters in the place of base64 and of UTF-8.
use zk_voting.Prelude.{◌≡◌, refl, Option, none, some, ◌∷◌}
use zk_voting.Prelude.Int.{pos}
use zk_voting.Prelude.Text.{Text, codes}
use zk_voting.Auth.Relay.Value.{integer}
use zk_voting.Otp.Token.TwoLetters.{
  encode, decode_from, decode-encode, encode_full, encode-IsBase64, encode-IsUtf8,
  encode_well_formed,
}
use zk_voting.Voters.EnrolmentToken.{
  TokenPayload, TokenRuntime, IsSuitable, sign_enrolment_token, verify_enrolment_token,
}
use zk_voting.Voters.EnrolmentToken.RoundTrip.{verify-sign_enrolment_token}

abbrev members : Text → Option TokenPayload
members (exp ∷ division_id ∷ nic_hash) = some (record {
  nic_hash = some nic_hash;
  division_id = some (integer (pos division_id));
  exp = some (pos exp);
})
members _ = none

abbrev runtime : TokenRuntime
runtime = record {
  hmac = λ s. codes "m";
  utf8 = encode;
  from_utf8 = decode_from 0;
  to_base64 = encode;
  from_base64 = decode_from 0;
  stringify = λ nic_hash division_id exp. encode (exp ∷ division_id ∷ nic_hash);
  parse = λ s. members (decode_from 0 s);
}

runtime-IsSuitable : IsSuitable runtime
runtime-IsSuitable = record {
  base64 = encode-IsBase64;
  encoding = encode-IsUtf8;
  reads = λ nic_hash division_id exp safe_id safe_exp.
      rw (decode-encode (exp ∷ division_id ∷ nic_hash)) refl;
  well_formed = λ nic_hash division_id exp. encode_well_formed (exp ∷ division_id ∷ nic_hash);
  has_payload = λ nic_hash division_id exp. encode_full (exp ∷ division_id ∷ nic_hash) refl;
  has_mac = λ s. refl;
  mac_bytes = λ s. refl;
}

verify-sign_enrolment_token_example :
    verify_enrolment_token runtime 9 (sign_enrolment_token runtime 5 (codes "0xab") 3 60)
    ≡ some (record { nic_hash = codes "0xab"; division_id = integer (pos 3) })
verify-sign_enrolment_token_example =
    verify-sign_enrolment_token runtime runtime-IsSuitable 5 9 (codes "0xab") 3 60 refl refl
