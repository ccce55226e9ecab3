-- ===== src/Otp/Tests.antt =====
-- The OTP service at concrete inputs.
use zk_voting.Prelude.{
  ℕ, suc, ◌+◌, ◌*◌, ◌≤◌, ◌≡◌, refl, inl, inr, Bool, true, false, not, ◌&&◌, ◌||◌, Option, none,
  some, List, [], ◌∷◌, ◌++◌, arith, ◌==◌, all, IsIn, if◌then◌else◌,
}
use zk_voting.Prelude.Map
use zk_voting.Prelude.Int.{pos}
use zk_voting.Prelude.Text.{Text, codes, text_eq}
use zk_voting.Otp.{code_ttl_ms, code_of, verified, send_otp, verify_otp, normalise_phone}
use zk_voting.Otp.Calls.{Event, send, verify, run, step}
use zk_voting.Otp.Limits.{guesses, successes, sends, codes_of, guesses-le, successes-le}
use zk_voting.Otp.History.{verified_was_sent}
use zk_voting.Otp.Token.{Payload, Runtime, IsSuitable}
use zk_voting.Otp.Token.TwoLetters.{
  encode, decode_from, decode-encode, encode_full, encode-IsBase64, encode-IsUtf8,
  encode_well_formed,
}

abbrev joined : Text → Text → Text
joined phone code = phone ++ code

abbrev stamp : ℕ → Text → Text
stamp now phone = now ∷ phone

abbrev mine : Text
mine = codes "+94771234567"

abbrev events : List Event
events = send 0 123456 mine ∷ verify 9 mine (codes "000000") ∷ send 10 111111 mine ∷ []

accepted :
    (verify_otp joined stamp 20 mine (codes "123456") (run joined stamp events [])).1
    ≡ verified (stamp 20 mine)
unfolding run step send_otp verify_otp text_eq Map.get Map.set Map.delete
accepted = refl

is_normal : normalise_phone (codes " 077-123 4567") ≡ some mine
unfolding normalise_phone zk_voting.Prelude.Text.trim zk_voting.Prelude.Text.drop_spaces
    zk_voting.Prelude.Text.is_space
is_normal = refl

guesses-le_example :
    guesses joined stamp mine events [] ≤ 5 * (sends joined stamp mine events [] + 1)
guesses-le_example = guesses-le joined stamp mine events []

successes-le_example :
    successes joined stamp mine events []
    ≤ codes_of (Map.get mine []) + sends joined stamp mine events []
successes-le_example = successes-le joined stamp mine events []

verified_was_sent_example :
    (sent_at : ℕ) × (drawn : ℕ) × IsIn (send sent_at drawn mine) events
    × (joined mine (codes "123456") ≡ joined mine (code_of drawn))
    × (20 ≤ sent_at + code_ttl_ms)
    × (stamp 20 mine ≡ stamp 20 mine)
verified_was_sent_example =
    verified_was_sent joined stamp mine events 20 (codes "123456") (stamp 20 mine) accepted

abbrev first_exp : Text → Option Payload
first_exp [] = none
first_exp (exp ∷ phone) = some (record { phone = phone; exp = some (pos exp) })

abbrev runtime : Runtime
runtime = record {
  hmac = λ s. codes "m";
  utf8 = encode;
  from_utf8 = decode_from 0;
  to_base64 = encode;
  from_base64 = decode_from 0;
  stringify = λ phone exp. encode (exp ∷ phone);
  parse = λ s. first_exp (decode_from 0 s);
}

runtime-IsSuitable : IsSuitable runtime
runtime-IsSuitable = record {
  base64 = encode-IsBase64;
  encoding = encode-IsUtf8;
  reads = λ phone exp safe. rw (decode-encode (exp ∷ phone)) refl;
  well_formed = λ phone exp. encode_well_formed (exp ∷ phone);
  has_payload = λ phone exp. encode_full (exp ∷ phone) refl;
  has_mac = λ s. refl;
  mac_bytes = λ s. refl;
}
