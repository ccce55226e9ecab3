-- ===== src/Otp/Calls.antt =====
-- Calls of the OTP service, and what each leaves on file for a phone.
use zk_voting.Prelude.{
  ℕ, ◌≡◌, refl, ◌||◌, Option, none, some, List, [], ◌∷◌, arith, ltb, leb, if◌then◌else◌,
}
use zk_voting.Prelude.Map
use zk_voting.Prelude.Map.{get-set, get-delete}
use zk_voting.Prelude.Text.{Text, text_eq, text_eq_iff}
use zk_voting.Otp.{
  OtpRecord, max_attempts, OtpStore, cooldown, new_record, send_new, send_otp, count_attempt,
  verify_record, verify_otp,
}

-- What `sendOtp` leaves on file for its phone, by what is left of the cooldown.
abbrev pub on_file_after_send : Option ℕ → OtpRecord → Option OtpRecord → Option OtpRecord
on_file_after_send none new found = some new
on_file_after_send (some left) new found = found

-- What `verifyOtp` leaves on file for its phone.
abbrev pub on_file_after_verify :
    (Text → Text → Text) → ℕ → Text → Text → Option OtpRecord → Option OtpRecord
on_file_after_verify hash_code now phone code none = none
on_file_after_verify hash_code now phone code (some r) =
    if ltb r.expires_at now
      || leb max_attempts r.attempts
      || text_eq (hash_code phone code) r.code_hash
    then none
    else some (count_attempt hash_code r)

-- A call, with the time that it reads and the number that it draws.
pub data Event : Type 0 where
  send : ℕ → ℕ → Text → Event
  verify : ℕ → Text → Text → Event

module _ (hash_code : Text → Text → Text) (sign : ℕ → Text → Text) where
  unfoldable pub step : Event → OtpStore → OtpStore
  step (send now drawn phone) store = (send_otp hash_code now drawn phone store).0
  step (verify now phone code) store = (verify_otp hash_code sign now phone code store).0

  unfoldable pub run : List Event → OtpStore → OtpStore
  run [] store = store
  run (e ∷ events) store = run events (step e store)

  module _ (mine : Text) where
    same_phone :
        (phone : Text) (store : OtpStore)
        → Map.get mine store
          ≡ (if text_eq phone mine then Map.get phone store else Map.get mine store)
    same_phone phone store = ground (arith, text_eq_iff phone mine)

    get-send_new :
        (held : Option ℕ) (now drawn : ℕ) (phone : Text) (store : OtpStore)
        → Map.get mine (send_new hash_code held now drawn phone store).0 ≡ (
            if text_eq phone mine
            then on_file_after_send held
                (new_record hash_code now drawn phone)
                (Map.get phone store)
            else Map.get mine store)
    get-send_new none now drawn phone store =
        get-set phone mine (new_record hash_code now drawn phone) store
    get-send_new (some left) now drawn phone store = same_phone phone store

    pub get-send :
        (now drawn : ℕ) (phone : Text) (store : OtpStore)
        → Map.get mine (send_otp hash_code now drawn phone store).0 ≡ (
            if text_eq phone mine
            then on_file_after_send
                (cooldown now (Map.get phone store))
                (new_record hash_code now drawn phone)
                (Map.get phone store)
            else Map.get mine store)
    unfolding send_otp
    get-send now drawn phone store = get-send_new _ now drawn phone store

    get-verify_record :
        (now : ℕ) (phone code : Text) (store : OtpStore) (found : Option OtpRecord)
        → Map.get phone store ≡ found
        → Map.get mine (verify_record hash_code sign now phone code store found).0 ≡ (
            if text_eq phone mine
            then on_file_after_verify hash_code now phone code found
            else Map.get mine store)
    get-verify_record now phone code store none is = ground (arith, is, same_phone phone store)
    get-verify_record now phone code store (some r) is = ground (
      arith,
      get-set phone mine (count_attempt hash_code r) store,
      get-delete phone mine store,
      get-delete phone mine (Map.set phone (count_attempt hash_code r) store),
    )

    pub get-verify :
        (now : ℕ) (phone code : Text) (store : OtpStore)
        → Map.get mine (verify_otp hash_code sign now phone code store).0 ≡ (
            if text_eq phone mine
            then on_file_after_verify hash_code now phone code (Map.get phone store)
            else Map.get mine store)
    unfolding verify_otp
    get-verify now phone code store = get-verify_record now phone code store _ refl
