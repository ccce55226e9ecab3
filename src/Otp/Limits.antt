-- ===== src/Otp/Limits.antt =====
-- How often a code can be guessed, and how often it can be used.
use zk_voting.Prelude.{
  ℕ, ◌+◌, ◌-◌, ◌*◌, ◌≤◌, inl, inr, Bool, true, false, Option, none, some, List, [], ◌∷◌, arith,
  Bool-cases,
}
use zk_voting.Prelude.Map
use zk_voting.Prelude.Map.{get-set, get-delete}
use zk_voting.Prelude.Text.{Text, text_eq, text_eq_sound}
use zk_voting.Otp.{
  OtpRecord, SendResult, sent, wait, VerifyResult, verified, incorrect, OtpStore, cooldown,
  new_record, send_new, send_otp, verify_record, verify_otp,
}
use zk_voting.Otp.Calls.{
  on_file_after_send, on_file_after_verify, Event, send, verify, step, get-send, get-verify,
}

-- Guesses still allowed by what is on file for a phone.
abbrev pub left_of : Option OtpRecord → ℕ
left_of none = 0
left_of (some r) = 5 - r.attempts

-- Codes on file for a phone.
abbrev pub codes_of : Option OtpRecord → ℕ
codes_of none = 0
codes_of (some r) = 1

-- Whether the code was looked at.
abbrev pub is_guess : VerifyResult → ℕ
is_guess (verified token) = 1
is_guess incorrect = 1
is_guess _ = 0

abbrev pub is_success : VerifyResult → ℕ
is_success (verified token) = 1
is_success _ = 0

abbrev pub is_sent : SendResult → ℕ
is_sent (sent code) = 1
is_sent (wait left) = 0

abbrev only : Bool → ℕ → ℕ
only true n = n
only false n = 0

module _ (hash_code : Text → Text → Text) (sign : ℕ → Text → Text) where
  module _ (mine : Text) where
    abbrev guesses_of : Event → OtpStore → ℕ
    guesses_of (send now drawn phone) store = 0
    guesses_of (verify now phone code) store =
        only (text_eq phone mine) (is_guess (verify_otp hash_code sign now phone code store).1)

    abbrev successes_of : Event → OtpStore → ℕ
    successes_of (send now drawn phone) store = 0
    successes_of (verify now phone code) store =
        only (text_eq phone mine) (is_success (verify_otp hash_code sign now phone code store).1)

    abbrev sends_of : Event → OtpStore → ℕ
    sends_of (send now drawn phone) store =
        only (text_eq phone mine) (is_sent (send_otp hash_code now drawn phone store).1)
    sends_of (verify now phone code) store = 0

    unfoldable pub guesses : List Event → OtpStore → ℕ
    guesses [] store = 0
    guesses (e ∷ events) store = guesses_of e store + guesses events (step hash_code sign e store)

    unfoldable pub successes : List Event → OtpStore → ℕ
    successes [] store = 0
    successes (e ∷ events) store =
        successes_of e store + successes events (step hash_code sign e store)

    unfoldable pub sends : List Event → OtpStore → ℕ
    sends [] store = 0
    sends (e ∷ events) store = sends_of e store + sends events (step hash_code sign e store)

    send_left :
        (held : Option ℕ) (now drawn : ℕ) (phone : Text) (store : OtpStore)
        (found : Option OtpRecord)
        → left_of (on_file_after_send held (new_record hash_code now drawn phone) found)
          ≤ left_of found + 5 * is_sent (send_new hash_code held now drawn phone store).1
    send_left none now drawn phone store found = omega arith
    send_left (some left) now drawn phone store found = omega arith

    verify_left :
        (now : ℕ) (phone code : Text) (store : OtpStore) (found : Option OtpRecord)
        → is_guess (verify_record hash_code sign now phone code store found).1
            + left_of (on_file_after_verify hash_code now phone code found)
          ≤ left_of found
    verify_left now phone code store none = omega arith
    verify_left now phone code store (some r) = ground arith

    -- Each guess uses up one of those allowed, and each code sent allows five.
    guess_step :
        (e : Event) (store : OtpStore)
        → guesses_of e store + left_of (Map.get mine (step hash_code sign e store))
          ≤ left_of (Map.get mine store) + 5 * sends_of e store
    unfolding step send_otp verify_otp
    guess_step (send now drawn phone) store =
        rw (get-send hash_code sign mine now drawn phone store)
          (elim (Bool-cases (text_eq phone mine)) [
            | inl e ↦
                rw (e, text_eq_sound phone mine e)
                  (omega (
                    arith,
                    send_left (cooldown now (Map.get mine store)) now drawn mine store
                        (Map.get mine store),
                  ))
            | inr e ↦ rw e (omega arith)
          ])
    guess_step (verify now phone code) store =
        rw (get-verify hash_code sign mine now phone code store)
          (elim (Bool-cases (text_eq phone mine)) [
            | inl e ↦
                rw (e, text_eq_sound phone mine e)
                  (omega (arith, verify_left now mine code store (Map.get mine store)))
            | inr e ↦ rw e (omega arith)
          ])

    pub guesses_left :
        (events : List Event) (store : OtpStore)
        → guesses events store ≤ left_of (Map.get mine store) + 5 * sends events store
    unfolding guesses sends
    guesses_left [] store = omega arith
    guesses_left (e ∷ events) store =
        omega (arith, guess_step e store, guesses_left events (step hash_code sign e store))

    -- Between the codes sent to a phone, at most five guesses are looked at, whatever the times and
    -- the calls for other phones.
    pub guesses-le :
        (events : List Event) (store : OtpStore)
        → guesses events store ≤ 5 * (sends events store + 1)
    guesses-le events store = ground (arith, guesses_left events store)

    send_codes :
        (held : Option ℕ) (now drawn : ℕ) (phone : Text) (store : OtpStore)
        (found : Option OtpRecord)
        → codes_of (on_file_after_send held (new_record hash_code now drawn phone) found)
          ≤ codes_of found + is_sent (send_new hash_code held now drawn phone store).1
    send_codes none now drawn phone store none = omega arith
    send_codes none now drawn phone store (some r) = omega arith
    send_codes (some left) now drawn phone store found = omega arith

    verify_codes :
        (now : ℕ) (phone code : Text) (store : OtpStore) (found : Option OtpRecord)
        → is_success (verify_record hash_code sign now phone code store found).1
            + codes_of (on_file_after_verify hash_code now phone code found)
          ≤ codes_of found
    verify_codes now phone code store none = omega arith
    verify_codes now phone code store (some r) = ground arith

    -- Each success uses up the code on file.
    success_step :
        (e : Event) (store : OtpStore)
        → successes_of e store + codes_of (Map.get mine (step hash_code sign e store))
          ≤ codes_of (Map.get mine store) + sends_of e store
    unfolding step send_otp verify_otp
    success_step (send now drawn phone) store =
        rw (get-send hash_code sign mine now drawn phone store)
          (elim (Bool-cases (text_eq phone mine)) [
            | inl e ↦
                rw (e, text_eq_sound phone mine e)
                  (omega (
                    arith,
                    send_codes (cooldown now (Map.get mine store)) now drawn mine store
                        (Map.get mine store),
                  ))
            | inr e ↦ rw e (omega arith)
          ])
    success_step (verify now phone code) store =
        rw (get-verify hash_code sign mine now phone code store)
          (elim (Bool-cases (text_eq phone mine)) [
            | inl e ↦
                rw (e, text_eq_sound phone mine e)
                  (omega (arith, verify_codes now mine code store (Map.get mine store)))
            | inr e ↦ rw e (omega arith)
          ])

    -- A code is used at most once: a phone has no more successes than codes sent to it, with one
    -- more where a code is on file at the start.
    pub successes-le :
        (events : List Event) (store : OtpStore)
        → successes events store ≤ codes_of (Map.get mine store) + sends events store
    unfolding successes sends
    successes-le [] store = omega arith
    successes-le (e ∷ events) store =
        omega (arith, success_step e store, successes-le events (step hash_code sign e store))
