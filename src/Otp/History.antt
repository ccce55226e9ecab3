-- ===== src/Otp/History.antt =====
-- A verified code is one that was sent, and in time.
use zk_voting.Prelude.{
  ℕ, ◌+◌, ◌≤◌, ◌≡◌, refl, inl, inr, ◌⊎◌, ◌∙◌, Option, none, some, List, [], ◌∷◌, arith, IsIn,
  Bool-cases,
}
use zk_voting.Prelude.Map
use zk_voting.Prelude.Text.{Text, text_eq, text_eq_sound}
use zk_voting.Otp.{
  OtpRecord, code_ttl_ms, code_of, verified, OtpStore, cooldown, new_record, count_attempt,
  verify_record, verify_otp,
}
use zk_voting.Otp.Calls.{
  on_file_after_send, on_file_after_verify, Event, send, verify, step, run, get-send, get-verify,
}

module _ (hash_code : Text → Text → Text) (sign : ℕ → Text → Text) (mine : Text) where
  -- The record holds a code sent to the phone in one of the calls.
  abbrev pub IsSent : List Event → OtpRecord → Type 0
  IsSent events r =
      (now : ℕ) × (drawn : ℕ) × IsIn (send now drawn mine) events
      × (r.code_hash ≡ hash_code mine (code_of drawn))
      × (r.expires_at ≡ now + code_ttl_ms)

  -- The record holds the code of one on file before.
  abbrev IsKept : Option OtpRecord → OtpRecord → Type 0
  IsKept found r =
      (old : OtpRecord) × (found ≡ some old)
      × (r.code_hash ≡ old.code_hash)
      × (r.expires_at ≡ old.expires_at)

  after_send :
      (held : Option ℕ) (now drawn : ℕ) (found : Option OtpRecord) (r : OtpRecord)
      → on_file_after_send held (new_record hash_code now drawn mine) found ≡ some r
      → ((r.code_hash ≡ hash_code mine (code_of drawn)) × (r.expires_at ≡ now + code_ttl_ms))
        ⊎ IsKept found r
  after_send none now drawn found r h =
      let same : new_record hash_code now drawn mine ≡ r = cc in inl (rw (← same) (refl, refl))
  after_send (some left) now drawn found r h = inr (r, h, refl, refl)

  after_verify :
      (now : ℕ) (code : Text) (found : Option OtpRecord) (r : OtpRecord)
      → on_file_after_verify hash_code now mine code found ≡ some r
      → IsKept found r
  after_verify now code none r h = absurd (cc)
  after_verify now code (some old) r h =
      let same : count_attempt hash_code old ≡ r = ground arith in
      (old, refl, rw (← same) refl, rw (← same) refl)

  step_origin :
      (e : Event) (store : OtpStore) (r : OtpRecord)
      → Map.get mine (step hash_code sign e store) ≡ some r
      → IsSent (e ∷ []) r ⊎ IsKept (Map.get mine store) r
  unfolding step
  step_origin (send now drawn phone) store r h = elim (Bool-cases (text_eq phone mine)) [
    | inl e ↦
        elim (after_send (cooldown now (Map.get mine store)) now drawn (Map.get mine store) r (
          rw (get-send hash_code sign mine now drawn phone store, e, text_eq_sound phone mine e) at
            h)) [
              | inl (hashed, until) ↦
                  inl (now, drawn, inl (rw (text_eq_sound phone mine e)), hashed, until)
              | inr kept ↦ inr kept
            ]
    | inr e ↦ inr (r, rw (get-send hash_code sign mine now drawn phone store, e) at h, refl, refl)
  ]
  step_origin (verify now phone code) store r h = elim (Bool-cases (text_eq phone mine)) [
    | inl e ↦ inr (
        after_verify now code (Map.get mine store) r (
          rw (get-verify hash_code sign mine now phone code store, e, text_eq_sound phone mine e) at
            h))
    | inr e ↦ inr (r, rw (get-verify hash_code sign mine now phone code store, e) at h, refl, refl)
  ]

  run_origin :
      (events : List Event) (store : OtpStore) (r : OtpRecord)
      → Map.get mine (run hash_code sign events store) ≡ some r
      → IsSent events r ⊎ IsKept (Map.get mine store) r
  unfolding run
  run_origin [] store r h = inr (r, h, refl, refl)
  run_origin (e ∷ events) store r h = elim (run_origin events (step hash_code sign e store) r h) [
    | inl (now, drawn, is_in, hashed, until) ↦ inl (now, drawn, inr is_in, hashed, until)
    | inr (old, found, hashed, until) ↦ elim (step_origin e store old found) [
      | inl (now, drawn, inl same, hashed_then, until_then) ↦
          inl (now, drawn, inl same, hashed ∙ hashed_then, until ∙ until_then)
      | inl (now, drawn, inr none_left, hashed_then, until_then) ↦ absurd none_left
      | inr (older, found_then, hashed_then, until_then) ↦
          inr (older, found_then, hashed ∙ hashed_then, until ∙ until_then)
    ]
  ]

  verified_record :
      (now : ℕ) (code token : Text) (store : OtpStore) (found : Option OtpRecord)
      → (verify_record hash_code sign now mine code store found).1 ≡ verified token
      → (r : OtpRecord) × (found ≡ some r)
        × (hash_code mine code ≡ r.code_hash)
        × (now ≤ r.expires_at)
        × (token ≡ sign now mine)
  verified_record now code token store none h = absurd (ground arith)
  verified_record now code token store (some r) h = (
    r,
    refl,
    text_eq_sound (hash_code mine code) r.code_hash (ground arith),
    ground arith,
    ground arith,
  )

  -- From an empty store, `verifyOtp` accepts a code for a phone only where a code with the same hash
  -- was sent to that phone no more than five minutes before, and its token is the one signed for
  -- the phone at that time.
  pub verified_was_sent :
      (events : List Event) (now : ℕ) (code token : Text)
      → (verify_otp hash_code sign now mine code (run hash_code sign events [])).1 ≡ verified token
      → (sent_at : ℕ) × (drawn : ℕ) × IsIn (send sent_at drawn mine) events
        × (hash_code mine code ≡ hash_code mine (code_of drawn))
        × (now ≤ sent_at + code_ttl_ms)
        × (token ≡ sign now mine)
  unfolding verify_otp Map.get
  verified_was_sent events now code token h =
      let store = run hash_code sign events [] in
      let (r, found, right, in_time, signed) =
        verified_record now code token store (Map.get mine store) h in
      elim (run_origin events [] r found) [
        | inl (sent_at, drawn, is_in, hashed, until) ↦
            (sent_at, drawn, is_in, right ∙ hashed, rw until at in_time, signed)
        | inr (old, none_there, _, _) ↦ absurd (cc)
      ]
