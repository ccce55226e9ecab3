-- ===== src/Otp.antt =====
-- packages/nextjs/services/otp/otpService.ts: codes by phone. The store of codes is a table, and
-- the clock is the time that a call reads, in milliseconds. HMAC-SHA256 is an argument.
pub mod Calls
pub mod Limits
pub mod History
pub mod Token
mod Tests
use Prim.Native.Nat.{◌/◌, ◌%◌}
use zk_voting.Prelude.{
  ℕ, ◌+◌, ◌-◌, ◌*◌, ◌≡◌, Bool, true, false, not, ◌&&◌, ◌||◌, Option, none, some, List, [], ◌∷◌,
  ◌++◌, ltb, leb, ◌==◌, length, all, if◌then◌else◌,
}
use zk_voting.Prelude.Map
use zk_voting.Prelude.Map.{Entries}
use zk_voting.Prelude.Text.{Text, codes, text_eq, trim, is_space, is_digit}

abbrev pub code_ttl_ms : ℕ
code_ttl_ms = 5 * 60 * 1000

abbrev pub max_attempts : ℕ
max_attempts = 5

abbrev pub resend_cooldown_ms : ℕ
resend_cooldown_ms = 30 * 1000

abbrev pub token_ttl_ms : ℕ
token_ttl_ms = 10 * 60 * 1000

pub record OtpRecord : Type 0 where
  pub code_hash : Text
  pub expires_at : ℕ
  pub attempts : ℕ
  pub last_sent_at : ℕ

-- `trim().replace(/[\s-]/g, "")`
abbrev drop_separators : Text → Text
drop_separators [] = []
drop_separators (c ∷ s) =
    let rest = drop_separators s in if is_space c || c == b'-' then rest else c ∷ rest

-- eight digits and no more
abbrev pub is_subscriber : Text → Bool
is_subscriber s = length s == 8 && all is_digit s

-- what follows a prefix
abbrev pub after : Text → Text → Option Text
after [] s = some s
after (p ∷ prefix) [] = none
after (p ∷ prefix) (c ∷ s) = let rest = after prefix s in if c == p then rest else none

abbrev pub full_number : Option Text → Option Text → Option Text
full_number none otherwise = otherwise
full_number (some s) otherwise = if is_subscriber s then some (codes "+947" ++ s) else otherwise

-- the three formats of a mobile number, tried in the order of the source
abbrev pub mobile_number : Text → Option Text
mobile_number s =
    full_number (after (codes "+947") s)
      (full_number (after (codes "947") s) (full_number (after (codes "07") s) none))

-- `normalisePhone(phone)`
unfoldable pub normalise_phone : Text → Option Text
unfolding trim is_space
normalise_phone phone = mobile_number (drop_separators (trim phone))

abbrev digit : ℕ → ℕ
digit n = b'0' + n % 10

-- `crypto.randomInt(0, 1_000_000).toString().padStart(6, "0")` for the number drawn
abbrev pub code_of : ℕ → Text
code_of n =
    digit (n / 100000)
    ∷ digit (n / 10000)
    ∷ digit (n / 1000)
    ∷ digit (n / 100)
    ∷ digit (n / 10)
    ∷ digit n
    ∷ []

pub data SendResult : Type 0 where
  sent : Option Text → SendResult
  wait : ℕ → SendResult

pub data VerifyResult : Type 0 where
  verified : Text → VerifyResult
  no_code expired too_many_attempts incorrect : VerifyResult

abbrev pub OtpStore : Type 0
OtpStore = Entries OtpRecord

-- `existing && now - existing.lastSentAt < RESEND_COOLDOWN_MS`, and what is left of it
abbrev pub cooldown : ℕ → Option OtpRecord → Option ℕ
cooldown now none = none
cooldown now (some r) =
    if ltb now (r.last_sent_at + resend_cooldown_ms)
    then some (r.last_sent_at + resend_cooldown_ms - now)
    else none

-- `hashCode` is an HMAC of the phone and the code; `sign` is signPhoneToken at the time of the call
module _ (hash_code : Text → Text → Text) where
  abbrev pub new_record : ℕ → ℕ → Text → OtpRecord
  new_record now drawn phone = record {
    code_hash = hash_code phone (code_of drawn);
    expires_at = now + code_ttl_ms;
    attempts = 0;
    last_sent_at = now;
  }

  abbrev pub send_new : Option ℕ → ℕ → ℕ → Text → OtpStore → OtpStore × SendResult
  send_new (some left) now drawn phone store = (store, wait left)
  send_new none now drawn phone store =
      (Map.set phone (new_record now drawn phone) store, sent (some (code_of drawn)))

  -- `sendOtp(phone)`; the provider is the mock, so that the code is returned
  unfoldable pub send_otp : ℕ → ℕ → Text → OtpStore → OtpStore × SendResult
  unfolding Map.get Map.set
  send_otp now drawn phone store =
      send_new (cooldown now (Map.get phone store)) now drawn phone store

  abbrev pub count_attempt : OtpRecord → OtpRecord
  count_attempt r = record r { attempts = r.attempts + 1 }

  abbrev pub verify_record :
      (ℕ → Text → Text) → ℕ → Text → Text → OtpStore → Option OtpRecord → OtpStore × VerifyResult
  verify_record sign now phone code store none = (store, no_code)
  verify_record sign now phone code store (some r) =
      if ltb r.expires_at now
      then (Map.delete phone store, expired)
      else if leb max_attempts r.attempts
      then (Map.delete phone store, too_many_attempts)
      else if not (text_eq (hash_code phone code) r.code_hash)
      then (Map.set phone (count_attempt r) store, incorrect)
      else (Map.delete phone (Map.set phone (count_attempt r) store), verified (sign now phone))

  -- `verifyOtp(phone, code)`
  unfoldable pub verify_otp :
      (ℕ → Text → Text) → ℕ → Text → Text → OtpStore → OtpStore × VerifyResult
  unfolding Map.get Map.set Map.delete text_eq
  verify_otp sign now phone code store =
      verify_record sign now phone code store (Map.get phone store)
