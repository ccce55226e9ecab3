-- ===== src/Auth/Login/Tests.antt =====
-- Logins of an officer and of the admin, with a hash that hides nothing.
use zk_voting.Prelude.{◌≡◌, refl, inl, inr, true, false, none, some, [], ◌∷◌, ◌++◌, arith}
use zk_voting.Prelude.Int.{pos}
use zk_voting.Prelude.Json.{string, object, no_members, member}
use zk_voting.Prelude.Map
use zk_voting.Prelude.Outcome.{ok}
use zk_voting.Prelude.Text.{
  Text, codes, text_eq, trim, to_lower_case, drop_spaces, is_space, lower_unit,
}
use zk_voting.Store.{absent, stored, read}
use zk_voting.Auth.AccountRecords.{AccountDisk, GnAccountRecord, normalise_username}
use zk_voting.Auth.Accounts.{find_by_username}
use zk_voting.Auth.LoginGuard.{Failures, record_success, status_for}
use zk_voting.Auth.LoginGuard.Calls.{run}
use zk_voting.Auth.RateLimit.{consume, admit, reset}
use zk_voting.Auth.Relay.Value.{integer}
use zk_voting.Auth.Session.{SessionData, gn, is_custom_mode, resolve_chain_mode}
use zk_voting.Auth.ClientIp.{client_ip_from, before_comma}
use zk_voting.Auth.Credentials.{
  LoginConfig, LoginRuntime, credentials_of, verdict_on, account_locked,
}
use zk_voting.Auth.Login.{LoginRequest, Throttles, arrive, check_lock, settle, sign_in_with, post}
use zk_voting.Auth.Login.Sound.{IsSignIn, saved-IsSignIn}
use zk_voting.Auth.Login.Refused.{post_tells_nothing, locked_is_refused}

first_hop :
    (client_ip_from (some (codes " 10.0.0.1 , 10.0.0.2")) none ≡ codes "10.0.0.1")
    × (client_ip_from none (some (codes "  ")) ≡ codes "unknown")
unfolding client_ip_from before_comma trim drop_spaces is_space
first_hop = (refl, refl)

abbrev runtime : LoginRuntime
runtime = record {
  crypto = record {
    hash_password = λ salt password. salt ++ password;
    compare = λ password password_hash. some (text_eq password_hash (codes "s" ++ password));
    encrypt_secret = λ nonce secret aad. secret;
    decrypt_secret = λ envelope aad. some envelope;
  };
  utf8 = λ s. s;
}

abbrev config : LoginConfig
config = record {
  chain_backend = some (codes "custom");
  admin_username = some (codes "Root");
  admin_password_hash = some (codes "sadmin");
}

abbrev ann : GnAccountRecord
ann = record {
  id = codes "1";
  username = codes "ann";
  password_hash = codes "sright";
  must_change_password = some true;
  password_changed_at = none;
  division_id = integer (pos 2);
  address = codes "0x1";
  encrypted_private_key = codes "k";
  created_at = codes "mon";
  disabled = false;
}

abbrev with_ann : AccountDisk
with_ann = stored (ann ∷ [])

abbrev request : Text → LoginRequest
request password = record {
  ip = codes "10.0.0.1";
  body = some (
      object (
        member (codes "username") (string (codes " Ann"))
          (member (codes "password") (string password) no_members)));
  arrived_at = 1000;
  status_at = 1001;
  times = record { checked_at = 1002; failed_at = 1002; reported_at = 1002; logged_in_at = 1003 };
  has_session = true;
}

abbrev no_throttles : Throttles
no_throttles = record { attempts = []; failures = [] }

abbrev ann_session : SessionData
ann_session = record {
  username = some (codes "ann");
  role = some gn;
  division_id = some 2;
  must_change_password = some true;
  logged_in_at = some 1003;
}

ann_signs_in :
    (post config runtime with_ann (request (codes "right")) no_throttles).saved ≡ some ann_session
unfolding post arrive credentials_of sign_in_with check_lock verdict_on settle consume admit reset
    status_for record_success find_by_username read normalise_username text_eq trim drop_spaces
    is_space to_lower_case lower_unit is_custom_mode resolve_chain_mode Map.get Map.set Map.delete
ann_signs_in = refl

saved-IsSignIn_example :
    IsSignIn config runtime with_ann (request (codes "right")) no_throttles ann_session
saved-IsSignIn_example =
    saved-IsSignIn config runtime with_ann (request (codes "right")) no_throttles ann_session
      ann_signs_in

given :
    (password : Text)
    → credentials_of (request (b'w' ∷ password)).body ≡ ok (codes "ann", b'w' ∷ password)
unfolding credentials_of text_eq trim drop_spaces is_space to_lower_case lower_unit
given password = refl

post_tells_nothing_example :
    post config runtime with_ann (request (codes "wrong")) no_throttles
    ≡ post config runtime absent (request (codes "wrong")) no_throttles
unfolding find_by_username read normalise_username text_eq trim drop_spaces is_space to_lower_case
    lower_unit
post_tells_nothing_example =
    post_tells_nothing config runtime with_ann absent (codes "ann") (codes "wrong")
      (request (codes "wrong")) no_throttles (given (codes "rong")) refl (inr (ann, refl, inr refl))
      (inl refl)

abbrev locked : Failures
locked = record { count = 5; locked_until = 900500 }

abbrev locked_ann : Throttles
locked_ann = record { attempts = []; failures = (codes "ann", locked) ∷ [] }

abbrev with_w : AccountDisk
with_w = stored (record ann { password_hash = codes "swell" } ∷ [])

locked_is_refused_example :
    let effects = post config runtime with_w (request (codes "well")) locked_ann in
    (effects.saved ≡ none)
    × (effects.answer ≡ account_locked 899499)
    × (Map.get (codes "ann") effects.throttles.failures ≡ some locked)
unfolding is_custom_mode resolve_chain_mode consume admit Map.get text_eq trim drop_spaces is_space
    to_lower_case lower_unit run
locked_is_refused_example =
    locked_is_refused config runtime with_w (codes "ann") (codes "well") (request (codes "well"))
      locked_ann locked [] locked_ann.failures refl refl (given (codes "ell")) refl refl
      (omega arith) tt (omega arith)
