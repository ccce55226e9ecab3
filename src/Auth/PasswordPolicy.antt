-- ===== src/Auth/PasswordPolicy.antt =====
-- packages/nextjs/services/auth/passwordPolicy.ts. The texts of the problems are constructors.
use zk_voting.Prelude.{ℕ, not, Option, none, some, ltb, ◌==◌, length, if◌then◌else◌}
use zk_voting.Prelude.Text.{Text, trim}
use zk_voting.Auth.Relay.Value.{Value, string}

abbrev pub min_password_length : ℕ
min_password_length = 12

abbrev pub max_password_length : ℕ
max_password_length = 200

pub data PasswordProblem : Type 0 where
  no_password too_short too_long outer_space : PasswordProblem

abbrev pub text_problem : Text → Option PasswordProblem
text_problem password =
    if length password == 0
    then some no_password
    else if ltb (length password) min_password_length
    then some too_short
    else if ltb max_password_length (length password)
    then some too_long
    else if not (length (trim password) == length password)
    then some outer_space
    else none

-- `passwordProblem(password)`
unfoldable pub password_problem : Value → Option PasswordProblem
unfolding trim
password_problem (string password) = text_problem password
password_problem _ = some no_password
