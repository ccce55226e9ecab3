-- ===== src/Auth/Session/Gate/Tests.antt =====
-- The gate at concrete inputs.
use zk_voting.Prelude.{◌≡◌, refl, true, false, Option, some}
use zk_voting.Prelude.Text.{
  Text, codes, text_eq, trim, to_lower_case, starts_with, drop_spaces, is_space, lower_unit,
}
use zk_voting.Auth.Session.{
  gn, SessionData, change_password_path, is_custom_mode, resolve_chain_mode,
  is_path_allowed_for_role, is_path_allowed_while_password_pending,
}
use zk_voting.Auth.Session.Gate.{require_session, redirect_to, next, middleware}
use zk_voting.Auth.Session.Gate.Coherence.{
  answer_code, session_code, required_role, middleware-require_session,
}

abbrev backend : Option Text
backend = some (codes " Custom ")

abbrev officer : SessionData
officer = record {
  username = some (codes "ann");
  role = some gn;
  division_id = some 2;
  must_change_password = some false;
  logged_in_at = some 5;
}

abbrev new_officer : SessionData
new_officer = record officer { must_change_password = some true }

abbrev accounts : Text
accounts = codes "/api/gn-accounts"

is_custom : is_custom_mode backend ≡ true
unfolding is_custom_mode resolve_chain_mode trim to_lower_case text_eq drop_spaces is_space
    lower_unit
is_custom = refl

officer_is_refused : answer_code (middleware backend accounts (some officer)) ≡ 403
unfolding middleware is_custom_mode resolve_chain_mode trim to_lower_case text_eq drop_spaces
    is_space lower_unit starts_with is_path_allowed_for_role is_path_allowed_while_password_pending
officer_is_refused = refl

middleware-require_session_example :
    answer_code (middleware backend accounts (some officer))
    ≡ session_code (require_session (required_role accounts) false (some officer))
unfolding starts_with is_path_allowed_while_password_pending text_eq
middleware-require_session_example =
    middleware-require_session backend accounts (some officer) is_custom refl refl

lets_through : middleware backend (codes "/gn/register") (some officer) ≡ next
unfolding middleware is_custom_mode resolve_chain_mode trim to_lower_case text_eq drop_spaces
    is_space lower_unit starts_with is_path_allowed_for_role is_path_allowed_while_password_pending
lets_through = refl

sends_away : middleware backend (codes "/gn") (some new_officer) ≡ redirect_to change_password_path
unfolding middleware is_custom_mode resolve_chain_mode trim to_lower_case text_eq drop_spaces
    is_space lower_unit starts_with is_path_allowed_for_role is_path_allowed_while_password_pending
sends_away = refl
