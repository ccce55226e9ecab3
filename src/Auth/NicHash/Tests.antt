-- ===== src/Auth/NicHash/Tests.antt =====
-- An officer asks for a NIC to be hashed.
use zk_voting.Prelude.{◌≡◌, refl, false, some, [], ◌∷◌}
use zk_voting.Prelude.Int.{pos}
use zk_voting.Prelude.Outcome.{ok}
use zk_voting.Prelude.Text.{codes, text_eq, to_lower_case, lower_unit}
use zk_voting.Auth.Relay.Value.{integer}
use zk_voting.Auth.Session.{gn}
use zk_voting.Auth.NicHash.{
  NicAccount, NicDivision, NicHashAuthInput, same_officer, authorise_nic_hash_session,
}
use zk_voting.Auth.NicHash.Office.{IsInOffice, grant_of, authorise_nic_hash_session-IsInOffice}

abbrev account : NicAccount
account = record { address = codes "0xAB"; division_id = integer (pos 1); disabled = false }

abbrev division : NicDivision
division = record { id = 1; gn_officers = codes "0xcd" ∷ codes "0xab" ∷ [] }

-- the session still has the division of before
abbrev input : NicHashAuthInput
input = record {
  session = record { role = gn; username = codes "ann"; division_id = some 7 };
  account = some account;
  divisions = record { id = 0; gn_officers = [] } ∷ division ∷ [];
}

granted : authorise_nic_hash_session input ≡ ok (grant_of account)
unfolding authorise_nic_hash_session same_officer text_eq to_lower_case lower_unit
granted = refl

authorise_nic_hash_session-IsInOffice_example :
    (found : NicAccount) × IsInOffice input found × (grant_of account ≡ grant_of found)
authorise_nic_hash_session-IsInOffice_example =
    authorise_nic_hash_session-IsInOffice input (grant_of account) granted

ann-IsInOffice : IsInOffice input account
unfolding same_officer text_eq to_lower_case lower_unit
ann-IsInOffice = record {
  is_gn = refl;
  on_file = refl;
  enabled = refl;
  division = division;
  found = refl;
  in_office = refl;
}
