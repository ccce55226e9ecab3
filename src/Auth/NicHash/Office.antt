-- ===== src/Auth/NicHash/Office.antt =====
-- Only the officer whom the chain has in office is let through, and every officer is.
use zk_voting.Prelude.{
  ◌≡◌, refl, sym, inl, inr, true, false, Option, none, some, List, find, Bool-cases,
}
use zk_voting.Prelude.Outcome.{Outcome, ok, err, err-ne-ok, ok-injective}
use zk_voting.Auth.Session.{AuthRole, admin, gn}
use zk_voting.Auth.NicHash.{
  NicAccount, NicDivision, NicHashAuthInput, NicRefusal, only_officers, NicGrant, is_division_id,
  is_officer_of, grant_in, grant_to, authorise_nic_hash_session,
}

-- The officer in office: a GN whose account is stored and enabled, and an officer of the first
-- division with the number of the account.
pub record IsInOffice (input : NicHashAuthInput) (account : NicAccount) : Type 0 where
  pub is_gn : input.session.role ≡ gn
  pub on_file : input.account ≡ some account
  pub enabled : account.disabled ≡ false
  pub division : NicDivision
  pub found :
      find (λ (d : NicDivision). is_division_id d.id account.division_id) input.divisions
      ≡ some division
  pub in_office : is_officer_of division account ≡ true

abbrev pub grant_of : NicAccount → NicGrant
grant_of account = record { gn_address = account.address; division_id = account.division_id }

grant_in-eq-ok :
    (account : NicAccount) (m : Option NicDivision) (grant : NicGrant)
    → grant_in account m ≡ ok grant
    → (division : NicDivision) × (m ≡ some division)
      × (is_officer_of division account ≡ true)
      × (grant ≡ grant_of account)
grant_in-eq-ok account none grant h = absurd (err-ne-ok h)
grant_in-eq-ok account (some division) grant h =
    elim (Bool-cases (is_officer_of division account)) [
      | inl office ↦
          let same : grant_of account ≡ grant =
            ok-injective (grant_of account) grant (rw office at h) in
          (division, refl, office, sym same)
      | inr other ↦ absurd (err-ne-ok (rw other at h))
    ]

role_gn :
    (role : AuthRole) (m : Outcome NicRefusal NicGrant) (grant : NicGrant)
    → (elim role [ admin ↦ err only_officers | gn ↦ m ]) ≡ ok grant
    → (role ≡ gn) × (m ≡ ok grant)
role_gn admin m grant h = absurd (err-ne-ok h)
role_gn gn m grant h = (refl, h)

grant_to-eq-ok :
    (found : Option NicAccount) (divisions : List NicDivision) (grant : NicGrant)
    → grant_to found divisions ≡ ok grant
    → (account : NicAccount) × (found ≡ some account)
      × (account.disabled ≡ false)
      × (grant_in account
            (find (λ (d : NicDivision). is_division_id d.id account.division_id) divisions)
          ≡ ok grant)
grant_to-eq-ok none divisions grant h = absurd (err-ne-ok h)
grant_to-eq-ok (some account) divisions grant h = elim (Bool-cases account.disabled) [
  | inl disabled ↦ absurd (err-ne-ok (rw disabled at h))
  | inr enabled ↦ (account, refl, enabled, rw enabled at h)
]

-- `authoriseNicHashSession` grants only an officer in office, under the address and the division of
-- the stored account.
pub authorise_nic_hash_session-IsInOffice :
    (input : NicHashAuthInput) (grant : NicGrant)
    → authorise_nic_hash_session input ≡ ok grant
    → (account : NicAccount) × IsInOffice input account × (grant ≡ grant_of account)
unfolding authorise_nic_hash_session
authorise_nic_hash_session-IsInOffice input grant h =
    let (is_gn, granted) =
      role_gn input.session.role (grant_to input.account input.divisions) grant h in
    let (account, on_file, enabled, given) =
      grant_to-eq-ok input.account input.divisions grant granted in
    let (division, found, office, same) = grant_in-eq-ok account _ grant given in
    (
      account,
      record {
        is_gn = is_gn;
        on_file = on_file;
        enabled = enabled;
        division = division;
        found = found;
        in_office = office;
      },
      same,
    )

-- Every officer in office is granted, whatever the session says of a division.
pub authorise_nic_hash_session_of_IsInOffice :
    (input : NicHashAuthInput) (account : NicAccount)
    → IsInOffice input account
    → authorise_nic_hash_session input ≡ ok (grant_of account)
unfolding authorise_nic_hash_session
authorise_nic_hash_session_of_IsInOffice input account h =
    rw (h.is_gn, h.on_file, h.enabled, h.found, h.in_office) refl
