-- ===== src/Auth/Officers/Created.antt =====
-- What an officer's creation leaves behind where it succeeds.
use zk_voting.Prelude.{
  ℕ, ◌≢◌, ◌≡◌, refl, sym, ap, ◌∙◌, ◌⊎◌, inl, inr, Bool, true, false, Option, none, some, List, find,
  find_sound, IsIn, Bool-cases, if◌then◌else◌,
}
use zk_voting.Prelude.Keyed.{is_some}
use zk_voting.Prelude.Outcome.{Outcome, ok, err, thrown, guard, ◌>>◌, ok-injective}
use zk_voting.Prelude.Text.{Text, codes, text_eq_refl}
use zk_voting.Store.Mutation.{IsReadable}
use zk_voting.Auth.AccountRecords.{
  AccountDisk, AccountStoreError, PublicGnAccount, name_taken, is_name, is_division,
  normalise_username,
}
use zk_voting.Auth.Accounts.{create}
use zk_voting.Auth.Accounts.Effects.{account_of}
use zk_voting.Auth.Accounts.Effects.Creation.{
  gated_account, gated_answer, refusal, or_refusal, create_refines,
}
use zk_voting.Auth.Relay.Contracts.{DivisionSummary}
use zk_voting.Auth.Relay.Policy.{RelayRequest}
use zk_voting.Prelude.Int.{pos}
use zk_voting.Auth.Relay.Value.{integer, string, bool, array, item, end}
use zk_voting.Auth.Relay.Executor.{
  RelayOutcome, relayed, failure, Caller, Executed, execute_relay_call,
}
use zk_voting.Auth.Officers.{
  CreateOfficerInput, CreateOfficerResult, CreateOfficerError, OfficerCreation, OfficerDraw,
  OfficerServer, invalid_username, invalid_division, same_id, same_id_sound, generate_password,
  or_no_division, checked_division, account_input, is_relayed, relay_error, officer_result,
  wants_assign, with_relay, assign_officer, after_create, create_in, create_gn_officer_account,
}

-- The call that puts an address into office in a division.
abbrev pub office_request : Text → Text → RelayRequest
office_request voting_contract address = record {
  target = string voting_contract;
  fn = string (codes "setGNOfficer");
  args = array (item (string address) (item (bool true) end));
}

-- What a result tells of the relay's answer.
abbrev pub IsTold : RelayOutcome → Bool → Option ℕ → Type 0
IsTold (relayed hash block) assigned assign_error = (assigned ≡ true) × (assign_error ≡ none)
IsTold (failure status) assigned assign_error = (assigned ≡ false) × (assign_error ≡ some status)

-- The relay was asked to put the address into office in the division, or it was not asked to.
abbrev pub IsAssigned :
    OfficerServer
    → Caller
    → Text
    → CreateOfficerInput
    → DivisionSummary
    → CreateOfficerResult
    → OfficerCreation
    → Type 0
IsAssigned server caller address input division result creation =
    ((input.assign ≡ some false)
      × (creation.relay_call ≡ none)
      × (result.assigned ≡ false)
      × (result.assign_error ≡ none))
    ⊎ ((input.assign ≢ some false)
        × ((e : Executed) × (execute_relay_call server.submit server.relay_server caller
                (office_request division.voting_contract address)
              ≡ ok e)
            × (creation.relay_call ≡ some e)
            × IsTold e.outcome result.assigned result.assign_error))

is_relayed-IsTold : (o : RelayOutcome) → IsTold o (is_relayed o) (relay_error o)
is_relayed-IsTold (relayed hash block) = (refl, refl)
is_relayed-IsTold (failure status) = (refl, refl)

wanted : (assign : Option Bool) → wants_assign assign ≡ true → assign ≢ some false
wanted none h = λ e. cc
wanted (some true) h = λ e. cc
wanted (some false) h = absurd (cc)

unwanted : (assign : Option Bool) → wants_assign assign ≡ false → assign ≡ some false
unwanted none h = absurd (cc)
unwanted (some true) h = absurd (cc)
unwanted (some false) h = refl

-- A result is the one that the function makes, but for what it tells of the relay.
abbrev pub IsResultOf :
    OfficerServer
    → OfficerDraw
    → CreateOfficerInput
    → DivisionSummary
    → CreateOfficerResult
    → Type 0
IsResultOf server d input division result =
    result ≡ officer_result server d input division result.assigned result.assign_error

module _ (server : OfficerServer) (caller : Caller) (d : OfficerDraw)
    (input : CreateOfficerInput) where
  relay_inversion :
      (division : DivisionSummary) (disk : AccountDisk) (result : CreateOfficerResult)
      (answer : Outcome (Unit {0}) Executed)
      → (with_relay (officer_result server d input division) disk answer).outcome ≡ ok result
      → (e : Executed) × (answer ≡ ok e)
        × ((with_relay (officer_result server d input division) disk answer).relay_call ≡ some e)
        × ((with_relay (officer_result server d input division) disk answer).disk ≡ disk)
        × (result
            ≡ officer_result server d input division (is_relayed e.outcome) (relay_error e.outcome))
  relay_inversion division disk result (ok e) h = (e, refl, refl, refl, sym (ok-injective _ _ h))
  relay_inversion division disk result (err u) h = absurd (cc)
  relay_inversion division disk result thrown h = absurd (cc)

  assign_inversion :
      (division : DivisionSummary) (disk : AccountDisk) (result : CreateOfficerResult)
      → (assign_officer server caller d input division disk).outcome ≡ ok result
      → let made = assign_officer server caller d input division disk in
        (made.disk ≡ disk)
        × IsResultOf server d input division result
        × IsAssigned server caller (server.address_of d.private_key) input division result made
  unfolding assign_officer
  assign_inversion division disk result h = elim (Bool-cases (wants_assign input.assign)) [
    | inl e ↦
        let (executed, answer, call, same, made) =
          relay_inversion division disk result _ (rw e at h) in
        rw e (
          same,
          rw made refl,
          inr (
            wanted input.assign e,
            (executed, answer, call, rw made (is_relayed-IsTold executed.outcome)),
          ),
        )
    | inr e ↦
        let made : officer_result server d input division false none ≡ result =
          ok-injective _ _ (rw e at h) in
        rw e (
          refl,
          rw (← made) refl,
          inl (unwanted input.assign e, refl, rw (← made) refl, rw (← made) refl),
        )
  ]

answer_cases :
    {A : Type 0} (refused : Option AccountStoreError) (taken w : Bool) (e : AccountStoreError)
    (a p : A)
    → or_refusal refused (if taken then err e else if w then ok a else thrown) ≡ ok p
    → (is_some refused ≡ false) × (taken ≡ false) × (w ≡ true)
answer_cases (some x) taken w e a p h = absurd (cc)
answer_cases none true w e a p h = absurd (cc)
answer_cases none false true e a p h = (refl, refl, refl)
answer_cases none false false e a p h = absurd (cc)

none_of : {A : Type 0} (o : Option A) → is_some o ≡ false → o ≡ none
none_of none h = refl
none_of (some a) h = absurd (cc)

-- A creation of the store that succeeds adds the new account, where the name had none.
created_is_stored :
    (server : OfficerServer) (d : OfficerDraw) (input : CreateOfficerInput) (disk : AccountDisk)
    (p : PublicGnAccount)
    → IsReadable disk
    → (create server.crypto server.writable d.draw (account_input server d input) disk).1 ≡ ok p
    → let given = account_input server d input in
      let name = normalise_username given.username in
      (account_of name disk ≡ none)
      × (account_of name (create server.crypto server.writable d.draw given disk).0
          ≡ some (gated_account server.crypto d.draw given))
created_is_stored server d input disk p readable h =
    let given = account_input server d input in
    let name = normalise_username given.username in
    let (answer, leaves) =
      create_refines server.crypto server.writable d.draw given name disk readable in
    let (valid, new, written) =
      answer_cases (refusal given) (is_some (account_of name disk)) server.writable
        (name_taken name) (gated_answer d.draw given) p (sym answer ∙ h) in
    (none_of _ new, leaves ∙ rw (valid, new, written, text_eq_refl name) refl)

-- A creation that returned: its division is the listed one, its account is stored under a name that
-- was free, with the password and the address that are told, the sealed key and the change of
-- password owed, and the relay was asked as was wanted.
pub record IsCreated (server : OfficerServer) (caller : Caller) (d : OfficerDraw)
    (input : CreateOfficerInput) (divisions : List DivisionSummary) (disk : AccountDisk)
    (result : CreateOfficerResult) : Type 0 where
  pub division : DivisionSummary
  pub listed : IsIn division divisions
  pub named : input.division_id ≡ integer (pos division.id)
  pub told_name : result.username ≡ normalise_username input.username
  pub told_password : result.password ≡ generate_password d.bytes
  pub told_address : result.address ≡ server.address_of d.private_key
  pub told_division :
      (result.division_id ≡ input.division_id) × (result.division_name ≡ division.name)
  pub free : account_of (normalise_username result.username) disk ≡ none
  pub stored :
      account_of
        (normalise_username result.username)
        (create_gn_officer_account server caller d input divisions disk).disk
      ≡ some (record {
        id = d.draw.id;
        username = normalise_username result.username;
        password_hash = server.crypto.hash_password d.draw.salt result.password;
        must_change_password = some true;
        password_changed_at = none;
        division_id = result.division_id;
        address = result.address;
        encrypted_private_key =
            server.crypto.encrypt_secret d.draw.nonce d.private_key
              (normalise_username result.username);
        created_at = d.draw.now;
        disabled = false;
      })
  pub assignment :
      IsAssigned server caller
        (server.address_of d.private_key)
        input
        division
        result
        (create_gn_officer_account server caller d input divisions disk)

past_guard :
    (b : Bool) (e : CreateOfficerError) (rest : Outcome CreateOfficerError DivisionSummary)
    (division : DivisionSummary)
    → (guard b e >> rest) ≡ ok division
    → rest ≡ ok division
past_guard true e rest division h = h
past_guard false e rest division h = absurd (cc)

refused_none :
    (found : Option DivisionSummary) (division : DivisionSummary)
    → or_no_division found ≡ ok division
    → found ≡ some division
refused_none none division h = absurd (cc)
refused_none (some d) division h = ap some (ok-injective _ _ h)

checked_division_sound :
    (input : CreateOfficerInput) (divisions : List DivisionSummary) (division : DivisionSummary)
    → checked_division input divisions ≡ ok division
    → IsIn division divisions × (same_id input.division_id division.id ≡ true)
unfolding checked_division
checked_division_sound input divisions division h =
    let found = find (λ (x : DivisionSummary). same_id input.division_id x.id) divisions in
    let whole = guard (is_division input.division_id) invalid_division >> or_no_division found in
    let named = is_name (normalise_username (normalise_username input.username)) in
    let h1 = past_guard named invalid_username whole division h in
    let h2 = past_guard (is_division input.division_id) invalid_division _ division h1 in
    find_sound (λ (x : DivisionSummary). same_id input.division_id x.id) divisions division
      (refused_none _ division h2)

module _ (server : OfficerServer) (caller : Caller) (d : OfficerDraw)
    (input : CreateOfficerInput) where
  after_create_inversion :
      (division : DivisionSummary) (made : AccountDisk × Outcome AccountStoreError PublicGnAccount)
      (result : CreateOfficerResult)
      → (after_create (assign_officer server caller d input division) made).outcome ≡ ok result
      → (p : PublicGnAccount) × (made.1 ≡ ok p)
        × (after_create (assign_officer server caller d input division) made
            ≡ assign_officer server caller d input division made.0)
  after_create_inversion division (disk, ok p) result h = (p, refl, refl)
  after_create_inversion division (disk, err e) result h = absurd (cc)
  after_create_inversion division (disk, thrown) result h = absurd (cc)

  create_in_inversion :
      (disk : AccountDisk) (verdict : Outcome CreateOfficerError DivisionSummary)
      (result : CreateOfficerResult)
      → (create_in server caller d input disk verdict).outcome ≡ ok result
      → (division : DivisionSummary) × (verdict ≡ ok division)
  create_in_inversion disk (ok division) result h = (division, refl)
  create_in_inversion disk (err e) result h = absurd (cc)
  create_in_inversion disk thrown result h = absurd (cc)

  -- Where the creation of an officer returns, the division is a listed one with the id asked for; the
  -- name was free and has now an enabled account that owes a change of password, with the hash of
  -- the password that is told, the address that is told, which is of the drawn key, and that key
  -- sealed; and, unless that was not wanted, the relay was asked to put the address into office in
  -- the division by setGNOfficer with `true`, and what it answered is told.
  pub create_gn_officer_account-IsCreated :
      (divisions : List DivisionSummary) (disk : AccountDisk) (result : CreateOfficerResult)
      → IsReadable disk
      → (create_gn_officer_account server caller d input divisions disk).outcome ≡ ok result
      → IsCreated server caller d input divisions disk result
  unfolding create_gn_officer_account
  create_gn_officer_account-IsCreated divisions disk result readable h =
      let (division, checked) =
        create_in_inversion disk (checked_division input divisions) result h in
      let made = create server.crypto server.writable d.draw (account_input server d input) disk in
      let h1 : (after_create (assign_officer server caller d input division) made).outcome
          ≡ ok result =
        rw checked at h in
      let (p, stored_ok, path) = after_create_inversion division made result h1 in
      let h2 : (assign_officer server caller d input division made.0).outcome ≡ ok result =
        rw (path) at h1 in
      let (same, returned, assignment) =
        assign_inversion server caller d input division made.0 result h2 in
      let (free, stored) = created_is_stored server d input disk p readable stored_ok in
      let (listed, named) = checked_division_sound input divisions division checked in
      record {
        division = division;
        listed = listed;
        named = same_id_sound input.division_id division.id named;
        told_name = rw returned refl;
        told_password = rw returned refl;
        told_address = rw returned refl;
        told_division = (rw returned refl, rw returned refl);
        free = rw returned free;
        stored = rw returned (rw (checked, path, same) stored);
        assignment = rw (checked, path) assignment;
      }
