-- ===== src/Auth/Relay/Revert/Tests.antt =====
-- Errors whose causes are a cycle.
use zk_voting.Prelude.{◌≡◌, refl, true, none, some, [], ◌∷◌, if◌then◌else◌}
use zk_voting.Prelude.Text.{codes, text_eq, starts_with}
use zk_voting.Auth.Relay.Revert.{
  Heap, Decoder, text, nested, no_text, ThrownError, describe_revert, scan_causes, enough_fuel,
}
use zk_voting.Auth.Relay.Revert.Ends.{Answers, scan_causes_ends}

abbrev decoder : Decoder
decoder = record {
  is_hex = λ s. starts_with s (codes "0x");
  error_name = λ s. if text_eq s (codes "0xaa") then some (codes "AlreadyUsed") else none;
}

-- The second object causes the first again.
abbrev cycle : Heap
cycle =
    record { error_data = no_text; cause = some 1 }
    ∷ record { error_data = text (codes "0xbb"); cause = some 0 }
    ∷ []

abbrev thrown_error : ThrownError
thrown_error = record {
  is_base_error = true;
  reference = 0;
  error_message = codes "long";
  short_message = codes "short";
  walked = none;
}

nothing_found :
    describe_revert decoder cycle thrown_error ≡ record { name = none; message = codes "short" }
unfolding describe_revert scan_causes text_eq starts_with
nothing_found = refl

name_found :
    describe_revert decoder
      (record { error_data = no_text; cause = some 1 }
        ∷ record { error_data = nested (some (codes "0xaa")); cause = some 0 }
        ∷ [])
      thrown_error
    ≡ record { name = some (codes "AlreadyUsed"); message = codes "AlreadyUsed" }
unfolding describe_revert scan_causes text_eq starts_with
name_found = refl

scan_causes_ends_example :
    Answers decoder cycle (some 0) (scan_causes decoder cycle (enough_fuel cycle) (some 0) [])
scan_causes_ends_example = scan_causes_ends decoder cycle (some 0)
