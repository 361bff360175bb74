-- ===== src/Compatibility/Examples.antt =====
-- Tests of the compatibility check on small inputs, and its theorems at concrete ones.
use flink_sql_go.Prelude.{
  ◌≡◌, refl, true, false, List, [], ◌∷◌, some, none, codes, Bytes, ok, err, leb_ℤ,
}
use flink_sql_go.Go.Space.{trim_space}
use flink_sql_go.Go.Decimal.{itoa}
use flink_sql_go.Compatibility.Profile.{
  Profile, new_profile, experimental, detected, Error, auto, stable, highest,
  profile_for_release_line, capabilities_for_profile,
}
use flink_sql_go.Compatibility.Version.{parse_flink_release_line, api_version_number}
use flink_sql_go.Compatibility.Selection.{select_api_version}
use flink_sql_go.Compatibility.Choice.{
  shared, select_api_version-highest, select_api_version-stable,
}
use flink_sql_go.Compatibility.Check.{
  Settings, Info, Answers, Checked, resolve_compatibility, check_api_version,
  compatibility_for_capability,
}
use flink_sql_go.Compatibility.Contract.{
  IsCoherent, Resolved, resolve_compatibility-Resolved, check_api_version-settled,
}

program : Unit {0}
unfolding trim_space itoa profile_for_release_line capabilities_for_profile parse_flink_release_line
    api_version_number select_api_version resolve_compatibility check_api_version
    compatibility_for_capability
program = tt

parse_example : parse_flink_release_line (codes " 1.20.4-SNAPSHOT") ≡ ok (codes "1.20")
unfolding program
parse_example = refl

settings : Settings
settings = record { mode = auto; policy = stable; api_version = [] }

release20 : Profile
unfolding program
release20 =
    new_profile (codes "2.0") experimental []
      (codes "v1" ∷ codes "v2" ∷ codes "v3" ∷ codes "v4" ∷ []) (codes "v3") true true true true true
      true

server : List Bytes
server = codes "V4" ∷ codes "v5" ∷ codes "v2" ∷ []

select_api_version_example : select_api_version release20 server stable [] ≡ ok (codes "v2")
unfolding program release20 server
select_api_version_example = refl

highest_example : select_api_version release20 server highest [] ≡ ok (codes "v4")
unfolding program release20 server
highest_example = refl

select_api_version-highest_example :
    ((v : Bytes)
      → select_api_version release20 server highest [] ≡ ok v
      → (shared release20 server v ≡ true)
        × ((u : Bytes)
            → shared release20 server u ≡ true
            → leb_ℤ (api_version_number u) (api_version_number v) ≡ true))
    × ((x : Error) (u : Bytes)
        → select_api_version release20 server highest [] ≡ err x
        → shared release20 server u ≡ false)
select_api_version-highest_example = select_api_version-highest release20 server []

select_api_version-stable_example :
    ((v : Bytes)
      → select_api_version release20 server stable [] ≡ ok v
      → (shared release20 server v ≡ true)
        × (leb_ℤ (api_version_number v) (api_version_number release20.stable_api_version) ≡ true)
        × ((u : Bytes)
            → shared release20 server u ≡ true
            → leb_ℤ (api_version_number u) (api_version_number release20.stable_api_version) ≡ true
            → leb_ℤ (api_version_number u) (api_version_number v) ≡ true))
    × ((x : Error) (u : Bytes)
        → select_api_version release20 server stable [] ≡ err x
        → shared release20 server u ≡ true
        → leb_ℤ (api_version_number u) (api_version_number release20.stable_api_version) ≡ false)
select_api_version-stable_example = select_api_version-stable release20 server []

answers : Answers
answers = record { info = some (codes "2.0.1"); versions = some (codes "v2" ∷ codes "v3" ∷ []) }

silent : Answers
silent = record { info = none; versions = none }

unchecked : Checked
unchecked = record { version_checked = false; version_err = none; compatibility = none }

unchecked-IsCoherent : IsCoherent unchecked
unfolding unchecked
unchecked-IsCoherent = record { unsettled = λ h. (refl, refl); selected = λ h k. cc }

resolved : Info
resolved = record {
  flink_version = codes "2.0.1";
  release_line = codes "2.0";
  api_version = codes "v3";
  capabilities = record {
    api_version = codes "v3";
    supported_api_versions = codes "v1" ∷ codes "v2" ∷ codes "v3" ∷ codes "v4" ∷ [];
    default_api_version = codes "v3";
    configure_session = true;
    complete_statement = true;
    row_format = true;
    materialized_table = true;
    deploy_script = false;
    wire_execution_timeout = true;
  };
  source = detected;
}

resolve_compatibility-Resolved_example : Resolved answers resolved
unfolding program settings answers resolved
resolve_compatibility-Resolved_example =
    resolve_compatibility-Resolved settings answers resolved refl

check_api_version-settled_example :
    check_api_version settings silent (check_api_version settings answers unchecked).0
    ≡ check_api_version settings answers unchecked
unfolding program settings answers unchecked
check_api_version-settled_example =
    check_api_version-settled settings answers silent unchecked unchecked-IsCoherent refl
