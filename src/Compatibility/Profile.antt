-- ===== src/Compatibility/Profile.antt =====
-- The registry of compatibility.go: release lines, their API versions and capabilities.
use flink_sql_go.Prelude.{
  Bool, true, false, ◌&&◌, ◌||◌, List, [], ◌∷◌, Option, none, some, Bytes, bytes_eq, ◌=?◌, codes,
  if◌then◌else◌, Result, ok, err,
}

pub data ReleaseStatus : Type 0 where
  planned experimental supported maintenance unsupported : ReleaseStatus

-- `CompatibilityMode` after `normalizeCompatibilityMode`, and any other text before it.
pub data Mode : Type 0 where
  auto flink120 flink20 flink21 flink22 flink23 : Mode
  other_mode : Bytes → Mode

pub data Policy : Type 0 where
  stable highest explicit : Policy

pub data DetectionSource : Type 0 where
  detected configured no_source : DetectionSource

pub record Capabilities : Type 0 where
  pub api_version : Bytes
  pub supported_api_versions : List Bytes
  pub default_api_version : Bytes
  pub configure_session : Bool
  pub complete_statement : Bool
  pub row_format : Bool
  pub materialized_table : Bool
  pub deploy_script : Bool
  pub wire_execution_timeout : Bool

pub record Profile : Type 0 where
  pub release_line : Bytes
  pub status : ReleaseStatus
  pub tested_versions : List Bytes
  pub api_versions : List Bytes
  pub stable_api_version : Bytes
  pub capabilities : Capabilities

-- The `Kind` of a `CompatibilityError`, and the two errors that are none.
pub data Error : Type 0 where
  invalid_flink_version unsupported_flink_version no_compatible_api_version : Error
  explicit_unsupported_by_server explicit_unsupported_by_profile : Error
  unsupported_capability detection unsupported_mode : Error

abbrev pub default_api_version_v3 : Bytes
default_api_version_v3 = codes "v3"

abbrev pub new_profile :
    Bytes
    → ReleaseStatus
    → List Bytes
    → List Bytes
    → Bytes
    → Bool
    → Bool
    → Bool
    → Bool
    → Bool
    → Bool
    → Profile
new_profile line status tested versions stable_version configure complete format table script
      timeout =
    record {
      release_line = line;
      status = status;
      tested_versions = tested;
      api_versions = versions;
      stable_api_version = stable_version;
      capabilities = record {
        api_version = [];
        supported_api_versions = versions;
        default_api_version = stable_version;
        configure_session = configure;
        complete_statement = complete;
        row_format = format;
        materialized_table = table;
        deploy_script = script;
        wire_execution_timeout = timeout;
      };
    }

abbrev v1_to_v4 : List Bytes
v1_to_v4 = codes "v1" ∷ codes "v2" ∷ codes "v3" ∷ codes "v4" ∷ []

unfoldable pub profiles : List Profile
profiles =
    new_profile (codes "1.20") maintenance (codes "1.20.4" ∷ [])
      (codes "v1" ∷ codes "v2" ∷ codes "v3" ∷ []) (codes "v3") true true true true false false
    ∷ new_profile (codes "2.0") experimental [] v1_to_v4 (codes "v3") true true true true true true
    ∷ new_profile (codes "2.1") experimental [] v1_to_v4 (codes "v3") true true true true true true
    ∷ new_profile (codes "2.2") experimental [] v1_to_v4 (codes "v3") true true true true true true
    ∷ new_profile (codes "2.3") experimental [] v1_to_v4 (codes "v3") true true true true true true
    ∷ []

abbrev pub no_capabilities : Capabilities
no_capabilities = record {
  api_version = [];
  supported_api_versions = [];
  default_api_version = [];
  configure_session = false;
  complete_statement = false;
  row_format = false;
  materialized_table = false;
  deploy_script = false;
  wire_execution_timeout = false;
}

abbrev v1_protocol : Capabilities
v1_protocol = record no_capabilities { wire_execution_timeout = true }

abbrev v2_protocol : Capabilities
v2_protocol = record v1_protocol {
  configure_session = true;
  complete_statement = true;
  row_format = true;
}

-- `sqlGatewayProtocolCapabilities`.
unfoldable pub protocol : Bytes → Option Capabilities
protocol v =
    if v =? codes "v1"
    then some v1_protocol
    else if v =? codes "v2"
    then some v2_protocol
    else if v =? codes "v3"
    then some (record v2_protocol { materialized_table = true })
    else if v =? codes "v4"
    then some (record v2_protocol { deploy_script = true })
    else none

unfoldable pub contains_version : List Bytes → Bytes → Bool
contains_version [] target = false
contains_version (v ∷ vs) target = v =? target || contains_version vs target

abbrev pub disable_protocol : Capabilities → Capabilities
disable_protocol c = record c {
  configure_session = false;
  complete_statement = false;
  row_format = false;
  materialized_table = false;
  deploy_script = false;
  wire_execution_timeout = false;
}

unfoldable pub capabilities_for_profile : Profile → Bytes → Capabilities
unfolding contains_version protocol
capabilities_for_profile p v =
    let result = record p.capabilities { api_version = v } in
    if contains_version p.api_versions v
    then elim (protocol v) [
      | none ↦ disable_protocol result
      | some q ↦ record result {
        configure_session = result.configure_session && q.configure_session;
        complete_statement = result.complete_statement && q.complete_statement;
        row_format = result.row_format && q.row_format;
        materialized_table = result.materialized_table && q.materialized_table;
        deploy_script = result.deploy_script && q.deploy_script;
        wire_execution_timeout = result.wire_execution_timeout && q.wire_execution_timeout;
      }
    ]
    else disable_protocol result

unfoldable pub selectable : ReleaseStatus → Bool
selectable planned = false
selectable experimental = true
selectable supported = true
selectable maintenance = true
selectable unsupported = false

unfoldable pub profile_in : List Profile → Bytes → Result Error Profile
unfolding selectable
profile_in [] line = err unsupported_flink_version
profile_in (p ∷ ps) line =
    let rest = profile_in ps line in
    if p.release_line =? line
    then (if selectable p.status then ok p else err unsupported_flink_version)
    else rest

unfoldable pub profile_for_release_line : Bytes → Result Error Profile
unfolding profiles profile_in
profile_for_release_line line = profile_in profiles line

unfoldable pub release_line_for_mode : Mode → Result Error Bytes
release_line_for_mode flink120 = ok (codes "1.20")
release_line_for_mode flink20 = ok (codes "2.0")
release_line_for_mode flink21 = ok (codes "2.1")
release_line_for_mode flink22 = ok (codes "2.2")
release_line_for_mode flink23 = ok (codes "2.3")
release_line_for_mode auto = err unsupported_mode
release_line_for_mode (other_mode m) = err unsupported_mode
