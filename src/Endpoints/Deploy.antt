-- ===== src/Endpoints/Deploy.antt =====
-- `DeployScript` and `RefreshMaterializedTable`. The JSON of bodies and answers is an argument.
use flink_sql_go.Prelude.{
  Bool, true, false, not, List, [], ◌++◌, Option, none, some, Bytes, if◌then◌else◌, codes, Result,
  ok, err, guard, ◌>>◌,
}
use flink_sql_go.Go.Space.{is_empty, trim_space}
use flink_sql_go.Go.Utf8.{valid_string, has_control}
use flink_sql_go.Session.Handle.{
  HandleError, required, not_utf8, control_character, max_handle_bytes, check_text,
  validate_opaque_handle,
}
use flink_sql_go.Compatibility.Check.{Checked}
use flink_sql_go.Transport.Request.{Body, Call}
use flink_sql_go.Endpoints.Submit.{
  EndpointError, bad_identifier, not_one_script, blank_script, script_not_utf8, bad_uri, Routes,
  Context, check_session_handle, session_call, redact_all, submitted, send, behind_check,
}

pub record Script : Type 0 where
  pub text : Bytes
  pub uri : Bytes
  pub config : List (Bytes × Bytes)

-- Exactly one of the two is there.
pub record ScriptBody : Type 0 where
  pub script : Option Bytes
  pub script_uri : Option Bytes
  pub config : List (Bytes × Bytes)

unfoldable pub validate_script_uri : Bytes → Result HandleError (Unit {0})
unfolding trim_space valid_string has_control
validate_script_uri uri = do
  guard (not (is_empty (trim_space uri))) required
  guard (valid_string uri) not_utf8
  guard (not (has_control uri)) control_character

abbrev pub checked_uri : Result HandleError (Unit {0}) → Result EndpointError (Unit {0})
checked_uri (ok u) = ok tt
checked_uri (err e) = err (bad_uri e)

unfoldable pub check_script : Script → Result EndpointError (Unit {0})
unfolding validate_script_uri trim_space valid_string
check_script s =
    if is_empty s.text
    then (if is_empty s.uri then err not_one_script else checked_uri (validate_script_uri s.uri))
    else if is_empty s.uri
    then (do
      guard (not (is_empty (trim_space s.text))) blank_script
      guard (valid_string s.text) script_not_utf8)
    else err not_one_script

abbrev pub given_text : Bytes → Option Bytes
given_text s = if is_empty s then none else some s

unfoldable pub script_body : Script → ScriptBody
script_body s = record {
  script = given_text s.text;
  script_uri = if is_empty s.text then some s.uri else none;
  config = s.config;
}

-- encoding/json for the two requests.
pub record Formats : Type 0 where
  pub script_json : ScriptBody → Body
  pub cluster_id : Bytes → Bytes
  pub decodes : Bytes → Bool

unfoldable pub deploy_call : Routes → Formats → Bytes → Script → Call
unfolding script_body
deploy_call routes f handle s =
    session_call routes handle (codes "POST") (λ escape. codes "/scripts") []
      (f.script_json (script_body s)) (some f.decodes) redact_all false

abbrev pub has_cluster : Formats → Bytes → Bool
has_cluster f response = not (is_empty (trim_space (f.cluster_id response)))

unfoldable pub deploy_script :
    Context → Formats → Bytes → Script → Checked → Checked × Result EndpointError Bytes
unfolding check_script deploy_call submitted send behind_check validate_opaque_handle trim_space
deploy_script x f handle s c =
    behind_check x (do check_session_handle handle; check_script s) (λ k. k.deploy_script) c
      (submitted (has_cluster f) (send x (deploy_call x.routes f handle s)))

-- An option map of Go may be nil, which leaves its field out.
pub record Refresh : Type 0 where
  pub periodic : Bool
  pub schedule_time : Bytes
  pub dynamic_options : Option (List (Bytes × Bytes))
  pub static_partitions : Option (List (Bytes × Bytes))
  pub config : Option (List (Bytes × Bytes))

pub record RefreshBody : Type 0 where
  pub is_periodic : Bool
  pub schedule_time : Option Bytes
  pub dynamic_options : Option (List (Bytes × Bytes))
  pub static_partitions : Option (List (Bytes × Bytes))
  pub config : Option (List (Bytes × Bytes))

unfoldable pub refresh_body : Refresh → RefreshBody
refresh_body r = record {
  is_periodic = r.periodic;
  schedule_time = given_text r.schedule_time;
  dynamic_options = r.dynamic_options;
  static_partitions = r.static_partitions;
  config = r.config;
}

pub record RefreshFormats : Type 0 where
  pub refresh_json : RefreshBody → Body
  pub operation_handle : Bytes → Bytes
  pub decodes : Bytes → Bool

unfoldable pub validate_table_identifier : Bytes → Result EndpointError (Unit {0})
unfolding check_text
validate_table_identifier identifier = elim (check_text max_handle_bytes identifier) [
  | err e ↦ err (bad_identifier e)
  | ok u ↦ ok tt
]

unfoldable pub refresh_call : Routes → RefreshFormats → Bytes → Bytes → Refresh → Call
unfolding refresh_body
refresh_call routes f handle identifier r =
    session_call routes handle (codes "POST")
      (λ escape. codes "/materialized-tables/" ++ (escape identifier ++ codes "/refresh")) []
      (f.refresh_json (refresh_body r)) (some f.decodes) redact_all false

abbrev pub has_operation : RefreshFormats → Bytes → Bool
has_operation f response = elim (validate_opaque_handle (f.operation_handle response)) [
  | err e ↦ false
  | ok u ↦ true
]

unfoldable pub refresh_materialized_table :
    Context
    → RefreshFormats
    → Bytes
    → Bytes
    → Refresh
    → Checked
    → Checked × Result EndpointError Bytes
unfolding validate_table_identifier refresh_call submitted send behind_check validate_opaque_handle
refresh_materialized_table x f handle identifier r c =
    behind_check x (do check_session_handle handle; validate_table_identifier identifier)
      (λ k. k.materialized_table) c
      (submitted (has_operation f) (send x (refresh_call x.routes f handle identifier r)))
