-- ===== src/Endpoints/Examples.antt =====
-- Tests of the single requests, and their theorem at a deployment that got no answer.
use flink_sql_go.Prelude.{ℕ, ◌≡◌, refl, true, false, [], ◌∷◌, none, some, codes, err}
use flink_sql_go.Go.Space.{trim_front, trim_left, trim_right, trim_space}
use flink_sql_go.Go.Utf8.{valid_from, valid_string, has_control}
use flink_sql_go.Session.Handle.{check_text, validate_opaque_handle}
use flink_sql_go.Compatibility.Profile.{no_capabilities, auto, highest, detected}
use flink_sql_go.Compatibility.Check.{
  Info, Checked, compatibility_snapshot, configured_compatibility, supported_info, ask_server,
  check_with, check_api_version, gate, compatibility_for_capability,
}
use flink_sql_go.Transport.Response.{wrote_request, context_thrown}
use flink_sql_go.Transport.Request.{Client, encoded, Exchange, no_reply}
use flink_sql_go.Endpoints.Submit.{Context, not_one_script}
use flink_sql_go.Endpoints.Deploy.{
  Script, Formats, script_body, validate_script_uri, check_script, deploy_call, deploy_script,
  Refresh, RefreshFormats, refresh_body, validate_table_identifier, refresh_call,
}
use flink_sql_go.Endpoints.SessionCalls.{Configure, configure_call, configure_session}

program : Unit {0}
unfolding trim_front trim_left trim_right trim_space valid_from valid_string has_control check_text
    validate_opaque_handle compatibility_snapshot configured_compatibility supported_info ask_server
    check_with check_api_version gate compatibility_for_capability script_body validate_script_uri
    check_script deploy_call validate_table_identifier refresh_body refresh_call configure_call
program = tt

abbrev client : Client
client = record {
  closed = false;
  max_response_bytes = 100;
  header_values = [];
  has_session = λ h. false;
  escaped_path = λ u. some u;
  error_payload = λ b. record { code = []; message = b; error = []; errors = [] };
}

-- The request was written, and no response came.
abbrev exchanges : ℕ → Exchange
exchanges n = record {
  trace = wrote_request true ∷ [];
  reply = no_reply context_thrown;
  call_over = false;
  request_over = true;
}

abbrev context : Context
context = record {
  client = client;
  routes = record { base = codes "http://host/v4"; escape = λ s. s };
  settings = record { mode = auto; policy = highest; api_version = [] };
  answers = record { info = none; versions = none };
  exchanges = exchanges;
  wait_over = λ n. false;
}

abbrev known : Info
known = record {
  flink_version = codes "2.0.0";
  release_line = codes "2.0";
  api_version = codes "v4";
  capabilities = record no_capabilities {
    deploy_script = true;
    materialized_table = true;
    configure_session = true;
  };
  source = detected;
}

abbrev checked : Checked
checked = record { version_checked = true; version_err = none; compatibility = some known }

abbrev formats : Formats
formats = record {
  script_json = λ b. encoded (codes "{}");
  cluster_id = λ r. r;
  decodes = λ r. true;
}

abbrev script : Script
script = record { text = codes "SELECT 1"; uri = []; config = [] }

both : check_script (record script { uri = codes "s3://x" }) ≡ err not_one_script
unfolding program
both = refl

neither : check_script (record script { text = [] }) ≡ err not_one_script
unfolding program
neither = refl

by_uri :
    script_body (record { text = []; uri = codes "s3://x"; config = [] })
    ≡ record { script = none; script_uri = some (codes "s3://x"); config = [] }
unfolding program
by_uri = refl

abbrev refresh : Refresh
refresh = record {
  periodic = false;
  schedule_time = [];
  dynamic_options = none;
  static_partitions = none;
  config = none;
}

abbrev refresh_formats : RefreshFormats
refresh_formats = record {
  refresh_json = λ b. encoded (codes "{}");
  operation_handle = λ r. r;
  decodes = λ r. true;
}

abbrev configure : Configure
configure = record {
  statement = codes "SET 'a' = 'b'";
  timeout = 0;
  default_timeout = 30;
  has_wire_timeout = true;
  validates = λ s. true;
  json = λ s t. encoded s;
}
