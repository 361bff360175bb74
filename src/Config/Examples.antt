-- ===== src/Config/Examples.antt =====
-- Tests of the configuration, and its theorem at one that leaves almost everything out.
use flink_sql_go.Prelude.{
  ◌≡◌, refl, true, false, not, [], ◌∷◌, Option, none, some, Bytes, bytes_eq, bytes_beq, codes, pos,
  ok, err, Result, if◌then◌else◌,
}
use flink_sql_go.Go.Space.{is_empty, trim_space}
use flink_sql_go.Go.Text.{to_lower, fold_ascii, atoi}
use flink_sql_go.Go.Decimal.{itoa}
use flink_sql_go.Compatibility.Profile.{auto, stable}
use flink_sql_go.Compatibility.Version.{normalize_version}
use flink_sql_go.Execution.Operation.{default_format, json_format, is_valid_format}
use flink_sql_go.Config.Fields.{
  Numbers, ClientConfig, no_version, unwanted_version, bad_poll_interval, host_header, Url,
  default_user_agent, default_numbers, with_defaults, normalize_mode, normalize_policy,
  trim_right_slashes, has_host,
}
use flink_sql_go.Config.Normalize.{
  Normalized, check_base, is_explicit, normalize_settings, check_numbers, normalize, followed,
  unsafe_redirect, too_many, check_redirect,
}
use flink_sql_go.Config.NextResult.{
  UnsafeUri, user_or_fragment, foreign_scheme, foreign_origin, validate_next_result_uri,
}
use flink_sql_go.Config.Positive.{IsPositive}
use flink_sql_go.Config.Address.{IsGateway}
use flink_sql_go.Config.Contract.{normalize-IsUsable}

program : Unit {0}
unfolding trim_space to_lower fold_ascii atoi itoa normalize_version default_numbers with_defaults
    normalize_mode normalize_policy trim_right_slashes has_host check_base normalize_settings
    check_numbers normalize check_redirect validate_next_result_uri
program = tt

abbrev zeros : Numbers
zeros = record {
  request_timeout = pos 0;
  execution_timeout = pos 0;
  poll_interval = pos 0;
  max_poll_interval = pos 0;
  heartbeat_interval = pos 0;
  max_result_rows = pos 5;
  max_response_bytes = pos 0;
  max_polls = pos 0;
  stream_buffer = pos 0;
  observer_timeout = pos 0;
  observer_max_in_flight = pos 0;
}

abbrev plain : ClientConfig
plain = record {
  base_url = codes "http://h:8083//";
  compatibility_mode = [];
  api_version_policy = [];
  api_version = [];
  numbers = zeros;
  default_row_format = default_format;
  user_agent = [];
  headers = (codes "X-Y", codes "z") ∷ [];
}

abbrev url_at : Bytes → Url
url_at path = record {
  scheme = codes "http";
  host = codes "h:8083";
  has_user_info = false;
  path = path;
  raw_query = [];
  fragment = [];
}

abbrev parse : Bytes → Option Url
parse text = some (url_at (codes "//"))

abbrev usable : Normalized
usable = record {
  settings = record { mode = auto; policy = stable; api_version = codes "v3" };
  numbers = record default_numbers { max_result_rows = pos 5 };
  row_format = json_format;
  user_agent = default_user_agent;
  headers = (codes "X-Y", codes "z") ∷ [];
  base = url_at [];
}

plain_is_usable : normalize parse plain ≡ ok usable
unfolding program
plain_is_usable = refl

without_version :
    normalize parse (record plain { api_version_policy = codes " Explicit" }) ≡ err no_version
unfolding program
without_version = refl

with_version :
    normalize parse (record plain { api_version_policy = codes "stable"; api_version = codes "v4" })
    ≡ err unwanted_version
unfolding program
with_version = refl

shrinking :
    normalize parse (record plain { numbers = record zeros { max_poll_interval = pos 7 } })
    ≡ err bad_poll_interval
unfolding program
shrinking = refl

-- The second letter but one is U+017F.
own_host :
    normalize parse (record plain { headers = (b'h' ∷ b'O' ∷ 0xC5 ∷ 0xBF ∷ b't' ∷ [], []) ∷ [] })
    ≡ err host_header
unfolding program
own_host = refl

redirects :
    (check_redirect bytes_beq (url_at []) none (url_at (codes "/x")) 9 ≡ followed)
    × (check_redirect bytes_beq (url_at []) none (url_at []) 10 ≡ too_many)
    × (check_redirect bytes_beq
          (url_at [])
          (some true)
          (record (url_at []) { host = codes "evil" })
          0
        ≡ unsafe_redirect)
unfolding program
redirects = (refl, refl, refl)

-- A reference without a host takes the scheme and the host of the gateway.
abbrev resolve : Url → Url → Url
resolve base ref =
    if is_empty ref.host then record ref { scheme = base.scheme; host = base.host } else ref

abbrev next_page : Url → Result UnsafeUri Url
next_page ref =
    validate_next_result_uri (λ text. some ref) resolve bytes_beq (url_at []) (codes "next")

next_pages :
    (next_page (record (url_at (codes "/v3/r/1")) { host = []; scheme = [] })
      ≡ ok (url_at (codes "/v3/r/1")))
    × (next_page (record (url_at []) { host = codes "evil" }) ≡ err foreign_origin)
    × (next_page (record (url_at []) { scheme = codes "file" }) ≡ err foreign_scheme)
    × (next_page (record (url_at []) { has_user_info = true }) ≡ err user_or_fragment)
unfolding program
next_pages = (refl, refl, refl, refl)

normalize-IsUsable_example :
    IsGateway usable.base
    × (with_defaults zeros ≡ usable.numbers)
    × IsPositive usable.numbers
    × (is_explicit usable.settings.policy ≡ not (is_empty (trim_space plain.api_version)))
    × (is_valid_format usable.row_format ≡ true)
    × (usable.headers ≡ plain.headers)
    × (has_host plain.headers ≡ false)
normalize-IsUsable_example = normalize-IsUsable parse plain usable plain_is_usable
