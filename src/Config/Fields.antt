-- ===== src/Config/Fields.antt =====
-- `Config` and its defaults, and the parts of `normalize` that look at one field. A time is a number of nanoseconds.
use flink_sql_go.Prelude.{
  Bool, true, false, ◌&&◌, ◌||◌, List, [], ◌∷◌, Option, none, some, Bytes, ◌=?◌, bytes_eq, ◌==◌,
  if◌then◌else◌, codes, ℤ, pos, negsuc, leb_ℤ,
}
use flink_sql_go.Go.Space.{is_empty, trim_space}
use flink_sql_go.Go.Text.{to_lower, fold_ascii}
use flink_sql_go.Compatibility.Profile.{
  Mode, auto, flink120, flink20, flink21, flink22, flink23, Policy, stable, highest, explicit,
}
use flink_sql_go.Execution.Operation.{RowFormat}

pub record Numbers : Type 0 where
  pub request_timeout : ℤ
  pub execution_timeout : ℤ
  pub poll_interval : ℤ
  pub max_poll_interval : ℤ
  pub heartbeat_interval : ℤ
  pub max_result_rows : ℤ
  pub max_response_bytes : ℤ
  pub max_polls : ℤ
  pub stream_buffer : ℤ
  pub observer_timeout : ℤ
  pub observer_max_in_flight : ℤ

pub record ClientConfig : Type 0 where
  pub base_url : Bytes
  pub compatibility_mode : Bytes
  pub api_version_policy : Bytes
  pub api_version : Bytes
  pub numbers : Numbers
  pub default_row_format : RowFormat
  pub user_agent : Bytes
  pub headers : List (Bytes × Bytes)

pub data ConfigError : Type 0 where
  no_base_url bad_base_url bad_scheme has_user has_query : ConfigError
  bad_mode bad_policy no_version unwanted_version bad_version : ConfigError
  bad_time bad_poll_interval bad_limit bad_format host_header : ConfigError

-- What url.Parse reads.
pub record Url : Type 0 where
  pub scheme : Bytes
  pub host : Bytes
  pub has_user_info : Bool
  pub path : Bytes
  pub raw_query : Bytes
  pub fragment : Bytes

abbrev pub default_user_agent : Bytes
default_user_agent = codes "flink-sql-go/0.2.0"

unfoldable pub default_numbers : Numbers
default_numbers = record {
  request_timeout = pos 10000000000;
  execution_timeout = pos 30000000000;
  poll_interval = pos 250000000;
  max_poll_interval = pos 3000000000;
  heartbeat_interval = pos 30000000000;
  max_result_rows = pos 1000;
  max_response_bytes = pos 8388608;
  max_polls = pos 10000;
  stream_buffer = pos 16;
  observer_timeout = pos 100000000;
  observer_max_in_flight = pos 16;
}

abbrev pub is_zero : ℤ → Bool
is_zero (pos n) = n == 0
is_zero (negsuc n) = false

abbrev pub or_default_number : ℤ → ℤ → ℤ
or_default_number n default = if is_zero n then default else n

unfoldable pub with_defaults : Numbers → Numbers
unfolding default_numbers
with_defaults n = record {
  request_timeout = or_default_number n.request_timeout default_numbers.request_timeout;
  execution_timeout = or_default_number n.execution_timeout default_numbers.execution_timeout;
  poll_interval = or_default_number n.poll_interval default_numbers.poll_interval;
  max_poll_interval = or_default_number n.max_poll_interval default_numbers.max_poll_interval;
  heartbeat_interval = or_default_number n.heartbeat_interval default_numbers.heartbeat_interval;
  max_result_rows = or_default_number n.max_result_rows default_numbers.max_result_rows;
  max_response_bytes = or_default_number n.max_response_bytes default_numbers.max_response_bytes;
  max_polls = or_default_number n.max_polls default_numbers.max_polls;
  stream_buffer = or_default_number n.stream_buffer default_numbers.stream_buffer;
  observer_timeout = or_default_number n.observer_timeout default_numbers.observer_timeout;
  observer_max_in_flight =
      or_default_number n.observer_max_in_flight default_numbers.observer_max_in_flight;
}

abbrev pub is_negative : ℤ → Bool
is_negative (pos n) = false
is_negative (negsuc n) = true

abbrev pub at_most_zero : ℤ → Bool
at_most_zero n = leb_ℤ n (pos 0)

unfoldable pub normalize_mode : Bytes → Option Mode
unfolding trim_space to_lower
normalize_mode value =
    let mode = to_lower (trim_space value) in
    if is_empty mode
    then some auto
    else if mode =? codes "auto"
    then some auto
    else if mode =? codes "flink-1.20"
    then some flink120
    else if mode =? codes "flink-2.0"
    then some flink20
    else if mode =? codes "flink-2.1"
    then some flink21
    else if mode =? codes "flink-2.2"
    then some flink22
    else if mode =? codes "flink-2.3"
    then some flink23
    else none

unfoldable pub normalize_policy : Bytes → Bool → Option Policy
unfolding trim_space to_lower
normalize_policy value has_version =
    let policy = to_lower (trim_space value) in
    if is_empty policy
    then (if has_version then some explicit else some stable)
    else if policy =? codes "stable"
    then some stable
    else if policy =? codes "highest"
    then some highest
    else if policy =? codes "explicit"
    then some explicit
    else none

-- strings.TrimRight(path, "/")
unfoldable pub trim_right_slashes : Bytes → Bytes
trim_right_slashes [] = []
trim_right_slashes (c ∷ s) =
    let rest = trim_right_slashes s in if c == b'/' && is_empty rest then [] else c ∷ rest

-- strings.EqualFold(key, "Host")
abbrev pub is_host : Bytes → Bool
is_host key = fold_ascii key =? codes "host"

unfoldable pub has_host : List (Bytes × Bytes) → Bool
unfolding fold_ascii
has_host [] = false
has_host ((key, value) ∷ headers) = is_host key || has_host headers
