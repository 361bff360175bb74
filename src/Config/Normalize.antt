-- ===== src/Config/Normalize.antt =====
-- `normalize` as a whole, and the redirects that the client's HTTP client follows. url.Parse, strings.EqualFold and the
-- caller's own check of a redirect are arguments.
use flink_sql_go.Prelude.{
  ℕ, Bool, true, false, ◌&&◌, ◌||◌, not, List, Option, none, some, Bytes, ◌=?◌, bytes_eq, leb,
  if◌then◌else◌, codes, leb_ℤ, Result, ok, err, guard, ◌>>=◌, ◌>>◌,
}
use flink_sql_go.Go.Space.{is_empty, trim_space}
use flink_sql_go.Compatibility.Profile.{Policy, stable, highest, explicit}
use flink_sql_go.Compatibility.Version.{normalize_version}
use flink_sql_go.Compatibility.Check.{Settings}
use flink_sql_go.Execution.Operation.{RowFormat, json_format, chosen_format, is_valid_format}
use flink_sql_go.Config.Fields.{
  Numbers, ClientConfig, ConfigError, no_base_url, bad_base_url, bad_scheme, has_user, has_query,
  bad_mode, bad_policy, no_version, unwanted_version, bad_version, bad_time, bad_poll_interval,
  bad_limit, bad_format, host_header, Url, default_user_agent, with_defaults, is_negative,
  at_most_zero, normalize_mode, normalize_policy, trim_right_slashes, has_host,
}

-- What a client works with.
pub record Normalized : Type 0 where
  pub settings : Settings
  pub numbers : Numbers
  pub row_format : RowFormat
  pub user_agent : Bytes
  pub headers : List (Bytes × Bytes)
  pub base : Url

abbrev pub needed {ℓ} : {A : Type ℓ} → ConfigError → Option A → Result ConfigError A
needed e none = err e
needed e (some a) = ok a

unfoldable pub check_base : (Bytes → Option Url) → Bytes → Result ConfigError Url
unfolding trim_space trim_right_slashes
check_base parse base_url = do
  guard (not (is_empty (trim_space base_url))) no_base_url
  url ← needed bad_base_url (parse (trim_space base_url))
  guard ((url.scheme =? codes "http" || url.scheme =? codes "https") && not (is_empty url.host))
      bad_scheme
  guard (not url.has_user_info) has_user
  guard (is_empty url.raw_query && is_empty url.fragment) has_query
  ok (record url { path = trim_right_slashes url.path })

abbrev pub is_explicit : Policy → Bool
is_explicit explicit = true
is_explicit stable = false
is_explicit highest = false

unfoldable pub normalize_settings : Bytes → Bytes → Bytes → Result ConfigError Settings
unfolding normalize_mode normalize_policy normalize_version trim_space
normalize_settings mode_text policy_text version_text = do
  mode ← needed bad_mode (normalize_mode mode_text)
  let raw = trim_space version_text
  policy ← needed bad_policy (normalize_policy policy_text (not (is_empty raw)))
  guard (not (is_explicit policy && is_empty raw)) no_version
  guard (not (not (is_explicit policy) && not (is_empty raw))) unwanted_version
  version ← needed bad_version (normalize_version raw)
  ok (record { mode = mode; policy = policy; api_version = version })

abbrev pub has_bad_time : Numbers → Bool
has_bad_time n =
    is_negative n.request_timeout
    || is_negative n.execution_timeout
    || at_most_zero n.poll_interval
    || at_most_zero n.max_poll_interval
    || at_most_zero n.heartbeat_interval
    || is_negative n.observer_timeout

abbrev pub has_bad_limit : Numbers → Bool
has_bad_limit n =
    is_negative n.max_result_rows
    || at_most_zero n.max_response_bytes
    || at_most_zero n.max_polls
    || at_most_zero n.stream_buffer
    || at_most_zero n.observer_max_in_flight

unfoldable pub check_numbers : Numbers → Result ConfigError Numbers
unfolding with_defaults
check_numbers given = do
  let n = with_defaults given
  guard (not (has_bad_time n)) bad_time
  guard (leb_ℤ n.poll_interval n.max_poll_interval) bad_poll_interval
  guard (not (has_bad_limit n)) bad_limit
  ok n

unfoldable pub normalize : (Bytes → Option Url) → ClientConfig → Result ConfigError Normalized
unfolding check_base normalize_settings check_numbers has_host
normalize parse c = do
  base ← check_base parse c.base_url
  settings ← normalize_settings c.compatibility_mode c.api_version_policy c.api_version
  numbers ← check_numbers c.numbers
  guard (is_valid_format (chosen_format c.default_row_format json_format)) bad_format
  guard (not (has_host c.headers)) host_header
  ok (record {
    settings = settings;
    numbers = numbers;
    row_format = chosen_format c.default_row_format json_format;
    user_agent = if is_empty c.user_agent then default_user_agent else c.user_agent;
    headers = c.headers;
    base = base;
  })

pub data Redirect : Type 0 where
  followed unsafe_redirect too_many refused_by_caller : Redirect

-- `CheckRedirect`, behind so many requests.
unfoldable pub check_redirect : (Bytes → Bytes → Bool) → Url → Option Bool → Url → ℕ → Redirect
check_redirect equal_fold base original url via =
    if not (equal_fold url.host base.host) || not (equal_fold url.scheme base.scheme)
    then unsafe_redirect
    else elim original [
      | some allows ↦ if allows then followed else refused_by_caller
      | none ↦ if leb 10 via then too_many else followed
    ]
