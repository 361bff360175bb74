-- ===== src/Errors/Tree.antt =====
-- The errors with their `Unwrap` and `Is` methods, and what errors.Is makes of them for a declared error.
use flink_sql_go.Prelude.{
  ℕ, Bool, true, false, List, [], ◌∷◌, ◌++◌, Option, Bytes, ◌==◌, if◌then◌else◌,
}
use flink_sql_go.Setup.Plan.{Identifier, Kind}
use flink_sql_go.Transport.Response.{Phase}

-- The variables `Err...`
pub data Sentinel : Type 0 where
  session_not_found session_expired operation_not_found operation_failed result_limit
        unsupported_api :
      Sentinel
  invalid_version unsupported_version no_compatible_version unsupported_by_server
        unsupported_by_profile :
      Sentinel
  unsupported_capability compatibility_detection response_too_large unsafe_next_uri : Sentinel
  execution_unknown configuration_unknown refresh_unknown deployment_unknown : Sentinel
  setup_verification client_closed session_closed : Sentinel

unfoldable pub number : Sentinel → ℕ
number session_not_found = 0
number session_expired = 1
number operation_not_found = 2
number operation_failed = 3
number result_limit = 4
number unsupported_api = 5
number invalid_version = 6
number unsupported_version = 7
number no_compatible_version = 8
number unsupported_by_server = 9
number unsupported_by_profile = 10
number unsupported_capability = 11
number compatibility_detection = 12
number response_too_large = 13
number unsafe_next_uri = 14
number execution_unknown = 15
number configuration_unknown = 16
number refresh_unknown = 17
number deployment_unknown = 18
number setup_verification = 19
number client_closed = 20
number session_closed = 21

-- Two of the variables are one error.
unfoldable pub same : Sentinel → Sentinel → Bool
unfolding number
same s t = number s == number t

-- Those made of another by `%w`.
unfoldable pub is_unsupported_api : Sentinel → Bool
is_unsupported_api no_compatible_version = true
is_unsupported_api unsupported_by_server = true
is_unsupported_api unsupported_by_profile = true
is_unsupported_api unsupported_capability = true
is_unsupported_api _ = false

pub record CompatibilityContext : Type 0 where
  pub operation : Bytes
  pub flink_version : Bytes
  pub release_line : Bytes
  pub api_version : Bytes

-- The three requests whose error has one shape.
pub data Request : Type 0 where
  execute_request refresh_request deploy_request : Request

pub record RequestContext : Type 0 where
  pub session_handle : Bytes
  pub http_method : Bytes
  pub endpoint : Bytes
  pub phase : Phase

pub record ConfigurationContext : Type 0 where
  pub session_handle : Bytes
  pub step : Option (ℕ × Kind)
  pub phase : Phase

pub record SetupContext : Type 0 where
  pub failed_step : Option (ℕ × Kind)
  pub target : Identifier
  pub is_unknown : Bool

pub record ApiContext : Type 0 where
  pub http_method : Bytes
  pub endpoint : Bytes
  pub status : ℕ
  pub message : Bytes

-- Go's nil is `no_error`, and an error of another package `other_error` with its text.
pub data GatewayError : Type 0 where
  no_error : GatewayError
  sentinel : Sentinel → GatewayError
  compatibility_error : CompatibilityContext → GatewayError → GatewayError → GatewayError
  request_unknown : Request → RequestContext → GatewayError → GatewayError
  configure_unknown : ConfigurationContext → GatewayError → GatewayError
  setup_error : SetupContext → GatewayError → GatewayError → GatewayError
  replay_error : ℕ → GatewayError → GatewayError → GatewayError
  execution_error : GatewayError → GatewayError → GatewayError → GatewayError
  limit_error : Bytes → ℕ → ℕ → GatewayError
  api_error : ApiContext → GatewayError → GatewayError
  other_error : Bytes → GatewayError

abbrev pub sentinel_of : Request → Sentinel
sentinel_of execute_request = execution_unknown
sentinel_of refresh_request = refresh_unknown
sentinel_of deploy_request = deployment_unknown

unfoldable pub is_nil_error : GatewayError → Bool
is_nil_error no_error = true
is_nil_error _ = false

abbrev pub present : GatewayError → List GatewayError
present e = if is_nil_error e then [] else e ∷ []

abbrev pub unwrap_two : GatewayError → GatewayError → List GatewayError
unwrap_two cause close = present cause ++ present close

abbrev pub unwrap_three : GatewayError → GatewayError → GatewayError → List GatewayError
unwrap_three cause cancel close = present cause ++ (present cancel ++ present close)

-- `Unwrap`; one that returns nil has nothing behind it.
unfoldable pub unwrap_error : GatewayError → List GatewayError
unfolding is_nil_error is_unsupported_api
unwrap_error no_error = []
unwrap_error (sentinel s) = if is_unsupported_api s then sentinel unsupported_api ∷ [] else []
unwrap_error (compatibility_error c kind cause) = unwrap_two kind cause
unwrap_error (request_unknown r c cause) = present cause
unwrap_error (configure_unknown c cause) = present cause
unwrap_error (setup_error c cause close) = unwrap_two cause close
unwrap_error (replay_error index cause close) = unwrap_two cause close
unwrap_error (execution_error cause cancel close) = unwrap_three cause cancel close
unwrap_error (limit_error kind limit received) = sentinel result_limit ∷ []
unwrap_error (api_error c cause) = present cause
unwrap_error (other_error text) = []

-- Whether the error itself is the declared one: by comparison, or by its `Is` method.
unfoldable pub is_here : GatewayError → Sentinel → Bool
unfolding same
is_here (sentinel s) t = same s t
is_here (request_unknown r c cause) t = same t (sentinel_of r)
is_here (configure_unknown c cause) t = same t configuration_unknown
is_here _ t = false
