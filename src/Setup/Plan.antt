-- ===== src/Setup/Plan.antt =====
-- The plan of a session setup and its compiled steps.
use flink_sql_go.Prelude.{ℕ, Bool, List, Bytes}
use flink_sql_go.Session.Handle.{HandleError}

pub record Identifier : Type 0 where
  pub catalog : Bytes
  pub database : Bytes
  pub object : Bytes

-- A Go map of options; the order of its list is that in which Go happens to walk the map.
pub record CatalogSetup : Type 0 where
  pub name : Bytes
  pub if_not_exists : Bool
  pub options : List (Bytes × Bytes)
  pub sensitive_keys : List Bytes

pub record DatabaseSetup : Type 0 where
  pub catalog : Bytes
  pub name : Bytes
  pub if_not_exists : Bool
  pub options : List (Bytes × Bytes)

pub record TableSetup : Type 0 where
  pub target : Identifier
  pub statement : Bytes
  pub if_not_exists : Bool
  pub verify : Bool
  pub sensitive : Bool

pub record Plan : Type 0 where
  pub catalogs : List CatalogSetup
  pub databases : List DatabaseSetup
  pub tables : List TableSetup
  pub current_catalog : Bytes
  pub current_database : Bytes

pub data Kind : Type 0 where
  catalog_step database_step table_step use_catalog_step use_database_step : Kind

-- `SessionSetupStep` with what `compiledSessionSetupStep` adds.
pub record CompiledStep : Type 0 where
  pub index : ℕ
  pub kind : Kind
  pub target : Identifier
  pub statement : Bytes
  pub verify : Bool
  pub sensitive_values : List Bytes
  pub redact_all : Bool

pub data PlanError : Type 0 where
  empty_plan duplicate no_options option_key_required not_utf8_text : PlanError
  empty_sensitive_key invalid_sensitive_key definition_required not_a_definition : PlanError
  catalog_required : PlanError
  bad_identifier : HandleError → PlanError

-- What the compiler uses of Go's Unicode tables: strings.ToLower and strings.ToUpper, and whether a
-- character, given by its bytes, is a letter or a digit.
pub record Unicode : Type 0 where
  pub lower : Bytes → Bytes
  pub upper : Bytes → Bytes
  pub is_word : Bytes → Bool
