-- ===== src/Setup/Compile.antt =====
-- `compileSessionSetupPlan`: the steps of a plan in the order in which they run.
use flink_sql_go.Prelude.{
  Bool, true, false, not, ◌&&◌, ◌||◌, List, [], ◌∷◌, ◌++◌, Bytes, bytes_eq, codes, ◌==◌, ltb,
  length, if◌then◌else◌, Result, ok, ◌>>=◌, ◌>>◌, guard,
}
use flink_sql_go.Prelude.Members.{member}
use flink_sql_go.Go.Space.{trim_space, is_empty}
use flink_sql_go.Go.Utf8.{valid_string}
use flink_sql_go.Go.Text.{join}
use flink_sql_go.Setup.Quote.{quote, quote_string_literal}
use flink_sql_go.Setup.Plan.{
  Identifier, CatalogSetup, DatabaseSetup, TableSetup, Plan, Kind, catalog_step, database_step,
  table_step, use_catalog_step, use_database_step, CompiledStep, PlanError, empty_plan, duplicate,
  no_options, option_key_required, not_utf8_text, catalog_required, Unicode,
}
use flink_sql_go.Setup.Checks.{
  validate_identifier, validate_table, compile_sensitive_keys, is_sensitive_key, value_variants,
}

-- Go's order of strings.
abbrev pub leb_bytes : Bytes → Bytes → Bool
leb_bytes [] t = true
leb_bytes (c ∷ s) [] = false
leb_bytes (c ∷ s) (d ∷ t) = if ltb c d then true else c == d && leb_bytes s t

unfoldable pub insert_option : Bytes × Bytes → List (Bytes × Bytes) → List (Bytes × Bytes)
insert_option o [] = o ∷ []
insert_option o (p ∷ ps) =
    let rest = insert_option o ps in if leb_bytes o.0 p.0 then o ∷ p ∷ ps else p ∷ rest

unfoldable pub sort_options : List (Bytes × Bytes) → List (Bytes × Bytes)
unfolding insert_option
sort_options [] = []
sort_options (o ∷ os) = insert_option o (sort_options os)

unfoldable pub check_options : List (Bytes × Bytes) → Result PlanError (Unit {0})
check_options [] = ok tt
check_options ((key, value) ∷ os) = do
  guard (not (is_empty (trim_space key))) option_key_required
  guard (valid_string key) not_utf8_text
  guard (valid_string value) not_utf8_text
  check_options os

abbrev clauses : List (Bytes × Bytes) → List Bytes
clauses [] = []
clauses ((key, value) ∷ os) =
    (quote_string_literal key ++ codes " = " ++ quote_string_literal value) ∷ clauses os

abbrev sensitive_values : Unicode → List Bytes → List (Bytes × Bytes) → List Bytes
sensitive_values u custom [] = []
sensitive_values u custom ((key, value) ∷ os) =
    let rest = sensitive_values u custom os in
    if is_sensitive_key u key custom then value_variants value ++ rest else rest

unfoldable pub compile_options :
    Unicode → List (Bytes × Bytes) → List Bytes → Result PlanError (Bytes × List Bytes)
unfolding sort_options
compile_options u [] custom = ok ([], [])
compile_options u (o ∷ os) custom = do
  check_options (o ∷ os)
  let sorted = sort_options (o ∷ os)
  ok (join (codes ", ") (clauses sorted), sensitive_values u custom sorted)

-- An empty part is left out.
unfoldable pub quoted_parts : List Bytes → List Bytes
unfolding quote
quoted_parts [] = []
quoted_parts (p ∷ ps) =
    let rest = quoted_parts ps in if is_empty p then rest else quote b'`' p ∷ rest

unfoldable pub qualified_target : Identifier → Bytes
unfolding quoted_parts
qualified_target t = join (codes ".") (quoted_parts (t.catalog ∷ t.database ∷ t.object ∷ []))

-- `appendCompiledSessionSetupStep`
unfoldable pub append_step :
    List CompiledStep → Kind → Identifier → Bytes → Bool → List Bytes → Bool → List CompiledStep
append_step steps kind target statement verify values redact_all =
    steps
    ++ record {
      index = length steps;
      kind = kind;
      target = target;
      statement = statement;
      verify = verify;
      sensitive_values = values;
      redact_all = redact_all;
    }
      ∷ []

abbrev if_not_exists_text : Bool → Bytes
if_not_exists_text true = codes "IF NOT EXISTS "
if_not_exists_text false = []

abbrev with_options : Bytes → Bytes
with_options [] = []
with_options (c ∷ s) = codes " WITH (" ++ (c ∷ s) ++ codes ")"

abbrev has_options : List (Bytes × Bytes) → Bool
has_options [] = false
has_options (o ∷ os) = true

abbrev pub catalog_target : Bytes → Identifier
catalog_target name = record { catalog = name; database = []; object = [] }

abbrev pub database_target : Bytes → Bytes → Identifier
database_target catalog name = record { catalog = catalog; database = name; object = [] }

unfoldable pub compile_catalog :
    Unicode → CatalogSetup → List Bytes → List CompiledStep → Result PlanError (List CompiledStep)
compile_catalog u c seen steps = do
  validate_identifier c.name
  guard (not (member c.name seen)) duplicate
  guard (has_options c.options) no_options
  custom ← compile_sensitive_keys u c.sensitive_keys
  (options, values) ← compile_options u c.options custom
  ok (
      append_step steps catalog_step (catalog_target c.name)
        (codes "CREATE CATALOG "
          ++ if_not_exists_text c.if_not_exists
          ++ quote b'`' c.name
          ++ codes " WITH ("
          ++ options
          ++ codes ")")
        false values false)

unfoldable pub compile_catalogs :
    Unicode
    → List CatalogSetup
    → List Bytes
    → List CompiledStep
    → Result PlanError (List CompiledStep)
compile_catalogs u [] seen steps = ok steps
compile_catalogs u (c ∷ cs) seen steps = do
  next ← compile_catalog u c seen steps
  compile_catalogs u cs (c.name ∷ seen) next

abbrev pub database_key : DatabaseSetup → Bytes
database_key d = d.catalog ++ 0 ∷ d.name

unfoldable pub compile_database :
    Unicode → DatabaseSetup → List Bytes → List CompiledStep → Result PlanError (List CompiledStep)
compile_database u d seen steps = do
  validate_identifier d.catalog
  validate_identifier d.name
  guard (not (member (database_key d) seen)) duplicate
  (options, values) ← compile_options u d.options []
  let target = database_target d.catalog d.name
  ok (
      append_step steps database_step target
        (codes "CREATE DATABASE "
          ++ if_not_exists_text d.if_not_exists
          ++ qualified_target target
          ++ with_options options)
        false values false)

unfoldable pub compile_databases :
    Unicode
    → List DatabaseSetup
    → List Bytes
    → List CompiledStep
    → Result PlanError (List CompiledStep)
compile_databases u [] seen steps = ok steps
compile_databases u (d ∷ ds) seen steps = do
  next ← compile_database u d seen steps
  compile_databases u ds (database_key d ∷ seen) next

abbrev pub table_key : TableSetup → Bytes
table_key t = t.target.catalog ++ 0 ∷ t.target.database ++ 0 ∷ t.target.object

unfoldable pub compile_table :
    Unicode → TableSetup → List Bytes → List CompiledStep → Result PlanError (List CompiledStep)
compile_table u t seen steps = do
  validate_table u t
  guard (not (member (table_key t) seen)) duplicate
  ok (
      append_step steps table_step t.target
        (codes "CREATE TABLE "
          ++ if_not_exists_text t.if_not_exists
          ++ qualified_target t.target
          ++ codes " "
          ++ trim_space t.statement)
        t.verify [] t.sensitive)

unfoldable pub compile_tables :
    Unicode
    → List TableSetup
    → List Bytes
    → List CompiledStep
    → Result PlanError (List CompiledStep)
compile_tables u [] seen steps = ok steps
compile_tables u (t ∷ ts) seen steps = do
  next ← compile_table u t seen steps
  compile_tables u ts (table_key t ∷ seen) next

unfoldable pub use_catalog : Bytes → List CompiledStep → Result PlanError (List CompiledStep)
use_catalog [] steps = ok steps
use_catalog (c ∷ s) steps = do
  validate_identifier (c ∷ s)
  ok (
      append_step steps use_catalog_step (catalog_target (c ∷ s))
        (codes "USE CATALOG " ++ quote b'`' (c ∷ s)) false [] false)

unfoldable pub use_database :
    Bytes → Bytes → List CompiledStep → Result PlanError (List CompiledStep)
use_database catalog [] steps = ok steps
use_database catalog (c ∷ s) steps = do
  validate_identifier (c ∷ s)
  ok (
      append_step steps use_database_step (database_target catalog (c ∷ s))
        (codes "USE " ++ quote b'`' (c ∷ s)) false [] false)

abbrev pub has_content : Plan → Bool
has_content p = not (
    length p.catalogs == 0
    && length p.databases == 0
    && length p.tables == 0
    && is_empty p.current_catalog
    && is_empty p.current_database)

unfoldable pub compile_plan : Unicode → Plan → Result PlanError (List CompiledStep)
compile_plan u p = do
  guard (has_content p) empty_plan
  catalogs ← compile_catalogs u p.catalogs [] []
  databases ← compile_databases u p.databases [] catalogs
  tables ← compile_tables u p.tables [] databases
  guard (is_empty p.current_database || not (is_empty p.current_catalog)) catalog_required
  scoped ← use_catalog p.current_catalog tables
  use_database p.current_catalog p.current_database scoped
