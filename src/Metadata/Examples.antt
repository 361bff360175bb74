-- ===== src/Metadata/Examples.antt =====
-- Tests of the metadata queries, and their theorems at a small catalog.
use flink_sql_go.Prelude.{
  ◌≡◌, refl, true, List, [], ◌∷◌, ◌++◌, map, Option, none, some, Bytes, ◌=?◌, bytes_eq,
  if◌then◌else◌, codes, ok, err,
}
use flink_sql_go.Go.Space.{trim_space}
use flink_sql_go.Go.Text.{fold_ascii}
use flink_sql_go.Changelog.Row.{Row, insert_row}
use flink_sql_go.Setup.Plan.{Identifier}
use flink_sql_go.Setup.Quote.{double, quote, quote_identifier}
use flink_sql_go.Metadata.Name.{
  no_object, no_database, missing_field, quote_given, qualified_object, qualified_scope,
  databases_statement, tables_statement, describe_statement, explain_statement, parts_of,
}
use flink_sql_go.Metadata.Text.{
  Texts, field_text, row_field_text, read_rows, ColumnMetadata, optional_text, is_yes, column_of,
}
use flink_sql_go.Metadata.Query.{
  table_kind, TableMetadata, list_metadata_names, list_databases, list_tables_or_views, list_tables,
  describe_table, explain,
}
use flink_sql_go.Metadata.Rows.{AreRead}
use flink_sql_go.Metadata.Contract.{
  IsNameOf, IsScoped, describe_table-eq_ok, list_tables_or_views-eq_ok,
}

program : Unit {0}
unfolding trim_space fold_ascii double quote quote_identifier quote_given qualified_object
    qualified_scope databases_statement tables_statement describe_statement explain_statement
    field_text row_field_text read_rows optional_text is_yes column_of list_metadata_names
    list_databases list_tables_or_views list_tables describe_table explain
program = tt

-- JSON strings without escapes.
abbrev without_last : Bytes → Bytes
without_last [] = []
without_last (c ∷ []) = []
without_last (c ∷ d ∷ s) = c ∷ without_last (d ∷ s)

abbrev plain_string : Bytes → Option Bytes
plain_string [] = none
plain_string (c ∷ s) = some (without_last s)

abbrev texts : Texts
texts = record { unmarshal = plain_string; unquote = λ s. none }

abbrev row_of : List Bytes → Row
row_of fields = record { kind = insert_row; fields = fields }

abbrev column_row : Row
column_row = row_of (codes "\"id\"" ∷ codes " INT " ∷ codes "TRUE" ∷ codes "null" ∷ [])

abbrev orders : Identifier
orders = record { catalog = []; database = codes "d"; object = codes "o`s" }

abbrev in_d : Identifier
in_d = record { catalog = []; database = codes "d"; object = [] }

abbrev run : Bytes → Option (List Row)
run s =
    if s =? codes "DESCRIBE `d`.`o``s`"
    then some (column_row ∷ [])
    else if s =? codes "SHOW TABLES IN `d`"
    then some (row_of (codes "\"a\"" ∷ []) ∷ row_of (codes "b" ∷ []) ∷ [])
    else none

abbrev id_column : ColumnMetadata
id_column = record {
  name = codes "id";
  data_type = codes "INT";
  nullable = true;
  key = [];
  extras = [];
  watermark = [];
  comment = [];
}

abbrev table_named : Bytes → TableMetadata
table_named name = record { catalog = []; database = codes "d"; name = name; kind = table_kind }

describe_orders : describe_table texts run orders ≡ ok (id_column ∷ [])
unfolding program
describe_orders = refl

list_d :
    list_tables_or_views texts run (codes "SHOW TABLES") table_kind in_d
    ≡ ok (table_named (codes "a") ∷ table_named (codes "b") ∷ [])
unfolding program
list_d = refl

as_tables :
    list_tables texts run in_d
    ≡ list_tables_or_views texts run (codes "SHOW TABLES") table_kind in_d
unfolding program
as_tables = refl

half_given :
    list_tables texts run (record { catalog = codes "c"; database = []; object = [] })
    ≡ err no_database
unfolding program
half_given = refl

nothing_named : describe_table texts run in_d ≡ err no_object
unfolding program
nothing_named = refl

-- U+017F is a small s to EqualFold.
long_s : is_yes (b'Y' ∷ b'e' ∷ 0xC5 ∷ 0xBF ∷ []) ≡ true
unfolding program
long_s = refl

explained :
    explain texts
      (λ s. some (row_of (codes "x" ∷ []) ∷ row_of (codes "null" ∷ []) ∷ []))
      (codes "SELECT 1")
    ≡ ok (codes "x\n")
unfolding program
explained = refl

short_row : row_field_text texts (row_of []) 0 ≡ err missing_field
unfolding program
short_row = refl

describe_table-eq_ok_example :
    (object : Bytes) × (rows : List Row) × IsNameOf object (parts_of orders)
    × (run (codes "DESCRIBE " ++ object) ≡ some rows)
    × AreRead (column_of texts) rows (id_column ∷ [])
describe_table-eq_ok_example =
    describe_table-eq_ok texts run orders (id_column ∷ []) describe_orders

list_tables_or_views-eq_ok_example :
    (statement : Bytes) × (rows : List Row) × (names : List Bytes) × (in_d.object ≡ [])
    × IsScoped (codes "SHOW TABLES") in_d statement
    × (run statement ≡ some rows)
    × AreRead (λ row. row_field_text texts row 0) rows names
    × (table_named (codes "a") ∷ table_named (codes "b") ∷ [] ≡ map table_named names)
list_tables_or_views-eq_ok_example =
    list_tables_or_views-eq_ok texts run (codes "SHOW TABLES") table_kind in_d
      (table_named (codes "a") ∷ table_named (codes "b") ∷ []) list_d
