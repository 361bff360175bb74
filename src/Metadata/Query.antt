-- ===== src/Metadata/Query.antt =====
-- The queries. What running a statement to its end returns is an argument: its rows, or `none` if it fails.
use flink_sql_go.Prelude.{List, [], ◌∷◌, map, Option, Bytes, codes, Result, ok, ◌>>=◌}
use flink_sql_go.Changelog.Row.{Row}
use flink_sql_go.Go.Text.{join}
use flink_sql_go.Setup.Plan.{Identifier}
use flink_sql_go.Metadata.Name.{
  QueryError, failed_query, needed, databases_statement, tables_statement, describe_statement,
  explain_statement,
}
use flink_sql_go.Metadata.Text.{Texts, row_field_text, read_rows, ColumnMetadata, column_of}

pub data TableKind : Type 0 where
  table_kind view_kind : TableKind

pub record TableMetadata : Type 0 where
  pub catalog : Bytes
  pub database : Bytes
  pub name : Bytes
  pub kind : TableKind

module _ (t : Texts) (run : Bytes → Option (List Row)) where
  unfoldable pub list_metadata_names : Bytes → Result QueryError (List Bytes)
  unfolding row_field_text read_rows
  list_metadata_names statement = do
    rows ← needed failed_query (run statement)
    read_rows (λ row. row_field_text t row 0) rows

  unfoldable pub list_catalogs : Result QueryError (List Bytes)
  unfolding list_metadata_names
  list_catalogs = list_metadata_names (codes "SHOW CATALOGS")

  unfoldable pub list_databases : Bytes → Result QueryError (List Bytes)
  unfolding list_metadata_names databases_statement
  list_databases catalog = do statement ← databases_statement catalog; list_metadata_names statement

  unfoldable pub list_functions : Result QueryError (List Bytes)
  unfolding list_metadata_names
  list_functions = list_metadata_names (codes "SHOW FUNCTIONS")

  abbrev pub listed_as : TableKind → Identifier → Bytes → TableMetadata
  listed_as kind id name = record {
    catalog = id.catalog;
    database = id.database;
    name = name;
    kind = kind;
  }

  unfoldable pub list_tables_or_views :
      Bytes → TableKind → Identifier → Result QueryError (List TableMetadata)
  unfolding list_metadata_names tables_statement
  list_tables_or_views command kind id = do
    statement ← tables_statement command id
    names ← list_metadata_names statement
    ok (map (listed_as kind id) names)

  unfoldable pub list_tables : Identifier → Result QueryError (List TableMetadata)
  unfolding list_tables_or_views
  list_tables id = list_tables_or_views (codes "SHOW TABLES") table_kind id

  unfoldable pub list_views : Identifier → Result QueryError (List TableMetadata)
  unfolding list_tables_or_views
  list_views id = list_tables_or_views (codes "SHOW VIEWS") view_kind id

  unfoldable pub describe_table : Identifier → Result QueryError (List ColumnMetadata)
  unfolding describe_statement column_of read_rows
  describe_table id = do
    statement ← describe_statement id
    rows ← needed failed_query (run statement)
    read_rows (column_of t) rows

  unfoldable pub explain : Bytes → Result QueryError Bytes
  unfolding explain_statement row_field_text read_rows
  explain statement = do
    query ← explain_statement statement
    rows ← needed failed_query (run query)
    lines ← read_rows (λ row. row_field_text t row 0) rows
    ok (join (b'\n' ∷ []) lines)
