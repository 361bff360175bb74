-- ===== src/Metadata/Name.antt =====
-- `qualifiedObject`, `qualifiedScope` and the statements that the queries send.
use flink_sql_go.Prelude.{
  Bool, ◌&&◌, not, List, [], ◌∷◌, ◌++◌, Option, none, some, Bytes, codes, Result, ok, err, guard,
  ◌>>=◌, ◌>>◌,
}
use flink_sql_go.Go.Space.{is_empty, trim_space}
use flink_sql_go.Go.Text.{join}
use flink_sql_go.Setup.Quote.{quote_identifier}
use flink_sql_go.Setup.Plan.{Identifier}

pub data QueryError : Type 0 where
  no_identifier no_object no_database no_scope has_object no_statement : QueryError
  failed_query missing_field bad_text : QueryError

abbrev pub needed {ℓ} : {A : Type ℓ} → QueryError → Option A → Result QueryError A
needed e none = err e
needed e (some a) = ok a

-- The parts that are given, each quoted.
unfoldable pub quote_given : List Bytes → Result QueryError (List Bytes)
unfolding quote_identifier
quote_given [] = ok []
quote_given ([] ∷ values) = quote_given values
quote_given ((c ∷ s) ∷ values) = do
  quoted ← needed no_identifier (quote_identifier (c ∷ s))
  parts ← quote_given values
  ok (quoted ∷ parts)

abbrev pub is_half_given : Identifier → Bool
is_half_given id = not (is_empty id.catalog) && is_empty id.database

abbrev pub parts_of : Identifier → List Bytes
parts_of id = id.catalog ∷ id.database ∷ id.object ∷ []

unfoldable pub qualified_object : Identifier → Result QueryError Bytes
unfolding quote_given
qualified_object id = do
  guard (not (is_empty id.object)) no_object
  guard (not (is_half_given id)) no_database
  parts ← quote_given (parts_of id)
  ok (join (codes ".") parts)

abbrev pub some_parts : List Bytes → Result QueryError Bytes
some_parts [] = err no_scope
some_parts (p ∷ parts) = ok (join (codes ".") (p ∷ parts))

unfoldable pub qualified_scope : Bytes → Bytes → Result QueryError Bytes
unfolding quote_given
qualified_scope catalog database = do
  parts ← quote_given (catalog ∷ database ∷ [])
  some_parts parts

abbrev pub in_scope : Bytes → Result QueryError Bytes → Result QueryError Bytes
in_scope command scope = do s ← scope; ok (command ++ (codes " IN " ++ s))

unfoldable pub databases_statement : Bytes → Result QueryError Bytes
unfolding quote_identifier
databases_statement [] = ok (codes "SHOW DATABASES")
databases_statement (c ∷ s) =
    in_scope (codes "SHOW DATABASES") (needed no_identifier (quote_identifier (c ∷ s)))

abbrev pub scoped : Bytes → Bytes → Bytes → Result QueryError Bytes
scoped command catalog [] = ok command
scoped command catalog (c ∷ s) = in_scope command (qualified_scope catalog (c ∷ s))

unfoldable pub tables_statement : Bytes → Identifier → Result QueryError Bytes
unfolding qualified_scope
tables_statement command id = do
  guard (is_empty id.object) has_object
  guard (not (is_half_given id)) no_database
  scoped command id.catalog id.database

unfoldable pub describe_statement : Identifier → Result QueryError Bytes
unfolding qualified_object
describe_statement id = do object ← qualified_object id; ok (codes "DESCRIBE " ++ object)

unfoldable pub explain_statement : Bytes → Result QueryError Bytes
unfolding trim_space
explain_statement statement = do
  guard (not (is_empty (trim_space statement))) no_statement
  ok (codes "EXPLAIN PLAN FOR " ++ statement)
