-- ===== src/Metadata/Contract.antt =====
-- What a query asks and what it returns.
use flink_sql_go.Prelude.{
  ℕ, ◌≤◌, ◌≡◌, ◌≢◌, refl, sym, subst, ◌⊎◌, inl, inr, Bool, true, false, ◌&&◌, not, List, [], ◌∷◌,
  ◌++◌, map, Option, some, Bytes, codes, length, ok, guard, >>=-eq-ok, arith,
}
use flink_sql_go.Go.Space.{is_empty}
use flink_sql_go.Go.Text.{join}
use flink_sql_go.Changelog.Row.{Row}
use flink_sql_go.Setup.Plan.{Identifier}
use flink_sql_go.Setup.Quote.{quote}
use flink_sql_go.Metadata.Name.{
  QueryError, needed, failed_query, no_object, no_database, has_object, is_half_given, quote_given,
  parts_of, some_parts, qualified_object, qualified_scope, describe_statement, tables_statement,
  scoped,
}
use flink_sql_go.Metadata.Text.{Texts, row_field_text, ColumnMetadata, column_of}
use flink_sql_go.Metadata.Query.{
  TableKind, TableMetadata, list_metadata_names, list_tables_or_views, describe_table,
}
use flink_sql_go.Metadata.Path.{read_path, given, read_path-join, quote_given-given, needed-eq_ok}
use flink_sql_go.Metadata.Rows.{AreRead, read_rows-AreRead, ok_injective}

-- A text that SQL reads as exactly the parts of these that are given.
abbrev pub IsNameOf : Bytes → List Bytes → Type 0
IsNameOf text values = read_path (length values) text ≡ some (given values)

join-IsNameOf :
    (values : List Bytes) (name : Bytes) (names : List Bytes)
    → given values ≡ name ∷ names
    → length (name ∷ names) ≤ length values
    → IsNameOf (join (codes ".") (map (quote b'`') (given values))) values
join-IsNameOf values name names e h = rw e (read_path-join name names (length values) h)

length-given : (values : List Bytes) → length (given values) ≤ length values
unfolding given
length-given [] = omega arith
length-given ([] ∷ values) = omega (arith, length-given values)
length-given ((c ∷ s) ∷ values) = omega (arith, length-given values)

-- Quoted parts, one of which is given.
parts-IsNameOf :
    (values parts : List Bytes)
    → quote_given values ≡ ok parts
    → (given values ≡ []) ⊎ IsNameOf (join (codes ".") parts) values
parts-IsNameOf values parts h = named (given values) refl
  where
    named :
        (gs : List Bytes)
        → given values ≡ gs
        → (given values ≡ []) ⊎ IsNameOf (join (codes ".") parts) values
    named [] e = inl e
    named (name ∷ names) e = inr (
        subst (λ ps. IsNameOf (join (codes ".") ps) values) (sym (quote_given-given values parts h))
          (join-IsNameOf values name names e
            (subst (λ gs. length gs ≤ length values) e (length-given values))))

given-object : (c d o : Bytes) → is_empty o ≡ false → given (c ∷ d ∷ o ∷ []) ≢ []
unfolding given
given-object c d [] h e = ground arith
given-object [] [] (x ∷ o) h e = ground arith
given-object [] (y ∷ d) (x ∷ o) h e = ground arith
given-object (y ∷ c) d (x ∷ o) h e = ground arith

guard-not : (b : Bool) (e : QueryError) {u : Unit {0}} → guard (not b) e ≡ ok u → b ≡ false
guard-not b e h = ground arith

qualified_object-IsNameOf :
    (id : Identifier) (object : Bytes)
    → qualified_object id ≡ ok object
    → IsNameOf object (parts_of id)
unfolding qualified_object
qualified_object-IsNameOf id object h =
    let (_, full, h') = >>=-eq-ok (guard (not (is_empty id.object)) no_object) _ h in
    let (_, _, h'') = >>=-eq-ok (guard (not (is_half_given id)) no_database) _ h' in
    let (parts, e, h''') = >>=-eq-ok (quote_given (parts_of id)) _ h'' in
    elim (parts-IsNameOf (parts_of id) parts e) [
      | inl none_given ↦
          absurd
            (given-object id.catalog id.database id.object (guard-not _ no_object full) none_given)
      | inr named ↦ subst (λ s. IsNameOf s (parts_of id)) (ok_injective h''') named
    ]

-- If DescribeTable returns columns, it has run DESCRIBE with a text that SQL reads as exactly the given parts of the
-- name, and the columns are the rows of the result, each in its place and read.
pub describe_table-eq_ok :
    (t : Texts) (run : Bytes → Option (List Row)) (id : Identifier) (columns : List ColumnMetadata)
    → describe_table t run id ≡ ok columns
    → (object : Bytes) × (rows : List Row) × IsNameOf object (parts_of id)
      × (run (codes "DESCRIBE " ++ object) ≡ some rows)
      × AreRead (column_of t) rows columns
unfolding describe_table describe_statement
describe_table-eq_ok t run id columns h =
    let (statement, e, h') = >>=-eq-ok (describe_statement id) _ h in
    let (object, f, e') = >>=-eq-ok (qualified_object id) _ e in
    let (rows, g, h'') = >>=-eq-ok (needed failed_query (run statement)) _ h' in
    (
      object,
      rows,
      qualified_object-IsNameOf id object f,
      subst (λ s. run s ≡ some rows) (sym (ok_injective e'))
          (needed-eq_ok failed_query (run statement) rows g),
      read_rows-AreRead (column_of t) rows columns h'',
    )

-- The statement of a list: the command alone if neither a catalog nor a database is given, and otherwise the command
-- with a scope.
pub data IsScoped (command : Bytes) (id : Identifier) : Bytes → Type 0 where
  everywhere : id.catalog ≡ [] → id.database ≡ [] → IsScoped command id command
  within :
      (scope : Bytes)
      → IsNameOf scope (id.catalog ∷ id.database ∷ [])
      → IsScoped command id (command ++ (codes " IN " ++ scope))

some_parts-eq_ok :
    (parts : List Bytes) (s : Bytes) → some_parts parts ≡ ok s → join (codes ".") parts ≡ s
some_parts-eq_ok [] s h = ground arith
some_parts-eq_ok (p ∷ parts) s h = ok_injective h

given-database : (c : Bytes) (x : ℕ) (d : Bytes) → given (c ∷ (x ∷ d) ∷ []) ≢ []
unfolding given
given-database [] x d e = ground arith
given-database (y ∷ c) x d e = ground arith

qualified_scope-IsNameOf :
    (c : Bytes) (x : ℕ) (d scope : Bytes)
    → qualified_scope c (x ∷ d) ≡ ok scope
    → IsNameOf scope (c ∷ (x ∷ d) ∷ [])
unfolding qualified_scope
qualified_scope-IsNameOf c x d scope h =
    let (parts, e, h') = >>=-eq-ok (quote_given (c ∷ (x ∷ d) ∷ [])) _ h in
    elim (parts-IsNameOf (c ∷ (x ∷ d) ∷ []) parts e) [
      | inl none_given ↦ absurd (given-database c x d none_given)
      | inr named ↦
          subst (λ s. IsNameOf s (c ∷ (x ∷ d) ∷ [])) (some_parts-eq_ok parts scope h') named
    ]

no_catalog : (c : Bytes) → (not (is_empty c) && true) ≡ false → c ≡ []
no_catalog [] h = refl
no_catalog (x ∷ c) h = ground arith

scoped-IsScoped :
    (command : Bytes) (id : Identifier) (d statement : Bytes)
    → id.database ≡ d
    → (not (is_empty id.catalog) && is_empty d) ≡ false
    → scoped command id.catalog d ≡ ok statement
    → IsScoped command id statement
scoped-IsScoped command id [] statement e whole h =
    subst (IsScoped command id) (ok_injective h) (everywhere (no_catalog id.catalog whole) e)
scoped-IsScoped command id (x ∷ d) statement e whole h =
    let (scope, f, h') = >>=-eq-ok (qualified_scope id.catalog (x ∷ d)) _ h in
    subst (IsScoped command id) (ok_injective h') (
      within scope (
        subst (λ b. IsNameOf scope (id.catalog ∷ b ∷ [])) (sym e)
          (qualified_scope-IsNameOf id.catalog x d scope f)))

no_name : (o : Bytes) (e : QueryError) {u : Unit {0}} → guard (is_empty o) e ≡ ok u → o ≡ []
no_name [] e h = refl
no_name (x ∷ o) e h = ground arith

tables_statement-IsScoped :
    (command : Bytes) (id : Identifier) (statement : Bytes)
    → tables_statement command id ≡ ok statement
    → (id.object ≡ []) × IsScoped command id statement
unfolding tables_statement
tables_statement-IsScoped command id statement h =
    let (_, empty, h') = >>=-eq-ok (guard (is_empty id.object) has_object) _ h in
    let (_, whole, h'') = >>=-eq-ok (guard (not (is_half_given id)) no_database) _ h' in
    (
      no_name id.object has_object empty,
      scoped-IsScoped command id id.database statement refl (guard-not _ no_database whole) h'',
    )

-- If a list of tables or views returns, it has run the command in a scope that SQL reads as exactly the given
-- parts, without a scope only if neither a catalog nor a database is given, no object was named, and the list is the first field of each row in its place, with
-- the asked scope and kind.
pub list_tables_or_views-eq_ok :
    (t : Texts) (run : Bytes → Option (List Row)) (command : Bytes) (kind : TableKind)
    (id : Identifier) (tables : List TableMetadata)
    → list_tables_or_views t run command kind id ≡ ok tables
    → (statement : Bytes) × (rows : List Row) × (names : List Bytes) × (id.object ≡ [])
      × IsScoped command id statement
      × (run statement ≡ some rows)
      × AreRead (λ row. row_field_text t row 0) rows names
      × (tables
          ≡ map
              (λ name. record {
                catalog = id.catalog;
                database = id.database;
                name = name;
                kind = kind;
              })
              names)
unfolding list_tables_or_views list_metadata_names
list_tables_or_views-eq_ok t run command kind id tables h =
    let (statement, e, h') = >>=-eq-ok (tables_statement command id) _ h in
    let (alone, scoped_) = tables_statement-IsScoped command id statement e in
    let (names, f, h'') = >>=-eq-ok (list_metadata_names t run statement) _ h' in
    let (rows, g, f') = >>=-eq-ok (needed failed_query (run statement)) _ f in
    (
      statement,
      rows,
      names,
      alone,
      scoped_,
      needed-eq_ok failed_query (run statement) rows g,
      read_rows-AreRead (λ row. row_field_text t row 0) rows names f',
      sym (ok_injective h''),
    )
