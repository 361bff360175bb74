-- ===== src/Setup/Shape.antt =====
-- The steps of a compiled plan: which there are, in which order, and that nothing is declared twice.
use flink_sql_go.Prelude.{
  ◌≡◌, refl, sym, subst, true, false, not, List, [], ◌∷◌, ◌++◌, map, Bytes, bytes_eq, bytes_beq_iff,
  arith, Result, ok, >>=-eq-ok,
}
use flink_sql_go.Prelude.Members.{member, is_distinct}
use flink_sql_go.Setup.Plan.{
  CatalogSetup, DatabaseSetup, TableSetup, Plan, catalog_step, database_step, table_step,
  use_catalog_step, use_database_step, CompiledStep, PlanError, Unicode,
}
use flink_sql_go.Setup.Checks.{validate_identifier, validate_table, compile_sensitive_keys}
use flink_sql_go.Setup.Compile.{
  catalog_target, database_target, compile_options, compile_catalog, compile_catalogs, database_key,
  compile_database, compile_databases, table_key, compile_table, compile_tables, use_catalog,
  use_database, compile_plan,
}
use flink_sql_go.Setup.Numbering.{
  Shape, shape, number, append-append, append_nil, IsBuilt, guarded, after, ok_injective, appended,
}

compile_catalog-appends :
    (u : Unicode) (c : CatalogSetup) (seen : List Bytes) (steps out : List CompiledStep)
    (xs : List Shape)
    → compile_catalog u c seen steps ≡ ok out
    → IsBuilt steps xs
    → IsBuilt out (xs ++ (catalog_step, catalog_target c.name) ∷ []) × (member c.name seen ≡ false)
unfolding compile_catalog
compile_catalog-appends u c seen steps out xs e b =
    let e1 = after (validate_identifier c.name) _ e in
    let (fresh, e2) = guarded (not (member c.name seen)) _ _ e1 in
    let (_, e3) = guarded _ _ _ e2 in
    let (custom, _, e4) = >>=-eq-ok (compile_sensitive_keys u c.sensitive_keys) _ e3 in
    let (made, _, e5) = >>=-eq-ok (compile_options u c.options custom) _ e4 in
    (appended steps out xs _ _ _ _ _ _ b e5, ground arith)

compile_database-appends :
    (u : Unicode) (d : DatabaseSetup) (seen : List Bytes) (steps out : List CompiledStep)
    (xs : List Shape)
    → compile_database u d seen steps ≡ ok out
    → IsBuilt steps xs
    → IsBuilt out (xs ++ (database_step, database_target d.catalog d.name) ∷ [])
      × (member (database_key d) seen ≡ false)
unfolding compile_database
compile_database-appends u d seen steps out xs e b =
    let e1 = after (validate_identifier d.catalog) _ e in
    let e2 = after (validate_identifier d.name) _ e1 in
    let (fresh, e3) = guarded (not (member (database_key d) seen)) _ _ e2 in
    let (made, _, e4) = >>=-eq-ok (compile_options u d.options []) _ e3 in
    (appended steps out xs _ _ _ _ _ _ b e4, ground arith)

compile_table-appends :
    (u : Unicode) (t : TableSetup) (seen : List Bytes) (steps out : List CompiledStep)
    (xs : List Shape)
    → compile_table u t seen steps ≡ ok out
    → IsBuilt steps xs
    → IsBuilt out (xs ++ (table_step, t.target) ∷ []) × (member (table_key t) seen ≡ false)
unfolding compile_table
compile_table-appends u t seen steps out xs e b =
    let e1 = after (validate_table u t) _ e in
    let (fresh, e2) = guarded (not (member (table_key t) seen)) _ _ e1 in
    (appended steps out xs _ _ _ _ _ _ b e2, ground arith)

-- A loop that appends one step for each element and refuses keys that it has seen.
module _ {A : Type 0}
    (one : A → List Bytes → List CompiledStep → Result PlanError (List CompiledStep))
    (key : A → Bytes) (made : A → Shape)
    (appends : (a : A) (seen : List Bytes) (steps out : List CompiledStep) (xs : List Shape)
      → one a seen steps ≡ ok out
      → IsBuilt steps xs
      → IsBuilt out (xs ++ made a ∷ []) × (member (key a) seen ≡ false)) where
  Done : List A → List Bytes → List Shape → List CompiledStep → Type 0
  Done list seen xs out =
      IsBuilt out (xs ++ map made list)
      × (is_distinct (map key list) ≡ true)
      × ((k : Bytes) → member k seen ≡ true → member k (map key list) ≡ false)

  finished :
      (seen : List Bytes) (steps out : List CompiledStep) (xs : List Shape)
      → steps ≡ out
      → IsBuilt steps xs
      → Done [] seen xs out
  unfolding Done member is_distinct
  finished seen steps out xs e b = (
    subst (λ ys. IsBuilt ys (xs ++ [])) e (subst (λ ys. IsBuilt steps ys) (sym (append_nil xs)) b),
    refl,
    λ k h. refl,
  )

  continued :
      (a : A) (list : List A) (seen : List Bytes) (steps next out : List CompiledStep)
      (xs : List Shape)
      → one a seen steps ≡ ok next
      → IsBuilt steps xs
      → (IsBuilt next (xs ++ made a ∷ []) → Done list (key a ∷ seen) (xs ++ made a ∷ []) out)
      → Done (a ∷ list) seen xs out
  unfolding Done member is_distinct
  continued a list seen steps next out xs e b rest =
      let (built, fresh) = appends a seen steps next xs e b in
      let (all, distinct, apart) = rest built in
      (
        subst (λ ys. IsBuilt out ys) (append-append xs (made a ∷ []) (map made list)) all,
        ground (arith, apart (key a), bytes_beq_iff (key a) (key a)),
        λ k h. ground (arith, apart k, bytes_beq_iff (key a) k),
      )

compile_catalogs-Done :
    (u : Unicode) (cs : List CatalogSetup) (seen : List Bytes) (steps out : List CompiledStep)
    (xs : List Shape)
    → compile_catalogs u cs seen steps ≡ ok out
    → IsBuilt steps xs
    → Done
        (compile_catalog u)
        (λ c. c.name)
        (λ c. (catalog_step, catalog_target c.name))
        (compile_catalog-appends u)
        cs
        seen
        xs
        out
unfolding compile_catalogs
compile_catalogs-Done u [] seen steps out xs e b =
    finished _ _ _ (compile_catalog-appends u) seen steps out xs (ok_injective steps out e) b
compile_catalogs-Done u (c ∷ cs) seen steps out xs e b =
    let (next, e1, e2) = >>=-eq-ok (compile_catalog u c seen steps) _ e in
    continued _ _ _ (compile_catalog-appends u) c cs seen steps next out xs e1 b
      (λ built. compile_catalogs-Done u cs (c.name ∷ seen) next out _ e2 built)

compile_databases-Done :
    (u : Unicode) (ds : List DatabaseSetup) (seen : List Bytes) (steps out : List CompiledStep)
    (xs : List Shape)
    → compile_databases u ds seen steps ≡ ok out
    → IsBuilt steps xs
    → Done
        (compile_database u)
        database_key
        (λ d. (database_step, database_target d.catalog d.name))
        (compile_database-appends u)
        ds
        seen
        xs
        out
unfolding compile_databases
compile_databases-Done u [] seen steps out xs e b =
    finished _ _ _ (compile_database-appends u) seen steps out xs (ok_injective steps out e) b
compile_databases-Done u (d ∷ ds) seen steps out xs e b =
    let (next, e1, e2) = >>=-eq-ok (compile_database u d seen steps) _ e in
    continued _ _ _ (compile_database-appends u) d ds seen steps next out xs e1 b
      (λ built. compile_databases-Done u ds (database_key d ∷ seen) next out _ e2 built)

compile_tables-Done :
    (u : Unicode) (ts : List TableSetup) (seen : List Bytes) (steps out : List CompiledStep)
    (xs : List Shape)
    → compile_tables u ts seen steps ≡ ok out
    → IsBuilt steps xs
    → Done
        (compile_table u)
        table_key
        (λ t. (table_step, t.target))
        (compile_table-appends u)
        ts
        seen
        xs
        out
unfolding compile_tables
compile_tables-Done u [] seen steps out xs e b =
    finished _ _ _ (compile_table-appends u) seen steps out xs (ok_injective steps out e) b
compile_tables-Done u (t ∷ ts) seen steps out xs e b =
    let (next, e1, e2) = >>=-eq-ok (compile_table u t seen steps) _ e in
    continued _ _ _ (compile_table-appends u) t ts seen steps next out xs e1 b
      (λ built. compile_tables-Done u ts (table_key t ∷ seen) next out _ e2 built)

abbrev pub catalog_scope : Bytes → List Shape
catalog_scope [] = []
catalog_scope (c ∷ s) = (use_catalog_step, catalog_target (c ∷ s)) ∷ []

abbrev pub database_scope : Bytes → Bytes → List Shape
database_scope catalog [] = []
database_scope catalog (c ∷ s) = (use_database_step, database_target catalog (c ∷ s)) ∷ []

use_catalog-IsBuilt :
    (name : Bytes) (steps out : List CompiledStep) (xs : List Shape)
    → use_catalog name steps ≡ ok out
    → IsBuilt steps xs
    → IsBuilt out (xs ++ catalog_scope name)
unfolding use_catalog
use_catalog-IsBuilt [] steps out xs e b =
    subst (λ ys. IsBuilt ys (xs ++ [])) (ok_injective steps out e)
      (subst (λ ys. IsBuilt steps ys) (sym (append_nil xs)) b)
use_catalog-IsBuilt (c ∷ s) steps out xs e b =
    appended steps out xs _ _ _ _ _ _ b (after (validate_identifier (c ∷ s)) _ e)

use_database-IsBuilt :
    (catalog name : Bytes) (steps out : List CompiledStep) (xs : List Shape)
    → use_database catalog name steps ≡ ok out
    → IsBuilt steps xs
    → IsBuilt out (xs ++ database_scope catalog name)
unfolding use_database
use_database-IsBuilt catalog [] steps out xs e b =
    subst (λ ys. IsBuilt ys (xs ++ [])) (ok_injective steps out e)
      (subst (λ ys. IsBuilt steps ys) (sym (append_nil xs)) b)
use_database-IsBuilt catalog (c ∷ s) steps out xs e b =
    appended steps out xs _ _ _ _ _ _ b (after (validate_identifier (c ∷ s)) _ e)

-- What the plan asks for, in order.
abbrev pub plan_shapes : Plan → List Shape
plan_shapes p =
    (((map (λ c. (catalog_step, catalog_target c.name)) p.catalogs
          ++ map (λ d. (database_step, database_target d.catalog d.name)) p.databases)
        ++ map (λ t. (table_step, t.target)) p.tables)
      ++ catalog_scope p.current_catalog)
    ++ database_scope p.current_catalog p.current_database

-- A plan that compiles gives one step for each catalog, then each database, then each table, then the
-- catalog and the database to use, numbered from 0; and no catalog, database or table is declared
-- twice.
pub compile_plan-shape :
    (u : Unicode) (p : Plan) (steps : List CompiledStep)
    → compile_plan u p ≡ ok steps
    → (map shape steps ≡ number 0 (plan_shapes p))
      × (is_distinct (map (λ c. c.name) p.catalogs) ≡ true)
      × (is_distinct (map database_key p.databases) ≡ true)
      × (is_distinct (map table_key p.tables) ≡ true)
unfolding compile_plan IsBuilt Done
compile_plan-shape u p steps e =
    let (_, e0) = guarded _ _ _ e in
    let (catalogs, e1, f1) = >>=-eq-ok (compile_catalogs u p.catalogs [] []) _ e0 in
    let (databases, e2, f2) = >>=-eq-ok (compile_databases u p.databases [] catalogs) _ f1 in
    let (tables, e3, f3) = >>=-eq-ok (compile_tables u p.tables [] databases) _ f2 in
    let (_, f4) = guarded _ _ _ f3 in
    let (scoped, e5, f5) = >>=-eq-ok (use_catalog p.current_catalog tables) _ f4 in
    let (b1, d1, _) = compile_catalogs-Done u p.catalogs [] [] catalogs [] e1 refl in
    let (b2, d2, _) = compile_databases-Done u p.databases [] catalogs databases _ e2 b1 in
    let (b3, d3, _) = compile_tables-Done u p.tables [] databases tables _ e3 b2 in
    let b4 = use_catalog-IsBuilt p.current_catalog tables scoped _ e5 b3 in
    (use_database-IsBuilt p.current_catalog p.current_database scoped steps _ f5 b4, d1, d2, d3)
