-- ===== src/Changelog/Refinement.antt =====
-- `Apply`, `ApplyUpdate` and `Snapshot` against one ordered table with no tombstones, no index and
-- no compaction.
use flink_sql_go.Prelude.{
  ℕ, ◌+◌, ◌≤◌, ◌≡◌, refl, ◌∙◌, inl, inr, ◌≢◌, Bool, true, false, ◌&&◌, ◌*◌, List, [], ◌∷◌, ◌++◌,
  Option, none, some, Bytes, bytes_eq, length, set, ltb, leb, if◌then◌else◌, arith, Option-cases,
  Bool-cases, Result, ok, err,
}
use flink_sql_go.Prelude.Assoc.{lookup, insert, delete, has}
use flink_sql_go.Changelog.Row.{
  Row, RowKind, insert_row, update_before, update_after, delete_row, other_kind, same_fields,
}
use flink_sql_go.Changelog.State.{
  Error, duplicate_key, row_not_found, update_order, max_rows_exceeded, unsupported_row_kind,
  Materializer, compact_order, remove_at, remove_order,
}
use flink_sql_go.Changelog.View.{Table, entries, replace, lookup-entries}
use flink_sql_go.Changelog.Compaction.{entries-occupied, compact_from-order}
use flink_sql_go.Changelog.Invariant.{
  IsOrdered, entries-delete-set, delete-IsOrdered, compact-IsOrdered,
}

pub record IsValid (m : Materializer) : Type 0 where
  pub keyed : m.primary_key ≢ []
  pub ordered : IsOrdered m.rows m.order m.order_index m.tombstones
  pub bounded : length m.rows ≤ m.max_rows
  pub pending_live : (k : Bytes) → has k m.pending ≡ true → has k m.rows ≡ true

-- The abstract state: the table, and the keys that wait for an UPDATE_AFTER.
pub record View : Type 0 where
  pub table : Table
  pub pending : List (Bytes × Unit {0})

abbrev pub view : Materializer → View
view m = record { table = entries m.rows m.order; pending = m.pending }

-- The abstract step.
unfoldable pub table_step : ℕ → View → Bytes → Row → RowKind → Option Row → Bool → Result Error View
table_step limit v key row insert_row (some existing) p = err duplicate_key
table_step limit v key row insert_row none true = err duplicate_key
table_step limit v key row insert_row none false =
    if leb limit (length v.table)
    then err max_rows_exceeded
    else ok (record v { table = v.table ++ (key, row) ∷ [] })
table_step limit v key row update_before none p = err row_not_found
table_step limit v key row update_before (some existing) true = err update_order
table_step limit v key row update_before (some existing) false =
    if same_fields existing.fields row.fields
    then ok (record v { pending = insert key tt v.pending })
    else err update_order
table_step limit v key row update_after none p = err row_not_found
table_step limit v key row update_after (some existing) false = err update_order
table_step limit v key row update_after (some existing) true =
    ok (record { table = replace key row v.table; pending = delete key v.pending })
table_step limit v key row delete_row none p = err row_not_found
table_step limit v key row delete_row (some existing) true = err update_order
table_step limit v key row delete_row (some existing) false =
    ok (record v { table = delete key v.table })
table_step limit v key row (other_kind k) existing p = err unsupported_row_kind

unfoldable pub table_apply : ℕ → View → Bytes → Row → Result Error View
unfolding table_step
table_apply limit v key row =
    table_step limit v key row row.kind (lookup key v.table) (has key v.pending)

abbrev pub viewed : Result Error Materializer → Result Error View
viewed (ok m) = ok (view m)
viewed (err e) = err e

-- The table shows the rows of the map.
pub lookup-table :
    (m : Materializer) → IsValid m → (k : Bytes) → lookup k (view m).table ≡ lookup k m.rows
lookup-table m v k =
    ground
      (arith, lookup-entries k m.rows m.order, v.ordered.listed k, Option-cases (lookup k m.rows))

-- What one removal of a live key comes to, whether or not the order is compacted after it.
pub record Removed (m : Materializer) (key : Bytes) (m' : Materializer) : Type 0 where
  pub ordered : IsOrdered m'.rows m'.order m'.order_index m'.tombstones
  pub rows_eq : m'.rows ≡ delete key m.rows
  pub table_eq : entries m'.rows m'.order ≡ delete key (entries m.rows m.order)
  pub pending_eq : m'.pending ≡ m.pending
  pub max_rows_eq : m'.max_rows ≡ m.max_rows
  pub primary_key_eq : m'.primary_key ≡ m.primary_key

module _ (m : Materializer) (v : IsValid m) (key : Bytes) (old : has key m.rows ≡ true) where
  abbrev without : Materializer
  without = record m { rows = delete key m.rows }

  remove_at-Removed :
      (i : ℕ) → lookup key m.order_index ≡ some i → Removed m key (remove_at without key i)
  unfolding remove_at compact_order
  remove_at-Removed i at =
      elim (Bool-cases
        (ltb 1024 (m.tombstones + 1) && ltb (length (set m.order i [])) ((m.tombstones + 1) * 2))) [
          | inr keep ↦ rw keep (record {
            ordered = delete-IsOrdered v.ordered key i old at;
            rows_eq = refl;
            table_eq = entries-delete-set v.ordered key i old at;
            pending_eq = refl;
            max_rows_eq = refl;
            primary_key_eq = refl;
          })
          | inl compact ↦
              rw (compact, compact_from-order)
                (record {
                  ordered = compact-IsOrdered (delete-IsOrdered v.ordered key i old at);
                  rows_eq = refl;
                  table_eq =
                      entries-occupied (delete key m.rows) (set m.order i [])
                        (delete-IsOrdered v.ordered key i old at).no_empty
                      ∙ entries-delete-set v.ordered key i old at;
                  pending_eq = refl;
                  max_rows_eq = refl;
                  primary_key_eq = refl;
                })
        ]

  pub remove_order-Removed : Removed m key (remove_order without key)
  unfolding remove_order
  remove_order-Removed = elim (Option-cases (lookup key m.order_index)) [
    | inl missing ↦ absurd (ground (arith, v.ordered.complete key old))
    | inr (i, at) ↦ rw (at, remove_order) (remove_at-Removed i at)
  ]
