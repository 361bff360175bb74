-- ===== src/Changelog/Methods.antt =====
-- The methods keep the invariant, and each does to the table what the abstract step does.
use flink_sql_go.Prelude.{
  ◌≡◌, refl, sym, ◌∙◌, inl, inr, ◌≢◌, Bool, true, false, [], Option, none, some, Bytes, bytes_eq,
  bytes_beq_iff, length, leb, arith, Bool-cases, Result, ok, err,
}
use flink_sql_go.Prelude.Assoc.{
  lookup, has, lookup-insert, lookup-delete, length-insert, length-delete-le,
}
use flink_sql_go.Changelog.Row.{
  Row, RowKind, insert_row, update_before, update_after, delete_row, other_kind, same_fields,
}
use flink_sql_go.Changelog.State.{Error, Materializer, dispatch, apply_at}
use flink_sql_go.Changelog.View.{entries-insert_present}
use flink_sql_go.Changelog.Invariant.{entries-insert_new, insert-IsOrdered, update-IsOrdered}
use flink_sql_go.Changelog.Refinement.{
  IsValid, view, table_step, table_apply, viewed, lookup-table, Removed, remove_order-Removed,
}

abbrev Keeps : Result Error Materializer → Type 0
Keeps (ok m) = IsValid m
Keeps (err e) = Unit {0}

module _ (m : Materializer) (v : IsValid m) (key : Bytes) (n : key ≢ []) (row : Row) where
  Removed-IsValid : (m' : Materializer) → has key m.pending ≡ false → Removed m key m' → IsValid m'
  Removed-IsValid m' idle r = record {
    keyed = λ e. v.keyed (sym r.primary_key_eq ∙ e);
    ordered = r.ordered;
    bounded = ground (arith, r.rows_eq, r.max_rows_eq, length-delete-le key m.rows, v.bounded);
    pending_live = λ k h. ground (
      arith,
      r.rows_eq,
      r.pending_eq,
      lookup-delete key k m.rows,
      bytes_beq_iff key k,
      v.pending_live k,
    );
  }

  dispatch-Keeps :
      (kind : RowKind) (existing : Option Row) (p : Bool)
      → lookup key m.rows ≡ existing
      → has key m.pending ≡ p
      → Keeps (dispatch m key row kind existing p)
  unfolding dispatch
  dispatch-Keeps insert_row (some r) p e q = tt
  dispatch-Keeps insert_row none true e q = tt
  dispatch-Keeps insert_row none false e q = elim (Bool-cases (leb m.max_rows (length m.rows))) [
    | inl full ↦ rw full tt
    | inr room ↦ rw room (record {
      keyed = v.keyed;
      ordered = insert-IsOrdered v.ordered key row (ground arith) n;
      bounded = ground (arith, length-insert key row m.rows);
      pending_live = λ k h. ground (arith, lookup-insert key k row m.rows, v.pending_live k);
    })
  ]
  dispatch-Keeps update_before none p e q = tt
  dispatch-Keeps update_before (some r) true e q = tt
  dispatch-Keeps update_before (some r) false e q =
      elim (Bool-cases (same_fields r.fields row.fields)) [
        | inr other ↦ rw other tt
        | inl same ↦ rw same (record {
          keyed = v.keyed;
          ordered = v.ordered;
          bounded = v.bounded;
          pending_live = λ k h.
              ground
                (arith, lookup-insert key k tt m.pending, bytes_beq_iff key k, v.pending_live k);
        })
      ]
  dispatch-Keeps update_after none p e q = tt
  dispatch-Keeps update_after (some r) false e q = tt
  dispatch-Keeps update_after (some r) true e q = record {
    keyed = v.keyed;
    ordered = update-IsOrdered v.ordered key row (ground arith);
    bounded = ground (arith, length-insert key row m.rows, v.bounded);
    pending_live = λ k h.
        ground
          (arith, lookup-insert key k row m.rows, lookup-delete key k m.pending, v.pending_live k);
  }
  dispatch-Keeps delete_row none p e q = tt
  dispatch-Keeps delete_row (some r) true e q = tt
  dispatch-Keeps delete_row (some r) false e q =
      Removed-IsValid _ q (remove_order-Removed m v key (ground arith))
  dispatch-Keeps (other_kind k) existing p e q = tt

  dispatch-table_step :
      (kind : RowKind) (existing : Option Row) (p : Bool)
      → lookup key m.rows ≡ existing
      → viewed (dispatch m key row kind existing p)
        ≡ table_step m.max_rows (view m) key row kind existing p
  unfolding dispatch table_step
  dispatch-table_step insert_row (some r) p e = refl
  dispatch-table_step insert_row none true e = refl
  dispatch-table_step insert_row none false e =
      ground (arith, v.ordered.counted, entries-insert_new v.ordered key row (ground arith) n)
  dispatch-table_step update_before none p e = refl
  dispatch-table_step update_before (some r) true e = refl
  dispatch-table_step update_before (some r) false e = ground arith
  dispatch-table_step update_after none p e = refl
  dispatch-table_step update_after (some r) false e = refl
  dispatch-table_step update_after (some r) true e =
      ground (arith, entries-insert_present key row m.rows m.order)
  dispatch-table_step delete_row none p e = refl
  dispatch-table_step delete_row (some r) true e = refl
  dispatch-table_step delete_row (some r) false e =
      let removed = remove_order-Removed m v key (ground arith) in
      ground (arith, removed.table_eq, removed.pending_eq)
  dispatch-table_step (other_kind k) existing p e = refl

  pub apply_at-Keeps : Keeps (apply_at m key row)
  unfolding apply_at
  apply_at-Keeps = dispatch-Keeps row.kind (lookup key m.rows) (has key m.pending) refl refl

  pub apply_at-table_apply : viewed (apply_at m key row) ≡ table_apply m.max_rows (view m) key row
  unfolding apply_at table_apply
  apply_at-table_apply =
      rw (lookup-table m v key)
        (dispatch-table_step row.kind (lookup key m.rows) (has key m.pending) refl)
