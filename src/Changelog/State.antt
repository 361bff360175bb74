-- ===== src/Changelog/State.antt =====
-- `Materializer` and its methods. A method returns the new state or the error; the mutex makes each
-- one a step of its own.
use flink_sql_go.Prelude.{
  ℕ, ◌+◌, ◌*◌, Bool, true, false, ◌&&◌, ◌||◌, not, List, [], ◌∷◌, ◌++◌, Option, none, some, Bytes,
  bytes_eq, ◌=?◌, ltb, leb, length, set, if◌then◌else◌, Result, ok, err, ◌>>=◌, ◌>>◌, guard,
}
use flink_sql_go.Prelude.Assoc.{lookup, insert, delete, has}
use flink_sql_go.Go.Space.{trim_space, is_empty}
use flink_sql_go.Go.Decimal.{itoa}
use flink_sql_go.Changelog.Row.{
  RowKind, insert_row, update_before, update_after, delete_row, other_kind, Row, ColumnInfo, Json,
  raw, same_fields,
}

pub data Error : Type 0 where
  primary_key_required columns_required primary_key_missing duplicate_key row_not_found : Error
  update_order max_rows_exceeded unsupported_row_kind : Error

pub record Materializer : Type 0 where
  pub primary_key : List Bytes
  pub columns : List ColumnInfo
  pub max_rows : ℕ
  pub rows : List (Bytes × Row)
  pub order : List Bytes
  pub order_index : List (Bytes × ℕ)
  pub tombstones : ℕ
  pub pending : List (Bytes × Unit {0})

-- One column's part of the key: the length of its canonical form, `:`, the form and `|`.
unfoldable pub key_part : Bytes → Bytes
key_part compact = itoa (length compact) ++ (b':' ∷ (compact ++ (b'|' ∷ [])))

unfoldable pub canonical_part : Json → List ColumnInfo → Row → Bytes → Result Error Bytes
unfolding raw
canonical_part json columns row column = elim (raw json columns row column) [
  | err e ↦ err primary_key_missing
  | ok (value, null) ↦
      if null || is_empty (trim_space value)
      then err primary_key_missing
      else elim (json.canonical value) [
        | none ↦ err primary_key_missing
        | some compact ↦ ok compact
      ]
]

unfoldable pub row_key_from : Json → List ColumnInfo → List Bytes → Row → Result Error Bytes
unfolding canonical_part key_part
row_key_from json columns [] row = ok []
row_key_from json columns (column ∷ rest) row = do
  compact ← canonical_part json columns row column
  key ← row_key_from json columns rest row
  ok (key_part compact ++ key)

unfoldable pub row_key : Json → Materializer → Row → Result Error Bytes
unfolding row_key_from
row_key json m row = row_key_from json m.columns m.primary_key row

-- The loop of `compactOrderLocked`; the empty key is a tombstone.
unfoldable pub compact_from :
    List (Bytes × ℕ) → List Bytes → List Bytes → List (Bytes × ℕ) × List Bytes
compact_from index compacted [] = (index, compacted)
compact_from index compacted ([] ∷ keys) = compact_from index compacted keys
compact_from index compacted ((c ∷ cs) ∷ keys) =
    compact_from (insert (c ∷ cs) (length compacted) index) (compacted ++ (c ∷ cs) ∷ []) keys

unfoldable pub compact_order : Materializer → Materializer
unfolding compact_from
compact_order m =
    let (index, compacted) = compact_from m.order_index [] m.order in
    record m { order = compacted; order_index = index; tombstones = 0 }

unfoldable pub remove_at : Materializer → Bytes → ℕ → Materializer
unfolding compact_order
remove_at m key index =
    let m' = record m {
      order_index = delete key m.order_index;
      order = set m.order index [];
      tombstones = m.tombstones + 1;
    } in
    if ltb 1024 m'.tombstones && ltb (length m'.order) (m'.tombstones * 2)
    then compact_order m'
    else m'

unfoldable pub remove_order : Materializer → Bytes → Materializer
unfolding remove_at
remove_order m key = elim (lookup key m.order_index) [
  | none ↦ m
  | some index ↦ remove_at m key index
]

-- The `switch` of `Apply`, once the key is known and the two maps are read.
unfoldable pub dispatch :
    Materializer → Bytes → Row → RowKind → Option Row → Bool → Result Error Materializer
unfolding remove_order same_fields
dispatch m key row insert_row (some existing) update_pending = err duplicate_key
dispatch m key row insert_row none true = err duplicate_key
dispatch m key row insert_row none false =
    if leb m.max_rows (length m.rows)
    then err max_rows_exceeded
    else ok (record m {
      rows = insert key row m.rows;
      order_index = insert key (length m.order) m.order_index;
      order = m.order ++ key ∷ [];
    })
dispatch m key row update_before none update_pending = err row_not_found
dispatch m key row update_before (some existing) true = err update_order
dispatch m key row update_before (some existing) false =
    if same_fields existing.fields row.fields
    then ok (record m { pending = insert key tt m.pending })
    else err update_order
dispatch m key row update_after none update_pending = err row_not_found
dispatch m key row update_after (some existing) false = err update_order
dispatch m key row update_after (some existing) true =
    ok (record m { rows = insert key row m.rows; pending = delete key m.pending })
dispatch m key row delete_row none update_pending = err row_not_found
dispatch m key row delete_row (some existing) true = err update_order
dispatch m key row delete_row (some existing) false =
    ok (remove_order (record m { rows = delete key m.rows }) key)
dispatch m key row (other_kind k) existing update_pending = err unsupported_row_kind

unfoldable pub apply_at : Materializer → Bytes → Row → Result Error Materializer
unfolding dispatch
apply_at m key row = dispatch m key row row.kind (lookup key m.rows) (has key m.pending)

unfoldable pub apply : Json → Materializer → Row → Result Error Materializer
unfolding apply_at row_key
apply json m row = do key ← row_key json m row; apply_at m key row

abbrev pub is_update_pair : RowKind → RowKind → Bool
is_update_pair update_before update_after = true
is_update_pair _ _ = false

unfoldable pub apply_update_at : Materializer → Bytes → Row → Row → Result Error Materializer
apply_update_at m key before after = elim (lookup key m.rows) [
  | none ↦ err row_not_found
  | some existing ↦ do
    guard (not (has key m.pending)) update_order
    guard (same_fields existing.fields before.fields) update_order
    ok (record m { rows = insert key after m.rows })
]

unfoldable pub apply_update : Json → Materializer → Row → Row → Result Error Materializer
unfolding apply_update_at row_key
apply_update json m before after = do
  guard (is_update_pair before.kind after.kind) update_order
  before_key ← row_key json m before
  after_key ← row_key json m after
  guard (before_key =? after_key) update_order
  apply_update_at m before_key before after

unfoldable pub rollback_pending : Materializer → Materializer × ℕ
rollback_pending m = (record m { pending = [] }, length m.pending)

unfoldable pub pending_updates : Materializer → ℕ
pending_updates m = length m.pending

unfoldable pub snapshot_from : List (Bytes × Row) → List Bytes → List Row
snapshot_from rows [] = []
snapshot_from rows (key ∷ keys) =
    let rest = snapshot_from rows keys in
    elim (lookup key rows) [ none ↦ rest | some row ↦ record row { kind = insert_row } ∷ rest ]

unfoldable pub snapshot : Materializer → List Row
unfolding snapshot_from
snapshot m = snapshot_from m.rows m.order
