-- ===== src/Changelog/Row.antt =====
-- Changelog rows and the accessor of flinksqlgateway/decoder.go that reads a field by its column.
-- A value is never shared, so the copies that the source makes are the values themselves.
use flink_sql_go.Prelude.{
  ℕ, suc, Bool, true, false, ◌&&◌, List, [], ◌∷◌, Option, none, some, Bytes, ltb, ◌=?◌, bytes_eq,
  bytes_beq, length, get_elem?, if◌then◌else◌, Result, ok, err, ◌>>=◌, ◌>>◌, codes,
}
use flink_sql_go.Go.Space.{trim_space, is_empty}

pub data RowKind : Type 0 where
  insert_row update_before update_after delete_row : RowKind
  other_kind : Bytes → RowKind

pub record Row : Type 0 where
  pub kind : RowKind
  pub fields : List Bytes

-- The name is all that the modelled code reads of a column.
pub record ColumnInfo : Type 0 where
  pub name : Bytes

-- encoding/json, which the source calls: `valid` is json.Valid, and `canonical` is a Decoder with
-- UseNumber followed by Marshal.
pub record Json : Type 0 where
  pub valid : Bytes → Bool
  pub canonical : Bytes → Option Bytes

pub data FieldError : Type 0 where
  no_columns no_field no_column out_of_range empty_field invalid_field : FieldError

unfoldable pub validate_raw_json_field : Json → Bytes → Result FieldError (Unit {0})
unfolding trim_space
validate_raw_json_field json raw =
    let trimmed = trim_space raw in
    if is_empty trimmed
    then err empty_field
    else if json.valid trimmed
    then ok tt
    else err invalid_field

-- The loop of `columnIndex`, `index` columns in.
unfoldable pub column_index_from : ℕ → Bytes → List ColumnInfo → List Bytes → Result FieldError ℕ
column_index_from index name [] fields = err no_column
column_index_from index name (c ∷ columns) fields =
    let rest = column_index_from (suc index) name columns fields in
    if c.name =? name then (if ltb index (length fields) then ok index else err no_field) else rest

unfoldable pub column_index : List ColumnInfo → Bytes → List Bytes → Result FieldError ℕ
unfolding column_index_from
column_index [] name fields = err no_columns
column_index (c ∷ columns) name fields = column_index_from 0 name (c ∷ columns) fields

-- The field, and whether it is SQL NULL.
unfoldable pub raw_at : Json → List Bytes → ℕ → Result FieldError (Bytes × Bool)
unfolding validate_raw_json_field
raw_at json fields index = elim (get_elem? fields index) [
  | none ↦ err out_of_range
  | some raw ↦ do validate_raw_json_field json raw; ok (raw, trim_space raw =? codes "null")
]

unfoldable pub raw : Json → List ColumnInfo → Row → Bytes → Result FieldError (Bytes × Bool)
unfolding column_index raw_at
raw json columns row name = do
  index ← column_index columns name row.fields
  raw_at json row.fields index

-- `sameFields` of the materializer.
unfoldable pub same_fields : List Bytes → List Bytes → Bool
same_fields [] [] = true
same_fields [] (y ∷ ys) = false
same_fields (x ∷ xs) [] = false
same_fields (x ∷ xs) (y ∷ ys) = bytes_beq (trim_space x) (trim_space y) && same_fields xs ys
