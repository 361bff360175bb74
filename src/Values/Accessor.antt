-- ===== src/Values/Accessor.antt =====
-- The accessor of a row by the logical types of its columns: `ValueAt`, `Value` and what reads one Go type.
use flink_sql_go.Prelude.{
  ℕ, Bool, List, map, Option, none, some, Bytes, bytes_eq, bytes_beq, get_elem?, if◌then◌else◌,
  codes, ℤ, Result, ok, err,
}
use flink_sql_go.Go.Space.{trim_space}
use flink_sql_go.Changelog.Row.{
  ColumnInfo, FieldError, out_of_range, validate_raw_json_field, column_index,
}
use flink_sql_go.Values.Types.{
  LogicalType, Value, bool_value, int_value, decimal_value, text_value, date_value, time_value,
  timestamp_value, ltz_value, Codec,
}
use flink_sql_go.Values.Decode.{DecodeError, decode}

pub record TypedColumn : Type 0 where
  pub name : Bytes
  pub type_of : LogicalType

pub data AccessError : Type 0 where
  field_error : FieldError → AccessError
  decode_error : DecodeError → AccessError
  type_mismatch : Bytes → AccessError

abbrev decoded : Result DecodeError Value → Result AccessError (Option Value)
decoded (ok v) = ok (some v)
decoded (err e) = err (decode_error e)

abbrev checked_value :
    Codec → TypedColumn → Bytes → Result FieldError (Unit {0}) → Result AccessError (Option Value)
checked_value c column raw (err e) = err (field_error e)
checked_value c column raw (ok u) =
    if bytes_beq (trim_space raw) (codes "null")
    then ok none
    else decoded (decode c column.name column.type_of raw)

-- `none` is SQL NULL.
unfoldable pub value_at :
    Codec → List TypedColumn → List Bytes → ℕ → Result AccessError (Option Value)
unfolding decode trim_space validate_raw_json_field
value_at c columns fs index = elim (get_elem? fs index) [
  | none ↦ err (field_error out_of_range)
  | some raw ↦ elim (get_elem? columns index) [
    | none ↦ err (field_error out_of_range)
    | some column ↦ checked_value c column raw (validate_raw_json_field c.json raw)
  ]
]

abbrev named : TypedColumn → ColumnInfo
named column = record { name = column.name }

unfoldable pub value :
    Codec → List TypedColumn → List Bytes → Bytes → Result AccessError (Option Value)
unfolding value_at column_index
value c columns fs name = elim (column_index (map named columns) name fs) [
  | err e ↦ err (field_error e)
  | ok index ↦ value_at c columns fs index
]

-- A value read as one Go type.
abbrev pub as_type :
    {A : Type 0}
    → (Value → Option A)
    → Bytes
    → Result AccessError (Option Value)
    → Result AccessError (Option A)
as_type read name (err e) = err e
as_type read name (ok none) = ok none
as_type read name (ok (some v)) = elim (read v) [
  | none ↦ err (type_mismatch name)
  | some a ↦ ok (some a)
]

abbrev pub read_text : Value → Option Bytes
read_text (text_value s) = some s
read_text _ = none

abbrev pub read_int : Value → Option ℤ
read_int (int_value n) = some n
read_int _ = none

abbrev pub read_bool : Value → Option Bool
read_bool (bool_value b) = some b
read_bool _ = none

abbrev pub read_decimal : Value → Option Bytes
read_decimal (decimal_value s) = some s
read_decimal _ = none

abbrev pub read_time : Value → Option ℤ
read_time (date_value t s) = some t
read_time (time_value t s) = some t
read_time (timestamp_value t s) = some t
read_time (ltz_value t s) = some t
read_time _ = none

module _ (c : Codec) (columns : List TypedColumn) (fs : List Bytes) (name : Bytes) where
  unfoldable pub string_of_column : Result AccessError (Option Bytes)
  unfolding value
  string_of_column = as_type read_text name (value c columns fs name)

  unfoldable pub int64_of_column : Result AccessError (Option ℤ)
  unfolding value
  int64_of_column = as_type read_int name (value c columns fs name)

  unfoldable pub bool_of_column : Result AccessError (Option Bool)
  unfolding value
  bool_of_column = as_type read_bool name (value c columns fs name)

  unfoldable pub decimal_of_column : Result AccessError (Option Bytes)
  unfolding value
  decimal_of_column = as_type read_decimal name (value c columns fs name)

  unfoldable pub time_of_column : Result AccessError (Option ℤ)
  unfolding value
  time_of_column = as_type read_time name (value c columns fs name)
