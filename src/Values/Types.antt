-- ===== src/Values/Types.antt =====
-- The logical types of columns, and the values of their fields. What the source uses of encoding/json,
-- encoding/base64, strconv.ParseFloat and time, and strings.ToUpper, is an argument.
use flink_sql_go.Prelude.{ℕ, Bool, List, Option, Bytes, ℤ}
use flink_sql_go.Changelog.Row.{Json}

-- A type with its element, its value and its fields; a field has its type under one of two names.
mutual
  pub data LogicalType : Type 0 where
    logical : Bytes → OptType → OptType → Fields → LogicalType

  pub data OptType : Type 0 where
    no_type : OptType
    a_type : LogicalType → OptType

  pub data Fields : Type 0 where
    no_fields : Fields
    field : Bytes → FieldType → Fields → Fields

  pub data FieldType : Type 0 where
    untyped : FieldType
    under_logical_type under_type : LogicalType → FieldType
    under_both : LogicalType → LogicalType → FieldType

-- A float is its bits, a time its nanoseconds. An object is its entries.
mutual
  pub data Value : Type 0 where
    null_value : Value
    bool_value : Bool → Value
    int_value : ℤ → Value
    float_value : ℕ → Value
    decimal_value text_value bytes_value raw_value : Bytes → Value
    date_value time_value timestamp_value ltz_value : ℤ → Bytes → Value
    array_value : Values → Value
    map_value : Entries → Value

  pub data Values : Type 0 where
    no_values : Values
    value_then : Value → Values → Values

  pub data Entries : Type 0 where
    no_entries : Entries
    entry_then : Bytes → Value → Entries → Entries

pub data Layout : Type 0 where
  date_layout clock_fraction clock : Layout
  space_fraction space t_fraction t_layout rfc3339 space_fraction_zone space_zone : Layout

pub record Codec : Type 0 where
  pub json : Json
  pub upper : Bytes → Bytes
  pub string_of : Bytes → Option Bytes
  pub is_number : Bytes → Bool
  pub array_of : Bytes → Option (List Bytes)
  pub object_of : Bytes → Option (List (Bytes × Bytes))
  pub float_of : Bytes → Option ℕ
  pub base64_of : Bytes → Option Bytes
  pub time_of : Layout → Bytes → Option ℤ
