-- ===== src/Values/Shapes.antt =====
-- decoder.go: the shapes of values, and the values of a logical type.
use flink_sql_go.Prelude.{ℕ, Bool, ◌≡◌, ◌≢◌, Bytes, bytes_eq, ◌⊎◌, ℤ}
use flink_sql_go.Go.Space.{trim_space}
use flink_sql_go.Values.Types.{
  LogicalType, logical, OptType, no_type, a_type, Fields, no_fields, field, FieldType, untyped,
  under_logical_type, under_type, under_both, Value, null_value, bool_value, int_value, float_value,
  decimal_value, text_value, bytes_value, raw_value, date_value, time_value, timestamp_value,
  ltz_value, array_value, map_value, Values, no_values, value_then, Entries, no_entries, entry_then,
  Codec,
}
use flink_sql_go.Values.Scalar.{
  Kind, boolean, integer, float, decimal, text, date, clock_time, timestamp, timestamp_ltz, binary,
  array, map_type, row, other, kind_of,
}

-- What the parts of a type are.
pub record Shapes : Type 1 where
  pub element : Value → Type 0
  pub value : Value → Type 0
  pub named : Bytes → Value → Type 0
  pub positions : Values → Type 0

-- Every value of a list, and every entry of an object, is of a shape.
pub data All (P : Value → Type 0) : Values → Type 0 where
  all_none : All P no_values
  all_then : (v : Value) (vs : Values) → P v → All P vs → All P (value_then v vs)

pub data AllEntries (P : Bytes → Value → Type 0) : Entries → Type 0 where
  entries_none : AllEntries P no_entries
  entries_then :
      (k : Bytes) (v : Value) (vs : Entries)
      → P k v
      → AllEntries P vs
      → AllEntries P (entry_then k v vs)

-- The values of a kind. A map whose JSON is no object, and a value of an unknown type, are left raw.
pub data IsOfKind (s : Shapes) : Kind → Value → Type 0 where
  is_bool : (b : Bool) → IsOfKind s boolean (bool_value b)
  is_int : (n : ℤ) → IsOfKind s integer (int_value n)
  is_float : (n : ℕ) → IsOfKind s float (float_value n)
  is_decimal : (b : Bytes) → IsOfKind s decimal (decimal_value b)
  is_text : (b : Bytes) → IsOfKind s text (text_value b)
  is_date : (t : ℤ) (b : Bytes) → IsOfKind s date (date_value t b)
  is_time : (t : ℤ) (b : Bytes) → IsOfKind s clock_time (time_value t b)
  is_timestamp : (t : ℤ) (b : Bytes) → IsOfKind s timestamp (timestamp_value t b)
  is_ltz : (t : ℤ) (b : Bytes) → IsOfKind s timestamp_ltz (ltz_value t b)
  is_bytes : (b : Bytes) → IsOfKind s binary (bytes_value b)
  is_array : (vs : Values) → All s.element vs → IsOfKind s array (array_value vs)
  is_map : (vs : Entries) → AllEntries (λ k v. s.value v) vs → IsOfKind s map_type (map_value vs)
  is_raw_map : (b : Bytes) → IsOfKind s map_type (raw_value b)
  is_named_row : (vs : Entries) → AllEntries s.named vs → IsOfKind s row (map_value vs)
  is_row : (vs : Values) → s.positions vs → IsOfKind s row (array_value vs)
  is_other : (b : Bytes) → IsOfKind s other (raw_value b)

pub data IsRaw : Value → Type 0 where
  is_raw : (b : Bytes) → IsRaw (raw_value b)

pub data IsNullOr (P : Value → Type 0) : Value → Type 0 where
  is_null : IsNullOr P null_value
  is_value : (v : Value) → P v → IsNullOr P v

-- In a row's object the value of a field of the type is of its type, and that of any other name is raw.
module _ (c : Codec) where
  unfoldable mutual
    pub HasType : LogicalType → Value → Type 0
    HasType (logical ty element value fs) v =
        IsNullOr
          (IsOfKind
            (record {
              element = λ w. HasOpt element w;
              value = λ w. HasOpt value w;
              named = λ k w. HasNamed fs (IsRaw w) k w;
              positions = λ ws. HasPositions fs ws;
            })
            (kind_of (c.upper (trim_space ty))))
          v

    pub HasOpt : OptType → Value → Type 0
    HasOpt no_type v = IsRaw v
    HasOpt (a_type t) v = HasType t v

    pub HasField : FieldType → Value → Type 0
    HasField untyped v = IsRaw v
    HasField (under_logical_type t) v = HasType t v
    HasField (under_type t) v = HasType t v
    HasField (under_both t second) v = HasType t v

    -- Of the type of the last field of that name, and `X` if no field has the name.
    pub HasNamed : Fields → Type 0 → Bytes → Value → Type 0
    HasNamed no_fields X k v = X
    HasNamed (field name ft fs) X k v =
        HasNamed fs (((name ≡ k) × HasField ft v) ⊎ ((name ≢ k) × X)) k v

    pub HasPositions : Fields → Values → Type 0
    HasPositions no_fields vs = All IsRaw vs
    HasPositions (field name ft fs) no_values = Unit {0}
    HasPositions (field name ft fs) (value_then v vs) = HasField ft v × HasPositions fs vs
