-- ===== src/Values/Examples.antt =====
-- Tests of the decoder with small parsers, and its theorem there.
use flink_sql_go.Prelude.{
  ◌≡◌, refl, true, [], ◌∷◌, some, none, ok, err, codes, bytes_eq, bytes_beq, negsuc, pos, List,
  if◌then◌else◌,
}
use flink_sql_go.Prelude.Assoc.{lookup}
use flink_sql_go.Go.Space.{trim_front, trim_left, trim_right, trim_space}
use flink_sql_go.Go.Text.{to_lower, digits_from, unsigned, atoi_unsigned, atoi}
use flink_sql_go.Changelog.Row.{validate_raw_json_field, column_index_from, column_index}
use flink_sql_go.Values.Types.{
  LogicalType, logical, no_type, a_type, no_fields, field, under_type, Value, int_value, raw_value,
  array_value, map_value, no_values, value_then, no_entries, entry_then, Codec,
}
use flink_sql_go.Values.Scalar.{kind_of, parse_int, decode_scalar}
use flink_sql_go.Values.Decode.{
  decode_failed, each, each_entry, raw_values, raw_entries, set_entry, decode_kind, decode_checked,
  decode,
}
use flink_sql_go.Values.Shapes.{HasType}
use flink_sql_go.Values.Soundness.{decode-HasType}
use flink_sql_go.Values.Accessor.{
  TypedColumn, type_mismatch, value_at, value, int64_of_column, string_of_column,
}

program : Unit {0}
unfolding lookup trim_front trim_left trim_right trim_space to_lower digits_from unsigned
    atoi_unsigned atoi validate_raw_json_field column_index_from column_index kind_of parse_int
    decode_scalar each each_entry raw_values raw_entries set_entry decode_kind decode_checked decode
    value_at value int64_of_column string_of_column
program = tt

-- One array and one object are known.
abbrev codec : Codec
codec = record {
  json = record { valid = λ s. true; canonical = λ s. some s };
  upper = λ s. s;
  string_of = λ s. none;
  is_number = λ s. true;
  array_of =
      λ s. if bytes_beq s (codes "[1,-2]") then some (codes "1" ∷ codes " -2" ∷ []) else none;
  object_of = λ s.
      if bytes_beq s (codes "{a:7,b:x}")
      then some ((codes "a", codes "7") ∷ (codes "b", codes "x") ∷ [])
      else none;
  float_of = λ s. none;
  base64_of = λ s. none;
  time_of = λ l s. none;
}

abbrev int_type : LogicalType
int_type = logical (codes "INT") no_type no_type no_fields

abbrev array_type : LogicalType
array_type = logical (codes "ARRAY") (a_type int_type) no_type no_fields

abbrev row_type : LogicalType
row_type = logical (codes "ROW") no_type no_type (field (codes "a") (under_type int_type) no_fields)

abbrev decoded_array : Value
decoded_array =
    array_value (value_then (int_value (pos 1)) (value_then (int_value (negsuc 1)) no_values))

array_example : decode codec (codes "x") array_type (codes " [1,-2] ") ≡ ok decoded_array
unfolding program
array_example = refl

row_example :
    decode codec (codes "x") row_type (codes "{a:7,b:x}")
    ≡ ok (
        map_value (
          entry_then
            (codes "a")
            (int_value (pos 7))
            (entry_then (codes "b") (raw_value (codes "x")) no_entries)))
unfolding program
row_example = refl

bad_example :
    decode codec (codes "x") int_type (codes "9223372036854775808")
    ≡ err (decode_failed (codes "x") (codes "INT"))
unfolding program
bad_example = refl

abbrev columns : List TypedColumn
columns = record { name = codes "n"; type_of = int_type } ∷ []

int_example : int64_of_column codec columns (codes "12" ∷ []) (codes "n") ≡ ok (some (pos 12))
unfolding program
int_example = refl

mismatch_example :
    string_of_column codec columns (codes "12" ∷ []) (codes "n") ≡ err (type_mismatch (codes "n"))
unfolding program
mismatch_example = refl

decode-HasType_example : HasType codec array_type decoded_array
unfolding program
decode-HasType_example =
    decode-HasType codec (codes "x") array_type (codes " [1,-2] ") decoded_array refl
