-- ===== src/Values/Decode.antt =====
-- `Decode` of the default decoder, with `decodeArray`, `decodeMap` and `decodeNestedRow`.
use flink_sql_go.Prelude.{
  Bool, true, false, List, [], ◌∷◌, Option, none, some, Bytes, bytes_eq, bytes_beq, ◌==◌,
  if◌then◌else◌, codes, Result, ok, err,
}
use flink_sql_go.Prelude.Assoc.{lookup}
use flink_sql_go.Go.Space.{trim_space}
use flink_sql_go.Changelog.Row.{FieldError, validate_raw_json_field}
use flink_sql_go.Values.Types.{
  LogicalType, logical, OptType, no_type, a_type, Fields, no_fields, field, FieldType, untyped,
  under_logical_type, under_type, under_both, Value, null_value, raw_value, array_value, map_value,
  Values, no_values, value_then, Entries, no_entries, entry_then, Codec,
}
use flink_sql_go.Values.Scalar.{Kind, array, map_type, row, other, kind_of, decode_scalar}

-- The column and the type that could not be decoded.
pub data DecodeError : Type 0 where
  decode_failed : Bytes → Bytes → DecodeError

abbrev pub then_ok :
    {A B : Type 0} → Result DecodeError A → (A → Result DecodeError B) → Result DecodeError B
then_ok (ok a) f = f a
then_ok (err e) f = err e

abbrev pub or_fail : {A : Type 0} → Bytes → Bytes → Option A → Result DecodeError A
or_fail name ty none = err (decode_failed name ty)
or_fail name ty (some a) = ok a

-- Every element in its order, up to the first that fails.
unfoldable pub each : (Bytes → Result DecodeError Value) → List Bytes → Result DecodeError Values
each f [] = ok no_values
each f (r ∷ rs) = then_ok (f r) (λ v. then_ok (each f rs) (λ vs. ok (value_then v vs)))

unfoldable pub each_entry :
    (Bytes → Result DecodeError Value) → List (Bytes × Bytes) → Result DecodeError Entries
each_entry f [] = ok no_entries
each_entry f ((k, r) ∷ es) =
    then_ok (f r) (λ v. then_ok (each_entry f es) (λ vs. ok (entry_then k v vs)))

unfoldable pub raw_values : List Bytes → Values
raw_values [] = no_values
raw_values (r ∷ rs) = value_then (raw_value r) (raw_values rs)

unfoldable pub raw_entries : List (Bytes × Bytes) → Entries
raw_entries [] = no_entries
raw_entries ((k, r) ∷ es) = entry_then k (raw_value r) (raw_entries es)

abbrev pub without_entry : Bytes → Entries → Entries
without_entry k no_entries = no_entries
without_entry k (entry_then j w es) =
    let later = without_entry k es in if bytes_beq j k then later else entry_then j w later

-- The value under a key that is there is replaced.
unfoldable pub set_entry : Bytes → Value → Entries → Entries
set_entry k v no_entries = entry_then k v no_entries
set_entry k v (entry_then j w es) =
    let later = set_entry k v es in
    if bytes_beq j k then entry_then k v (without_entry k es) else entry_then j w later

abbrev pub is_object : Bytes → Bool
is_object [] = false
is_object (c ∷ s) = c == b'{'

-- How the parts of a type are decoded: its element, its value, and its fields in an object and in an array.
pub record Parts : Type 0 where
  pub element : Bytes → Result DecodeError Value
  pub value : Bytes → Result DecodeError Value
  pub named : List (Bytes × Bytes) → Entries → Result DecodeError Entries
  pub positions : List Bytes → Result DecodeError Values

abbrev pub decode_row :
    Parts
    → Bytes
    → Bytes
    → Option (List (Bytes × Bytes))
    → Option (List Bytes)
    → Bool
    → Result DecodeError Value
decode_row p name ty object array_ true =
    then_ok (or_fail name ty object)
      (λ es. then_ok (p.named es (raw_entries es)) (λ vs. ok (map_value vs)))
decode_row p name ty object array_ false =
    then_ok (or_fail name ty array_) (λ rs. then_ok (p.positions rs) (λ vs. ok (array_value vs)))

abbrev pub decode_map : Parts → Bytes → Option (List (Bytes × Bytes)) → Result DecodeError Value
decode_map p raw none = ok (raw_value raw)
decode_map p raw (some es) = then_ok (each_entry p.value es) (λ vs. ok (map_value vs))

unfoldable pub decode_kind : Codec → Parts → Bytes → Bytes → Kind → Bytes → Result DecodeError Value
unfolding decode_scalar
decode_kind c p name ty array raw =
    then_ok (or_fail name ty (c.array_of raw))
      (λ rs. then_ok (each p.element rs) (λ vs. ok (array_value vs)))
decode_kind c p name ty map_type raw = decode_map p raw (c.object_of raw)
decode_kind c p name ty row raw =
    decode_row p name ty (c.object_of raw) (c.array_of raw) (is_object raw)
decode_kind c p name ty other raw = ok (raw_value raw)
decode_kind c p name ty kind raw = or_fail name ty (decode_scalar c kind raw)

unfoldable pub decode_checked :
    Codec → Parts → Bytes → Bytes → Result FieldError (Unit {0}) → Bytes → Result DecodeError Value
unfolding decode_kind kind_of trim_space
decode_checked c p name ty (err e) raw = err (decode_failed name ty)
decode_checked c p name ty (ok u) raw =
    if bytes_beq raw (codes "null")
    then ok null_value
    else decode_kind c p name ty (kind_of (c.upper (trim_space ty))) raw

module _ (c : Codec) where
  unfoldable mutual
    pub decode : Bytes → LogicalType → Bytes → Result DecodeError Value
    decode name (logical ty element value fs) raw =
        let parts : Parts = record {
          element = λ r. decode_opt [] element r;
          value = λ r. decode_opt [] value r;
          named = λ es vs. decode_named fs es vs;
          positions = λ rs. decode_positions fs rs;
        } in
        decode_checked c parts name ty (validate_raw_json_field c.json (trim_space raw))
          (trim_space raw)

    pub decode_opt : Bytes → OptType → Bytes → Result DecodeError Value
    decode_opt name no_type raw = ok (raw_value raw)
    decode_opt name (a_type t) raw = decode name t raw

    -- `logicalType` goes before `type`.
    pub decode_field : Bytes → FieldType → Bytes → Result DecodeError Value
    decode_field name untyped raw = ok (raw_value raw)
    decode_field name (under_logical_type t) raw = decode name t raw
    decode_field name (under_type t) raw = decode name t raw
    decode_field name (under_both t second) raw = decode name t raw

    -- The fields of an object that the type has are decoded, over the raw ones.
    pub decode_named : Fields → List (Bytes × Bytes) → Entries → Result DecodeError Entries
    decode_named no_fields es vs = ok vs
    decode_named (field name ft fs) es vs = elim (lookup name es) [
      | none ↦ decode_named fs es vs
      | some r ↦ then_ok (decode_field name ft r) (λ v. decode_named fs es (set_entry name v vs))
    ]

    pub decode_positions : Fields → List Bytes → Result DecodeError Values
    decode_positions no_fields rs = ok (raw_values rs)
    decode_positions (field name ft fs) [] = ok no_values
    decode_positions (field name ft fs) (r ∷ rs) =
        then_ok (decode_field name ft r)
          (λ v. then_ok (decode_positions fs rs) (λ vs. ok (value_then v vs)))
