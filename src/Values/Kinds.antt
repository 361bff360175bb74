-- ===== src/Values/Kinds.antt =====
-- decoder.go: the kinds of values against the kinds of types.
use flink_sql_go.Prelude.{
  Bool, true, false, List, Option, none, some, Bytes, bytes_eq, bytes_beq, if_both, codes, Result,
  ok, err,
}
use flink_sql_go.Go.Space.{trim_space}
use flink_sql_go.Changelog.Row.{FieldError}
use flink_sql_go.Values.Types.{Value, null_value, raw_value, array_value, map_value, Codec}
use flink_sql_go.Values.Scalar.{
  Kind, boolean, integer, float, decimal, text, date, clock_time, timestamp, timestamp_ltz, binary,
  array, map_type, row, other, kind_of, decode_scalar,
}
use flink_sql_go.Values.Decode.{
  DecodeError, decode_failed, then_ok, or_fail, each, each_entry, raw_entries, Parts, is_object,
  decode_row, decode_map, decode_kind, decode_checked,
}
use flink_sql_go.Values.Shapes.{
  Shapes, AllEntries, IsOfKind, is_array, is_map, is_raw_map, is_named_row, is_row, is_other,
  IsNullOr, is_null, is_value,
}
use flink_sql_go.Values.Rules.{
  IsRight, is_ok, is_err, then_right, each_right, each_entry_right, IsSome, has_none, has_some,
  scalar_right,
}

-- The parts of a type, decoded in its shapes.
pub record IsSound (p : Parts) (s : Shapes) : Type 0 where
  pub element : (r : Bytes) → IsRight s.element (p.element r)
  pub value : (r : Bytes) → IsRight s.value (p.value r)
  pub named :
      (es : List (Bytes × Bytes)) → IsRight (AllEntries s.named) (p.named es (raw_entries es))
  pub positions : (rs : List Bytes) → IsRight s.positions (p.positions rs)

scalar-kind_right :
    (c : Codec) (s : Shapes) (name ty : Bytes) (kind : Kind) (raw : Bytes)
    → IsRight (IsOfKind s kind) (or_fail name ty (decode_scalar c kind raw))
scalar-kind_right c s name ty kind raw =
    from_some name ty (decode_scalar c kind raw) (scalar_right s c kind raw)
  where
    from_some :
        {Q : Value → Type 0} (name ty : Bytes) (o : Option Value)
        → IsSome Q o
        → IsRight Q (or_fail name ty o)
    from_some name ty o has_none = is_err (decode_failed name ty)
    from_some name ty o (has_some a q) = is_ok a q

row_right :
    (p : Parts) (s : Shapes) (name ty : Bytes) (object : Option (List (Bytes × Bytes)))
    (array_ : Option (List Bytes)) (b : Bool)
    → IsSound p s
    → IsRight (IsOfKind s row) (decode_row p name ty object array_ b)
row_right p s name ty none array_ true g = is_err (decode_failed name ty)
row_right p s name ty (some es) array_ true g =
    then_right (p.named es (raw_entries es)) _ (g.named es)
      (λ vs h. is_ok (map_value vs) (is_named_row vs h))
row_right p s name ty object none false g = is_err (decode_failed name ty)
row_right p s name ty object (some rs) false g =
    then_right (p.positions rs) _ (g.positions rs) (λ vs h. is_ok (array_value vs) (is_row vs h))

map_right :
    (p : Parts) (s : Shapes) (raw : Bytes) (object : Option (List (Bytes × Bytes)))
    → IsSound p s
    → IsRight (IsOfKind s map_type) (decode_map p raw object)
map_right p s raw none g = is_ok (raw_value raw) (is_raw_map raw)
map_right p s raw (some es) g =
    then_right (each_entry p.value es) _ (each_entry_right s.value p.value es g.value)
      (λ vs h. is_ok (map_value vs) (is_map vs h))

array_right :
    (p : Parts) (s : Shapes) (name ty : Bytes) (o : Option (List Bytes))
    → IsSound p s
    → IsRight (IsOfKind s array) (
        then_ok (or_fail name ty o) (λ rs. then_ok (each p.element rs) (λ vs. ok (array_value vs))))
array_right p s name ty none g = is_err (decode_failed name ty)
array_right p s name ty (some rs) g =
    then_right (each p.element rs) _ (each_right s.element p.element rs g.element)
      (λ vs h. is_ok (array_value vs) (is_array vs h))

kind_right :
    (c : Codec) (p : Parts) (s : Shapes) (name ty : Bytes) (kind : Kind) (raw : Bytes)
    → IsSound p s
    → IsRight (IsOfKind s kind) (decode_kind c p name ty kind raw)
unfolding decode_kind
kind_right c p s name ty array raw g = array_right p s name ty (c.array_of raw) g
kind_right c p s name ty map_type raw g = map_right p s raw (c.object_of raw) g
kind_right c p s name ty row raw g =
    row_right p s name ty (c.object_of raw) (c.array_of raw) (is_object raw) g
kind_right c p s name ty other raw g = is_ok (raw_value raw) (is_other raw)
kind_right c p s name ty boolean raw g = scalar-kind_right c s name ty boolean raw
kind_right c p s name ty integer raw g = scalar-kind_right c s name ty integer raw
kind_right c p s name ty float raw g = scalar-kind_right c s name ty float raw
kind_right c p s name ty decimal raw g = scalar-kind_right c s name ty decimal raw
kind_right c p s name ty text raw g = scalar-kind_right c s name ty text raw
kind_right c p s name ty date raw g = scalar-kind_right c s name ty date raw
kind_right c p s name ty clock_time raw g = scalar-kind_right c s name ty clock_time raw
kind_right c p s name ty timestamp raw g = scalar-kind_right c s name ty timestamp raw
kind_right c p s name ty timestamp_ltz raw g = scalar-kind_right c s name ty timestamp_ltz raw
kind_right c p s name ty binary raw g = scalar-kind_right c s name ty binary raw

pub checked_right :
    (c : Codec) (p : Parts) (s : Shapes) (name ty : Bytes) (valid : Result FieldError (Unit {0}))
    (raw : Bytes)
    → IsSound p s
    → IsRight
        (IsNullOr (IsOfKind s (kind_of (c.upper (trim_space ty)))))
        (decode_checked c p name ty valid raw)
unfolding decode_checked
checked_right c p s name ty (err e) raw g = is_err (decode_failed name ty)
checked_right c p s name ty (ok u) raw g =
    if_both (IsRight (IsNullOr (IsOfKind s (kind_of (c.upper (trim_space ty))))))
      (bytes_beq raw (codes "null")) (λ null. is_ok null_value is_null)
      (λ text_.
        or_null (decode_kind c p name ty (kind_of (c.upper (trim_space ty))) raw)
          (kind_right c p s name ty (kind_of (c.upper (trim_space ty))) raw g))
  where
    or_null :
        {Q : Value → Type 0} (r : Result DecodeError Value) → IsRight Q r → IsRight (IsNullOr Q) r
    or_null r (is_ok v q) = is_ok v (is_value v q)
    or_null r (is_err e) = is_err e
