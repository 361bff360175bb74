-- ===== src/Values/Scalar.antt =====
-- The scalar types of `Decode`: which type a name stands for, and how its text is read.
use flink_sql_go.Prelude.{
  Bool, true, false, ◌&&◌, ◌||◌, List, [], ◌∷◌, Option, none, some, Bytes, bytes_beq, ◌==◌,
  if◌then◌else◌, codes, ℤ,
}
use flink_sql_go.Go.Text.{to_lower, atoi}
use flink_sql_go.Values.Types.{
  Value, bool_value, int_value, float_value, decimal_value, text_value, bytes_value, date_value,
  time_value, timestamp_value, ltz_value, Layout, date_layout, clock_fraction, clock,
  space_fraction, space, t_fraction, t_layout, rfc3339, space_fraction_zone, space_zone, Codec,
}

pub data Kind : Type 0 where
  boolean integer float decimal text date clock_time timestamp timestamp_ltz binary array map_type
        row other :
      Kind

abbrev pub one_of : Bytes → List Bytes → Bool
one_of name [] = false
one_of name (n ∷ ns) = bytes_beq name n || one_of name ns

unfoldable pub kind_of : Bytes → Kind
kind_of name =
    if one_of name (codes "BOOLEAN" ∷ [])
    then boolean
    else if one_of name
        (codes "TINYINT" ∷ codes "SMALLINT" ∷ codes "INTEGER" ∷ codes "INT" ∷ codes "BIGINT" ∷ [])
    then integer
    else if one_of name (codes "FLOAT" ∷ codes "DOUBLE" ∷ [])
    then float
    else if one_of name (codes "DECIMAL" ∷ [])
    then decimal
    else if one_of name (codes "CHAR" ∷ codes "VARCHAR" ∷ codes "STRING" ∷ [])
    then text
    else if one_of name (codes "DATE" ∷ [])
    then date
    else if one_of name (codes "TIME" ∷ codes "TIME_WITHOUT_TIME_ZONE" ∷ [])
    then clock_time
    else if one_of name (codes "TIMESTAMP" ∷ codes "TIMESTAMP_WITHOUT_TIME_ZONE" ∷ [])
    then timestamp
    else if one_of name (codes "TIMESTAMP_LTZ" ∷ codes "TIMESTAMP_WITH_LOCAL_TIME_ZONE" ∷ [])
    then timestamp_ltz
    else if one_of name (codes "BINARY" ∷ codes "VARBINARY" ∷ codes "BYTES" ∷ [])
    then binary
    else if one_of name (codes "ARRAY" ∷ [])
    then array
    else if one_of name (codes "MAP" ∷ codes "MULTISET" ∷ [])
    then map_type
    else if one_of name (codes "ROW" ∷ codes "STRUCTURED_TYPE" ∷ [])
    then row
    else other

-- `scalarText`: a JSON string without its quotes, any other token as it is.
abbrev pub scalar_text : Codec → Bytes → Option Bytes
scalar_text c [] = some []
scalar_text c (q ∷ s) = if q == b'"' then c.string_of (q ∷ s) else some (q ∷ s)

-- strconv.ParseBool of a text in lower case.
abbrev pub parse_bool : Bytes → Option Bool
parse_bool s =
    if one_of s (codes "1" ∷ codes "t" ∷ codes "true" ∷ [])
    then some true
    else if one_of s (codes "0" ∷ codes "f" ∷ codes "false" ∷ [])
    then some false
    else none

-- strconv.ParseInt of 64 bits in base 10.
unfoldable pub parse_int : Bytes → Option ℤ
unfolding atoi
parse_int s = let (n, valid) = atoi s in if valid then some n else none

abbrev pub first_time : Codec → List Layout → Bytes → Option ℤ
first_time c [] s = none
first_time c (l ∷ ls) s = elim (c.time_of l s) [ some t ↦ some t | none ↦ first_time c ls s ]

abbrev pub parse_local_time : Codec → Bytes → Option ℤ
parse_local_time c = first_time c (clock_fraction ∷ clock ∷ [])

abbrev pub parse_local_timestamp : Codec → Bytes → Option ℤ
parse_local_timestamp c = first_time c (space_fraction ∷ space ∷ t_fraction ∷ t_layout ∷ [])

abbrev pub parse_timestamp_ltz : Codec → Bytes → Option ℤ
parse_timestamp_ltz c s = elim (first_time c (rfc3339 ∷ space_fraction_zone ∷ space_zone ∷ []) s) [
  | some t ↦ some t
  | none ↦ parse_local_timestamp c s
]

abbrev pub then_some {ℓ κ} : {A : Type ℓ} {B : Type κ} → Option A → (A → Option B) → Option B
then_some none f = none
then_some (some a) f = f a

-- A time with the text that it was read from.
abbrev pub timed : (ℤ → Bytes → Value) → (Bytes → Option ℤ) → Option Bytes → Option Value
timed make parse content = then_some content (λ s. then_some (parse s) (λ t. some (make t s)))

-- The types without parts; `none` also for those with parts.
unfoldable pub decode_scalar : Codec → Kind → Bytes → Option Value
unfolding parse_int to_lower
decode_scalar c boolean raw =
    then_some (scalar_text c raw)
      (λ s. then_some (parse_bool (to_lower s)) (λ b. some (bool_value b)))
decode_scalar c integer raw =
    then_some (scalar_text c raw) (λ s. then_some (parse_int s) (λ n. some (int_value n)))
decode_scalar c float raw =
    then_some (scalar_text c raw) (λ s. then_some (c.float_of s) (λ f. some (float_value f)))
decode_scalar c decimal raw =
    then_some (scalar_text c raw)
      (λ s. if c.json.valid s && c.is_number s then some (decimal_value s) else none)
decode_scalar c text raw = then_some (c.string_of raw) (λ s. some (text_value s))
decode_scalar c date raw = timed date_value (c.time_of date_layout) (c.string_of raw)
decode_scalar c clock_time raw = timed time_value (parse_local_time c) (c.string_of raw)
decode_scalar c timestamp raw = timed timestamp_value (parse_local_timestamp c) (c.string_of raw)
decode_scalar c timestamp_ltz raw = timed ltz_value (parse_timestamp_ltz c) (c.string_of raw)
decode_scalar c binary raw =
    then_some (c.string_of raw) (λ s. then_some (c.base64_of s) (λ b. some (bytes_value b)))
decode_scalar c _ raw = none
