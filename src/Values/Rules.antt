-- ===== src/Values/Rules.antt =====
-- decoder.go: results against a shape, step by step.
use flink_sql_go.Prelude.{
  ◌&&◌, List, [], ◌∷◌, ◌≡◌, refl, Option, none, some, Bytes, ℤ, bytes_eq, if_both, Result, ok, err,
}
use flink_sql_go.Go.Text.{to_lower}
use flink_sql_go.Values.Types.{
  Value, bool_value, int_value, float_value, decimal_value, text_value, bytes_value, date_value,
  time_value, timestamp_value, ltz_value, no_values, value_then, no_entries, entry_then, Codec,
  date_layout,
}
use flink_sql_go.Values.Scalar.{
  Kind, boolean, integer, float, decimal, text, date, clock_time, timestamp, timestamp_ltz, binary,
  array, map_type, row, other, decode_scalar, then_some, timed, scalar_text, parse_bool, parse_int,
  parse_local_time, parse_local_timestamp, parse_timestamp_ltz,
}
use flink_sql_go.Values.Decode.{DecodeError, decode_failed, then_ok, or_fail, each, each_entry}
use flink_sql_go.Values.Shapes.{
  Shapes, All, all_none, all_then, AllEntries, entries_none, entries_then, IsOfKind, is_bool,
  is_int, is_float, is_decimal, is_text, is_date, is_time, is_timestamp, is_ltz, is_bytes,
}

-- A result that is right if there is one.
pub data IsRight {A : Type 0} (P : A → Type 0) : Result DecodeError A → Type 0 where
  is_ok : (a : A) → P a → IsRight P (ok a)
  is_err : (e : DecodeError) → IsRight P (err e)

pub then_right :
    {A B : Type 0} {P : A → Type 0} {Q : B → Type 0} (r : Result DecodeError A)
    (f : A → Result DecodeError B)
    → IsRight P r
    → ((a : A) → P a → IsRight Q (f a))
    → IsRight Q (then_ok r f)
then_right r f (is_ok a p) k = k a p
then_right r f (is_err e) k = is_err e

pub or_fail_right :
    {A : Type 0} (P : A → Type 0) (name ty : Bytes) (o : Option A)
    → ((a : A) → o ≡ some a → P a)
    → IsRight P (or_fail name ty o)
or_fail_right P name ty none k = is_err (decode_failed name ty)
or_fail_right P name ty (some a) k = is_ok a (k a refl)

pub each_right :
    (P : Value → Type 0) (f : Bytes → Result DecodeError Value) (rs : List Bytes)
    → ((r : Bytes) → IsRight P (f r))
    → IsRight (All P) (each f rs)
unfolding each
each_right P f [] k = is_ok no_values all_none
each_right P f (r ∷ rs) k = then_right (f r) _ (k r) (λ v p.
    then_right (each f rs) _ (each_right P f rs k)
      (λ vs ps. is_ok (value_then v vs) (all_then v vs p ps)))

pub each_entry_right :
    (P : Value → Type 0) (f : Bytes → Result DecodeError Value) (es : List (Bytes × Bytes))
    → ((r : Bytes) → IsRight P (f r))
    → IsRight (AllEntries (λ k v. P v)) (each_entry f es)
unfolding each_entry
each_entry_right P f [] k = is_ok no_entries entries_none
each_entry_right P f ((n, r) ∷ es) k = then_right (f r) _ (k r) (λ v p.
    then_right (each_entry f es) _ (each_entry_right P f es k)
      (λ vs ps. is_ok (entry_then n v vs) (entries_then n v vs p ps)))

-- An optional value that is right if there is one.
pub data IsSome {A : Type 0} (P : A → Type 0) : Option A → Type 0 where
  has_none : IsSome P none
  has_some : (a : A) → P a → IsSome P (some a)

then_some_right :
    {A : Type 0} {Q : Value → Type 0} (o : Option A) (f : A → Option Value)
    → ((a : A) → IsSome Q (f a))
    → IsSome Q (then_some o f)
then_some_right none f k = has_none
then_some_right (some a) f k = k a

timed_right :
    (Q : Value → Type 0) (make : ℤ → Bytes → Value) (parse : Bytes → Option ℤ) (o : Option Bytes)
    → ((t : ℤ) (s : Bytes) → Q (make t s))
    → IsSome Q (timed make parse o)
timed_right Q make parse o k =
    then_some_right o _ (λ s. then_some_right (parse s) _ (λ t. has_some (make t s) (k t s)))

pub scalar_right :
    (s : Shapes) (c : Codec) (kind : Kind) (raw : Bytes)
    → IsSome (IsOfKind s kind) (decode_scalar c kind raw)
unfolding decode_scalar
scalar_right s c boolean raw =
    then_some_right (scalar_text c raw) _
      (λ t. then_some_right (parse_bool (to_lower t)) _ (λ b. has_some (bool_value b) (is_bool b)))
scalar_right s c integer raw =
    then_some_right (scalar_text c raw) _
      (λ t. then_some_right (parse_int t) _ (λ n. has_some (int_value n) (is_int n)))
scalar_right s c float raw =
    then_some_right (scalar_text c raw) _
      (λ t. then_some_right (c.float_of t) _ (λ n. has_some (float_value n) (is_float n)))
scalar_right s c decimal raw = then_some_right (scalar_text c raw) _ (λ t.
    if_both (IsSome (IsOfKind s decimal)) (c.json.valid t && c.is_number t)
      (λ g. has_some (decimal_value t) (is_decimal t)) (λ b. has_none))
scalar_right s c text raw =
    then_some_right (c.string_of raw) _ (λ t. has_some (text_value t) (is_text t))
scalar_right s c date raw =
    timed_right (IsOfKind s date) date_value (c.time_of date_layout) (c.string_of raw)
      (λ t b. is_date t b)
scalar_right s c clock_time raw =
    timed_right (IsOfKind s clock_time) time_value (parse_local_time c) (c.string_of raw)
      (λ t b. is_time t b)
scalar_right s c timestamp raw =
    timed_right (IsOfKind s timestamp) timestamp_value (parse_local_timestamp c) (c.string_of raw)
      (λ t b. is_timestamp t b)
scalar_right s c timestamp_ltz raw =
    timed_right (IsOfKind s timestamp_ltz) ltz_value (parse_timestamp_ltz c) (c.string_of raw)
      (λ t b. is_ltz t b)
scalar_right s c binary raw =
    then_some_right (c.string_of raw) _
      (λ t. then_some_right (c.base64_of t) _ (λ b. has_some (bytes_value b) (is_bytes b)))
scalar_right s c array raw = has_none
scalar_right s c map_type raw = has_none
scalar_right s c row raw = has_none
scalar_right s c other raw = has_none
