-- ===== src/Values/Soundness.antt =====
-- decoder.go: decoded values against logical types.
use flink_sql_go.Prelude.{
  List, [], ◌∷◌, ◌≡◌, ◌≢◌, refl, subst, ◌⊎◌, false, Bool-cases, none, Bytes, bytes_eq, bytes_beq,
  bytes_beq_iff, arith, if_both, Option-cases, inl, inr, Result, ok,
}
use flink_sql_go.Prelude.Assoc.{lookup}
use flink_sql_go.Go.Space.{trim_space}
use flink_sql_go.Changelog.Row.{validate_raw_json_field}
use flink_sql_go.Values.Types.{
  LogicalType, logical, OptType, no_type, a_type, Fields, no_fields, field, FieldType, untyped,
  under_logical_type, under_type, under_both, Value, raw_value, no_values, value_then, Entries,
  no_entries, entry_then, Codec,
}
use flink_sql_go.Values.Decode.{
  DecodeError, raw_values, raw_entries, without_entry, set_entry, decode, decode_opt, decode_field,
  decode_named, decode_positions,
}
use flink_sql_go.Values.Shapes.{
  All, all_none, all_then, AllEntries, entries_none, entries_then, IsRaw, is_raw, HasType, HasOpt,
  HasField, HasNamed, HasPositions,
}
use flink_sql_go.Values.Rules.{IsRight, is_ok, is_err, then_right}
use flink_sql_go.Values.Kinds.{checked_right}

-- The names of an object.
abbrev HasKey : List (Bytes × Bytes) → Bytes → Type 0
HasKey es k = lookup k es ≢ none

map_entries :
    (P Q : Bytes → Value → Type 0) (vs : Entries)
    → ((k : Bytes) (v : Value) → P k v → Q k v)
    → AllEntries P vs
    → AllEntries Q vs
map_entries P Q vs f entries_none = entries_none
map_entries P Q (entry_then k v vs) f (entries_then _ _ _ p ps) =
    entries_then k v vs (f k v p) (map_entries P Q vs f ps)

-- Every other entry goes from `P` to `Q`.
module _ (P Q : Bytes → Value → Type 0) (k : Bytes)
    (keep : (j : Bytes) (w : Value) → k ≢ j → P j w → Q j w) where
  differs : (j : Bytes) → bytes_beq j k ≡ false → k ≢ j
  differs j h e = ground (arith, h, bytes_beq_iff j k)

  without_entry_right : (vs : Entries) → AllEntries P vs → AllEntries Q (without_entry k vs)
  without_entry_right no_entries entries_none = entries_none
  without_entry_right (entry_then j w vs) (entries_then _ _ _ q ps) =
      if_both (AllEntries Q) (bytes_beq j k) (λ same. without_entry_right vs ps)
        (λ other_.
          entries_then j w (without_entry k vs) (keep j w (differs j other_) q)
            (without_entry_right vs ps))

  set_entry_right :
      (v : Value) (vs : Entries) → Q k v → AllEntries P vs → AllEntries Q (set_entry k v vs)
  unfolding set_entry
  set_entry_right v no_entries p entries_none = entries_then k v no_entries p entries_none
  set_entry_right v (entry_then j w vs) p (entries_then _ _ _ q ps) =
      if_both (AllEntries Q) (bytes_beq j k)
        (λ same. entries_then k v (without_entry k vs) p (without_entry_right vs ps))
        (λ other_.
          entries_then j w (set_entry k v vs) (keep j w (differs j other_) q)
            (set_entry_right v vs p ps))

raw_values_right : (rs : List Bytes) → All IsRaw (raw_values rs)
unfolding raw_values
raw_values_right [] = all_none
raw_values_right (r ∷ rs) = all_then (raw_value r) (raw_values rs) (is_raw r) (raw_values_right rs)

raw_entries_right :
    (whole es : List (Bytes × Bytes))
    → ((k : Bytes) → HasKey es k → HasKey whole k)
    → AllEntries (λ k v. HasKey whole k × IsRaw v) (raw_entries es)
unfolding raw_entries lookup
raw_entries_right whole [] f = entries_none
raw_entries_right whole ((k, r) ∷ es) f =
    entries_then k (raw_value r) (raw_entries es)
      (f k (λ e. ground (arith, e, bytes_beq_iff k k)), is_raw r)
      (raw_entries_right whole es (λ j h. f j (λ e. h (passed j e))))
  where
    passed : (j : Bytes) → lookup j ((k, r) ∷ es) ≡ none → lookup j es ≡ none
    passed j e = ground (arith, e, Bool-cases (bytes_beq j k), Bool-cases (bytes_beq k j))

module _ (c : Codec) where
  -- The values of an object over which some fields were decoded, the last one first.
  Decoded : Fields → Bytes → Value → Type 0
  Decoded no_fields k v = IsRaw v
  Decoded (field name ft fs) k v = ((name ≡ k) × HasField c ft v) ⊎ ((name ≢ k) × Decoded fs k v)

  mutual
    unfolding decode HasType Decoded

    decode_right :
        (name : Bytes) (t : LogicalType) (raw : Bytes) → IsRight (HasType c t) (decode c name t raw)
    decode_right name (logical ty element value fs) raw =
        checked_right c
          (record {
            element = λ r. decode_opt c [] element r;
            value = λ r. decode_opt c [] value r;
            named = λ es vs. decode_named c fs es vs;
            positions = λ rs. decode_positions c fs rs;
          })
          (record {
            element = λ w. HasOpt c element w;
            value = λ w. HasOpt c value w;
            named = λ k w. HasNamed c fs (IsRaw w) k w;
            positions = λ ws. HasPositions c fs ws;
          })
          name ty (validate_raw_json_field c.json (trim_space raw)) (trim_space raw)
          (record {
            element = λ r. opt_right [] element r;
            value = λ r. opt_right [] value r;
            named = λ es.
                named_right fs no_fields es (raw_entries es) (raw_entries_right es es (λ k h. h));
            positions = λ rs. positions_right fs rs;
          })

    opt_right :
        (name : Bytes) (o : OptType) (raw : Bytes) → IsRight (HasOpt c o) (decode_opt c name o raw)
    opt_right name no_type raw = is_ok (raw_value raw) (is_raw raw)
    opt_right name (a_type t) raw = decode_right name t raw

    field_right :
        (name : Bytes) (ft : FieldType) (raw : Bytes)
        → IsRight (HasField c ft) (decode_field c name ft raw)
    field_right name untyped raw = is_ok (raw_value raw) (is_raw raw)
    field_right name (under_logical_type t) raw = decode_right name t raw
    field_right name (under_type t) raw = decode_right name t raw
    field_right name (under_both t u) raw = decode_right name t raw

    named_right :
        (fs : Fields) (before : Fields) (es : List (Bytes × Bytes)) (vs : Entries)
        → AllEntries (λ k v. HasKey es k × Decoded before k v) vs
        → IsRight
            (AllEntries (λ k v. HasNamed c fs (Decoded before k v) k v))
            (decode_named c fs es vs)
    named_right no_fields before es vs ps = is_ok vs (
        map_entries (λ k v. HasKey es k × Decoded before k v) (λ k v. Decoded before k v) vs
          (λ k v p. p.1) ps)
    named_right (field name ft fs) before es vs ps = elim (Option-cases (lookup name es)) [
      | inl absent ↦
          rw (absent, decode_named)
            (named_right fs (field name ft before) es vs (
              map_entries (λ k v. HasKey es k × Decoded before k v)
                (λ k v. HasKey es k × Decoded (field name ft before) k v) vs
                (λ k v p. (p.0, inr (λ e. p.0 (subst (λ n. lookup n es ≡ none) e absent), p.1)))
                ps))
      | inr (r, there) ↦
          rw (there, decode_named)
            (then_right (decode_field c name ft r) _ (field_right name ft r) (λ v h.
              named_right fs (field name ft before) es (set_entry name v vs) (
                set_entry_right (λ k w. HasKey es k × Decoded before k w)
                  (λ k w. HasKey es k × Decoded (field name ft before) k w) name
                  (λ j w other_ p. (p.0, inr (other_, p.1))) v vs
                  (λ e. ground (arith, e, there), inl (refl, h)) ps)))
    ]

    positions_right :
        (fs : Fields) (rs : List Bytes) → IsRight (HasPositions c fs) (decode_positions c fs rs)
    positions_right no_fields rs = is_ok (raw_values rs) (raw_values_right rs)
    positions_right (field name ft fs) [] = is_ok no_values tt
    positions_right (field name ft fs) (r ∷ rs) =
        then_right (decode_field c name ft r) _ (field_right name ft r) (λ v h.
          then_right (decode_positions c fs rs) _ (positions_right fs rs)
            (λ vs hs. is_ok (value_then v vs) (h, hs)))

right_value :
    {P : Value → Type 0} (r : Result DecodeError Value) (v : Value) → IsRight P r → r ≡ ok v → P v
right_value {P} r v (is_ok a p) e = subst P (ok_injective a v e) p
  where
    ok_injective : (a v : Value) → ◌≡◌ {A = Result DecodeError Value} (ok a) (ok v) → a ≡ v
    ok_injective a v e = cc
right_value r v (is_err f) e = cc

-- A value that the decoder returns is of the logical type that it was asked for: NULL, or a value of the kind that
-- the type's name stands for, with all its elements, entries and fields, to any depth, of their types. JSON is
-- left raw only where a type is missing or unknown, in a map that is no JSON object, and under the names of a row's
-- object that the type has no field for.
pub decode-HasType :
    (c : Codec) (name : Bytes) (t : LogicalType) (raw : Bytes) (v : Value)
    → decode c name t raw ≡ ok v
    → HasType c t v
decode-HasType c name t raw v e = right_value (decode c name t raw) v (decode_right c name t raw) e
