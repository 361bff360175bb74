-- ===== src/Changelog/Contract.antt =====
-- What a caller of the materializer can rely on.
use flink_sql_go.Prelude.{
  ◌≡◌, refl, sym, ◌∙◌, inl, inr, ◌≢◌, ◌↔◌, List, [], ◌∷◌, ◌++◌, Bytes, bytes_eq, arith,
  Result-cases, Result, ok, err, ◌>>=◌,
}
use flink_sql_go.Changelog.Row.{Row, Json}
use flink_sql_go.Changelog.Key.{key_part-ne-nil, SameParts, SameParts-of_key, key_of-SameParts}
use flink_sql_go.Changelog.State.{
  Error, Materializer, apply, row_key, row_key_from, key_part, canonical_part,
}
use flink_sql_go.Changelog.Refinement.{IsValid, view, table_apply, viewed}
use flink_sql_go.Changelog.Methods.{apply_at-Keeps, apply_at-table_apply}

-- The key of a row is not the tombstone, since there is a primary key.
row_key_from-ne-nil :
    (json : Json) (m : Materializer) (cs : List Bytes) (row : Row) (k : Bytes)
    → cs ≢ []
    → row_key_from json m.columns cs row ≡ ok k
    → k ≢ []
unfolding row_key_from
row_key_from-ne-nil json m [] row k n e = absurd (n refl)
row_key_from-ne-nil json m (c ∷ cs) row k n e =
    go (canonical_part json m.columns row c) (row_key_from json m.columns cs row) e
  where
    go :
        (a b : Result Error Bytes)
        → (a >>= λ compact. b >>= λ key. ok (key_part compact ++ key)) ≡ ok k
        → k ≢ []
    go (ok a) (ok b) e nil = key_part-ne-nil a b (ground arith)
    go (err a) b e nil = cc
    go (ok a) (err b) e nil = cc

row_key-ne-nil :
    (json : Json) (m : Materializer) (row : Row) (k : Bytes)
    → IsValid m
    → row_key json m row ≡ ok k
    → k ≢ []
unfolding row_key
row_key-ne-nil json m row k v e = row_key_from-ne-nil json m m.primary_key row k v.keyed e

-- Every row that is applied keeps the invariant: the order, the index, the tombstones and the rows
-- agree, there are at most max_rows rows, and only a live key waits for an UPDATE_AFTER.
pub apply-IsValid :
    (json : Json) (m : Materializer) (row : Row) (m' : Materializer)
    → IsValid m
    → apply json m row ≡ ok m'
    → IsValid m'
unfolding apply
apply-IsValid json m row m' v e = elim (Result-cases (row_key json m row)) [
  | inl (x, bad) ↦ absurd (ground arith)
  | inr (k, good) ↦ ground (arith, apply_at-Keeps m v k (row_key-ne-nil json m row k v good) row)
]

-- On a valid materializer Apply does to the ordered table of live rows what the abstract step does
-- to it, errors included: tombstones, index and compaction do not show.
pub apply-table_apply :
    (json : Json) (m : Materializer) (row : Row)
    → IsValid m
    → viewed (apply json m row)
      ≡ (row_key json m row >>= λ key. table_apply m.max_rows (view m) key row)
unfolding apply
apply-table_apply json m row v = elim (Result-cases (row_key json m row)) [
  | inl (x, bad) ↦ rw bad
  | inr (k, good) ↦ rw good (apply_at-table_apply m v k (row_key-ne-nil json m row k v good) row)
]

-- A second row has the key of the first exactly when the two have the same canonical JSON value in
-- every primary key column: the internal key has no collisions.
pub row_key-eq_iff :
    (json : Json) (m : Materializer) (left right : Row) (k : Bytes)
    → row_key json m left ≡ ok k
    → (row_key json m right ≡ ok k) ↔ SameParts json m.columns m.primary_key left right
unfolding row_key
row_key-eq_iff json m left right k e = (
  λ f. SameParts-of_key json m.columns left right m.primary_key k e f,
  λ s. sym (key_of-SameParts json m.columns left right m.primary_key s) ∙ e,
)
