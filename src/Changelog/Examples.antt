-- ===== src/Changelog/Examples.antt =====
-- Tests of the materializer on small inputs, and its theorems at concrete ones.
use flink_sql_go.Prelude.{
  ◌≤◌, ◌≡◌, refl, ◌↔◌, true, List, [], ◌∷◌, map, some, codes, length, ok, err, ◌>>=◌, pos,
}
use flink_sql_go.Prelude.Assoc.{lookup, insert, delete}
use flink_sql_go.Go.Space.{trim_space}
use flink_sql_go.Go.Decimal.{itoa}
use flink_sql_go.Changelog.Row.{Row, Json, insert_row, update_before, update_after, delete_row}
use flink_sql_go.Changelog.State.{Materializer, row_key, apply, apply_update, snapshot}
use flink_sql_go.Changelog.Options.{
  Opt, primary_key_option, columns_option, max_rows_option, new_materializer,
}
use flink_sql_go.Changelog.Key.{SameParts}
use flink_sql_go.Changelog.Refinement.{IsValid, view, viewed, table_apply}
use flink_sql_go.Changelog.Contract.{apply-IsValid, apply-table_apply, row_key-eq_iff}
use flink_sql_go.Changelog.Reached.{created, applied, Reached-bounded}
use flink_sql_go.Changelog.History.{
  live_row, snapshot-view, apply_update-apply, new_materializer-IsValid,
}

program : Unit {0}
unfolding lookup insert delete trim_space itoa row_key apply apply_update snapshot new_materializer
program = tt

-- Every text is valid JSON and is its own canonical form.
abbrev plain : Json
plain = record { valid = λ s. true; canonical = λ s. some s }

abbrev options : List Opt
options =
    primary_key_option (codes "id" ∷ [])
    ∷ columns_option (record { name = codes "id" } ∷ record { name = codes "v" } ∷ [])
    ∷ max_rows_option (pos 2)
    ∷ []

abbrev empty : Materializer
empty = record {
  primary_key = codes "id" ∷ [];
  columns = record { name = codes "id" } ∷ record { name = codes "v" } ∷ [];
  max_rows = 2;
  rows = [];
  order = [];
  order_index = [];
  tombstones = 0;
  pending = [];
}

abbrev added : Row
added = record { kind = insert_row; fields = codes "7" ∷ codes "10" ∷ [] }

abbrev before : Row
before = record { kind = update_before; fields = codes "7" ∷ codes " 10" ∷ [] }

abbrev after : Row
after = record { kind = update_after; fields = codes "7" ∷ codes "11" ∷ [] }

abbrev removed : Row
removed = record { kind = delete_row; fields = codes "7" ∷ codes "11" ∷ [] }

new_materializer_example : new_materializer options ≡ ok empty
unfolding program
new_materializer_example = refl

row_key_example : row_key plain empty added ≡ ok (codes "1:7|")
unfolding program
row_key_example = refl

snapshot_example :
    (do
      m ← apply plain empty added
      m' ← apply plain m before
      m'' ← apply plain m' after
      ok (snapshot m''))
    ≡ ok (record after { kind = insert_row } ∷ [])
unfolding program
snapshot_example = refl

delete_example :
    (do
      m ← apply plain empty added
      m' ← apply_update plain m before after
      m'' ← apply plain m' removed
      ok (snapshot m''))
    ≡ ok []
unfolding program
delete_example = refl

empty-IsValid : IsValid empty
empty-IsValid = (new_materializer-IsValid options empty new_materializer_example).0

one : Materializer
unfolding program
one = elim (apply plain empty added) [ ok m ↦ m | err e ↦ empty ]

one-IsValid : IsValid one
unfolding one program
one-IsValid = apply-IsValid plain empty added one empty-IsValid refl

apply-IsValid_example : IsValid one
unfolding one program
apply-IsValid_example = apply-IsValid plain empty added one empty-IsValid refl

apply-table_apply_example :
    viewed (apply plain one before)
    ≡ (row_key plain one before >>= λ key. table_apply one.max_rows (view one) key before)
apply-table_apply_example = apply-table_apply plain one before one-IsValid

row_key-eq_iff_example :
    (row_key plain one before ≡ ok (codes "1:7|"))
    ↔ SameParts plain one.columns one.primary_key added before
unfolding one program
row_key-eq_iff_example = row_key-eq_iff plain one added before (codes "1:7|") refl

snapshot-view_example : snapshot one ≡ map live_row (view one).table
snapshot-view_example = snapshot-view one

apply_update-apply_example :
    apply_update plain one before after ≡ (apply plain one before >>= λ m. apply plain m after)
unfolding one program
apply_update-apply_example =
    apply_update-apply plain one before after (codes "1:7|") refl refl refl refl

Reached-bounded_example :
    IsValid one × (length (snapshot one) ≡ length one.rows) × (length (snapshot one) ≤ one.max_rows)
unfolding one program
Reached-bounded_example =
    Reached-bounded plain options one
      (applied empty one added (created empty new_materializer_example) refl)
