-- ===== src/Changelog/Reached.antt =====
-- Whatever is called on a materializer.
use flink_sql_go.Prelude.{
  ◌≤◌, ◌≡◌, sym, ap, ◌∙◌, Bool, true, List, bytes_eq, bytes_beq_iff, ◌=?◌, length, arith, ok, guard,
  >>=-eq-ok,
}
use flink_sql_go.Prelude.Assoc.{lookup}
use flink_sql_go.Changelog.Row.{RowKind, Row, update_before, update_after, Json}
use flink_sql_go.Changelog.State.{
  Error, update_order, Materializer, apply, row_key, is_update_pair, apply_update, rollback_pending,
  snapshot,
}
use flink_sql_go.Changelog.Options.{Opt, new_materializer}
use flink_sql_go.Changelog.Contract.{apply-IsValid}
use flink_sql_go.Changelog.History.{apply_update-apply, length-snapshot, new_materializer-IsValid}
use flink_sql_go.Changelog.Refinement.{IsValid}

-- The states that the calls of the constructor and of the methods lead to. A call that fails leaves the state as it was.
pub data Reached (json : Json) (options : List Opt) : Materializer → Type 0 where
  created : (m : Materializer) → new_materializer options ≡ ok m → Reached json options m
  applied :
      (m m' : Materializer) (row : Row)
      → Reached json options m
      → apply json m row ≡ ok m'
      → Reached json options m'
  updated :
      (m m' : Materializer) (before after : Row)
      → Reached json options m
      → apply_update json m before after ≡ ok m'
      → Reached json options m'
  rolled_back :
      (m : Materializer) → Reached json options m → Reached json options (rollback_pending m).0

is_pair : (k j : RowKind) → is_update_pair k j ≡ true → (k ≡ update_before) × (j ≡ update_after)
is_pair k j h = ground arith

holds : (b : Bool) (e : Error) {u : Unit {0}} → guard b e ≡ ok u → b ≡ true
holds b e h = ground arith

-- Both rows of a pair have one key.
apply_update-IsValid :
    (json : Json) (m m' : Materializer) (before after : Row)
    → IsValid m
    → apply_update json m before after ≡ ok m'
    → IsValid m'
unfolding apply_update
apply_update-IsValid json m m' before after v h =
    let (_, pair, h1) =
      >>=-eq-ok (guard (is_update_pair before.kind after.kind) update_order) _ h in
    let (k, e, h2) = >>=-eq-ok (row_key json m before) _ h1 in
    let (j, f, h3) = >>=-eq-ok (row_key json m after) _ h2 in
    let (_, same, _) = >>=-eq-ok (guard (k =? j) update_order) _ h3 in
    let (is_before, is_after) = is_pair before.kind after.kind (holds _ update_order pair) in
    let one_key = (bytes_beq_iff k j).0 (holds _ update_order same) in
    let twice =
      sym (apply_update-apply json m before after k is_before is_after e (f ∙ ap ok (sym one_key)))
      ∙ h in
    let (m1, first, second) = >>=-eq-ok (apply json m before) _ twice in
    apply-IsValid json m1 after m' (apply-IsValid json m before m1 v first) second

rollback_pending-IsValid : (m : Materializer) → IsValid m → IsValid (rollback_pending m).0
unfolding rollback_pending lookup
rollback_pending-IsValid m v = record {
  keyed = v.keyed;
  ordered = v.ordered;
  bounded = v.bounded;
  pending_live = λ k h. cc;
}

Reached-IsValid :
    (json : Json) (options : List Opt) (m : Materializer) → Reached json options m → IsValid m
Reached-IsValid json options _ (created m new) = (new_materializer-IsValid options m new).0
Reached-IsValid json options _ (applied m0 m row r h) =
    apply-IsValid json m0 row m (Reached-IsValid json options m0 r) h
Reached-IsValid json options _ (updated m0 m before after r h) =
    apply_update-IsValid json m0 m before after (Reached-IsValid json options m0 r) h
Reached-IsValid json options _ (rolled_back m0 r) =
    rollback_pending-IsValid m0 (Reached-IsValid json options m0 r)

-- Whatever sequence of Apply, ApplyUpdate and RollbackPending follows NewMaterializer, failed calls among them, the
-- rows, the order, the index, the tombstones and the pending keys agree, and a snapshot has one row for each stored
-- row and at most maxRows.
pub Reached-bounded :
    (json : Json) (options : List Opt) (m : Materializer)
    → Reached json options m
    → IsValid m × (length (snapshot m) ≡ length m.rows) × (length (snapshot m) ≤ m.max_rows)
Reached-bounded json options m r =
    let v = Reached-IsValid json options m r in
    let (stored, limited) = length-snapshot m v in (v, stored, limited)
