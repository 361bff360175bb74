-- ===== src/Changelog/History.antt =====
-- Pairs of updates, snapshots and the constructor.
use flink_sql_go.Prelude.{
  zero, suc, ◌<◌, ◌≤◌, ◌≡◌, refl, ap, ◌≢◌, List, [], ◌∷◌, map, Bytes, bytes_eq, bytes_beq_iff,
  length, arith, Option-cases, length-map, Result, ok, err, pos, negsuc, ◌>>=◌, ◌>>◌,
}
use flink_sql_go.Prelude.Assoc.{lookup, lookup-insert, delete_absent, delete-insert}
use flink_sql_go.Changelog.Row.{Row, insert_row, update_before, update_after, Json}
use flink_sql_go.Changelog.State.{
  Error, Materializer, apply_at, apply, row_key, apply_update, snapshot, snapshot_from,
}
use flink_sql_go.Changelog.Options.{
  Opt, primary_key_option, columns_option, max_rows_option, nil_option, Config, default_max_rows,
  apply_option, apply_options, check_key_columns, empty_state, build, new_materializer,
}
use flink_sql_go.Changelog.Order.{count_empty}
use flink_sql_go.Changelog.View.{entries, in_order}
use flink_sql_go.Changelog.Refinement.{IsValid, view}

abbrev pub live_row : Bytes × Row → Row
live_row (k, r) = record r { kind = insert_row }

-- The snapshot is the table in its order, each row as an INSERT.
pub snapshot-view : (m : Materializer) → snapshot m ≡ map live_row (view m).table
unfolding snapshot entries
snapshot-view m = go m.order
  where
    go : (ks : List Bytes) → snapshot_from m.rows ks ≡ map live_row (entries m.rows ks)
    go [] = refl
    go (k ∷ ks) = ground (arith, go ks, Option-cases (lookup k m.rows))

-- A snapshot holds one row for each row of the map, and never more than max_rows.
pub length-snapshot :
    (m : Materializer)
    → IsValid m
    → (length (snapshot m) ≡ length m.rows) × (length (snapshot m) ≤ m.max_rows)
length-snapshot m v = ground (
  arith,
  ap length (snapshot-view m),
  length-map (view m).table live_row,
  v.ordered.counted,
  v.bounded,
)

-- For an UPDATE_BEFORE and an UPDATE_AFTER row of one key, ApplyUpdate has the result of the two
-- calls of Apply, errors and the pending set included.
pub apply_update-apply :
    (json : Json) (m : Materializer) (before after : Row) (k : Bytes)
    → before.kind ≡ update_before
    → after.kind ≡ update_after
    → row_key json m before ≡ ok k
    → row_key json m after ≡ ok k
    → apply_update json m before after ≡ (apply json m before >>= λ m'. apply json m' after)
unfolding apply_update apply row_key apply_at
apply_update-apply json m before after k b a p q = ground (
  arith,
  bytes_beq_iff k k,
  Option-cases (lookup k m.rows),
  lookup-insert k k tt m.pending,
  delete-insert k tt m.pending,
  delete_absent k m.pending,
)

apply_option-room :
    (o : Opt) (cfg cfg' : Config)
    → 0 < cfg.max_rows
    → apply_option o cfg ≡ ok cfg'
    → 0 < cfg'.max_rows
unfolding apply_option
apply_option-room (primary_key_option []) cfg cfg' h e = cc
apply_option-room (primary_key_option (c ∷ cs)) cfg cfg' h e = go (check_key_columns [] (c ∷ cs)) e
  where
    go :
        (r : Result Error (Unit {0}))
        → (r >> ok (record cfg { primary_key = c ∷ cs })) ≡ ok cfg'
        → 0 < cfg'.max_rows
    go (ok x) e = ground arith
    go (err x) e = cc
apply_option-room (columns_option []) cfg cfg' h e = cc
apply_option-room (columns_option (c ∷ cs)) cfg cfg' h e = ground arith
apply_option-room (max_rows_option (pos zero)) cfg cfg' h e = cc
apply_option-room (max_rows_option (pos (suc n))) cfg cfg' h e = ground arith
apply_option-room (max_rows_option (negsuc n)) cfg cfg' h e = cc
apply_option-room nil_option cfg cfg' h e = ground arith

apply_options-room :
    (os : List Opt) (cfg cfg' : Config)
    → 0 < cfg.max_rows
    → apply_options os cfg ≡ ok cfg'
    → 0 < cfg'.max_rows
unfolding apply_options
apply_options-room [] cfg cfg' h e = ground arith
apply_options-room (o ∷ os) cfg cfg' h e =
    go (apply_option o cfg) (apply_option-room o cfg) (apply_options-room os) e
  where
    go :
        (r : Result Error Config)
        → ((c : Config) → 0 < cfg.max_rows → r ≡ ok c → 0 < c.max_rows)
        → ((c d : Config) → 0 < c.max_rows → apply_options os c ≡ ok d → 0 < d.max_rows)
        → (r >>= apply_options os) ≡ ok cfg'
        → 0 < cfg'.max_rows
    go (ok c) first rest e = rest c cfg' (first c h refl) e
    go (err x) first rest e = cc

empty_state-IsValid : (cfg : Config) → cfg.primary_key ≢ [] → IsValid (empty_state cfg)
unfolding entries in_order count_empty lookup
empty_state-IsValid cfg n = record {
  keyed = n;
  ordered = record {
    distinct = tt;
    unique = tt;
    no_empty = refl;
    listed = λ k h. cc;
    live = λ k n h. cc;
    sound = λ k i h. cc;
    complete = λ k h. cc;
    counted = refl;
    tombs = refl;
  };
  bounded = omega arith;
  pending_live = λ k h. cc;
}

build-empty_state :
    (cfg : Config) (m : Materializer)
    → build cfg ≡ ok m
    → (m ≡ empty_state cfg) × (cfg.primary_key ≢ [])
unfolding build
build-empty_state cfg m e = ground arith

build-IsValid :
    (cfg : Config) (m : Materializer)
    → build cfg ≡ ok m
    → IsValid m × (snapshot m ≡ []) × (m.max_rows ≡ cfg.max_rows)
unfolding snapshot
build-IsValid cfg m e =
    let (same, n) = build-empty_state cfg m e in rw same (empty_state-IsValid cfg n, refl, refl)

-- The constructor gives a valid materializer that is empty and has room for a row.
pub new_materializer-IsValid :
    (options : List Opt) (m : Materializer)
    → new_materializer options ≡ ok m
    → IsValid m × (snapshot m ≡ []) × (0 < m.max_rows)
unfolding new_materializer
new_materializer-IsValid options m e =
    go (apply_options options start) (apply_options-room options start) e
  where
    start : Config
    start = record { primary_key = []; columns = []; max_rows = default_max_rows }

    go :
        (r : Result Error Config)
        → ((c : Config) → 0 < start.max_rows → r ≡ ok c → 0 < c.max_rows)
        → (r >>= build) ≡ ok m
        → IsValid m × (snapshot m ≡ []) × (0 < m.max_rows)
    go (ok c) room e =
        let (v, s, k) = build-IsValid c m e in (v, s, ground (arith, room c (omega arith) refl))
    go (err x) room e = cc
