-- ===== src/Changelog/View.antt =====
-- The materializer seen as one ordered table: the live keys in order, each with its row. The
-- tombstones, the position index and the compaction are not part of it.
use flink_sql_go.Prelude.{
  ℕ, zero, suc, ◌+◌, ◌≡◌, refl, ap, ◌⊎◌, Bool, true, false, ◌||◌, List, [], ◌∷◌, ◌++◌, none, some,
  Bytes, bytes_eq, bytes_beq_iff, ◌=?◌, length, get_elem?, set, if◌then◌else◌, arith, Option-cases,
}
use flink_sql_go.Prelude.Assoc.{
  lookup, insert, delete, has, lookup-insert, lookup-delete, delete_absent,
}
use flink_sql_go.Changelog.Row.{Row}

abbrev pub Table : Type 0
Table = List (Bytes × Row)

-- The live part of an order.
unfoldable pub entries : Table → List Bytes → Table
entries rows [] = []
entries rows (k ∷ ks) =
    let rest = entries rows ks in elim (lookup k rows) [ none ↦ rest | some r ↦ (k, r) ∷ rest ]

-- Writes a row over every entry with the key.
unfoldable pub replace : Bytes → Row → Table → Table
replace k r [] = []
replace k r ((j, w) ∷ t) = (if j =? k then (j, r) else (j, w)) ∷ replace k r t

unfoldable pub in_order : Bytes → List Bytes → Bool
in_order k [] = false
in_order k (j ∷ js) = j =? k || in_order k js

-- No key but the tombstone stands twice.
abbrev pub Uniq : List Bytes → Type 0
Uniq [] = Unit {0}
Uniq (k ∷ ks) = ((k ≡ []) ⊎ (in_order k ks ≡ false)) × Uniq ks

-- No key has two entries.
abbrev pub Distinct : Table → Type 0
Distinct [] = Unit {0}
Distinct ((k, r) ∷ m) = (has k m ≡ false) × Distinct m

pub lookup-entries :
    (k : Bytes) (rows : Table) (ks : List Bytes)
    → lookup k (entries rows ks) ≡ (if in_order k ks then lookup k rows else none)
unfolding lookup entries in_order
lookup-entries k rows [] = refl
lookup-entries k rows (j ∷ js) =
    ground (arith, bytes_beq_iff j k, lookup-entries k rows js, Option-cases (lookup j rows))

pub entries-append :
    (rows : Table) (ks js : List Bytes)
    → entries rows (ks ++ js) ≡ entries rows ks ++ entries rows js
unfolding entries
entries-append rows [] js = refl
entries-append rows (k ∷ ks) js =
    ground (arith, entries-append rows ks js, Option-cases (lookup k rows))

-- A row whose key is not in the order does not show.
pub entries-insert_absent :
    (k : Bytes) (r : Row) (rows : Table) (ks : List Bytes)
    → in_order k ks ≡ false
    → entries (insert k r rows) ks ≡ entries rows ks
unfolding entries in_order
entries-insert_absent k r rows [] h = refl
entries-insert_absent k r rows (j ∷ js) h = ground (
  arith,
  bytes_beq_iff j k,
  bytes_beq_iff k j,
  lookup-insert k j r rows,
  entries-insert_absent k r rows js,
  Option-cases (lookup j rows),
)

pub entries-insert_present :
    (k : Bytes) (r : Row) (rows : Table) (ks : List Bytes)
    → has k rows ≡ true
    → entries (insert k r rows) ks ≡ replace k r (entries rows ks)
unfolding entries replace
entries-insert_present k r rows [] h = refl
entries-insert_present k r rows (j ∷ js) h = ground (
  arith,
  bytes_beq_iff j k,
  bytes_beq_iff k j,
  lookup-insert k j r rows,
  entries-insert_present k r rows js,
  Option-cases (lookup j rows),
)

pub entries-delete :
    (k : Bytes) (rows : Table) (ks : List Bytes)
    → entries (delete k rows) ks ≡ delete k (entries rows ks)
unfolding entries delete
entries-delete k rows [] = refl
entries-delete k rows (j ∷ js) = ground (
  arith,
  bytes_beq_iff j k,
  bytes_beq_iff k j,
  lookup-delete k j rows,
  entries-delete k rows js,
  Option-cases (lookup j rows),
)

-- A tombstone over a key that has no row does not show.
pub entries-set :
    (rows : Table) (k : Bytes) (i : ℕ) (ks : List Bytes)
    → get_elem? ks i ≡ some k
    → lookup k rows ≡ none
    → lookup [] rows ≡ none
    → entries rows (set ks i []) ≡ entries rows ks
unfolding entries
entries-set rows k i [] at gone empty = refl
entries-set rows k zero (j ∷ js) at gone empty = ground arith
entries-set rows k (suc i) (j ∷ js) at gone empty =
    ground (arith, entries-set rows k i js, Option-cases (lookup j rows))

pub length-delete :
    (k : Bytes) (m : Table) → Distinct m → has k m ≡ true → length (delete k m) + 1 ≡ length m
unfolding delete lookup
length-delete k [] d h = cc
length-delete k ((j, w) ∷ m) d h =
    ground (arith, bytes_beq_iff j k, length-delete k m, delete_absent k m)

pub Distinct-insert : (k : Bytes) (r : Row) (m : Table) → Distinct m → Distinct (insert k r m)
unfolding insert lookup
Distinct-insert k r [] d = (refl, tt)
Distinct-insert k r ((j, w) ∷ m) d =
    ground
      (arith, bytes_beq_iff j k, bytes_beq_iff k j, lookup-insert k j r m, Distinct-insert k r m)

pub Distinct-delete : (k : Bytes) (m : Table) → Distinct m → Distinct (delete k m)
unfolding delete lookup
Distinct-delete k [] d = tt
Distinct-delete k ((j, w) ∷ m) d =
    ground (arith, bytes_beq_iff j k, bytes_beq_iff k j, lookup-delete k j m, Distinct-delete k m)

pub Distinct-entries :
    (rows : Table) (ks : List Bytes) → lookup [] rows ≡ none → Uniq ks → Distinct (entries rows ks)
unfolding entries
Distinct-entries rows [] empty u = tt
Distinct-entries rows (j ∷ js) empty u = ground (
  arith,
  lookup-entries j rows js,
  Distinct-entries rows js empty u.1,
  Option-cases (lookup j rows),
)

pub length-replace : (k : Bytes) (r : Row) (t : Table) → length (replace k r t) ≡ length t
unfolding replace
length-replace k r [] = refl
length-replace k r ((j, w) ∷ t) = ap suc (length-replace k r t)
