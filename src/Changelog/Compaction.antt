-- ===== src/Changelog/Compaction.antt =====
-- `compactOrderLocked` drops the tombstones and gives each key its new position.
use flink_sql_go.Prelude.{
  ℕ, zero, suc, ◌≡◌, refl, sym, ◌∙◌, ◌⊎◌, ◌≢◌, true, List, [], ◌∷◌, ◌++◌, none, some, Bytes,
  bytes_eq, bytes_beq_iff, length, get_elem?, arith, Option-cases,
}
use mathlib.Core.List.{append-nil, append_assoc}
use flink_sql_go.Prelude.Assoc.{lookup, insert, has, lookup-insert}
use flink_sql_go.Changelog.State.{compact_from}
use flink_sql_go.Changelog.View.{Table, entries, in_order, Uniq}
use flink_sql_go.Changelog.Order.{occupied, count_empty}

pub in_order-occupied :
    (k : Bytes) (ks : List Bytes) → k ≢ [] → in_order k (occupied ks) ≡ in_order k ks
unfolding in_order occupied
in_order-occupied k [] n = refl
in_order-occupied k ([] ∷ ks) n = ground (arith, bytes_beq_iff [] k, in_order-occupied k ks n)
in_order-occupied k ((c ∷ cs) ∷ ks) n = rw (in_order-occupied k ks n)

pub Uniq-occupied : (ks : List Bytes) → Uniq ks → Uniq (occupied ks)
unfolding occupied
Uniq-occupied [] u = tt
Uniq-occupied ([] ∷ ks) u = Uniq-occupied ks u.1
Uniq-occupied ((c ∷ cs) ∷ ks) u =
    ground (arith, in_order-occupied (c ∷ cs) ks, Uniq-occupied ks u.1)

pub count_empty-occupied : (ks : List Bytes) → count_empty (occupied ks) ≡ 0
unfolding count_empty occupied
count_empty-occupied [] = refl
count_empty-occupied ([] ∷ ks) = count_empty-occupied ks
count_empty-occupied ((c ∷ cs) ∷ ks) = count_empty-occupied ks

pub entries-occupied :
    (rows : Table) (ks : List Bytes)
    → lookup [] rows ≡ none
    → entries rows (occupied ks) ≡ entries rows ks
unfolding entries occupied
entries-occupied rows [] h = refl
entries-occupied rows ([] ∷ ks) h = ground (arith, entries-occupied rows ks h)
entries-occupied rows ((c ∷ cs) ∷ ks) h =
    ground (arith, entries-occupied rows ks h, Option-cases (lookup (c ∷ cs) rows))

pub get_elem?-append_end :
    (xs : List Bytes) (x : Bytes) → get_elem? (xs ++ x ∷ []) (length xs) ≡ some x
get_elem?-append_end [] x = refl
get_elem?-append_end (y ∷ ys) x = get_elem?-append_end ys x

pub get_elem?-append_left :
    (xs ys : List Bytes) (i : ℕ) (x : Bytes)
    → get_elem? xs i ≡ some x
    → get_elem? (xs ++ ys) i ≡ some x
get_elem?-append_left [] ys i x h = cc
get_elem?-append_left (y ∷ xs) ys zero x h = h
get_elem?-append_left (y ∷ xs) ys (suc i) x h = get_elem?-append_left xs ys i x h

pub compact_from-order :
    (index : List (Bytes × ℕ)) (acc ks : List Bytes)
    → (compact_from index acc ks).1 ≡ acc ++ occupied ks
unfolding compact_from occupied
compact_from-order index acc [] = sym (append-nil acc)
compact_from-order index acc ([] ∷ ks) = compact_from-order index acc ks
compact_from-order index acc ((c ∷ cs) ∷ ks) =
    compact_from-order (insert (c ∷ cs) (length acc) index) (acc ++ (c ∷ cs) ∷ []) ks
    ∙ append_assoc acc ((c ∷ cs) ∷ []) (occupied ks)

-- Each key that is indexed is still to come, or is written where the index says.
abbrev Settled : List (Bytes × ℕ) → List Bytes → List Bytes → Type 0
Settled index acc ks =
    (k : Bytes) (i : ℕ)
    → lookup k index ≡ some i
    → (k ≢ []) × ((in_order k ks ≡ true) ⊎ (get_elem? acc i ≡ some k))

Settled-skip :
    (index : List (Bytes × ℕ)) (acc ks : List Bytes)
    → Settled index acc ([] ∷ ks)
    → Settled index acc ks
unfolding in_order
Settled-skip index acc ks s k i h = ground (arith, s k i h, bytes_beq_iff [] k)

Settled-write :
    (key : Bytes) (index : List (Bytes × ℕ)) (acc ks : List Bytes)
    → key ≢ []
    → Settled index acc (key ∷ ks)
    → Settled (insert key (length acc) index) (acc ++ key ∷ []) ks
unfolding in_order
Settled-write key index acc ks n s k i h = ground (
  arith,
  s k i,
  bytes_beq_iff key k,
  lookup-insert key k (length acc) index,
  get_elem?-append_end acc key,
  get_elem?-append_left acc (key ∷ []) i k,
)

pub compact_from_sound :
    (index : List (Bytes × ℕ)) (acc ks : List Bytes)
    → Settled index acc ks
    → (k : Bytes) (i : ℕ) → lookup k (compact_from index acc ks).0 ≡ some i
    → (k ≢ []) × (get_elem? (acc ++ occupied ks) i ≡ some k)
unfolding compact_from occupied in_order
compact_from_sound index acc [] s k i h = ground (arith, s k i h, append-nil acc)
compact_from_sound index acc ([] ∷ ks) s k i h =
    compact_from_sound index acc ks (Settled-skip index acc ks s) k i h
compact_from_sound index acc ((c ∷ cs) ∷ ks) s k i h =
    rw (append_assoc acc ((c ∷ cs) ∷ []) (occupied ks)) at (
      compact_from_sound (insert (c ∷ cs) (length acc) index) (acc ++ (c ∷ cs) ∷ []) ks
        (Settled-write (c ∷ cs) index acc ks (λ e. cc) s) k i h)

pub compact_from_complete :
    (k : Bytes) (index : List (Bytes × ℕ)) (acc ks : List Bytes)
    → has k index ≡ true
    → has k (compact_from index acc ks).0 ≡ true
unfolding compact_from
compact_from_complete k index acc [] h = h
compact_from_complete k index acc ([] ∷ ks) h = compact_from_complete k index acc ks h
compact_from_complete k index acc ((c ∷ cs) ∷ ks) h =
    compact_from_complete k (insert (c ∷ cs) (length acc) index) (acc ++ (c ∷ cs) ∷ []) ks
      (ground (arith, lookup-insert (c ∷ cs) k (length acc) index))
