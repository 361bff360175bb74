-- ===== src/Changelog/Invariant.antt =====
-- What holds of a materializer between two calls, and each change of its state that keeps it.
use flink_sql_go.Prelude.{
  ℕ, zero, suc, ◌+◌, ◌≡◌, sym, ◌∙◌, inl, ◌≢◌, true, false, List, [], ◌∷◌, ◌++◌, none, some, Bytes,
  bytes_eq, bytes_beq_iff, length, get_elem?, set, arith, length-append,
}
use flink_sql_go.Prelude.Assoc.{
  lookup, insert, delete, has, lookup-insert, lookup-delete, length-insert,
}
use flink_sql_go.Changelog.Row.{Row}
use flink_sql_go.Changelog.State.{compact_from}
use flink_sql_go.Changelog.View.{
  Table, entries, in_order, Uniq, Distinct, lookup-entries, entries-append, entries-insert_absent,
  entries-insert_present, entries-delete, entries-set, length-delete, Distinct-insert,
  Distinct-delete, Distinct-entries, length-replace,
}
use flink_sql_go.Changelog.Order.{
  occupied, count_empty, in_order-append, get_elem?-in_order, in_order-set, in_order-set_self,
  in_order-set_ne, Uniq-append, Uniq-set, count_empty-append, count_empty-set,
}
use flink_sql_go.Changelog.Compaction.{
  in_order-occupied, Uniq-occupied, count_empty-occupied, entries-occupied, get_elem?-append_left,
  get_elem?-append_end, compact_from_sound, compact_from_complete,
}

-- The rows, the order of their keys, the index of the positions and the number of tombstones.
pub record IsOrdered (rows : Table) (order : List Bytes) (index : List (Bytes × ℕ)) (dead : ℕ)
    : Type 0 where
  pub distinct : Distinct rows
  pub unique : Uniq order
  pub no_empty : lookup [] rows ≡ none
  pub listed : (k : Bytes) → has k rows ≡ true → in_order k order ≡ true
  pub live : (k : Bytes) → k ≢ [] → in_order k order ≡ true → has k rows ≡ true
  pub sound :
      (k : Bytes) (i : ℕ) → lookup k index ≡ some i → (k ≢ []) × (get_elem? order i ≡ some k)
  pub complete : (k : Bytes) → has k rows ≡ true → has k index ≡ true
  pub counted : length rows ≡ length (entries rows order)
  pub tombs : dead ≡ count_empty order

module _ {rows : Table} {order : List Bytes} {index : List (Bytes × ℕ)} {dead : ℕ}
    (v : IsOrdered rows order index dead) (key : Bytes) (row : Row) where
  pub entries-insert_new :
      has key rows ≡ false
      → key ≢ []
      → entries (insert key row rows) (order ++ key ∷ []) ≡ entries rows order ++ (key, row) ∷ []
  unfolding entries
  entries-insert_new new n = ground (
    arith,
    entries-append (insert key row rows) order (key ∷ []),
    entries-insert_absent key row rows order,
    v.live key n,
    lookup-insert key key row rows,
    bytes_beq_iff key key,
  )

  pub insert-IsOrdered :
      has key rows ≡ false
      → key ≢ []
      → IsOrdered (insert key row rows) (order ++ key ∷ []) (insert key (length order) index) dead
  unfolding in_order
  insert-IsOrdered new n = record {
    distinct = Distinct-insert key row rows v.distinct;
    unique = Uniq-append key order (ground (arith, v.live key n)) v.unique;
    no_empty = ground (arith, lookup-insert key [] row rows, bytes_beq_iff key [], v.no_empty);
    listed = λ k h.
        ground
          (arith, lookup-insert key k row rows, in_order-append k order (key ∷ []), v.listed k);
    live = λ k nk h.
        ground
          (arith, lookup-insert key k row rows, in_order-append k order (key ∷ []), v.live k nk);
    sound = λ k i h. ground (
      arith,
      lookup-insert key k (length order) index,
      bytes_beq_iff key k,
      v.sound k i,
      get_elem?-append_end order key,
      get_elem?-append_left order (key ∷ []) i k,
    );
    complete = λ k h. ground (
      arith,
      lookup-insert key k row rows,
      lookup-insert key k (length order) index,
      v.complete k,
    );
    counted = ground (
      arith,
      length-insert key row rows,
      entries-insert_new new n,
      length-append (entries rows order) ((key, row) ∷ []),
      v.counted,
    );
    tombs = ground (arith, count_empty-append order key n, v.tombs);
  }

  pub update-IsOrdered : has key rows ≡ true → IsOrdered (insert key row rows) order index dead
  update-IsOrdered old = record {
    distinct = Distinct-insert key row rows v.distinct;
    unique = v.unique;
    no_empty = ground (arith, lookup-insert key [] row rows, bytes_beq_iff key [], v.no_empty);
    listed = λ k h.
        ground (arith, lookup-insert key k row rows, bytes_beq_iff key k, v.listed k, v.listed key);
    live = λ k nk h. ground (arith, lookup-insert key k row rows, v.live k nk);
    sound = v.sound;
    complete = λ k h.
        ground
          (arith, lookup-insert key k row rows, bytes_beq_iff key k, v.complete k, v.complete key);
    counted = ground (
      arith,
      length-insert key row rows,
      entries-insert_present key row rows order,
      length-replace key row (entries rows order),
      v.counted,
    );
    tombs = v.tombs;
  }

module _ {rows : Table} {order : List Bytes} {index : List (Bytes × ℕ)} {dead : ℕ}
    (v : IsOrdered rows order index dead) (key : Bytes) (i : ℕ) (old : has key rows ≡ true)
    (at : lookup key index ≡ some i) where
  pub entries-delete-set :
      entries (delete key rows) (set order i []) ≡ delete key (entries rows order)
  entries-delete-set =
      entries-set (delete key rows) key i order (v.sound key i at).1
        (ground (arith, lookup-delete key key rows, bytes_beq_iff key key))
        (ground (arith, lookup-delete key [] rows, v.no_empty))
      ∙ entries-delete key rows order

  still_placed :
      (k : Bytes) (j : ℕ)
      → k ≢ key
      → get_elem? order j ≡ some k
      → get_elem? (set order i []) j ≡ some k
  still_placed k j n h = place order i j (v.sound key i at).1 h
    where
      place :
          (ks : List Bytes) (i j : ℕ)
          → get_elem? ks i ≡ some key
          → get_elem? ks j ≡ some k
          → get_elem? (set ks i []) j ≡ some k
      place [] i j a b = b
      place (x ∷ xs) zero zero a b = absurd (n (ground arith))
      place (x ∷ xs) zero (suc j) a b = b
      place (x ∷ xs) (suc i) zero a b = b
      place (x ∷ xs) (suc i) (suc j) a b = place xs i j a b

  pub delete-IsOrdered : IsOrdered (delete key rows) (set order i []) (delete key index) (dead + 1)
  delete-IsOrdered = record {
    distinct = Distinct-delete key rows v.distinct;
    unique = Uniq-set i order v.unique;
    no_empty = ground (arith, lookup-delete key [] rows, v.no_empty);
    listed = λ k h. ground (
      arith,
      lookup-delete key k rows,
      bytes_beq_iff key k,
      v.listed k,
      in_order-set_ne key k i order (v.sound key i at).1,
    );
    live = λ k nk h. ground (
      arith,
      lookup-delete key k rows,
      bytes_beq_iff key k,
      v.live k nk,
      in_order-set k i order nk,
      in_order-set_self key i order,
      v.unique,
      v.sound key i at,
    );
    sound = λ k j h.
        ground
          (arith, lookup-delete key k index, bytes_beq_iff key k, v.sound k j, still_placed k j);
    complete =
        λ k h. ground (arith, lookup-delete key k rows, lookup-delete key k index, v.complete k);
    counted = ground (
      arith,
      length-delete key rows v.distinct old,
      entries-delete-set,
      length-delete key (entries rows order) (Distinct-entries rows order v.no_empty v.unique),
      lookup-entries key rows order,
      v.listed key old,
      v.counted,
    );
    tombs =
        ground
          (arith, count_empty-set i order key (v.sound key i at).0 (v.sound key i at).1, v.tombs);
  }

pub compact-IsOrdered :
    {rows : Table} {order : List Bytes} {index : List (Bytes × ℕ)} {dead : ℕ}
    → IsOrdered rows order index dead
    → IsOrdered rows (occupied order) (compact_from index [] order).0 0
compact-IsOrdered {rows} {order} {index} v = record {
  distinct = v.distinct;
  unique = Uniq-occupied order v.unique;
  no_empty = v.no_empty;
  listed = λ k h. ground (arith, v.listed k, in_order-occupied k order, v.no_empty);
  live = λ k nk h. ground (arith, v.live k nk, in_order-occupied k order nk);
  sound =
      compact_from_sound index [] order
        (λ k i h. ((v.sound k i h).0, inl (get_elem?-in_order k i order (v.sound k i h).1)));
  complete = λ k h. compact_from_complete k index [] order (v.complete k h);
  counted = ground (arith, entries-occupied rows order v.no_empty, v.counted);
  tombs = sym (count_empty-occupied order);
}
