-- ===== src/Changelog/Order.antt =====
-- The order of the keys, its tombstones, and the index that `compactOrderLocked` rebuilds.
use flink_sql_go.Prelude.{
  ℕ, zero, suc, ◌+◌, ◌≡◌, refl, ap, inl, inr, ◌≢◌, true, false, ◌||◌, List, [], ◌∷◌, ◌++◌, some,
  Bytes, bytes_eq, bytes_beq, bytes_beq_iff, get_elem?, set, arith, Bool-cases,
}
use flink_sql_go.Changelog.View.{in_order, Uniq}

-- The order without its tombstones.
unfoldable pub occupied : List Bytes → List Bytes
occupied [] = []
occupied ([] ∷ ks) = occupied ks
occupied ((c ∷ cs) ∷ ks) = (c ∷ cs) ∷ occupied ks

unfoldable pub count_empty : List Bytes → ℕ
count_empty [] = 0
count_empty ([] ∷ ks) = suc (count_empty ks)
count_empty ((c ∷ cs) ∷ ks) = count_empty ks

pub in_order-append :
    (k : Bytes) (xs ys : List Bytes) → in_order k (xs ++ ys) ≡ (in_order k xs || in_order k ys)
unfolding in_order
in_order-append k [] ys = refl
in_order-append k (x ∷ xs) ys = ground (arith, in_order-append k xs ys)

pub get_elem?-in_order :
    (k : Bytes) (i : ℕ) (ks : List Bytes) → get_elem? ks i ≡ some k → in_order k ks ≡ true
unfolding in_order
get_elem?-in_order k i [] h = cc
get_elem?-in_order k zero (j ∷ js) h = ground (arith, bytes_beq_iff j k)
get_elem?-in_order k (suc i) (j ∷ js) h = ground (arith, get_elem?-in_order k i js h)

pub in_order-set :
    (k : Bytes) (i : ℕ) (ks : List Bytes)
    → k ≢ []
    → in_order k (set ks i []) ≡ true
    → in_order k ks ≡ true
unfolding in_order
in_order-set k i [] n h = h
in_order-set k zero (j ∷ js) n h = ground (arith, bytes_beq_iff [] k)
in_order-set k (suc i) (j ∷ js) n h = ground (arith, in_order-set k i js n)

-- A key that is set to a tombstone stands nowhere else.
pub in_order-set_self :
    (k : Bytes) (i : ℕ) (ks : List Bytes)
    → k ≢ []
    → Uniq ks
    → get_elem? ks i ≡ some k
    → in_order k (set ks i []) ≡ false
unfolding in_order
in_order-set_self k i [] n u h = cc
in_order-set_self k zero (j ∷ js) n u h = ground (arith, bytes_beq_iff [] k)
in_order-set_self k (suc i) (j ∷ js) n u h =
    ground (arith, bytes_beq_iff j k, in_order-set_self k i js n u.1 h, get_elem?-in_order k i js h)

-- Another key stays where it is.
pub in_order-set_ne :
    (k j : Bytes) (i : ℕ) (ks : List Bytes)
    → get_elem? ks i ≡ some k
    → j ≢ k
    → in_order j ks ≡ true
    → in_order j (set ks i []) ≡ true
unfolding in_order
in_order-set_ne k j i [] at n h = h
in_order-set_ne k j zero (x ∷ xs) at n h = ground (arith, bytes_beq_iff x j)
in_order-set_ne k j (suc i) (x ∷ xs) at n h = ground (arith, in_order-set_ne k j i xs at n)

pub Uniq-append :
    (k : Bytes) (ks : List Bytes) → in_order k ks ≡ false → Uniq ks → Uniq (ks ++ k ∷ [])
unfolding in_order
Uniq-append k [] h u = (inr refl, tt)
Uniq-append k (j ∷ js) h u =
    ground
      (arith, in_order-append j js (k ∷ []), Uniq-append k js, bytes_beq_iff k j, bytes_beq_iff j k)

pub Uniq-set : (i : ℕ) (ks : List Bytes) → Uniq ks → Uniq (set ks i [])
Uniq-set i [] u = tt
Uniq-set zero (j ∷ js) u = (inl refl, u.1)
Uniq-set (suc i) (j ∷ js) u = elim (Bool-cases (in_order j (set js i []))) [
  | inl there ↦ elim (Bool-cases (bytes_beq j [])) [
    | inl e ↦ (inl ((bytes_beq_iff j []).0 e), Uniq-set i js u.1)
    | inr ne ↦ ground (arith, bytes_beq_iff j [], in_order-set j i js, Uniq-set i js u.1)
  ]
  | inr gone ↦ (inr gone, Uniq-set i js u.1)
]

pub count_empty-append :
    (ks : List Bytes) (k : Bytes) → k ≢ [] → count_empty (ks ++ k ∷ []) ≡ count_empty ks
unfolding count_empty
count_empty-append [] [] h = absurd (h refl)
count_empty-append [] (c ∷ cs) h = refl
count_empty-append ([] ∷ ks) k h = ap suc (count_empty-append ks k h)
count_empty-append ((d ∷ ds) ∷ ks) k h = count_empty-append ks k h

pub count_empty-set :
    (i : ℕ) (ks : List Bytes) (k : Bytes)
    → k ≢ []
    → get_elem? ks i ≡ some k
    → count_empty (set ks i []) ≡ count_empty ks + 1
unfolding count_empty
count_empty-set i [] k n h = cc
count_empty-set zero ([] ∷ js) k n h = absurd (n (ground arith))
count_empty-set zero ((c ∷ cs) ∷ js) k n h = omega arith
count_empty-set (suc i) ([] ∷ js) k n h = omega (arith, count_empty-set i js k n h)
count_empty-set (suc i) ((c ∷ cs) ∷ js) k n h = count_empty-set i js k n h
