-- ===== src/Prelude/Members.antt =====
-- Lists read as sets: membership, the removal of one occurrence, and lists without repetition.
use Prim.Native.Nat.{◌+◌}
use mathlib.Core.Path.{◌≡◌, refl}
use mathlib.Core.Bool.{Bool, true, false, not, ◌&&◌, ◌||◌}
use mathlib.Core.List.{List, [], ◌∷◌, ◌++◌}
use native.Mathlib.Omega.{arith}
use flink_sql_go.Prelude.Tests.{if◌then◌else◌}
use flink_sql_go.Prelude.Lists.{length}
use flink_sql_go.Prelude.Keys.{Eq, ◌=?◌}

module _ {ℓ} {A : Type ℓ} ⦃e : Eq A⦄ where
  unfoldable pub member : A → List A → Bool
  member a [] = false
  member a (x ∷ xs) = x =? a || member a xs

  -- The first occurrence goes.
  unfoldable pub remove : A → List A → List A
  remove a [] = []
  remove a (x ∷ xs) = let rest = remove a xs in if x =? a then xs else x ∷ rest

  unfoldable pub is_distinct : List A → Bool
  unfolding member
  is_distinct [] = true
  is_distinct (x ∷ xs) = not (member x xs) && is_distinct xs

  pub member-append : (a : A) (xs ys : List A) → member a (xs ++ ys) ≡ (member a xs || member a ys)
  unfolding member
  member-append a [] ys = refl
  member-append a (x ∷ xs) ys = ground (arith, member-append a xs ys)

  pub distinct-append :
      (xs : List A) (a : A)
      → is_distinct xs ≡ true
      → member a xs ≡ false
      → is_distinct (xs ++ a ∷ []) ≡ true
  unfolding is_distinct
  distinct-append [] a d h = refl
  distinct-append (x ∷ xs) a d h =
      ground
        (arith, distinct-append xs a, member-append x xs (a ∷ []), e.beq_iff x a, e.beq_iff a x)

  pub member-remove :
      (a b : A) (xs : List A)
      → is_distinct xs ≡ true
      → member b (remove a xs) ≡ (member b xs && not (a =? b))
  unfolding is_distinct remove
  member-remove a b [] d = refl
  member-remove a b (x ∷ xs) d =
      ground (arith, member-remove a b xs, e.beq_iff x a, e.beq_iff x b, e.beq_iff a b)

  pub distinct-remove :
      (a : A) (xs : List A) → is_distinct xs ≡ true → is_distinct (remove a xs) ≡ true
  unfolding is_distinct remove
  distinct-remove a [] d = refl
  distinct-remove a (x ∷ xs) d =
      ground (arith, distinct-remove a xs, member-remove a x xs, e.beq_iff x a)

  pub length-remove :
      (a : A) (xs : List A) → member a xs ≡ true → length (remove a xs) + 1 ≡ length xs
  unfolding member remove
  length-remove a [] h = cc
  length-remove a (x ∷ xs) h = ground (arith, length-remove a xs)
