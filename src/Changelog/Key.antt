-- ===== src/Changelog/Key.antt =====
-- The internal key of a row: never the tombstone, and free of collisions.
use mathlib.Core.List.{append_assoc}
use flink_sql_go.Prelude.{
  ◌≡◌, refl, ap, ◌∙◌, ◌≢◌, List, [], ◌∷◌, ◌++◌, Bytes, length, arith, Result, ok, err, ◌>>=◌,
}
use flink_sql_go.Go.Decimal.{itoa}
use flink_sql_go.Go.Decimal.Reading.{read_from, read_from-itoa}
use flink_sql_go.Changelog.Row.{Row, ColumnInfo, Json}
use flink_sql_go.Changelog.State.{Error, key_part, canonical_part, row_key_from}

append-injective : (a b s t : Bytes) → length a ≡ length b → a ++ s ≡ b ++ t → (a ≡ b) × (s ≡ t)
append-injective [] [] s t l e = (refl, e)
append-injective [] (y ∷ b) s t l e = absurd (omega arith)
append-injective (x ∷ a) [] s t l e = absurd (omega arith)
append-injective (x ∷ a) (y ∷ b) s t l e = ground (arith, append-injective a b s t)

-- A key part gives back the canonical form that it was made of, and the rest of the key.
pub key_part-injective : (a b s t : Bytes) → key_part a ++ s ≡ key_part b ++ t → (a ≡ b) × (s ≡ t)
unfolding key_part
key_part-injective a b s t e = ground (
  arith,
  append-injective a b (b'|' ∷ s) (b'|' ∷ t),
  reading a s,
  reading b t,
  ap (read_from 0) e,
)
  where
    reading :
        (c r : Bytes)
        → read_from 0 ((itoa (length c) ++ (b':' ∷ (c ++ (b'|' ∷ [])))) ++ r)
          ≡ (length c, c ++ (b'|' ∷ r))
    reading c r =
        ap (read_from 0) (append_assoc (itoa (length c)) (b':' ∷ (c ++ (b'|' ∷ []))) r)
        ∙ read_from-itoa (length c) ((c ++ (b'|' ∷ [])) ++ r)
        ∙ ap (λ x. (length c, x)) (append_assoc c (b'|' ∷ []) r)

pub key_part-ne-nil : (a s : Bytes) → key_part a ++ s ≢ []
unfolding key_part
key_part-ne-nil a s = go (itoa (length a))
  where
    go : (xs : Bytes) → (xs ++ (b':' ∷ (a ++ (b'|' ∷ [])))) ++ s ≢ []
    go [] e = cc
    go (x ∷ xs) e = cc

-- The two rows have the same canonical form in each of the columns.
abbrev pub SameParts : Json → List ColumnInfo → List Bytes → Row → Row → Type 0
SameParts json columns [] left right = Unit {0}
SameParts json columns (c ∷ cs) left right =
    (canonical_part json columns left c ≡ canonical_part json columns right c)
    × SameParts json columns cs left right

module _ (json : Json) (columns : List ColumnInfo) (left right : Row) where
  pub SameParts-of_key :
      (cs : List Bytes) (k : Bytes)
      → row_key_from json columns cs left ≡ ok k
      → row_key_from json columns cs right ≡ ok k
      → SameParts json columns cs left right
  unfolding row_key_from
  SameParts-of_key [] k p q = tt
  SameParts-of_key (c ∷ cs) k p q =
      split (canonical_part json columns left c) (canonical_part json columns right c)
        (row_key_from json columns cs left) (row_key_from json columns cs right)
        (SameParts-of_key cs) p q
    where
      split :
          (a b : Result Error Bytes) (s t : Result Error Bytes)
          → ((k' : Bytes) → s ≡ ok k' → t ≡ ok k' → SameParts json columns cs left right)
          → (a >>= λ compact. s >>= λ key. ok (key_part compact ++ key)) ≡ ok k
          → (b >>= λ compact. t >>= λ key. ok (key_part compact ++ key)) ≡ ok k
          → (a ≡ b) × SameParts json columns cs left right
      split (ok a) (ok b) (ok s) (ok t) ih p q = ground (arith, key_part-injective a b s t, ih s)
      split (err a) b s t ih p q = cc
      split (ok a) (err b) s t ih p q = cc
      split (ok a) (ok b) (err s) t ih p q = cc
      split (ok a) (ok b) (ok s) (err t) ih p q = cc

  pub key_of-SameParts :
      (cs : List Bytes)
      → SameParts json columns cs left right
      → row_key_from json columns cs left ≡ row_key_from json columns cs right
  unfolding row_key_from
  key_of-SameParts [] h = refl
  key_of-SameParts (c ∷ cs) h = rw (h.0, key_of-SameParts cs h.1)
