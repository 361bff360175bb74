-- ===== src/Metadata/Path.antt =====
-- A reader of dotted quoted names, and the names that a qualified name is read as.
use flink_sql_go.Prelude.{
  ℕ, zero, suc, ◌≤◌, ◌≡◌, refl, ap, subst, List, [], ◌∷◌, ◌++◌, map, Option, none, some, Bytes,
  ◌==◌, length, if◌then◌else◌, codes, ok, >>=-eq-ok, arith,
}
use flink_sql_go.Go.Text.{join}
use flink_sql_go.Setup.Quote.{quote, quote_identifier, unquote, unquote-quote}
use flink_sql_go.Metadata.Name.{QueryError, needed, quote_given, no_identifier}

abbrev put_first : Bytes → Option (List Bytes) → Option (List Bytes)
put_first name none = none
put_first name (some names) = some (name ∷ names)

-- What SQL reads as a dotted name of at most so many parts: quoted names with a dot between them, and nothing
-- else.
unfoldable pub read_path : ℕ → Bytes → Option (List Bytes)
read_path zero s = none
read_path (suc parts) s = elim (unquote b'`' s) [
  | none ↦ none
  | some r ↦ elim r.1 [
    | [] ↦ some (r.0 ∷ [])
    | c ∷ rest ↦ if c == b'.' then put_first r.0 (read_path parts rest) else none
  ]
]

-- The parts that are not left out.
unfoldable pub given : List Bytes → List Bytes
given [] = []
given ([] ∷ values) = given values
given ((c ∷ s) ∷ values) = (c ∷ s) ∷ given values

++_nil : (s : Bytes) → s ++ [] ≡ s
++_nil [] = refl
++_nil (c ∷ s) = ap (λ t. c ∷ t) (++_nil s)

read_last :
    (n : ℕ) (s name : Bytes)
    → unquote b'`' s ≡ some (name, [])
    → read_path (suc n) s ≡ some (name ∷ [])
unfolding read_path
read_last n s name h = rw (h, read_path) refl

read_next :
    (n : ℕ) (s name rest : Bytes) (names : List Bytes)
    → unquote b'`' s ≡ some (name, b'.' ∷ rest)
    → read_path n rest ≡ some names
    → read_path (suc n) s ≡ some (name ∷ names)
unfolding read_path
read_next n s name rest names h k = rw (h, k, read_path) refl

pub read_path-join :
    (name : Bytes) (names : List Bytes) (n : ℕ)
    → length (name ∷ names) ≤ n
    → read_path n (join (codes ".") (map (quote b'`') (name ∷ names))) ≡ some (name ∷ names)
read_path-join name names zero h = ground arith
read_path-join name [] (suc n) h = read_last n (quote b'`' name) name (
    subst (λ s. unquote b'`' s ≡ some (name, [])) (++_nil (quote b'`' name))
      (unquote-quote b'`' name [] refl))
read_path-join name (next ∷ names) (suc n) h =
    let rest = join (codes ".") (map (quote b'`') (next ∷ names)) in
    read_next n (quote b'`' name ++ b'.' ∷ rest) name rest (next ∷ names)
      (unquote-quote b'`' name (b'.' ∷ rest) refl) (read_path-join next names n (omega (arith, h)))

quote_identifier-eq_some :
    (s quoted : Bytes) → quote_identifier s ≡ some quoted → quoted ≡ quote b'`' s
unfolding quote_identifier
quote_identifier-eq_some s quoted h = ground arith

pub needed-eq_ok :
    {A : Type 0} (e : QueryError) (o : Option A) (a : A) → needed e o ≡ ok a → o ≡ some a
needed-eq_ok e o a h = ground arith

-- The parts that `quote_given` returns are the given ones, quoted.
pub quote_given-given :
    (values parts : List Bytes)
    → quote_given values ≡ ok parts
    → parts ≡ map (quote b'`') (given values)
unfolding quote_given given
quote_given-given [] parts h = ground arith
quote_given-given ([] ∷ values) parts h = quote_given-given values parts h
quote_given-given ((c ∷ s) ∷ values) parts h =
    let (quoted, e, h') = >>=-eq-ok (needed no_identifier (quote_identifier (c ∷ s))) _ h in
    let (rest, f, h'') = >>=-eq-ok (quote_given values) _ h' in
    let q = quote_identifier-eq_some (c ∷ s) quoted (needed-eq_ok no_identifier _ _ e) in
    let r = quote_given-given values rest f in cc
