-- ===== src/Metadata/Rows.antt =====
-- What the loops over rows return.
use flink_sql_go.Prelude.{◌≡◌, subst, List, [], ◌∷◌, Result, ok, >>=-eq-ok, arith}
use flink_sql_go.Changelog.Row.{Row}
use flink_sql_go.Metadata.Name.{QueryError}
use flink_sql_go.Metadata.Text.{read_rows}

-- Each row in its place, read.
pub data AreRead {A : Type 0} (read : Row → Result QueryError A) : List Row → List A → Type 0 where
  none_read : AreRead read [] []
  next_read :
      {row : Row} {rows : List Row} {value : A} {values : List A}
      → read row ≡ ok value
      → AreRead read rows values
      → AreRead read (row ∷ rows) (value ∷ values)

pub ok_injective : {E A : Type 0} {a b : A} → ◌≡◌ {A = Result E A} (ok a) (ok b) → a ≡ b
ok_injective h = ground arith

module _ {A : Type 0} (read : Row → Result QueryError A) where
  pub read_rows-AreRead :
      (rows : List Row) (values : List A)
      → read_rows read rows ≡ ok values
      → AreRead read rows values
  unfolding read_rows
  read_rows-AreRead [] [] h = none_read
  read_rows-AreRead [] (v ∷ vs) h = ground arith
  read_rows-AreRead (row ∷ rows) values h =
      let (value, e, h') = >>=-eq-ok (read row) _ h in
      let (rest, f, h'') = >>=-eq-ok (read_rows read rows) _ h' in
      subst (AreRead read (row ∷ rows)) (ok_injective h'')
        (next_read e (read_rows-AreRead rows rest f))
