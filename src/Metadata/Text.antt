-- ===== src/Metadata/Text.antt =====
-- `rowFieldText` and the loops that read the rows of a query. How a JSON string and a Go literal are read are
-- arguments.
use flink_sql_go.Prelude.{
  ℕ, Bool, ◌||◌, List, [], ◌∷◌, Option, none, some, Bytes, ◌=?◌, bytes_eq, leb, length, get_elem?,
  if◌then◌else◌, codes, Result, ok, err, ◌>>=◌,
}
use flink_sql_go.Go.Space.{trim_space}
use flink_sql_go.Go.Text.{fold_ascii}
use flink_sql_go.Changelog.Row.{Row}
use flink_sql_go.Setup.Quote.{starts_with}
use flink_sql_go.Metadata.Name.{QueryError, missing_field, bad_text, needed}

-- json.Unmarshal into a string, and strconv.Unquote.
pub record Texts : Type 0 where
  pub unmarshal : Bytes → Option Bytes
  pub unquote : Bytes → Option Bytes

abbrev pub or_raw : Bytes → Option Bytes → Bytes
or_raw raw none = raw
or_raw raw (some text) = text

unfoldable pub field_text : Texts → Bytes → Result QueryError Bytes
field_text t raw =
    if raw =? codes "null"
    then ok []
    else if starts_with b'"' raw
    then needed bad_text (t.unmarshal raw)
    else ok (or_raw raw (t.unquote raw))

unfoldable pub row_field_text : Texts → Row → ℕ → Result QueryError Bytes
unfolding trim_space field_text
row_field_text t row index = elim (get_elem? row.fields index) [
  | none ↦ err missing_field
  | some field ↦ field_text t (trim_space field)
]

-- A loop over rows, up to the first that cannot be read.
unfoldable pub read_rows {ℓ} :
    {A : Type ℓ} → (Row → Result QueryError A) → List Row → Result QueryError (List A)
read_rows read [] = ok []
read_rows read (row ∷ rows) = do value ← read row; values ← read_rows read rows; ok (value ∷ values)

pub record ColumnMetadata : Type 0 where
  pub name : Bytes
  pub data_type : Bytes
  pub nullable : Bool
  pub key : Bytes
  pub extras : Bytes
  pub watermark : Bytes
  pub comment : Bytes

-- A field that the row may leave out.
unfoldable pub optional_text : Texts → Row → ℕ → Result QueryError Bytes
unfolding row_field_text
optional_text t row index =
    if leb (length row.fields) index then ok [] else row_field_text t row index

-- strings.EqualFold with `true` and with `yes`.
unfoldable pub is_yes : Bytes → Bool
unfolding fold_ascii
is_yes s = fold_ascii s =? codes "true" || fold_ascii s =? codes "yes"

unfoldable pub column_of : Texts → Row → Result QueryError ColumnMetadata
unfolding optional_text is_yes
column_of t row = do
  name ← row_field_text t row 0
  data_type ← row_field_text t row 1
  nullable_text ← row_field_text t row 2
  key ← optional_text t row 3
  extras ← optional_text t row 4
  watermark ← optional_text t row 5
  comment ← optional_text t row 6
  ok (record {
    name = name;
    data_type = data_type;
    nullable = is_yes nullable_text;
    key = key;
    extras = extras;
    watermark = watermark;
    comment = comment;
  })
