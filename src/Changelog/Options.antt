-- ===== src/Changelog/Options.antt =====
-- The options of `NewMaterializer`, and the constructor.
use flink_sql_go.Prelude.{
  ℕ, zero, suc, Bool, true, false, ◌&&◌, ◌||◌, not, List, [], ◌∷◌, Bytes, bytes_eq, ◌=?◌, Result,
  ok, err, ◌>>=◌, ◌>>◌, guard, ℤ, pos, negsuc,
}
use flink_sql_go.Go.Space.{trim_space, is_empty}
use flink_sql_go.Changelog.Row.{ColumnInfo}
use flink_sql_go.Changelog.State.{
  Error, primary_key_required, columns_required, primary_key_missing, max_rows_exceeded,
  Materializer,
}

pub record Config : Type 0 where
  pub primary_key : List Bytes
  pub columns : List ColumnInfo
  pub max_rows : ℕ

abbrev pub default_max_rows : ℕ
default_max_rows = 100_000

pub data Opt : Type 0 where
  primary_key_option : List Bytes → Opt
  columns_option : List ColumnInfo → Opt
  max_rows_option : ℤ → Opt
  nil_option : Opt

unfoldable pub contains : List Bytes → Bytes → Bool
contains [] name = false
contains (x ∷ xs) name = x =? name || contains xs name

-- The loop of `PrimaryKey`; `seen` holds the names met so far.
unfoldable pub check_key_columns : List Bytes → List Bytes → Result Error (Unit {0})
unfolding contains
check_key_columns seen [] = ok tt
check_key_columns seen (c ∷ cs) = do
  guard (not (is_empty (trim_space c))) primary_key_required
  guard (not (contains seen c)) primary_key_required
  check_key_columns (c ∷ seen) cs

unfoldable pub set_primary_key : List Bytes → Config → Result Error Config
unfolding check_key_columns
set_primary_key [] cfg = err primary_key_required
set_primary_key (c ∷ cs) cfg = do
  check_key_columns [] (c ∷ cs)
  ok (record cfg { primary_key = c ∷ cs })

unfoldable pub set_columns : List ColumnInfo → Config → Result Error Config
set_columns [] cfg = err columns_required
set_columns (c ∷ cs) cfg = ok (record cfg { columns = c ∷ cs })

unfoldable pub set_max_rows : ℤ → Config → Result Error Config
set_max_rows (pos zero) cfg = err max_rows_exceeded
set_max_rows (pos (suc n)) cfg = ok (record cfg { max_rows = suc n })
set_max_rows (negsuc n) cfg = err max_rows_exceeded

unfoldable pub apply_option : Opt → Config → Result Error Config
unfolding set_primary_key set_columns set_max_rows
apply_option (primary_key_option columns) cfg = set_primary_key columns cfg
apply_option (columns_option columns) cfg = set_columns columns cfg
apply_option (max_rows_option limit) cfg = set_max_rows limit cfg
apply_option nil_option cfg = ok cfg

unfoldable pub apply_options : List Opt → Config → Result Error Config
unfolding apply_option
apply_options [] cfg = ok cfg
apply_options (o ∷ os) cfg = apply_option o cfg >>= apply_options os

unfoldable pub has_column : List ColumnInfo → Bytes → Bool
has_column [] name = false
has_column (c ∷ cs) name = c.name =? name || has_column cs name

unfoldable pub all_columns_found : List ColumnInfo → List Bytes → Bool
unfolding has_column
all_columns_found columns [] = true
all_columns_found columns (k ∷ ks) = has_column columns k && all_columns_found columns ks

abbrev is_nil {ℓ} : {A : Type ℓ} → List A → Bool
is_nil [] = true
is_nil (x ∷ xs) = false

abbrev pub empty_state : Config → Materializer
empty_state cfg = record {
  primary_key = cfg.primary_key;
  columns = cfg.columns;
  max_rows = cfg.max_rows;
  rows = [];
  order = [];
  order_index = [];
  tombstones = 0;
  pending = [];
}

unfoldable pub build : Config → Result Error Materializer
unfolding all_columns_found
build cfg = do
  guard (not (is_nil cfg.primary_key)) primary_key_required
  guard (not (is_nil cfg.columns)) columns_required
  guard (all_columns_found cfg.columns cfg.primary_key) primary_key_missing
  ok (empty_state cfg)

unfoldable pub new_materializer : List Opt → Result Error Materializer
unfolding apply_options build
new_materializer options =
    apply_options options (record { primary_key = []; columns = []; max_rows = default_max_rows })
    >>= build
