-- ===== src/Session/Handle.antt =====
-- security.go: what an opaque handle has to be, and how it is shown.
use flink_sql_go.Prelude.{
  ℕ, ◌-◌, not, ◌++◌, Bytes, length, drop, take, leb, if◌then◌else◌, codes, Result, guard, ◌>>◌,
}
use flink_sql_go.Go.Space.{trim_space, is_empty}
use flink_sql_go.Go.Utf8.{valid_string, has_control}

pub data HandleError : Type 0 where
  required too_long not_utf8 control_character : HandleError

abbrev pub max_handle_bytes : ℕ
max_handle_bytes = 4096

-- The checks that handles and identifiers share, up to a greatest length.
unfoldable pub check_text : ℕ → Bytes → Result HandleError (Unit {0})
unfolding trim_space valid_string has_control
check_text most text = do
  guard (not (is_empty (trim_space text))) required
  guard (leb (length text) most) too_long
  guard (valid_string text) not_utf8
  guard (not (has_control text)) control_character

unfoldable pub validate_opaque_handle : Bytes → Result HandleError (Unit {0})
unfolding check_text
validate_opaque_handle handle = check_text max_handle_bytes handle

unfoldable pub mask_handle : Bytes → Bytes
mask_handle handle =
    if leb (length handle) 8
    then codes "********"
    else take 4 handle ++ codes "..." ++ drop (length handle - 4) handle
