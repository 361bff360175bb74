-- ===== src/Compatibility/Version.antt =====
-- API versions (config.go) and Flink product versions (`parseFlinkReleaseLine`).
use flink_sql_go.Prelude.{
  ℕ, zero, suc, Bool, true, false, ◌&&◌, ◌||◌, not, List, [], ◌∷◌, ◌++◌, Option, none, some, Bytes,
  leb, ◌==◌, if◌then◌else◌, Result, ok, err, ◌>>=◌, ◌>>◌, guard, ℤ, pos, negsuc,
}
use flink_sql_go.Go.Space.{trim_space, is_empty}
use flink_sql_go.Go.Decimal.{itoa}
use flink_sql_go.Go.Text.{to_lower, trim_prefix_v, split_dots, cut_suffix, is_digit, atoi}
use flink_sql_go.Compatibility.Profile.{Error, invalid_flink_version, default_api_version_v3}

abbrev at_least_one : ℤ × Bool → Option ℕ
at_least_one (pos zero, good) = none
at_least_one (pos (suc n), true) = some (suc n)
at_least_one (pos (suc n), false) = none
at_least_one (negsuc n, good) = none

unfoldable pub normalize_version : Bytes → Option Bytes
unfolding trim_space to_lower atoi itoa
normalize_version value =
    let lowered = to_lower (trim_space value) in
    if is_empty lowered
    then some default_api_version_v3
    else elim (at_least_one (atoi (trim_prefix_v lowered))) [
      | none ↦ none
      | some n ↦ some (b'v' ∷ itoa n)
    ]

unfoldable pub api_version_number : Bytes → ℤ
unfolding to_lower atoi
api_version_number version = (atoi (trim_prefix_v (to_lower version))).0

unfoldable pub all_digits : Bytes → Bool
all_digits [] = true
all_digits (c ∷ s) = is_digit c && all_digits s

-- Of digits alone Atoi gives no negative number.
abbrev natural : ℤ × Bool → Result Error ℕ
natural (pos n, true) = ok n
natural (pos n, false) = err invalid_flink_version
natural (negsuc n, good) = err invalid_flink_version

unfoldable pub version_number : Bytes → Result Error ℕ
unfolding all_digits atoi
version_number part = do
  guard (not (is_empty part)) invalid_flink_version
  guard (all_digits part) invalid_flink_version
  natural (atoi part)

-- The loop of `validateVersionSuffix` behind its first character. Every identifier character is
-- ASCII, so the loop over characters goes over bytes.
unfoldable pub suffix_rest : Bool → Bool → Bytes → Bool
suffix_rest plus_seen separator [] = not separator
suffix_rest plus_seen separator (c ∷ s) =
    let plus = suffix_rest true true s in
    let dot = suffix_rest plus_seen true s in
    let other = suffix_rest plus_seen false s in
    if c == b'+'
    then (if plus_seen || separator then false else plus)
    else if c == b'.'
    then (if separator then false else dot)
    else if c == b'-' || is_digit c || leb b'a' c && leb c b'z'
    then other
    else false

-- `cut_suffix` makes the first character `-` or `+`.
unfoldable pub valid_suffix : Bytes → Bool
unfolding suffix_rest
valid_suffix [] = false
valid_suffix (c ∷ []) = false
valid_suffix (c ∷ d ∷ s) = suffix_rest (c == b'+') true (d ∷ s)

-- The checks of the components once the suffix is cut off.
unfoldable pub release_line_of : Bool → Bytes × List Bytes → Result Error Bytes
unfolding version_number itoa
release_line_of has_suffix (a, []) = err invalid_flink_version
release_line_of true (a, b ∷ []) = err invalid_flink_version
release_line_of false (a, b ∷ []) = do
  major ← version_number a
  minor ← version_number b
  ok (itoa major ++ b'.' ∷ itoa minor)
release_line_of has_suffix (a, b ∷ c ∷ []) = do
  major ← version_number a
  minor ← version_number b
  _ ← version_number c
  ok (itoa major ++ b'.' ∷ itoa minor)
release_line_of has_suffix (a, b ∷ c ∷ d ∷ parts) = err invalid_flink_version

unfoldable pub parse_core : Bytes × Option Bytes → Result Error Bytes
unfolding release_line_of split_dots valid_suffix
parse_core (core, none) = release_line_of false (split_dots core)
parse_core (core, some suffix) = do
  guard (valid_suffix suffix) invalid_flink_version
  release_line_of true (split_dots core)

unfoldable pub parse_flink_release_line : Bytes → Result Error Bytes
unfolding trim_space to_lower cut_suffix parse_core
parse_flink_release_line value =
    parse_core (cut_suffix (trim_prefix_v (to_lower (trim_space value))))
