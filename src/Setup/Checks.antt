-- ===== src/Setup/Checks.antt =====
-- The checks of names, definitions and option keys in session_setup_compile.go.
use flink_sql_go.Prelude.{
  ℕ, zero, suc, Bool, true, false, not, ◌&&◌, ◌||◌, List, [], ◌∷◌, ◌++◌, Bytes, bytes_eq, bytes_beq,
  codes, ◌==◌, length, take, drop, if◌then◌else◌, Result, ok, err, ◌>>=◌, ◌>>◌, guard,
}
use flink_sql_go.Prelude.Members.{member}
use flink_sql_go.Go.Space.{trim_space, is_empty, is_space1, is_space2, is_space3}
use flink_sql_go.Go.Utf8.{valid_string}
use flink_sql_go.Session.Handle.{HandleError, check_text}
use flink_sql_go.Setup.Quote.{double}
use flink_sql_go.Setup.Plan.{
  TableSetup, PlanError, not_utf8_text, empty_sensitive_key, invalid_sensitive_key,
  definition_required, not_a_definition, bad_identifier, Unicode,
}

abbrev max_identifier_bytes : ℕ
max_identifier_bytes = 1024

abbrev pub as_plan_error : Result HandleError (Unit {0}) → Result PlanError (Unit {0})
as_plan_error (ok u) = ok tt
as_plan_error (err e) = err (bad_identifier e)

unfoldable pub validate_identifier : Bytes → Result PlanError (Unit {0})
validate_identifier value = as_plan_error (check_text max_identifier_bytes value)

-- strings.Fields: the first field of a text that starts with none of white space.
unfoldable pub first_field : Bytes → Bytes
first_field [] = []
first_field (a ∷ []) = if is_space1 a then [] else a ∷ []
first_field (a ∷ b ∷ []) =
    let rest = a ∷ first_field (b ∷ []) in if is_space1 a || is_space2 a b then [] else rest
first_field (a ∷ b ∷ c ∷ s) =
    let rest = a ∷ first_field (b ∷ c ∷ s) in
    if is_space1 a || is_space2 a b || is_space3 a b c then [] else rest

unfoldable pub definition_words : List Bytes
definition_words =
    codes "COMMENT"
    ∷ codes "PARTITIONED"
    ∷ codes "DISTRIBUTED"
    ∷ codes "WITH"
    ∷ codes "LIKE"
    ∷ codes "AS"
    ∷ []

abbrev pub starts_with_paren : Bytes → Bool
starts_with_paren [] = false
starts_with_paren (c ∷ s) = c == b'('

unfoldable pub validate_table : Unicode → TableSetup → Result PlanError (Unit {0})
unfolding definition_words
validate_table u t = do
  validate_identifier t.target.catalog
  validate_identifier t.target.database
  validate_identifier t.target.object
  let definition = trim_space t.statement
  guard (not (is_empty definition)) definition_required
  guard (valid_string definition) not_utf8_text
  guard (starts_with_paren definition || member (u.upper (first_field definition)) definition_words)
      not_a_definition

-- The characters of a text, each by its bytes. A byte that starts no character is one for itself.
unfoldable pub character_length : Bytes → ℕ
character_length s =
    if valid_string (take 1 s)
    then 1
    else if valid_string (take 2 s)
    then 2
    else if valid_string (take 3 s)
    then 3
    else if valid_string (take 4 s)
    then 4
    else 1

-- On fuel: each round takes at least a byte, so the length of the text is enough.
unfoldable pub characters : ℕ → Bytes → List Bytes
unfolding character_length
characters zero s = []
characters (suc fuel) [] = []
characters (suc fuel) (c ∷ s) =
    let n = character_length (c ∷ s) in take n (c ∷ s) ∷ characters fuel (drop n (c ∷ s))

abbrev pub keep_words : Unicode → List Bytes → Bytes
keep_words u [] = []
keep_words u (c ∷ cs) =
    let rest = keep_words u cs in if u.is_word c && valid_string c then c ++ rest else rest

unfoldable pub normalize_sensitive_key : Unicode → Bytes → Bytes
unfolding characters
normalize_sensitive_key u key =
    let text = u.lower key in keep_words u (characters (length text) text)

unfoldable pub compile_sensitive_keys : Unicode → List Bytes → Result PlanError (List Bytes)
compile_sensitive_keys u [] = ok []
compile_sensitive_keys u (key ∷ keys) = do
  guard (not (is_empty (trim_space key))) empty_sensitive_key
  let normalized = normalize_sensitive_key u key
  guard (not (is_empty normalized)) invalid_sensitive_key
  rest ← compile_sensitive_keys u keys
  ok (normalized ∷ rest)

-- strings.Contains.
abbrev pub has_prefix : Bytes → Bytes → Bool
has_prefix [] s = true
has_prefix (c ∷ p) [] = false
has_prefix (c ∷ p) (d ∷ s) = c == d && has_prefix p s

unfoldable pub contains_text : Bytes → Bytes → Bool
contains_text [] p = is_empty p
contains_text (c ∷ s) p = has_prefix p (c ∷ s) || contains_text s p

unfoldable pub contains_any : Bytes → List Bytes → Bool
unfolding contains_text
contains_any text [] = false
contains_any text (m ∷ ms) = (not (is_empty m) && contains_text text m) || contains_any text ms

unfoldable pub is_sensitive_key : Unicode → Bytes → List Bytes → Bool
unfolding contains_any
is_sensitive_key u key custom =
    let normalized = normalize_sensitive_key u key in
    contains_any normalized (
      codes "password"
      ∷ codes "secret"
      ∷ codes "token"
      ∷ codes "accesskey"
      ∷ codes "secretkey"
      ∷ [])
    || contains_any normalized custom

unfoldable pub value_variants : Bytes → List Bytes
unfolding double
value_variants [] = []
value_variants (c ∷ s) =
    let escaped = double 39 (c ∷ s) in
    if bytes_beq escaped (c ∷ s) then (c ∷ s) ∷ [] else (c ∷ s) ∷ escaped ∷ []
