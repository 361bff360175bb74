-- ===== src/Transport/Message.antt =====
-- What an error message of the server may show: `redactServerMessage` and `sanitizeServerMessage`.
use flink_sql_go.Prelude.{
  ℕ, zero, suc, ◌-◌, Bool, true, false, ◌||◌, List, [], ◌∷◌, ◌++◌, Bytes, ltb, leb, ◌==◌, length,
  take, if◌then◌else◌, codes, bytes_eq,
}
use flink_sql_go.Prelude.Members.{member}
use flink_sql_go.Go.Space.{trim_space, is_empty}
use flink_sql_go.Go.Utf8.{valid_string}
use flink_sql_go.Transport.Replace.{replace_all, stars}

pub record Redaction : Type 0 where
  pub fragments : List Bytes
  pub redact_all : Bool

-- The fragments that are not empty, each where it first stands.
unfoldable pub distinct_fragments : List Bytes → List Bytes → List Bytes
distinct_fragments seen [] = []
distinct_fragments seen (f ∷ fs) =
    if is_empty f || member f seen
    then distinct_fragments seen fs
    else f ∷ distinct_fragments (f ∷ seen) fs

-- A longer fragment comes first. The source leaves open how fragments of the same length are ordered.
unfoldable pub insert_longest : Bytes → List Bytes → List Bytes
insert_longest f [] = f ∷ []
insert_longest f (g ∷ gs) =
    if leb (length g) (length f) then f ∷ g ∷ gs else g ∷ insert_longest f gs

unfoldable pub sort_longest : List Bytes → List Bytes
unfolding insert_longest
sort_longest [] = []
sort_longest (f ∷ fs) = insert_longest f (sort_longest fs)

unfoldable pub replace_each : List Bytes → Bytes → Bytes
replace_each [] message = message
replace_each (f ∷ fs) message = replace_each fs (replace_all f message)

unfoldable pub redact_server_message : Bytes → Redaction → Bytes
redact_server_message message r =
    if is_empty message
    then []
    else if r.redact_all
    then stars
    else replace_each (sort_longest (distinct_fragments [] r.fragments)) message

abbrev pub replacement : Bytes
replacement = 0xEF ∷ 0xBF ∷ 0xBD ∷ []

-- The length of the character that the text begins with: 0 if it is not valid.
abbrev pub rune_length : Bytes → ℕ
rune_length s =
    if valid_string (take 1 s)
    then 1
    else if valid_string (take 2 s)
    then 2
    else if valid_string (take 3 s)
    then 3
    else if valid_string (take 4 s)
    then 4
    else 0

-- strings.ToValidUTF8: a run of bytes that are not valid gives one replacement. The number is how
-- many bytes of a character are still to be copied, the flag whether the run has begun.
unfoldable pub to_valid_from : ℕ → Bool → Bytes → Bytes
to_valid_from n run [] = []
to_valid_from (suc n) run (x ∷ s) = x ∷ to_valid_from n false s
to_valid_from zero run (x ∷ s) =
    let n = rune_length (x ∷ s) in
    let valid = x ∷ to_valid_from (n - 1) false s in
    let invalid = (if run then [] else replacement) ++ to_valid_from zero true s in
    if n == 0 then invalid else valid

unfoldable pub to_valid_utf8 : Bytes → Bytes
to_valid_utf8 s = to_valid_from zero false s

-- The text before the first line feed or carriage return.
unfoldable pub first_line : Bytes → Bytes
first_line [] = []
first_line (x ∷ s) = if x == 10 || x == 13 then [] else x ∷ first_line s

abbrev pub max_exposed_error_bytes : ℕ
max_exposed_error_bytes = 512

-- The longest valid beginning of at most so many bytes.
unfoldable pub valid_limit : ℕ → Bytes → ℕ
unfolding valid_string
valid_limit zero s = zero
valid_limit (suc n) s =
    let shorter = valid_limit n s in if valid_string (take (suc n) s) then suc n else shorter

unfoldable pub limit_message : Bytes → Bytes
unfolding valid_limit
limit_message s =
    if ltb max_exposed_error_bytes (length s)
    then take (valid_limit max_exposed_error_bytes s) s ++ codes "..."
    else s

unfoldable pub sanitize_server_message : Bytes → Bytes
unfolding to_valid_utf8 trim_space first_line limit_message
sanitize_server_message message = limit_message (first_line (trim_space (to_valid_utf8 message)))
