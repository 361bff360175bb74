-- ===== src/Transport/Path.antt =====
-- What a path of the gateway shows: `sanitizeEndpointPath` and `knownSessionInPath`.
use mathlib.Core.List.{reverse}
use flink_sql_go.Prelude.{
  ℕ, ◌+◌, ◌-◌, ◌*◌, Bool, false, ◌&&◌, ◌||◌, List, [], ◌∷◌, ◌++◌, Option, none, some, Bytes, leb,
  ◌==◌, bytes_beq, if◌then◌else◌, codes,
}
use flink_sql_go.Session.Handle.{mask_handle}
use flink_sql_go.Transport.Replace.{stars}

-- strings.Split at a slash, the first part apart.
unfoldable pub split_slashes : Bytes → Bytes × List Bytes
split_slashes [] = ([], [])
split_slashes (c ∷ s) =
    let (part, parts) = split_slashes s in
    if c == b'/' then ([], part ∷ parts) else (c ∷ part, parts)

unfoldable pub join_slashes : Bytes → List Bytes → Bytes
join_slashes part [] = part
join_slashes part (next ∷ parts) = part ++ b'/' ∷ join_slashes next parts

abbrev hex_digit : ℕ → Option ℕ
hex_digit c =
    if leb b'0' c && leb c b'9'
    then some (c - b'0')
    else if leb b'a' c && leb c b'f'
    then some (c - b'a' + 10)
    else if leb b'A' c && leb c b'F'
    then some (c - b'A' + 10)
    else none

abbrev cons_byte : Option ℕ → Option ℕ → Option Bytes → Option Bytes
cons_byte (some high) (some low) (some s) = some ((high * 16 + low) ∷ s)
cons_byte _ _ _ = none

-- url.PathUnescape: `none` for a percent sign that two hexadecimal digits do not follow.
unfoldable pub path_unescape : Bytes → Option Bytes
path_unescape [] = some []
path_unescape (a ∷ []) = if a == b'%' then none else some (a ∷ [])
path_unescape (a ∷ b ∷ []) =
    let rest = path_unescape (b ∷ []) in
    if a == b'%' then none else elim rest [ none ↦ none | some s ↦ some (a ∷ s) ]
path_unescape (a ∷ b ∷ c ∷ s) =
    let escaped = cons_byte (hex_digit b) (hex_digit c) (path_unescape s) in
    let plain = path_unescape (b ∷ c ∷ s) in
    if a == b'%' then escaped else elim plain [ none ↦ none | some t ↦ some (a ∷ t) ]

abbrev pub mask_part : Bytes → Bytes
mask_part part = elim (path_unescape part) [ none ↦ stars | some handle ↦ mask_handle handle ]

-- The part before is the one that is shown.
unfoldable pub mask_parts : Bytes → List Bytes → List Bytes
unfolding path_unescape mask_handle
mask_parts before [] = []
mask_parts before (part ∷ parts) =
    let shown =
      if bytes_beq before (codes "sessions") || bytes_beq before (codes "operations")
      then mask_part part
      else part in
    shown ∷ mask_parts shown parts

unfoldable pub sanitize_endpoint_path : Bytes → Bytes
unfolding split_slashes mask_parts join_slashes
sanitize_endpoint_path path =
    let (part, parts) = split_slashes path in join_slashes part (mask_parts part parts)

-- strings.Trim of slashes before the split.
unfoldable pub trim_slashes : Bytes → Bytes
trim_slashes [] = []
trim_slashes (c ∷ s) = let rest = trim_slashes s in if c == b'/' then rest else c ∷ s

unfoldable pub session_in_parts : Bytes → List Bytes → Option Bytes
session_in_parts part [] = none
session_in_parts part (next ∷ parts) =
    let later = session_in_parts next parts in
    if bytes_beq part (codes "sessions") then path_unescape next else later

-- `knownSessionInPath`; the test says whether the client holds the session.
unfoldable pub known_session_in_path : (Bytes → Bool) → Bytes → Bool
unfolding trim_slashes split_slashes session_in_parts
known_session_in_path known path =
    let (part, parts) = split_slashes (reverse (trim_slashes (reverse (trim_slashes path)))) in
    elim (session_in_parts part parts) [ none ↦ false | some handle ↦ known handle ]
