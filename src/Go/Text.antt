-- ===== src/Go/Text.antt =====
-- strings.ToLower, TrimPrefix, Split at a dot and IndexAny, and strconv.Atoi on a 64-bit int.
use flink_sql_go.Prelude.{
  ℕ, zero, suc, ◌+◌, ◌-◌, ◌*◌, ◌^◌, Bool, true, false, ◌&&◌, ◌||◌, List, [], ◌∷◌, ◌++◌, Option,
  none, some, Bytes, ltb, leb, ◌==◌, if◌then◌else◌, ℤ, pos, negsuc,
}

abbrev pub lower_byte : ℕ → ℕ
lower_byte c = if leb b'A' c && leb c b'Z' then c + 32 else c

-- In its ASCII part exact: U+212A and U+0130 are the characters outside ASCII whose lower case is in
-- it. All others stay outside ASCII, and are left as they are.
unfoldable pub to_lower : Bytes → Bytes
to_lower [] = []
to_lower (a ∷ []) = lower_byte a ∷ []
to_lower (a ∷ b ∷ []) = elim (a == 0xC4 && b == 0xB0) [
  | true ↦ b'i' ∷ []
  | false ↦ lower_byte a ∷ to_lower (b ∷ [])
]
to_lower (a ∷ b ∷ c ∷ s) = elim (a == 0xC4 && b == 0xB0) [
  | true ↦ b'i' ∷ to_lower (c ∷ s)
  | false ↦ elim (a == 0xE2 && b == 0x84 && c == 0xAA) [
    | true ↦ b'k' ∷ to_lower s
    | false ↦ lower_byte a ∷ to_lower (b ∷ c ∷ s)
  ]
]

abbrev pub trim_prefix_v : Bytes → Bytes
trim_prefix_v [] = []
trim_prefix_v (c ∷ s) = if c == b'v' then s else c ∷ s

-- The parts of strings.Split(s, "."), the first of them apart.
unfoldable pub split_dots : Bytes → Bytes × List Bytes
split_dots [] = ([], [])
split_dots (c ∷ s) =
    let (part, parts) = split_dots s in if c == b'.' then ([], part ∷ parts) else (c ∷ part, parts)

-- The text before the first `-` or `+`, and what begins with it.
unfoldable pub cut_suffix : Bytes → Bytes × Option Bytes
cut_suffix [] = ([], none)
cut_suffix (c ∷ s) =
    let (core, suffix) = cut_suffix s in
    if c == b'-' || c == b'+' then ([], some (c ∷ s)) else (c ∷ core, suffix)

abbrev pub is_digit : ℕ → Bool
is_digit c = leb b'0' c && leb c b'9'

unfoldable pub digits_from : ℕ → Bytes → Option ℕ
digits_from n [] = some n
digits_from n (c ∷ s) =
    let rest = digits_from (n * 10 + (c - 48)) s in if is_digit c then rest else none

unfoldable pub unsigned : Bytes → Option ℕ
unfolding digits_from
unsigned [] = none
unsigned (c ∷ s) = digits_from 0 (c ∷ s)

-- The value that Atoi returns, and whether it reports no error: the value is 0 where the text is no
-- number, and the nearest int where the number is out of range.
unfoldable pub atoi_unsigned : Bool → Bytes → ℤ × Bool
unfolding unsigned
atoi_unsigned negative s = elim (unsigned s) [
  | none ↦ (pos 0, false)
  | some n ↦
      if negative
      then (if leb n (2 ^ 63) then (neg n, true) else (neg (2 ^ 63), false))
      else if ltb n (2 ^ 63)
      then (pos n, true)
      else (pos (2 ^ 63 - 1), false)
]
  where
    neg : ℕ → ℤ
    neg zero = pos zero
    neg (suc n) = negsuc n

unfoldable pub atoi : Bytes → ℤ × Bool
unfolding atoi_unsigned
atoi [] = (pos 0, false)
atoi (c ∷ s) =
    if c == b'-'
    then atoi_unsigned true s
    else if c == b'+'
    then atoi_unsigned false s
    else atoi_unsigned false (c ∷ s)

-- What strings.EqualFold compares where one side is ASCII: U+212A and U+017F are the characters outside ASCII
-- that it takes for one in it.
unfoldable pub fold_ascii : Bytes → Bytes
fold_ascii [] = []
fold_ascii (a ∷ []) = lower_byte a ∷ []
fold_ascii (a ∷ b ∷ []) = elim (a == 0xC5 && b == 0xBF) [
  | true ↦ b's' ∷ []
  | false ↦ lower_byte a ∷ fold_ascii (b ∷ [])
]
fold_ascii (a ∷ b ∷ c ∷ s) = elim (a == 0xC5 && b == 0xBF) [
  | true ↦ b's' ∷ fold_ascii (c ∷ s)
  | false ↦ elim (a == 0xE2 && b == 0x84 && c == 0xAA) [
    | true ↦ b'k' ∷ fold_ascii s
    | false ↦ lower_byte a ∷ fold_ascii (b ∷ c ∷ s)
  ]
]

-- strings.Join
abbrev pub join : Bytes → List Bytes → Bytes
join separator [] = []
join separator (s ∷ []) = s
join separator (s ∷ t ∷ ts) = s ++ (separator ++ join separator (t ∷ ts))
