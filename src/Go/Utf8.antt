-- ===== src/Go/Utf8.antt =====
-- utf8.ValidString, and unicode.IsControl over the characters of a valid string.
use flink_sql_go.Prelude.{
  ℕ, ◌-◌, Bool, false, ◌&&◌, ◌||◌, [], ◌∷◌, Option, none, some, Bytes, leb, ◌==◌, if◌then◌else◌,
}

-- How many bytes the character still needs, and the range that the next of them has.
pub record Pending : Type 0 where
  pub need : ℕ
  pub low : ℕ
  pub high : ℕ

abbrev pub at_start : Pending
at_start = record { need = 0; low = 0x80; high = 0xBF }

abbrev tails : ℕ → ℕ → ℕ → Option Pending
tails need low high = some (record { need = need; low = low; high = high })

abbrev first_byte : ℕ → Option Pending
first_byte c =
    if leb c 0x7F
    then some at_start
    else if leb 0xC2 c && leb c 0xDF
    then tails 1 0x80 0xBF
    else if c == 0xE0
    then tails 2 0xA0 0xBF
    else if c == 0xED
    then tails 2 0x80 0x9F
    else if leb 0xE1 c && leb c 0xEF
    then tails 2 0x80 0xBF
    else if c == 0xF0
    then tails 3 0x90 0xBF
    else if leb 0xF1 c && leb c 0xF3
    then tails 3 0x80 0xBF
    else if c == 0xF4
    then tails 3 0x80 0x8F
    else none

abbrev next_byte : Pending → ℕ → Option Pending
next_byte p c =
    if p.need == 0
    then first_byte c
    else if leb p.low c && leb c p.high
    then tails (p.need - 1) 0x80 0xBF
    else none

unfoldable pub valid_from : Pending → Bytes → Bool
valid_from p [] = p.need == 0
valid_from p (c ∷ s) = elim (next_byte p c) [ none ↦ false | some q ↦ valid_from q s ]

unfoldable pub valid_string : Bytes → Bool
unfolding valid_from
valid_string s = valid_from at_start s

-- U+0000 to U+001F, U+007F to U+009F.
unfoldable pub has_control : Bytes → Bool
has_control [] = false
has_control (a ∷ []) = leb a 0x1F || a == 0x7F
has_control (a ∷ b ∷ s) =
    leb a 0x1F || a == 0x7F || a == 0xC2 && leb 0x80 b && leb b 0x9F || has_control (b ∷ s)
