-- ===== src/Go/Space.antt =====
-- strings.TrimSpace and bytes.TrimSpace: white space as unicode.IsSpace has it, in its UTF-8 form of
-- one, two or three bytes.
use mathlib.Core.List.{reverse}
use flink_sql_go.Prelude.{ℕ, Bool, true, false, ◌&&◌, ◌||◌, [], ◌∷◌, Bytes, leb, ◌==◌}

abbrev pub is_space1 : ℕ → Bool
is_space1 a = leb 9 a && leb a 13 || a == 32

-- U+0085, U+00A0
abbrev pub is_space2 : ℕ → ℕ → Bool
is_space2 a b = a == 0xC2 && (b == 0x85 || b == 0xA0)

-- U+1680, U+2000 to U+200A, U+2028, U+2029, U+202F, U+205F, U+3000
abbrev pub is_space3 : ℕ → ℕ → ℕ → Bool
is_space3 a b c =
    a == 0xE1 && b == 0x9A && c == 0x80
    || a == 0xE2 && b == 0x80 && (leb 0x80 c && leb c 0x8A || c == 0xA8 || c == 0xA9 || c == 0xAF)
    || a == 0xE2 && b == 0x81 && c == 0x9F
    || a == 0xE3 && b == 0x80 && c == 0x80

-- Drops white space at the front; the two tests say how the bytes of a character are ordered.
unfoldable pub trim_front : (ℕ → ℕ → Bool) → (ℕ → ℕ → ℕ → Bool) → Bytes → Bytes
trim_front two three [] = []
trim_front two three (a ∷ []) = elim (is_space1 a) [ true ↦ [] | false ↦ a ∷ [] ]
trim_front two three (a ∷ b ∷ []) = elim (is_space1 a) [
  | true ↦ trim_front two three (b ∷ [])
  | false ↦ elim (two a b) [ true ↦ [] | false ↦ a ∷ b ∷ [] ]
]
trim_front two three (a ∷ b ∷ c ∷ s) = elim (is_space1 a) [
  | true ↦ trim_front two three (b ∷ c ∷ s)
  | false ↦ elim (two a b) [
    | true ↦ trim_front two three (c ∷ s)
    | false ↦ elim (three a b c) [ true ↦ trim_front two three s | false ↦ a ∷ b ∷ c ∷ s ]
  ]
]

unfoldable pub trim_left : Bytes → Bytes
unfolding trim_front
trim_left = trim_front is_space2 is_space3

unfoldable pub trim_right : Bytes → Bytes
unfolding trim_front
trim_right s = reverse (trim_front (λ b a. is_space2 a b) (λ c b a. is_space3 a b c) (reverse s))

unfoldable pub trim_space : Bytes → Bytes
unfolding trim_left trim_right
trim_space s = trim_right (trim_left s)

abbrev pub is_empty : Bytes → Bool
is_empty [] = true
is_empty (c ∷ s) = false
