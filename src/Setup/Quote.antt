-- ===== src/Setup/Quote.antt =====
-- `QuoteIdentifier` (metadata.go) and `quoteStringLiteral`, and a reader of quoted text for them.
use flink_sql_go.Prelude.{
  ℕ, ◌≡◌, refl, sym, ap, subst, ◌∙◌, inl, inr, Bool-cases, Bool, false, [], ◌∷◌, ◌++◌, Option, none,
  some, Bytes, ◌==◌, ==_iff, if◌then◌else◌, arith,
}
use flink_sql_go.Go.Space.{trim_space, is_empty}

-- strings.ReplaceAll of one byte by two of it.
unfoldable pub double : ℕ → Bytes → Bytes
double q [] = []
double q (c ∷ s) = let rest = double q s in if c == q then q ∷ q ∷ rest else c ∷ rest

unfoldable pub quote : ℕ → Bytes → Bytes
unfolding double
quote q s = q ∷ double q s ++ q ∷ []

unfoldable pub quote_identifier : Bytes → Option Bytes
unfolding quote
quote_identifier s = if is_empty (trim_space s) then none else some (quote b'`' s)

unfoldable pub quote_string_literal : Bytes → Bytes
unfolding quote
quote_string_literal s = quote 39 s

abbrev prepend : ℕ → Option (Bytes × Bytes) → Option (Bytes × Bytes)
prepend c none = none
prepend c (some (s, rest)) = some (c ∷ s, rest)

-- What SQL takes as the text of a quoted name or literal, behind its opening quote, and what follows
-- it: a doubled quote stands for one, a single quote ends the text.
unfoldable pub read_quoted : ℕ → Bytes → Option (Bytes × Bytes)
read_quoted q [] = none
read_quoted q (c ∷ []) = if c == q then some ([], []) else none
read_quoted q (c ∷ d ∷ s) =
    let inside = prepend c (read_quoted q (d ∷ s)) in
    let pair = prepend q (read_quoted q s) in
    if c == q then (if d == q then pair else some ([], d ∷ s)) else inside

-- The text that follows does not start with the quote.
abbrev pub starts_with : ℕ → Bytes → Bool
starts_with q [] = false
starts_with q (c ∷ s) = c == q

read_end :
    (q : ℕ) (rest : Bytes) → starts_with q rest ≡ false → read_quoted q (q ∷ rest) ≡ some ([], rest)
unfolding read_quoted
read_end q [] h = ground (arith, ==_iff q q)
read_end q (c ∷ rest) h = ground (arith, ==_iff q q)

read_pair : (q : ℕ) (s : Bytes) → read_quoted q (q ∷ q ∷ s) ≡ prepend q (read_quoted q s)
unfolding read_quoted
read_pair q s = ground (arith, ==_iff q q)

read_inside :
    (q c : ℕ) (s : Bytes) (r : Bytes × Bytes)
    → (c == q) ≡ false
    → read_quoted q s ≡ some r
    → read_quoted q (c ∷ s) ≡ some (c ∷ r.0, r.1)
unfolding read_quoted
read_inside q c [] r h e = cc
read_inside q c (d ∷ s) r h e = rw (h, e) refl

read-double :
    (q : ℕ) (s rest : Bytes)
    → starts_with q rest ≡ false
    → read_quoted q (double q s ++ q ∷ rest) ≡ some (s, rest)
unfolding double
read-double q [] rest h = read_end q rest h
read-double q (c ∷ s) rest h = elim (Bool-cases (c == q)) [
  | inl same ↦ rw same (
      read_pair q (double q s ++ q ∷ rest)
      ∙ ap (prepend q) (read-double q s rest h)
      ∙ ap (λ d. some (d ∷ s, rest)) (sym ((==_iff c q).0 same)))
  | inr differs ↦
      rw differs
        (read_inside q c (double q s ++ q ∷ rest) (s, rest) differs (read-double q s rest h))
]

-- Reads a quoted text with its opening quote.
unfoldable pub unquote : ℕ → Bytes → Option (Bytes × Bytes)
unfolding read_quoted
unquote q [] = none
unquote q (c ∷ s) = if c == q then read_quoted q s else none

append_assoc : (a : Bytes) (q : ℕ) (rest : Bytes) → (a ++ q ∷ []) ++ rest ≡ a ++ q ∷ rest
append_assoc [] q rest = refl
append_assoc (c ∷ a) q rest = ap (λ s. c ∷ s) (append_assoc a q rest)

pub unquote-quote :
    (q : ℕ) (s rest : Bytes)
    → starts_with q rest ≡ false
    → unquote q (quote q s ++ rest) ≡ some (s, rest)
unfolding unquote quote
unquote-quote q s rest h =
    rw ((==_iff q q).1 refl)
      (ap (read_quoted q) (append_assoc (double q s) q rest) ∙ read-double q s rest h)

-- Whatever text follows, SQL reads a quoted literal as the value and a quoted identifier as the name,
-- and stops behind it: no value or name can end its own quotes, where what follows does not start
-- with a quote itself.
pub unquote-quoted :
    (s rest : Bytes)
    → starts_with 39 rest ≡ false
    → starts_with b'`' rest ≡ false
    → (unquote 39 (quote_string_literal s ++ rest) ≡ some (s, rest))
      × ((name : Bytes)
          → quote_identifier s ≡ some name
          → unquote b'`' (name ++ rest) ≡ some (s, rest))
unfolding quote_string_literal quote_identifier
unquote-quoted s rest h k = (
  unquote-quote 39 s rest h,
  λ name e.
      subst (λ n. unquote b'`' (n ++ rest) ≡ some (s, rest)) (named name e)
        (unquote-quote b'`' s rest k),
)
  where
    named : (name : Bytes) → quote_identifier s ≡ some name → quote b'`' s ≡ name
    named name e = ground arith
