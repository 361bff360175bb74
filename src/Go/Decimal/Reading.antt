-- ===== src/Go/Decimal/Reading.antt =====
-- Decimal digits before a colon are read back as the number that was printed.
use flink_sql_go.Prelude.{
  ℕ, zero, suc, ◌+◌, ◌-◌, ◌*◌, ◌/◌, ◌%◌, ◌<◌, ◌≡◌, refl, ap, ◌∙◌, inl, inr, [], ◌∷◌, ◌++◌, Bytes,
  true, false, ltb, ◌==◌, arith, Bool-cases,
}
use flink_sql_go.Go.Decimal.{itoa, itoa_from}

-- The number before the first colon, and what follows the colon.
unfoldable pub read_from : ℕ → Bytes → ℕ × Bytes
read_from n [] = (n, [])
read_from n (d ∷ s) = elim (d == b':') [ true ↦ (n, s) | false ↦ read_from (n * 10 + (d - 48)) s ]

read_from-digit :
    (n d : ℕ) (s : Bytes) → d < 10 → read_from n ((48 + d) ∷ s) ≡ read_from (n * 10 + d) s
unfolding read_from
read_from-digit n d s h = ground (arith, sub_digit d)
  where
    sub_digit : (d : ℕ) → 48 + d - 48 ≡ d
    sub_digit d = omega arith

read_from-itoa_from :
    (fuel n : ℕ) (acc : Bytes) → n < fuel → read_from 0 (itoa_from fuel n acc) ≡ read_from n acc
unfolding itoa_from
read_from-itoa_from zero n acc h = absurd (omega arith)
read_from-itoa_from (suc fuel) n acc h = elim (Bool-cases (ltb n 10)) [
  | inl small ↦
      rw small (read_from-digit 0 n acc (ground arith) ∙ ap (λ k. read_from k acc) (omega arith))
  | inr large ↦ rw large (
      read_from-itoa_from fuel (n / 10) ((48 + n % 10) ∷ acc) (ground arith)
      ∙ read_from-digit (n / 10) (n % 10) acc (omega arith)
      ∙ ap (λ k. read_from k acc) (omega arith))
]

itoa_from-append :
    (fuel n : ℕ) (acc s : Bytes) → itoa_from fuel n acc ++ s ≡ itoa_from fuel n (acc ++ s)
unfolding itoa_from
itoa_from-append zero n acc s = refl
itoa_from-append (suc fuel) n acc s =
    ground (arith, itoa_from-append fuel (n / 10) ((48 + n % 10) ∷ acc) s)

pub read_from-itoa : (n : ℕ) (s : Bytes) → read_from 0 (itoa n ++ b':' ∷ s) ≡ (n, s)
unfolding itoa read_from
read_from-itoa n s =
    ap (read_from 0) (itoa_from-append (suc n) n [] (b':' ∷ s))
    ∙ read_from-itoa_from (suc n) n (b':' ∷ s) (omega arith)
