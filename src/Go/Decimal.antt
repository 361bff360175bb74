-- ===== src/Go/Decimal.antt =====
-- strconv.Itoa on numbers that are not negative.
pub mod Reading
use flink_sql_go.Prelude.{ℕ, zero, suc, ◌+◌, ◌/◌, ◌%◌, [], ◌∷◌, Bytes, ltb, if◌then◌else◌}

unfoldable pub itoa_from : ℕ → ℕ → Bytes → Bytes
itoa_from zero n acc = acc
itoa_from (suc fuel) n acc =
    let rest = itoa_from fuel (n / 10) ((48 + n % 10) ∷ acc) in
    if ltb n 10 then (48 + n) ∷ acc else rest

-- The fuel n + 1 is more than the number of digits.
unfoldable pub itoa : ℕ → Bytes
unfolding itoa_from
itoa n = itoa_from (suc n) n []
