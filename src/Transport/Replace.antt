-- ===== src/Transport/Replace.antt =====
-- strings.HasPrefix, Contains and ReplaceAll, and which texts a replacement by stars removes.
use flink_sql_go.Prelude.{
  ℕ, zero, suc, ◌-◌, ◌≡◌, refl, ◌∙◌, Bool, true, false, not, ◌&&◌, ◌||◌, [], ◌∷◌, ◌++◌, Bytes, ◌==◌,
  ==_iff, length, if◌then◌else◌, Bool-cases, if_both, arith,
}

unfoldable pub has_prefix : Bytes → Bytes → Bool
has_prefix [] s = true
has_prefix (c ∷ p) [] = false
has_prefix (c ∷ p) (x ∷ s) = c == x && has_prefix p s

unfoldable pub contains : Bytes → Bytes → Bool
contains p [] = has_prefix p []
contains p (x ∷ s) = has_prefix p (x ∷ s) || contains p s

abbrev star : ℕ
star = b'*'

abbrev pub stars : Bytes
stars = star ∷ star ∷ star ∷ star ∷ star ∷ star ∷ star ∷ star ∷ []

-- ReplaceAll of a text that is not empty, by stars, behind so many bytes that a match has used up.
unfoldable pub replace_from : ℕ → Bytes → Bytes → Bytes
unfolding has_prefix
replace_from n p [] = []
replace_from (suc n) p (x ∷ s) = replace_from n p s
replace_from zero p (x ∷ s) =
    let matched = stars ++ replace_from (length p - 1) p s in
    let copied = x ∷ replace_from zero p s in if has_prefix p (x ∷ s) then matched else copied

unfoldable pub replace_all : Bytes → Bytes → Bytes
replace_all p s = replace_from zero p s

-- A text without stars, and not empty.
abbrev has_no_star : Bytes → Bool
has_no_star [] = true
has_no_star (c ∷ s) = not (c == star) && has_no_star s

abbrev pub is_plain : Bytes → Bool
is_plain [] = false
is_plain (c ∷ s) = has_no_star (c ∷ s)

contains-stars :
    (c : ℕ) (g s : Bytes)
    → has_no_star (c ∷ g) ≡ true
    → contains (c ∷ g) (stars ++ s) ≡ contains (c ∷ g) s
unfolding contains has_prefix
contains-stars c g s h = ground (arith, ==_iff c star)

module _ (p : Bytes) where
  -- What the result begins with, the text began with.
  prefix-replace :
      (g s : Bytes)
      → has_no_star g ≡ true
      → has_prefix g (replace_from zero p s) ≡ true
      → has_prefix g s ≡ true
  unfolding has_prefix replace_from
  prefix-replace [] s h e = refl
  prefix-replace (c ∷ g) [] h e = e
  prefix-replace (c ∷ g) (x ∷ s) h e = ground (arith, prefix-replace g s, ==_iff c star, ==_iff c x)

  contains-replace :
      (n : ℕ) (c : ℕ) (g s : Bytes)
      → has_no_star (c ∷ g) ≡ true
      → contains (c ∷ g) (replace_from n p s) ≡ true
      → contains (c ∷ g) s ≡ true
  unfolding contains replace_from has_prefix
  contains-replace n c g [] h e = e
  contains-replace (suc n) c g (x ∷ s) h e = ground (arith, contains-replace n c g s)
  contains-replace zero c g (x ∷ s) h e = ground (
    arith,
    Bool-cases (has_prefix p (x ∷ s)),
    contains-stars c g (replace_from (length p - 1) p s),
    contains-replace (length p - 1) c g s,
    contains-replace zero c g s,
    prefix-replace g s,
    ==_iff c x,
  )

pub contains-replace_plain :
    (p g s : Bytes)
    → is_plain g ≡ true
    → contains g s ≡ false
    → contains g (replace_all p s) ≡ false
unfolding replace_all
contains-replace_plain p [] s h e = ground (arith, h)
contains-replace_plain p (c ∷ g) s h e =
    ground (
      arith,
      Bool-cases (contains (c ∷ g) (replace_from zero p s)),
      contains-replace p zero c g s h,
    )

contains-replace_self :
    (n : ℕ) (c : ℕ) (p s : Bytes)
    → has_no_star (c ∷ p) ≡ true
    → contains (c ∷ p) (replace_from n (c ∷ p) s) ≡ false
unfolding contains replace_from has_prefix
contains-replace_self n c p [] h = refl
contains-replace_self (suc n) c p (x ∷ s) h = contains-replace_self n c p s h
contains-replace_self zero c p (x ∷ s) h =
    if_both (λ t. contains (c ∷ p) t ≡ false) (has_prefix (c ∷ p) (x ∷ s))
      (λ matched.
        contains-stars c p (replace_from (length (c ∷ p) - 1) (c ∷ p) s) h
        ∙ contains-replace_self (length (c ∷ p) - 1) c p s h)
      (λ other. ground (arith, other, prefix-replace (c ∷ p) p s, contains-replace_self zero c p s))

pub contains-replace_all : (p s : Bytes) → is_plain p ≡ true → contains p (replace_all p s) ≡ false
unfolding replace_all
contains-replace_all [] s h = ground (arith, h)
contains-replace_all (c ∷ p) s h = contains-replace_self zero c p s h
