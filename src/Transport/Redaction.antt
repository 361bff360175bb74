-- ===== src/Transport/Redaction.antt =====
-- transport.go: what a redacted and a sanitized message may show.
use flink_sql_go.Prelude.{
  ℕ, zero, suc, ◌≤◌, ◌<◌, ◌≡◌, refl, sym, ap, ◌∙◌, Bool, true, false, not, ◌&&◌, ◌||◌, List, [],
  ◌∷◌, ◌++◌, Bytes, bytes_eq, bytes_beq_iff, ltb, ==_iff, length, take, if_both, Bool-cases, subst,
  inl, inr, codes, arith, ◌==◌,
}
use flink_sql_go.Prelude.Members.{member}
use flink_sql_go.Go.Space.{trim_space, is_empty}
use flink_sql_go.Transport.Replace.{
  contains, has_prefix, replace_all, is_plain, stars, contains-replace_plain, contains-replace_all,
}
use flink_sql_go.Transport.Message.{
  Redaction, distinct_fragments, insert_longest, sort_longest, replace_each, redact_server_message,
  first_line, valid_limit, limit_message, sanitize_server_message, to_valid_utf8,
  max_exposed_error_bytes,
}

member-distinct_fragments :
    (f : Bytes) (seen fs : List Bytes)
    → is_empty f ≡ false
    → member f fs ≡ true
    → member f seen ≡ false
    → member f (distinct_fragments seen fs) ≡ true
unfolding member distinct_fragments
member-distinct_fragments f seen [] e h n = h
member-distinct_fragments f seen (g ∷ fs) e h n = ground (
  arith,
  Bool-cases (member g seen),
  bytes_beq_iff g f,
  member-distinct_fragments f seen fs e,
  member-distinct_fragments f (g ∷ seen) fs e,
)

member-insert_longest :
    (f g : Bytes) (gs : List Bytes) → member f (insert_longest g gs) ≡ member f (g ∷ gs)
unfolding member insert_longest
member-insert_longest f g [] = refl
member-insert_longest f g (h ∷ gs) = ground (arith, member-insert_longest f g gs)

member-sort_longest : (f : Bytes) (fs : List Bytes) → member f (sort_longest fs) ≡ member f fs
unfolding member sort_longest
member-sort_longest f [] = refl
member-sort_longest f (g ∷ gs) =
    ground (arith, member-insert_longest f g (sort_longest gs), member-sort_longest f gs)

contains-replace_each :
    (f : Bytes) (fs : List Bytes) (m : Bytes)
    → is_plain f ≡ true
    → contains f m ≡ false
    → contains f (replace_each fs m) ≡ false
unfolding replace_each
contains-replace_each f [] m h e = e
contains-replace_each f (g ∷ fs) m h e =
    contains-replace_each f fs (replace_all g m) h (contains-replace_plain g f m h e)

contains-replace_member :
    (f : Bytes) (fs : List Bytes) (m : Bytes)
    → is_plain f ≡ true
    → member f fs ≡ true
    → contains f (replace_each fs m) ≡ false
unfolding member replace_each
contains-replace_member f [] m h e = cc
contains-replace_member f (g ∷ fs) m h e = elim (Bool-cases (member f fs)) [
  | inl later ↦ contains-replace_member f fs (replace_all g m) h later
  | inr never ↦
      let same : g ≡ f = ground (arith, e, never, bytes_beq_iff g f) in
      contains-replace_each f fs (replace_all g m) h
        (subst (λ p. contains f (replace_all p m) ≡ false) (sym same) (contains-replace_all f m h))
]

contains-plain_stars : (f : Bytes) → is_plain f ≡ true → contains f stars ≡ false
unfolding contains has_prefix
contains-plain_stars [] h = ground (arith, h)
contains-plain_stars (c ∷ f) h = ground (arith, ==_iff c b'*')

-- A fragment that has a character, and none of the stars that replace it, does not stand anywhere in the
-- redacted message.
pub contains-redact_server_message :
    (f m : Bytes) (r : Redaction)
    → is_plain f ≡ true
    → member f r.fragments ≡ true
    → contains f (redact_server_message m r) ≡ false
unfolding redact_server_message contains has_prefix member
contains-redact_server_message [] m r h e = ground (arith, h)
contains-redact_server_message (c ∷ f) m r h e =
    if_both (λ t. contains (c ∷ f) t ≡ false) (is_empty m) (λ empty. refl)
      (λ text.
        if_both (λ t. contains (c ∷ f) t ≡ false) r.redact_all
          (λ all. contains-plain_stars (c ∷ f) h)
          (λ each.
            contains-replace_member (c ∷ f) (sort_longest (distinct_fragments [] r.fragments)) m h (
              member-sort_longest (c ∷ f) (distinct_fragments [] r.fragments)
              ∙ member-distinct_fragments (c ∷ f) [] r.fragments refl e refl)))

-- No line ends in the text.
unfoldable pub is_one_line : Bytes → Bool
is_one_line [] = true
is_one_line (x ∷ s) = not (x == 10 || x == 13) && is_one_line s

one_line-append : (s t : Bytes) → is_one_line (s ++ t) ≡ (is_one_line s && is_one_line t)
unfolding is_one_line
one_line-append [] t = refl
one_line-append (x ∷ s) t = ground (arith, one_line-append s t)

one_line-take : (n : ℕ) (s : Bytes) → is_one_line s ≡ true → is_one_line (take n s) ≡ true
unfolding is_one_line
one_line-take zero s h = refl
one_line-take (suc n) [] h = refl
one_line-take (suc n) (x ∷ s) h = ground (arith, one_line-take n s)

one_line-first_line : (s : Bytes) → is_one_line (first_line s) ≡ true
unfolding is_one_line first_line
one_line-first_line [] = refl
one_line-first_line (x ∷ s) = ground (arith, one_line-first_line s)

valid_limit_le : (n : ℕ) (s : Bytes) → valid_limit n s ≤ n
unfolding valid_limit
valid_limit_le zero s = omega arith
valid_limit_le (suc n) s = ground (arith, valid_limit_le n s)

-- What a line is shown as: itself if it has at most 512 bytes, and otherwise a prefix of it that has, with the three
-- bytes of an ellipsis behind it.
pub data IsShown (s : Bytes) : Bytes → Type 0 where
  whole : length s ≤ 512 → IsShown s s
  cut_off : (n : ℕ) → n ≤ 512 → 512 < length s → IsShown s (take n s ++ codes "...")

limit_message-bounds :
    (s : Bytes)
    → is_one_line s ≡ true
    → (is_one_line (limit_message s) ≡ true) × IsShown s (limit_message s)
unfolding is_one_line limit_message
limit_message-bounds s h =
    let cut = take (valid_limit max_exposed_error_bytes s) s in
    if_both (λ t. (is_one_line t ≡ true) × IsShown s t) (ltb max_exposed_error_bytes (length s))
      (λ long. (
        one_line-append cut (codes "...")
            ∙ ap (λ b. b && is_one_line (codes "..."))
                (one_line-take (valid_limit max_exposed_error_bytes s) s h),
        cut_off (valid_limit max_exposed_error_bytes s) (valid_limit_le max_exposed_error_bytes s)
            (ground (arith, long)),
      ))
      (λ short. (h, whole (ground (arith, short))))

-- A sanitized message has one line: the first of the message, if it has at most 512 bytes, and otherwise a prefix of it
-- that has, with the three bytes of an ellipsis behind it.
pub sanitize_server_message-bounds :
    (m : Bytes)
    → (is_one_line (sanitize_server_message m) ≡ true)
      × IsShown (first_line (trim_space (to_valid_utf8 m))) (sanitize_server_message m)
unfolding sanitize_server_message
sanitize_server_message-bounds m =
    limit_message-bounds (first_line (trim_space (to_valid_utf8 m)))
      (one_line-first_line (trim_space (to_valid_utf8 m)))
