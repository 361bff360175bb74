-- ===== src/Session/Cache.antt =====
-- The bounded memory of closed sessions: `closed` and `closed_order` hold the same handles.
use flink_sql_go.Prelude.{
  ◌+◌, ◌≤◌, ◌≡◌, refl, sym, ◌∙◌, subst, inl, inr, true, false, ◌&&◌, ◌||◌, not, List, [], ◌∷◌, ◌++◌,
  Bytes, bytes_eq, bytes_beq_iff, ◌=?◌, leb, leb→le, length, length-append, if◌then◌else◌,
  Bool-cases, arith,
}
use flink_sql_go.Prelude.Assoc.{insert, delete, has, lookup-insert, lookup-delete}
use flink_sql_go.Prelude.Members.{
  member, is_distinct, member-append, distinct-append, member-remove, distinct-remove,
  length-remove,
}
use flink_sql_go.Session.State.{
  Sessions, max_remembered, trim_closed, remember_closed, forget_closed,
}

-- The two lists of closed handles agree, repeat nothing, and are bounded.
pub record IsCache (closed : List (Bytes × Unit {0})) (order : List Bytes) : Type 0 where
  pub agree : (h : Bytes) → has h closed ≡ member h order
  pub distinct : is_distinct order ≡ true
  pub bounded : length order ≤ max_remembered

unfoldable pub IsValid : Sessions → Type 0
IsValid c = IsCache c.closed c.closed_order

pub has-insert :
    {V : Type 0} (k j : Bytes) (v : V) (m : List (Bytes × V))
    → has j (insert k v m) ≡ ((k =? j) || has j m)
has-insert k j v m = ground (arith, lookup-insert k j v m)

pub has-delete :
    {V : Type 0} (k j : Bytes) (m : List (Bytes × V))
    → has j (delete k m) ≡ (has j m && not (k =? j))
has-delete k j m = ground (arith, lookup-delete k j m)

insert-IsCache :
    (h : Bytes) (closed : List (Bytes × Unit {0})) (order : List Bytes)
    → IsCache closed order
    → has h closed ≡ false
    → ((j : Bytes) → has j (insert h tt closed) ≡ member j (order ++ h ∷ []))
      × (is_distinct (order ++ h ∷ []) ≡ true)
      × (length (order ++ h ∷ []) ≤ max_remembered + 1)
unfolding member
insert-IsCache h closed order v fresh = (
  λ j. has-insert h j tt closed ∙ ground (arith, v.agree j, member-append j order (h ∷ [])),
  distinct-append order h v.distinct (sym (v.agree h) ∙ fresh),
  ground (arith, v.bounded, length-append order (h ∷ [])),
)

oldest-IsCache :
    (closed : List (Bytes × Unit {0})) (h : Bytes) (order : List Bytes)
    → ((j : Bytes) → has j closed ≡ member j (h ∷ order))
    → is_distinct (h ∷ order) ≡ true
    → length (h ∷ order) ≤ max_remembered + 1
    → IsCache (delete h closed) order
unfolding member is_distinct
oldest-IsCache closed h order agree distinct bound = record {
  agree = λ j. has-delete h j closed ∙ ground (arith, agree j, bytes_beq_iff h j);
  distinct = ground arith;
  bounded = omega (arith, bound);
}

trim-IsValid :
    (c : Sessions) (closed : List (Bytes × Unit {0})) (order : List Bytes)
    → ((j : Bytes) → has j closed ≡ member j order)
    → is_distinct order ≡ true
    → length order ≤ max_remembered + 1
    → IsValid (trim_closed (record c { closed = closed; closed_order = order }))
unfolding IsValid
trim-IsValid c closed [] agree distinct bound = record {
  agree = agree;
  distinct = distinct;
  bounded = omega arith;
}
trim-IsValid c closed (h ∷ order) agree distinct bound =
    elim (Bool-cases (leb (length (h ∷ order)) max_remembered)) [
      | inl fits ↦ rw fits (record {
        agree = agree;
        distinct = distinct;
        bounded = leb→le (length (h ∷ order)) max_remembered fits;
      })
      | inr full ↦ rw full (oldest-IsCache closed h order agree distinct bound)
    ]

pub remember_closed-IsValid : (h : Bytes) (c : Sessions) → IsValid c → IsValid (remember_closed h c)
unfolding remember_closed IsValid
remember_closed-IsValid h c v = elim (Bool-cases (has h c.closed)) [
  | inl known ↦ rw known v
  | inr fresh ↦
      let (agree, distinct, bound) = insert-IsCache h c.closed c.closed_order v fresh in
      rw fresh
        (trim-IsValid c (insert h tt c.closed) (c.closed_order ++ h ∷ []) agree distinct bound)
]

pub forget_closed-IsValid : (h : Bytes) (c : Sessions) → IsValid c → IsValid (forget_closed h c)
unfolding forget_closed IsValid
forget_closed-IsValid h c v = elim (Bool-cases (has h c.closed)) [
  | inl known ↦ rw known (record {
    agree = λ j.
        has-delete h j c.closed
        ∙ ground (arith, v.agree j, member-remove h j c.closed_order v.distinct);
    distinct = distinct-remove h c.closed_order v.distinct;
    bounded = ground (arith, v.agree h, v.bounded, length-remove h c.closed_order);
  })
  | inr fresh ↦ rw fresh v
]

has-trim :
    (c : Sessions) (closed : List (Bytes × Unit {0})) (oldest : Bytes) (rest : List Bytes)
    (j : Bytes)
    → has j (trim_closed (record c { closed = closed; closed_order = oldest ∷ rest })).closed ≡ (
        if leb (length (oldest ∷ rest)) max_remembered
        then has j closed
        else has j closed && not (oldest =? j))
has-trim c closed oldest rest j = elim (Bool-cases (leb (length (oldest ∷ rest)) max_remembered)) [
  | inl fits ↦ rw fits refl
  | inr full ↦ rw full (has-delete oldest j closed)
]

-- What is remembered once a new handle is: with room for it, all that was and the handle; without
-- room, all that but the oldest.
pub has-remember :
    (h j : Bytes) (c : Sessions) (oldest : Bytes) (rest : List Bytes)
    → has h c.closed ≡ false
    → c.closed_order ≡ oldest ∷ rest
    → has j (remember_closed h c).closed ≡ (
        if leb (length c.closed_order + 1) max_remembered
        then (h =? j) || has j c.closed
        else ((h =? j) || has j c.closed) && not (oldest =? j))
unfolding remember_closed
has-remember h j c oldest rest fresh e = rw fresh (
    subst
      (λ order.
        has j
          (trim_closed
            (record c { closed = insert h tt c.closed; closed_order = order ++ h ∷ [] })).closed
        ≡ (if leb (length order + 1) max_remembered
            then (h =? j) || has j c.closed
            else ((h =? j) || has j c.closed) && not (oldest =? j)))
      (sym e)
      (has-trim c (insert h tt c.closed) oldest (rest ++ h ∷ []) j
        ∙ ground (arith, has-insert h j tt c.closed, length-append rest (h ∷ []))))
