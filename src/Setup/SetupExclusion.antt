-- ===== src/Setup/SetupExclusion.antt =====
-- The gate of a session's setup over every interleaving of its callers.
use flink_sql_go.Prelude.{
  ℕ, suc, ◌+◌, ◌-◌, ◌≤◌, ◌<◌, ◌≡◌, refl, subst, true, false, Option, none, some, ltb, ltb→lt, not,
  ◌&&◌, is_some, ◌==◌, if◌then◌else◌, if_both, ==_iff, arith,
}
use flink_sql_go.Setup.SetupGate.{
  SetupGate, GateWorld, entered, enter_gate, has_token, with_token, release_ref, give_up,
  take_token, put_token, leave_gate, GateStep, enters, gives_up, takes, puts, leaves, closes,
  GateReachable, at_start, one_step,
}

-- The gate is there exactly for those that are in the call, of whom it counts all, and its token is there exactly
-- while none holds it.
abbrev pub IsCounted : Option SetupGate → ℕ → ℕ → ℕ → Type 0
IsCounted none waiting holding leaving = (waiting ≡ 0) × (holding ≡ 0) × (leaving ≡ 0)
IsCounted (some g) waiting holding leaving =
    (g.refs ≡ waiting + holding + leaving) × (0 < g.refs) × (holding ≡ (if g.token then 0 else 1))

released-IsCounted :
    (g : SetupGate) (w h l : ℕ)
    → g.refs ≡ suc (w + h + l)
    → h ≡ (if g.token then 0 else 1)
    → IsCounted (release_ref (some g)) w h l
unfolding release_ref
released-IsCounted g w h l e k =
    if_both (λ o. IsCounted o w h l) (g.refs - 1 == 0)
      (λ last. (
        omega (arith, e, (==_iff (g.refs - 1) 0).0 last),
        omega (arith, e, (==_iff (g.refs - 1) 0).0 last),
        omega (arith, e, (==_iff (g.refs - 1) 0).0 last),
      ))
      (λ more. (omega (arith, e), ground (arith, e, more), k))

entered-IsCounted :
    (g : Option SetupGate) (w h l : ℕ)
    → IsCounted g w h l
    → IsCounted (some (entered g)) (w + 1) h l
entered-IsCounted none w h l (a, b, c) = (omega (arith, a, b, c), omega arith, b)
entered-IsCounted (some g) w h l (e, p, k) = (omega (arith, e), omega arith, k)

gone-IsCounted :
    (g : Option SetupGate) (w h l n : ℕ)
    → IsCounted g w h l
    → w + h + l ≡ suc (n + h)
    → (w' l' : ℕ) → w' + l' ≡ n
    → IsCounted (release_ref g) w' h l'
gone-IsCounted none w h l n (a, b, c) e w' l' f = absurd (omega (arith, a, b, c, e))
gone-IsCounted (some g) w h l n (r, p, k) e w' l' f =
    released-IsCounted g w' h l' (omega (arith, r, e, f)) k

took-IsCounted :
    (g : Option SetupGate) (w h l : ℕ)
    → IsCounted g (suc w) h l
    → has_token g ≡ true
    → IsCounted (with_token false g) w (h + 1) l
took-IsCounted none w h l (a, b, c) t = ground arith
took-IsCounted (some g) w h l (r, p, k) t = (omega (arith, r), p, ground (arith, k, t))

put-IsCounted :
    (g : Option SetupGate) (w h l : ℕ)
    → IsCounted g w (suc h) l
    → has_token g ≡ false
    → IsCounted (with_token true g) w h (l + 1)
put-IsCounted none w h l (a, b, c) t = ground arith
put-IsCounted (some g) w h l (r, p, k) t = (omega (arith, r), p, ground (arith, k, t))

step-IsCounted :
    (w v : GateWorld)
    → GateStep w v
    → IsCounted w.gate w.waiting w.holding w.leaving
    → IsCounted v.gate v.waiting v.holding v.leaving
unfolding enter_gate give_up take_token put_token leave_gate
step-IsCounted w v (enters open_) i = entered-IsCounted w.gate w.waiting w.holding w.leaving i
step-IsCounted w v (gives_up waits) i =
    gone-IsCounted w.gate w.waiting w.holding w.leaving (w.waiting - 1 + w.leaving) i
      (omega (arith, ltb→lt 0 w.waiting waits)) (w.waiting - 1) w.leaving refl
step-IsCounted w v (takes waits token) i =
    took-IsCounted w.gate (w.waiting - 1) w.holding w.leaving
      (subst (λ n. IsCounted w.gate n w.holding w.leaving) (omega (arith, ltb→lt 0 w.waiting waits))
        i)
      token
step-IsCounted w v (puts holds free) i =
    put-IsCounted w.gate w.waiting (w.holding - 1) w.leaving
      (subst (λ n. IsCounted w.gate w.waiting n w.leaving) (omega (arith, ltb→lt 0 w.holding holds))
        i)
      free
step-IsCounted w v (leaves some_leave) i =
    gone-IsCounted w.gate w.waiting w.holding w.leaving (w.waiting + (w.leaving - 1)) i
      (omega (arith, ltb→lt 0 w.leaving some_leave)) w.waiting (w.leaving - 1) refl
step-IsCounted w v closes i = i

reachable-IsCounted :
    (w : GateWorld) → GateReachable w → IsCounted w.gate w.waiting w.holding w.leaving
reachable-IsCounted w at_start = (refl, refl, refl)
reachable-IsCounted w (one_step {w = u} r step) = step-IsCounted u w step (reachable-IsCounted u r)

exclusive_of :
    (g : Option SetupGate) (w h l : ℕ)
    → IsCounted g w h l
    → (h ≤ 1)
      × ((ltb 0 h && has_token g) ≡ false)
      × ((ltb 0 w && h == 0 && not (has_token g)) ≡ false)
      × (is_some g ≡ ltb 0 (w + h + l))
exclusive_of none w h l (a, b, c) =
    (omega (arith, b), ground (arith, b), ground (arith, a), ground (arith, a, b, c))
exclusive_of (some g) w h l (r, p, k) =
    (ground (arith, k), ground (arith, k), ground (arith, k), ground (arith, r, p))

-- However the callers of one session interleave, at most one of them configures it, and that one finds a free
-- place when it puts the token back; the token is never lost, so that a caller that waits while none is at work can go
-- on; and the client keeps a gate exactly while some caller is in the call.
pub reachable-setup_exclusive :
    (w : GateWorld)
    → GateReachable w
    → (w.holding ≤ 1)
      × ((ltb 0 w.holding && has_token w.gate) ≡ false)
      × ((ltb 0 w.waiting && w.holding == 0 && not (has_token w.gate)) ≡ false)
      × (is_some w.gate ≡ ltb 0 (w.waiting + w.holding + w.leaving))
reachable-setup_exclusive w r =
    exclusive_of w.gate w.waiting w.holding w.leaving (reachable-IsCounted w r)
