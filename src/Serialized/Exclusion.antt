-- ===== src/Serialized/Exclusion.antt =====
-- One execution or stream at a time, and none that begins behind the close.
use flink_sql_go.Prelude.{
  ℕ, ◌+◌, ◌≤◌, ◌≡◌, refl, sym, ap, ◌∙◌, subst, true, false, List, [], ◌∷◌, ◌++◌, nat_eq, ◌==◌,
  length, length-append, arith, ok,
}
use flink_sql_go.Prelude.Members.{member, remove, length-remove}
use flink_sql_go.Serialized.Activity.{
  ActivityGroup, new_group, begin_activity, end_activity, register_stream, unregister_stream, stop,
}
use flink_sql_go.Serialized.Gate.{
  World, new_world, on_close, Step, takes, refuses, begins, ends, opens, opens_late, finishes,
  releases, closes, Reachable, starts, steps,
}

record IsGood (w : World) : Type 0 where
  one : w.tokens + w.entering + w.running + w.leaving + length w.open_streams ≡ 1
  counted : w.group.active ≡ w.running + length w.open_streams
  woken : w.group.idle ≡ (w.group.active == 0)
  listed : w.group.streams ≡ w.open_streams

remove_absent : (s : ℕ) (xs : List ℕ) → member s xs ≡ false → remove s xs ≡ xs
unfolding member remove
remove_absent s [] h = refl
remove_absent s (x ∷ xs) h = ground (arith, remove_absent s xs)

registered :
    (s : ℕ) (g h : ActivityGroup)
    → register_stream s g ≡ ok h
    → member s g.streams ≡ false
    → h.streams ≡ g.streams ++ s ∷ []
unfolding register_stream
registered s g h e fresh = ground arith

streams-end :
    (s : ℕ) (g : ActivityGroup)
    → (end_activity (unregister_stream s g)).streams ≡ remove s g.streams
unfolding end_activity unregister_stream
streams-end s g = ground arith

Step-IsGood : {v w : World} → Step v w → IsGood v → IsGood w
unfolding on_close begin_activity end_activity register_stream unregister_stream stop
Step-IsGood {v = v} (takes n e) g = record {
  one = omega (arith, e, g.one);
  counted = g.counted;
  woken = g.woken;
  listed = g.listed;
}
Step-IsGood {v = v} (refuses n e c) g = record {
  one = omega (arith, e, g.one);
  counted = g.counted;
  woken = g.woken;
  listed = g.listed;
}
Step-IsGood {v = v} (begins n h e b) g = record {
  one = omega (arith, e, g.one);
  counted = ground (arith, g.counted);
  woken = ground (arith, g.woken);
  listed = ground (arith, g.listed);
}
Step-IsGood {v = v} (ends n e) g = record {
  one = omega (arith, e, g.one);
  counted = ground (arith, g.counted);
  woken = ground (arith, g.woken, g.counted);
  listed = ground (arith, g.listed);
}
Step-IsGood {v = v} (opens n s h e fresh b) g = record {
  one = omega (arith, e, g.one, length-append v.open_streams (s ∷ []));
  counted = ground (arith, g.counted, length-append v.open_streams (s ∷ []));
  woken = ground (arith, g.woken);
  listed =
      registered s v.group h b (subst (λ xs. member s xs ≡ false) (sym g.listed) fresh)
      ∙ ap (λ xs. xs ++ s ∷ []) g.listed;
}
Step-IsGood {v = v} (opens_late n s e fresh b) g = record {
  one = omega (arith, e, g.one);
  counted = ground (arith, g.counted);
  woken = ground (arith, g.woken, g.counted);
  listed = streams-end s v.group ∙ ap (remove s) g.listed ∙ remove_absent s v.open_streams fresh;
}
Step-IsGood {v = v} (finishes s there) g = record {
  one = omega (arith, g.one, length-remove s v.open_streams there);
  counted = ground (arith, g.counted, length-remove s v.open_streams there);
  woken = ground (arith, g.woken, g.counted, length-remove s v.open_streams there);
  listed = streams-end s v.group ∙ ap (remove s) g.listed;
}
Step-IsGood {v = v} (releases n e) g = record {
  one = omega (arith, e, g.one);
  counted = g.counted;
  woken = g.woken;
  listed = g.listed;
}
Step-IsGood {v = v} closes g = record {
  one = g.one;
  counted = g.counted;
  woken = g.woken;
  listed = g.listed;
}

Reachable-IsGood : {w : World} → Reachable w → IsGood w
unfolding new_world new_group
Reachable-IsGood starts = record { one = refl; counted = refl; woken = refl; listed = refl }
Reachable-IsGood (steps r s) = Step-IsGood s (Reachable-IsGood r)

-- In every interleaving at most one execution or stream is under way, and none while the token is in the
-- gate; the gate never has to take a second token; `wait` sees the group as idle exactly if nothing is
-- under way; and closing the session closes exactly the streams that are open.
pub Reachable-exclusive :
    {w : World}
    → Reachable w
    → (w.running + length w.open_streams ≤ 1)
      × (w.tokens + w.running + length w.open_streams ≤ 1)
      × (w.group.idle ≡ (w.running + length w.open_streams == 0))
      × ((stop w.group).1 ≡ w.open_streams)
unfolding stop
Reachable-exclusive {w = w} r =
    let g = Reachable-IsGood r in
    (omega (arith, g.one), omega (arith, g.one), g.woken ∙ ap (λ n. n == 0) g.counted, g.listed)

-- Once the session is closed it stays closed, and no step begins an activity: what is under way only
-- comes to an end.
pub Step-closed :
    {v w : World}
    → Step v w
    → v.group.closed ≡ true
    → (w.group.closed ≡ true) × (w.group.active ≤ v.group.active)
unfolding on_close begin_activity end_activity register_stream unregister_stream stop
Step-closed (takes n e) c = (c, omega arith)
Step-closed (refuses n e d) c = (c, omega arith)
Step-closed (begins n g e b) c = ground arith
Step-closed (ends n e) c = ground arith
Step-closed (opens n s g e f b) c = ground arith
Step-closed (opens_late n s e f b) c = ground arith
Step-closed (finishes s there) c = ground arith
Step-closed (releases n e) c = (c, omega arith)
Step-closed closes c = (refl, omega arith)
