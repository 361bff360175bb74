-- ===== src/Serialized/Activity.antt =====
-- activity.go: what is under way, counted; and the streams to close. Each method holds the mutex
-- throughout.
use flink_sql_go.Prelude.{
  ℕ, ◌+◌, ◌-◌, Bool, true, false, List, [], ◌∷◌, ◌++◌, nat_eq, ◌==◌, if◌then◌else◌, Result, ok, err,
}
use flink_sql_go.Prelude.Members.{member, remove}

-- `idle` says whether the channel that `wait` reads is closed. A stream is a number.
pub record ActivityGroup : Type 0 where
  pub closed : Bool
  pub active : ℕ
  pub idle : Bool
  pub streams : List ℕ

-- The error that the group was made with.
pub data Closed : Type 0 where
  closed_err : Closed

unfoldable pub new_group : ActivityGroup
new_group = record { closed = false; active = 0; idle = true; streams = [] }

unfoldable pub begin_activity : ActivityGroup → Result Closed ActivityGroup
begin_activity g =
    if g.closed
    then err closed_err
    else ok (record g { active = g.active + 1; idle = if g.active == 0 then false else g.idle })

unfoldable pub end_activity : ActivityGroup → ActivityGroup
end_activity g =
    if g.active == 0
    then g
    else record g { active = g.active - 1; idle = if g.active - 1 == 0 then true else g.idle }

unfoldable pub register_stream : ℕ → ActivityGroup → Result Closed ActivityGroup
unfolding member
register_stream s g =
    if g.closed
    then err closed_err
    else ok (record g { streams = if member s g.streams then g.streams else g.streams ++ s ∷ [] })

unfoldable pub unregister_stream : ℕ → ActivityGroup → ActivityGroup
unfolding remove
unregister_stream s g = record g { streams = remove s g.streams }

-- The group, and the streams that were open.
unfoldable pub stop : ActivityGroup → ActivityGroup × List ℕ
stop g = (record g { closed = true }, g.streams)
