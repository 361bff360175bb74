-- ===== src/Serialized/Examples.antt =====
-- Tests of the gate on a short run, and its theorems there.
use flink_sql_go.Prelude.{◌+◌, ◌≤◌, ◌≡◌, refl, true, false, [], ◌∷◌, length, ◌==◌}
use flink_sql_go.Prelude.Members.{member, remove}
use flink_sql_go.Serialized.Activity.{
  ActivityGroup, new_group, begin_activity, end_activity, register_stream, unregister_stream, stop,
}
use flink_sql_go.Serialized.Gate.{
  World, new_world, on_close, Step, takes, begins, opens, finishes, Reachable, starts, steps,
}
use flink_sql_go.Serialized.Exclusion.{Reachable-exclusive, Step-closed}

program : Unit {0}
unfolding member remove new_group begin_activity end_activity register_stream unregister_stream stop
    new_world on_close
program = tt

begun : ActivityGroup
begun = record { closed = false; active = 1; idle = false; streams = [] }

registered : ActivityGroup
registered = record { closed = false; active = 1; idle = false; streams = 7 ∷ [] }

streaming : World
streaming = record {
  tokens = 0;
  group = registered;
  entering = 0;
  running = 0;
  leaving = 0;
  open_streams = 7 ∷ [];
}

streaming-Reachable : Reachable streaming
unfolding program begun registered streaming
streaming-Reachable =
    steps (steps (steps starts (takes 0 refl)) (begins 0 begun refl refl))
      (opens 0 7 registered refl refl refl)

Reachable-exclusive_example :
    (streaming.running + length streaming.open_streams ≤ 1)
    × (streaming.tokens + streaming.running + length streaming.open_streams ≤ 1)
    × (streaming.group.idle ≡ (streaming.running + length streaming.open_streams == 0))
    × ((stop streaming.group).1 ≡ streaming.open_streams)
Reachable-exclusive_example = Reachable-exclusive streaming-Reachable

stopped : World
stopped = record streaming { group = (stop streaming.group).0 }

finished : World
finished = on_close 7 (record stopped { open_streams = [] })

stopped-Step : Step stopped finished
unfolding program begun registered streaming stopped finished
stopped-Step = finishes 7 refl

Step-closed_example :
    (finished.group.closed ≡ true) × (finished.group.active ≤ stopped.group.active)
unfolding program stopped
Step-closed_example = Step-closed stopped-Step refl
