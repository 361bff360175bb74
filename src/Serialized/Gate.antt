-- ===== src/Serialized/Gate.antt =====
-- serialized_session.go: the steps that calls of `execute`, `stream` and `closeLocal` take. The gate is a
-- channel with room for one token.
use flink_sql_go.Prelude.{ℕ, suc, ◌+◌, ◌≡◌, true, false, List, [], ◌∷◌, ◌++◌, nat_eq, ok, err}
use flink_sql_go.Prelude.Members.{member, remove}
use flink_sql_go.Serialized.Activity.{
  ActivityGroup, closed_err, new_group, begin_activity, end_activity, register_stream,
  unregister_stream, stop,
}

-- The tokens in the gate, the group, and the calls by where they are: with the token but not begun,
-- begun, ended but still with the token; and the streams that were returned and whose callback has not run.
pub record World : Type 0 where
  pub tokens : ℕ
  pub group : ActivityGroup
  pub entering : ℕ
  pub running : ℕ
  pub leaving : ℕ
  pub open_streams : List ℕ

unfoldable pub new_world : World
unfolding new_group
new_world = record {
  tokens = 1;
  group = new_group;
  entering = 0;
  running = 0;
  leaving = 0;
  open_streams = [];
}

-- The `onClose` of a stream: it leaves the group, and the token is still to be given back.
unfoldable pub on_close : ℕ → World → World
unfolding unregister_stream end_activity
on_close s w = record w {
  group = end_activity (unregister_stream s w.group);
  leaving = w.leaving + 1;
}

pub data Step : World → World → Type 0 where
  -- A call receives the token.
  takes :
      {w : World} (n : ℕ)
      → w.tokens ≡ suc n
      → Step w (record w { tokens = n; entering = w.entering + 1 })
  -- It finds the session closed, in `acquire` or in `begin`, and gives the token back.
  refuses :
      {w : World} (n : ℕ)
      → w.entering ≡ suc n
      → w.group.closed ≡ true
      → Step w (record w { tokens = w.tokens + 1; entering = n })
  begins :
      {w : World} (n : ℕ) (g : ActivityGroup)
      → w.entering ≡ suc n
      → begin_activity w.group ≡ ok g
      → Step w (record w { group = g; entering = n; running = w.running + 1 })
  -- An execution is over, or a stream could not be started.
  ends :
      {w : World} (n : ℕ)
      → w.running ≡ suc n
      → Step w (record w { group = end_activity w.group; running = n; leaving = w.leaving + 1 })
  -- A stream is started and registered. It is a new one.
  opens :
      {w : World} (n s : ℕ) (g : ActivityGroup)
      → w.running ≡ suc n
      → member s w.open_streams ≡ false
      → register_stream s w.group ≡ ok g
      → Step w (record w { group = g; running = n; open_streams = w.open_streams ++ s ∷ [] })
  -- A stream is started, but the session was closed in the meantime: it is closed at once.
  opens_late :
      {w : World} (n s : ℕ)
      → w.running ≡ suc n
      → member s w.open_streams ≡ false
      → register_stream s w.group ≡ err closed_err
      → Step w (on_close s (record w { running = n }))
  -- The callback of a stream runs, once.
  finishes :
      {w : World} (s : ℕ)
      → member s w.open_streams ≡ true
      → Step w (on_close s (record w { open_streams = remove s w.open_streams }))
  releases :
      {w : World} (n : ℕ)
      → w.leaving ≡ suc n
      → Step w (record w { tokens = w.tokens + 1; leaving = n })
  closes : {w : World} → Step w (record w { group = (stop w.group).0 })

pub data Reachable : World → Type 0 where
  starts : Reachable new_world
  steps : {v w : World} → Reachable v → Step v w → Reachable w
