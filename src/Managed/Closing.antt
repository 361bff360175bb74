-- ===== src/Managed/Closing.antt =====
-- managed_session.go: what the opening of a managed session leaves behind, and the callers of its close.
use flink_sql_go.Prelude.{
  ℕ, ◌+◌, ◌≡◌, Bool, true, ◌||◌, [], ◌∷◌, ◌++◌, Bytes, Bool-cases, arith, Result, ok, err, bytes_eq,
  ◌≤◌, ◌==◌,
}
use flink_sql_go.Managed.Lifecycle.{
  OpenError, Owner, Closing, calls, begin_managed_close, finish_managed_close,
}

-- Either the session is held and managed, or nothing new is managed, nor held if the server takes the close.
pub data IsSettled (c : Owner) (closes : Bool) : Owner × Result OpenError Bytes → Type 0 where
  is_open :
      (handle : Bytes)
      → IsSettled c closes
          (record c { held = c.held ++ handle ∷ []; managed = c.managed ++ handle ∷ [] }, ok handle)
  is_undone :
      (d : Owner) (e : OpenError)
      → d.managed ≡ c.managed
      → (closes ≡ true → d.held ≡ c.held)
      → IsSettled c closes (d, err e)

-- The callers that wait for the request of their close, and whether one of them has succeeded.
record Callers : Type 0 where
  closing : Closing
  owners : ℕ
  succeeded : Bool

data Step : Callers → Callers → Type 0 where
  enters :
      (w : Callers)
      → (begin_managed_close w.closing).1 ≡ calls
      → Step w (record w { closing = (begin_managed_close w.closing).0; owners = w.owners + 1 })
  answers :
      (success : Bool) (n : ℕ) (w : Callers)
      → w.owners ≡ n + 1
      → Step w (record w {
        closing = finish_managed_close success w.closing;
        owners = n;
        succeeded = w.succeeded || success;
      })

-- One caller at most asks the server, and none behind a success.
record IsSingle (w : Callers) : Type 0 where
  at_most_one : w.owners ≤ 1
  calling : w.closing.calling ≡ (w.owners == 1)
  complete : w.closing.complete ≡ w.succeeded
  none_behind : w.succeeded ≡ true → w.owners ≡ 0

-- A step of the callers keeps that one of them at most asks the server to close, and none behind a success.
step-IsSingle : (v w : Callers) → Step v w → IsSingle v → IsSingle w
unfolding begin_managed_close finish_managed_close
step-IsSingle v w (enters u e) g = record {
  at_most_one = ground (
    arith,
    e,
    Bool-cases u.closing.complete,
    Bool-cases u.closing.calling,
    g.calling,
    g.at_most_one,
  );
  calling = ground (
    arith,
    e,
    Bool-cases u.closing.complete,
    Bool-cases u.closing.calling,
    g.calling,
    g.at_most_one,
  );
  complete =
      ground (arith, e, Bool-cases u.closing.complete, Bool-cases u.closing.calling, g.complete);
  none_behind = λ h.
      ground (arith, e, Bool-cases u.closing.complete, Bool-cases u.closing.calling, g.complete, h);
}
step-IsSingle v w (answers success n u e) g = record {
  at_most_one = ground (arith, e, g.at_most_one);
  calling = ground (arith, e, g.at_most_one);
  complete = ground (arith, g.complete);
  none_behind = λ h. ground (arith, e, g.at_most_one);
}
