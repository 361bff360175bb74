-- ===== src/Setup/Entry.antt =====
-- `ApplySessionSetup` and `OpenSessionWithSetup` from their first check on. What opening and closing the session come to, and
-- whether its gate is acquired, are arguments.
use flink_sql_go.Prelude.{
  Bool, true, false, not, ◌||◌, List, Option, none, some, Bytes, ℤ, pos, negsuc, Result, ok, err,
  guard, ◌>>=◌, ◌>>◌,
}
use flink_sql_go.Session.Handle.{HandleError, validate_opaque_handle}
use flink_sql_go.Compatibility.Profile.{Error}
use flink_sql_go.Compatibility.Check.{Settings, Answers, Checked, compatibility_for_capability}
use flink_sql_go.Setup.Plan.{Plan, PlanError, CompiledStep, Unicode}
use flink_sql_go.Setup.Compile.{compile_plan}
use flink_sql_go.Setup.Apply.{Environment, Options, SetupResult, SetupError, apply_setup, clean_up}

pub data EntryError : Type 0 where
  bad_plan : PlanError → EntryError
  bad_options not_opened : EntryError
  bad_session : HandleError → EntryError
  not_compatible : Error → EntryError

-- The two times of the options.
pub record Times : Type 0 where
  pub execution_timeout : ℤ
  pub cleanup_timeout : ℤ

abbrev is_negative : ℤ → Bool
is_negative (pos n) = false
is_negative (negsuc n) = true

unfoldable pub check_times : Times → Result EntryError (Unit {0})
check_times t =
    guard (not (is_negative t.execution_timeout || is_negative t.cleanup_timeout)) bad_options

unfoldable pub compiled_for : Unicode → Plan → Times → Result EntryError (List CompiledStep)
unfolding compile_plan check_times
compiled_for u plan t = do
  steps ← (elim (compile_plan u plan) [ err e ↦ err (bad_plan e) | ok steps ↦ ok steps ])
  check_times t
  ok steps

abbrev checked_handle : Bytes → Result EntryError (Unit {0})
checked_handle handle = elim (validate_opaque_handle handle) [
  | err e ↦ err (bad_session e)
  | ok u ↦ ok tt
]

abbrev pub Outcome : Type 0
Outcome = SetupResult × Option SetupError

-- Behind the check of what the server offers.
abbrev pub offered :
    Settings
    → Answers
    → Checked
    → (List CompiledStep → Result EntryError Outcome)
    → Result EntryError (List CompiledStep)
    → Checked × Result EntryError Outcome
offered s a c apply (err e) = (c, err e)
offered s a c apply (ok steps) =
    let (c', info) = compatibility_for_capability s a (λ k. k.configure_session) c in
    (c', elim info [ err e ↦ err (not_compatible e) | ok i ↦ apply steps ])

unfoldable pub apply_session_setup :
    Unicode
    → Settings
    → Answers
    → Environment
    → Options
    → Times
    → Bool
    → Bytes
    → Plan
    → Checked
    → Checked × Result EntryError Outcome
unfolding compiled_for validate_opaque_handle compatibility_for_capability apply_setup
apply_session_setup u s a env options t acquired handle plan c =
    offered s a c (λ steps. ok (apply_setup env options acquired handle steps))
      (do steps ← compiled_for u plan t; checked_handle handle; ok steps)

abbrev opened_with :
    Environment
    → Options
    → Bool
    → Bool
    → Option Bytes
    → List CompiledStep
    → Result EntryError Outcome
opened_with env options acquired closes none steps = err not_opened
opened_with env options acquired closes (some handle) steps =
    ok (clean_up options closes (apply_setup env options acquired handle steps))

unfoldable pub open_session_with_setup :
    Unicode
    → Settings
    → Answers
    → Environment
    → Options
    → Times
    → Bool
    → Bool
    → Option Bytes
    → Plan
    → Checked
    → Checked × Result EntryError Outcome
unfolding compiled_for compatibility_for_capability apply_setup clean_up
open_session_with_setup u s a env options t acquired closes opened plan c =
    offered s a c (opened_with env options acquired closes opened) (compiled_for u plan t)
