-- ===== src/Setup/Completion.antt =====
-- When a setup is complete, and what happens to the session of one that is not.
use flink_sql_go.Prelude.{
  ◌≡◌, refl, ap, ◌∙◌, Bool, true, false, not, ◌&&◌, ◌||◌, List, [], ◌∷◌, Option, none, some,
  is_some, Bytes, arith, ok, Option-cases, if◌then◌else◌,
}
use flink_sql_go.Setup.Plan.{Plan, CompiledStep, Unicode}
use flink_sql_go.Setup.Compile.{compile_plan}
use flink_sql_go.Setup.Apply.{
  SetupResult, SetupError, Options, Environment, new_result, update, fail_setup, apply_steps,
  requires_verification, verify_step, verify_steps, apply_setup, completed, then_verify, clean_up,
  mark_applied, mark_verified,
}
use flink_sql_go.Setup.Expected.{first_failure}
use flink_sql_go.Setup.Outcome.{apply_steps-outcome, Answer-cases}

-- Every step that has to be verified is found as it should be.
abbrev pub all_verified : Environment → Options → List CompiledStep → Bool
all_verified env options [] = true
all_verified env options (s ∷ ss) =
    (not (requires_verification s options) || not (is_some (verify_step env options s)))
    && all_verified env options ss

apply_steps_open :
    (env : Environment) (steps : List CompiledStep) (r : SetupResult)
    → (apply_steps env steps r).0.complete ≡ r.complete
unfolding apply_steps fail_setup
apply_steps_open env [] r = refl
apply_steps_open env (s ∷ ss) r = ground (
  arith,
  Answer-cases (env.configure s),
  apply_steps_open env ss (record r { steps = update s.index mark_applied r.steps }),
)

verify_steps-verified :
    (env : Environment) (options : Options) (steps : List CompiledStep) (r : SetupResult)
    → (is_some (verify_steps env options steps r).1 ≡ not (all_verified env options steps))
      × ((verify_steps env options steps r).0.complete ≡ r.complete)
unfolding verify_steps fail_setup
verify_steps-verified env options [] r = (refl, refl)
verify_steps-verified env options (s ∷ ss) r = ground (
  arith,
  Option-cases (verify_step env options s),
  verify_steps-verified env options ss r,
  verify_steps-verified env options ss (record r { steps = update s.index mark_verified r.steps }),
)

completed_lem :
    (out : SetupResult × Option SetupError) (good : Bool)
    → is_some out.1 ≡ not good
    → out.0.complete ≡ false
    → ((completed out).0.complete ≡ good) × (is_some (completed out).1 ≡ not good)
completed_lem (r, none) true e h = (refl, refl)
completed_lem (r, none) false e h = cc
completed_lem (r, some x) true e h = cc
completed_lem (r, some x) false e h = (h, refl)

then_verify-complete :
    (env : Environment) (options : Options) (steps : List CompiledStep)
    (out : SetupResult × Option SetupError)
    → out.0.complete ≡ false
    → ((then_verify env options steps out).0.complete
        ≡ (not (is_some out.1) && all_verified env options steps))
      × (is_some (then_verify env options steps out).1
          ≡ not (not (is_some out.1) && all_verified env options steps))
then_verify-complete env options steps (r, some e) h = (h, refl)
then_verify-complete env options steps (r, none) h =
    let (verified, same) = verify_steps-verified env options steps r in
    completed_lem (verify_steps env options steps r) (all_verified env options steps) verified
      (same ∙ h)

new_result_open :
    (handle : Bytes) (steps : List CompiledStep) → (new_result handle steps).complete ≡ false
unfolding new_result
new_result_open handle steps = refl

-- A setup of a plan that compiled, once it has the session's gate, is complete exactly if every step is
-- accepted and every step that has to be verified is found; and it reports an error exactly if it is
-- not complete. Then the session that was opened for it is closed, where closing succeeds and the
-- session is not to be kept; a complete setup keeps its session.
pub apply_setup-complete :
    (u : Unicode) (p : Plan) (env : Environment) (options : Options) (handle : Bytes)
    (steps : List CompiledStep) (closes : Bool)
    → compile_plan u p ≡ ok steps
    → let good = not (is_some (first_failure 0 env steps)) && all_verified env options steps in
      let out = apply_setup env options true handle steps in
      (out.0.complete ≡ good)
      × (is_some out.1 ≡ not good)
      × ((clean_up options closes out).0.session_closed
          ≡ (if good || options.keep_session then out.0.session_closed else closes))
unfolding apply_setup clean_up
apply_setup-complete u p env options handle steps closes e =
    let first = apply_steps env steps (new_result handle steps) in
    let reported = (apply_steps-outcome u p env handle steps e).2 in
    let (a, b) =
      then_verify-complete env options steps first
        (apply_steps_open env steps (new_result handle steps) ∙ new_result_open handle steps) in
    let same = ap (λ x. not x && all_verified env options steps) reported in
    (a ∙ same, b ∙ ap not same, closed (then_verify env options steps first) _ (b ∙ ap not same))
  where
    closed :
        (out : SetupResult × Option SetupError) (good : Bool)
        → is_some out.1 ≡ not good
        → (clean_up options closes out).0.session_closed
          ≡ (if good || options.keep_session then out.0.session_closed else closes)
    closed (r, none) true h = refl
    closed (r, none) false h = cc
    closed (r, some x) true h = cc
    closed (r, some x) false h = ground arith
