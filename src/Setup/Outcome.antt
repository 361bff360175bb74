-- ===== src/Setup/Outcome.antt =====
-- What a setup reports: which steps were applied, where it stopped, and what may be left behind.
use flink_sql_go.Prelude.{
  ℕ, suc, ◌≡◌, refl, sym, ap, ◌∙◌, subst, ◌⊎◌, inl, inr, true, false, ◌&&◌, List, [], ◌∷◌, ◌++◌,
  map, none, some, is_some, Bytes, length, Bool-cases, ok,
}
use flink_sql_go.Setup.Plan.{Plan, CompiledStep, Unicode}
use flink_sql_go.Setup.Compile.{compile_plan}
use flink_sql_go.Setup.Numbering.{Shape, shape, number}
use flink_sql_go.Setup.Shape.{plan_shapes, compile_plan-shape}
use flink_sql_go.Setup.Apply.{
  StepResult, SetupResult, Answer, accepted, failed, unknown, Environment, fresh, new_result,
  mark_applied, mark_unknown, any_touched, fail_setup, apply_steps, refused_statement,
  failed_request, unknown_outcome,
}
-- How a step ends: refused or failed steps answer `failed`.
use flink_sql_go.Setup.Expected.{
  step_answer, expected, first_failure, IsNumbered, append_one, length-append_one, failed-IsOutcome,
  update_here, shift-IsOutcome, IsOutcome, apply_refused, apply_failed, apply_unknown,
  apply_accepted,
}

refused_answer :
    (env : Environment) (s : CompiledStep)
    → env.validates s.statement ≡ false
    → step_answer env s ≡ failed
unfolding step_answer
refused_answer env s v = rw (v, step_answer) refl

given_answer :
    (env : Environment) (s : CompiledStep) (a : Answer)
    → env.validates s.statement ≡ true
    → env.configure s ≡ a
    → step_answer env s ≡ a
unfolding step_answer
given_answer env s a v e = rw (v, step_answer) e

expected_failed :
    (env : Environment) (s : CompiledStep) (ss : List CompiledStep) (k : ℕ)
    → step_answer env s ≡ failed
    → (expected env (s ∷ ss) ≡ fresh s ∷ map fresh ss) × (first_failure k env (s ∷ ss) ≡ some k)
expected_failed env s ss k a = rw (a, expected, first_failure) (refl, refl)

expected_unknown :
    (env : Environment) (s : CompiledStep) (ss : List CompiledStep) (k : ℕ)
    → step_answer env s ≡ unknown
    → (expected env (s ∷ ss) ≡ mark_unknown (fresh s) ∷ map fresh ss)
      × (first_failure k env (s ∷ ss) ≡ some k)
expected_unknown env s ss k a = rw (a, expected, first_failure) (refl, refl)

pub Answer-cases : (a : Answer) → (a ≡ accepted) ⊎ (a ≡ failed) ⊎ (a ≡ unknown)
Answer-cases accepted = inl refl
Answer-cases failed = inr (inl refl)
Answer-cases unknown = inr (inr refl)

Valid : Environment → List StepResult → List CompiledStep → SetupResult → Type 0
Valid env done steps r =
    IsOutcome env done steps (apply_steps env steps (record r { steps = done ++ map fresh steps }))

applied-IsOutcome :
    (env : Environment) (steps : List CompiledStep) (done : List StepResult) (r : SetupResult)
    → IsNumbered (length done) steps
    → r.failed_index ≡ none
    → r.changes_may_remain ≡ false
    → Valid env done steps r
unfolding Valid apply_steps
applied-IsOutcome env [] done r n f m = record {
  results = refl;
  failure = f;
  reported = refl;
  remains = m;
}
applied-IsOutcome env (s ∷ ss) done r n f m = elim (Bool-cases (env.validates s.statement)) [
  | inl v ↦ elim (Answer-cases (env.configure s)) [
    | inl a ↦
        subst (λ o. IsOutcome env done (s ∷ ss) o)
          (sym (
            apply_accepted env s ss (record r { steps = done ++ fresh s ∷ map fresh ss }) v a
            ∙ ap (λ xs. apply_steps env ss (record r { steps = xs }))
                (update_here s done mark_applied (map fresh ss) n.0
                  ∙ sym (append_one done (mark_applied (fresh s)) (map fresh ss)))))
          (shift-IsOutcome env s ss done _ (given_answer env s accepted v a) (
            applied-IsOutcome env ss (done ++ mark_applied (fresh s) ∷ []) r
              (subst (λ k. IsNumbered k ss) (sym (length-append_one done (mark_applied (fresh s))))
                n.1)
              f m))
    | inr (inl a) ↦
        let (e, p) = expected_failed env s ss (length done) (given_answer env s failed v a) in
        subst (λ o. IsOutcome env done (s ∷ ss) o)
          (sym (apply_failed env s ss (record r { steps = done ++ fresh s ∷ map fresh ss }) v a))
          (failed-IsOutcome env done (fresh s) (map fresh ss) s ss r failed_request n.0 refl e p)
    | inr (inr a) ↦
        let (e, p) = expected_unknown env s ss (length done) (given_answer env s unknown v a) in
        subst (λ o. IsOutcome env done (s ∷ ss) o)
          (sym (
            apply_unknown env s ss (record r { steps = done ++ fresh s ∷ map fresh ss }) v a
            ∙ ap (λ xs. fail_setup (record r { steps = xs }) s unknown_outcome)
                (update_here s done mark_unknown (map fresh ss) n.0)))
          (failed-IsOutcome env done (mark_unknown (fresh s)) (map fresh ss) s ss r unknown_outcome
            n.0 refl e p)
  ]
  | inr v ↦
      let (e, p) = expected_failed env s ss (length done) (refused_answer env s v) in
      subst (λ o. IsOutcome env done (s ∷ ss) o)
        (sym (apply_refused env s ss (record r { steps = done ++ fresh s ∷ map fresh ss }) v))
        (failed-IsOutcome env done (fresh s) (map fresh ss) s ss r refused_statement n.0 refl e p)
]

number-IsNumbered :
    (k : ℕ) (steps : List CompiledStep) (xs : List Shape)
    → map shape steps ≡ number k xs
    → IsNumbered k steps
number-IsNumbered k [] xs e = tt
number-IsNumbered k (s ∷ ss) [] e = cc
number-IsNumbered k (s ∷ ss) (x ∷ xs) e = (cc, number-IsNumbered (suc k) ss xs cc)

-- For the steps of a plan that compiled, the first loop reports: the steps before the first that is not
-- accepted as applied, that one as unknown if its outcome is, and the steps behind it as not run; the
-- position of that step; an error exactly if there is such a step; and then, that changes may remain
-- exactly if a step that creates an object was applied or has an unknown outcome.
pub apply_steps-outcome :
    (u : Unicode) (p : Plan) (env : Environment) (handle : Bytes) (steps : List CompiledStep)
    → compile_plan u p ≡ ok steps
    → let (r, e) = apply_steps env steps (new_result handle steps) in
      (r.steps ≡ expected env steps)
      × (r.failed_index ≡ first_failure 0 env steps)
      × (is_some e ≡ is_some (first_failure 0 env steps))
      × (r.changes_may_remain
          ≡ (is_some (first_failure 0 env steps) && any_touched (expected env steps)))
unfolding new_result Valid
apply_steps-outcome u p env handle steps e =
    let n = number-IsNumbered 0 steps (plan_shapes p) (compile_plan-shape u p steps e).0 in
    let o = applied-IsOutcome env steps [] (new_result handle steps) n refl refl in
    (o.results, o.failure, o.reported, o.remains)
