-- ===== src/Setup/Examples.antt =====
-- Tests of the setup compiler and of applying a setup, and their theorems at concrete plans.
use flink_sql_go.Prelude.{
  ◌≡◌, refl, true, false, not, ◌&&◌, ◌||◌, List, [], ◌∷◌, ◌++◌, map, some, is_some, Bytes, bytes_eq,
  codes, ok, err, bytes_beq, ◌==◌, if◌then◌else◌,
}
use flink_sql_go.Prelude.Members.{member, is_distinct}
use flink_sql_go.Go.Space.{trim_space}
use flink_sql_go.Go.Utf8.{valid_string, has_control}
use flink_sql_go.Session.Handle.{check_text}
use flink_sql_go.Setup.Quote.{
  double, quote, quote_identifier, quote_string_literal, unquote, unquote-quoted,
}
use flink_sql_go.Setup.Plan.{Plan, CompiledStep, Unicode}
use flink_sql_go.Setup.Checks.{
  validate_identifier, validate_table, first_field, compile_sensitive_keys, normalize_sensitive_key,
  is_sensitive_key, value_variants,
}
use flink_sql_go.Setup.Compile.{
  sort_options, check_options, compile_options, qualified_target, append_step, compile_catalog,
  compile_catalogs, compile_database, compile_databases, compile_table, compile_tables, use_catalog,
  use_database, compile_plan, database_key, table_key,
}
use flink_sql_go.Setup.Numbering.{shape, number}
use flink_sql_go.Setup.Shape.{plan_shapes, compile_plan-shape}
use flink_sql_go.Setup.Apply.{
  Options, Environment, accepted, unknown, new_result, update, any_touched, may_remain, fail_setup,
  apply_steps, requires_verification, verify_step, verify_steps, apply_setup, clean_up,
}
use flink_sql_go.Setup.Expected.{step_answer, expected, first_failure}
use flink_sql_go.Setup.Outcome.{apply_steps-outcome}
use flink_sql_go.Setup.Completion.{all_verified, apply_setup-complete}

program : Unit {0}
unfolding trim_space valid_string has_control check_text member is_distinct double quote
    quote_identifier quote_string_literal unquote validate_identifier validate_table first_field
    compile_sensitive_keys normalize_sensitive_key is_sensitive_key value_variants sort_options
    check_options compile_options qualified_target append_step compile_catalog compile_catalogs
    compile_database compile_databases compile_table compile_tables use_catalog use_database
    compile_plan new_result update any_touched may_remain fail_setup apply_steps
    requires_verification verify_step verify_steps apply_setup clean_up step_answer
program = tt

-- Texts in ASCII whose letters are small.
abbrev ascii : Unicode
ascii = record { lower = λ s. s; upper = λ s. s; is_word = λ c. not (bytes_beq c (codes "-")) }

plan : Plan
plan = record {
  catalogs =
      record {
        name = codes "c";
        if_not_exists = true;
        options = (codes "type", codes "x") ∷ (codes "api-password", codes "p'q") ∷ [];
        sensitive_keys = [];
      }
      ∷ [];
  databases =
      record { catalog = codes "c"; name = codes "d`"; if_not_exists = false; options = [] } ∷ [];
  tables = [];
  current_catalog = codes "c";
  current_database = [];
}

abbrev statements : List CompiledStep → List Bytes
statements = map (λ s. s.statement)

steps : List CompiledStep
unfolding program plan
steps = elim (compile_plan ascii plan) [ ok s ↦ s | err e ↦ [] ]

compiled : compile_plan ascii plan ≡ ok steps
unfolding program plan steps
compiled = refl

statements_example :
    statements steps
    ≡ codes "CREATE CATALOG IF NOT EXISTS `c` WITH ('api-password' = 'p''q', 'type' = 'x')"
      ∷ codes "CREATE DATABASE `c`.`d```"
      ∷ codes "USE CATALOG `c`"
      ∷ []
unfolding program plan steps
statements_example = refl

unquote-quoted_example :
    (unquote 39 (quote_string_literal (codes "p'q") ++ codes ")") ≡ some (codes "p'q", codes ")"))
    × ((name : Bytes)
        → quote_identifier (codes "p'q") ≡ some name
        → unquote b'`' (name ++ codes ")") ≡ some (codes "p'q", codes ")"))
unquote-quoted_example = unquote-quoted (codes "p'q") (codes ")") refl refl

compile_plan-shape_example :
    (map shape steps ≡ number 0 (plan_shapes plan))
    × (is_distinct (map (λ c. c.name) plan.catalogs) ≡ true)
    × (is_distinct (map database_key plan.databases) ≡ true)
    × (is_distinct (map table_key plan.tables) ≡ true)
compile_plan-shape_example = compile_plan-shape ascii plan steps compiled

-- The second request has an unknown outcome.
abbrev environment : Environment
environment = record {
  validates = λ s. true;
  configure = λ s. if s.index == 1 then unknown else accepted;
  catalogs = some (codes "c" ∷ []);
  databases = λ c. some (codes "d`" ∷ []);
  tables = λ c d. some [];
  views = λ c d. some [];
  describes = λ t. true;
}

failure_example : first_failure 0 environment steps ≡ some 1
unfolding program plan steps
failure_example = refl

apply_steps-outcome_example :
    let (r, e) = apply_steps environment steps (new_result (codes "h") steps) in
    (r.steps ≡ expected environment steps)
    × (r.failed_index ≡ first_failure 0 environment steps)
    × (is_some e ≡ is_some (first_failure 0 environment steps))
    × (r.changes_may_remain
        ≡ (is_some (first_failure 0 environment steps) && any_touched (expected environment steps)))
apply_steps-outcome_example = apply_steps-outcome ascii plan environment (codes "h") steps compiled

abbrev options : Options
options = record { verify_metadata = true; verify_table_schema = false; keep_session = false }

apply_setup-complete_example :
    let good =
      not (is_some (first_failure 0 environment steps)) && all_verified environment options steps in
    let out = apply_setup environment options true (codes "h") steps in
    (out.0.complete ≡ good)
    × (is_some out.1 ≡ not good)
    × ((clean_up options true out).0.session_closed
        ≡ (if good || options.keep_session then out.0.session_closed else true))
apply_setup-complete_example =
    apply_setup-complete ascii plan environment options (codes "h") steps true compiled
