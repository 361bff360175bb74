-- ===== src/Setup/Apply.antt =====
-- `applyCompiledSessionSetup` and what `OpenSessionWithSetup` does behind it. What the validator, the
-- configure requests and the metadata queries answer is an argument.
use flink_sql_go.Prelude.{
  ℕ, zero, suc, Bool, true, false, not, ◌&&◌, ◌||◌, List, [], ◌∷◌, map, Option, none, some, Bytes,
  bytes_eq, get_elem?, if◌then◌else◌,
}
use flink_sql_go.Prelude.Members.{member}
use flink_sql_go.Setup.Plan.{
  Identifier, Kind, catalog_step, database_step, table_step, use_catalog_step, use_database_step,
  CompiledStep,
}

pub record StepResult : Type 0 where
  pub index : ℕ
  pub kind : Kind
  pub target : Identifier
  pub applied : Bool
  pub verified : Bool
  pub outcome_unknown : Bool

-- `failed_index` is `none` where the source has -1.
pub record SetupResult : Type 0 where
  pub session_handle : Bytes
  pub steps : List StepResult
  pub failed_index : Option ℕ
  pub complete : Bool
  pub session_closed : Bool
  pub changes_may_remain : Bool

pub data Cause : Type 0 where
  not_acquired refused_statement failed_request unknown_outcome : Cause
  failed_query not_found is_view : Cause

pub record SetupError : Type 0 where
  pub cause : Cause
  pub failed_index : Option ℕ
  pub outcome_unknown : Bool
  pub close_failed : Bool

pub record Options : Type 0 where
  pub verify_metadata : Bool
  pub verify_table_schema : Bool
  pub keep_session : Bool

-- The answer to a configure request.
pub data Answer : Type 0 where
  accepted failed unknown : Answer

-- `none` is a query that failed.
pub record Environment : Type 0 where
  pub validates : Bytes → Bool
  pub configure : CompiledStep → Answer
  pub catalogs : Option (List Bytes)
  pub databases : Bytes → Option (List Bytes)
  pub tables : Bytes → Bytes → Option (List Bytes)
  pub views : Bytes → Bytes → Option (List Bytes)
  pub describes : Identifier → Bool

abbrev pub fresh : CompiledStep → StepResult
fresh s = record {
  index = s.index;
  kind = s.kind;
  target = s.target;
  applied = false;
  verified = false;
  outcome_unknown = false;
}

unfoldable pub new_result : Bytes → List CompiledStep → SetupResult
new_result handle steps = record {
  session_handle = handle;
  steps = map fresh steps;
  failed_index = none;
  complete = false;
  session_closed = false;
  changes_may_remain = false;
}

unfoldable pub update : ℕ → (StepResult → StepResult) → List StepResult → List StepResult
update i f [] = []
update zero f (x ∷ xs) = f x ∷ xs
update (suc i) f (x ∷ xs) = x ∷ update i f xs

abbrev pub mark_applied : StepResult → StepResult
mark_applied x = record x { applied = true }

abbrev pub mark_unknown : StepResult → StepResult
mark_unknown x = record x { outcome_unknown = true }

abbrev pub mark_verified : StepResult → StepResult
mark_verified x = record x { verified = true }

abbrev pub is_create : Kind → Bool
is_create catalog_step = true
is_create database_step = true
is_create table_step = true
is_create use_catalog_step = false
is_create use_database_step = false

-- A step that created an object, or may have.
abbrev pub touched : StepResult → Bool
touched x = is_create x.kind && (x.applied || x.outcome_unknown)

unfoldable pub any_touched : List StepResult → Bool
any_touched [] = false
any_touched (x ∷ xs) = touched x || any_touched xs

abbrev pub unknown_at : ℕ → List StepResult → Bool
unknown_at i xs = elim (get_elem? xs i) [ none ↦ false | some x ↦ x.outcome_unknown ]

unfoldable pub may_remain : List StepResult → CompiledStep → Bool
unfolding any_touched
may_remain xs s = any_touched xs || (is_create s.kind && unknown_at s.index xs)

-- `failSessionSetup`
unfoldable pub fail_setup : SetupResult → CompiledStep → Cause → SetupResult × Option SetupError
unfolding may_remain
fail_setup r s cause = (
  record r { failed_index = some s.index; changes_may_remain = may_remain r.steps s },
  some (record {
    cause = cause;
    failed_index = some s.index;
    outcome_unknown = unknown_at s.index r.steps;
    close_failed = false;
  }),
)

-- The first loop: every step in order, up to the first that is not accepted.
unfoldable pub apply_steps :
    Environment → List CompiledStep → SetupResult → SetupResult × Option SetupError
apply_steps env [] r = (r, none)
apply_steps env (s ∷ ss) r = elim (env.validates s.statement) [
  | false ↦ fail_setup r s refused_statement
  | true ↦ elim (env.configure s) [
    | accepted ↦ apply_steps env ss (record r { steps = update s.index mark_applied r.steps })
    | failed ↦ fail_setup r s failed_request
    | unknown ↦
        fail_setup (record r { steps = update s.index mark_unknown r.steps }) s unknown_outcome
  ]
]

unfoldable pub requires_verification : CompiledStep → Options → Bool
requires_verification s options = elim s.kind [
  | catalog_step ↦ options.verify_metadata
  | database_step ↦ options.verify_metadata
  | table_step ↦ options.verify_metadata || options.verify_table_schema || s.verify
  | use_catalog_step ↦ false
  | use_database_step ↦ false
]

abbrev pub listed : Option (List Bytes) → Bytes → Option Cause
listed none name = some failed_query
listed (some names) name = if member name names then none else some not_found

abbrev pub table_listed :
    Option (List Bytes) → Option (List Bytes) → Bytes → Bool → Bool → Option Cause
table_listed none views name wanted described = some failed_query
table_listed (some tables) none name wanted described = some failed_query
table_listed (some tables) (some views) name wanted described =
    if member name views
    then some is_view
    else if not (member name tables)
    then some not_found
    else if wanted && not described
    then some failed_query
    else none

-- What is wrong, if anything.
unfoldable pub verify_step : Environment → Options → CompiledStep → Option Cause
unfolding member
verify_step env options s = elim s.kind [
  | catalog_step ↦ listed env.catalogs s.target.catalog
  | database_step ↦ listed (env.databases s.target.catalog) s.target.database
  | table_step ↦
      table_listed (env.tables s.target.catalog s.target.database)
        (env.views s.target.catalog s.target.database) s.target.object options.verify_table_schema
        (env.describes s.target)
  | use_catalog_step ↦ none
  | use_database_step ↦ none
]

-- The second loop.
unfoldable pub verify_steps :
    Environment → Options → List CompiledStep → SetupResult → SetupResult × Option SetupError
verify_steps env options [] r = (r, none)
verify_steps env options (s ∷ ss) r = elim (requires_verification s options) [
  | false ↦ verify_steps env options ss r
  | true ↦ elim (verify_step env options s) [
    | some cause ↦ fail_setup r s cause
    | none ↦ verify_steps env options ss (record r { steps = update s.index mark_verified r.steps })
  ]
]

abbrev pub completed : SetupResult × Option SetupError → SetupResult × Option SetupError
completed (r, none) = (record r { complete = true }, none)
completed (r, some e) = (r, some e)

abbrev pub then_verify :
    Environment
    → Options
    → List CompiledStep
    → SetupResult × Option SetupError
    → SetupResult × Option SetupError
then_verify env options steps (r, none) = completed (verify_steps env options steps r)
then_verify env options steps (r, some e) = (r, some e)

-- `applyCompiledSessionSetup`; the flag says whether the session's gate was acquired.
unfoldable pub apply_setup :
    Environment → Options → Bool → Bytes → List CompiledStep → SetupResult × Option SetupError
apply_setup env options false handle steps = (
  new_result handle steps,
  some (record {
    cause = not_acquired;
    failed_index = none;
    outcome_unknown = false;
    close_failed = false;
  }),
)
apply_setup env options true handle steps =
    then_verify env options steps (apply_steps env steps (new_result handle steps))

-- What `OpenSessionWithSetup` does with the outcome, given whether closing the session succeeds.
unfoldable pub clean_up :
    Options → Bool → SetupResult × Option SetupError → SetupResult × Option SetupError
clean_up options closes (r, none) = (r, none)
clean_up options closes (r, some e) =
    if options.keep_session
    then (r, some e)
    else (record r { session_closed = closes }, some (record e { close_failed = not closes }))
