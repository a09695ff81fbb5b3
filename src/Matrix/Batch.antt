-- ===== src/Matrix/Batch.antt =====
-- ConnectionPlan.validate_connection and ConnectionPlan.execute of models.py, and the actions of
-- api/views.py on a batch that call them: validate, approve_all and execute, and those on single rows.
-- The cables of Nautobot are a state of their own, and creating one is a parameter: it gives the new
-- cable's key or the text of an exception. `plan.save()` succeeds.
use nautobot_docker_compose.Matrix.Rows.{
  draft, failed, conflict, approved, executed, validated, Interface, ConnectionPlan, PlanStatus,
}
use nautobot_docker_compose.Slots.Profile.{failed}
use nautobot_docker_compose.Base.{
  false, none, ◌==◌, nat_eq, true, list_eq, Bool, ◌++◌, some, Option, if◌then◌else◌, ◌∷◌, map, keep,
  [], List, ℕ, suc, zero,
}
use nautobot_docker_compose.Base.Text.{codes, Text}
use nautobot_docker_compose.Matrix.Validation.{
  collect_row_reserved_interface_ids, validate_plan_row, ValidationResult,
}

pub data BatchStatus : Type 0 where
  pending approved_batch executing completed partial : BatchStatus

pub record Batch : Type 0 where
  pub status : BatchStatus
  pub plans : List ConnectionPlan

pub data Created : Type 0 where
  created : Text → Created
  not_created : Text → Created

-- The counts and the errors that the actions return.
pub record Results : Type 0 where
  pub success_count : ℕ
  pub error_count : ℕ
  pub errors : List (Text × List Text)

abbrev pub no_results : Results
no_results = record { success_count = 0; error_count = 0; errors = [] }

abbrev pub add_success : Results → Results
add_success results = record results { success_count = suc results.success_count }

abbrev pub add_error : Text → List Text → Results → Results
add_error id errors results = record results {
  error_count = suc results.error_count;
  errors = results.errors ++ ((id, errors) ∷ []);
}

-- `status in ["draft", "conflict"]`
unfoldable pub is_unchecked : PlanStatus → Bool
is_unchecked draft = true
is_unchecked conflict = true
is_unchecked _ = false

unfoldable pub is_approved : PlanStatus → Bool
is_approved approved = true
is_approved _ = false

unfoldable pub is_validated : PlanStatus → Bool
is_validated validated = true
is_validated _ = false

unfoldable pub is_executed : PlanStatus → Bool
is_executed executed = true
is_executed _ = false

-- How many rows have such a status: `validated_count`, `executed_count`, and the rows that are approved.
unfoldable pub count_rows : (PlanStatus → Bool) → List ConnectionPlan → ℕ
count_rows test [] = 0
count_rows test (row ∷ rows) =
    let rest = count_rows test rows in if test row.status then suc rest else rest

-- The status after a validation with these errors.
unfoldable pub checked_status : List Text → PlanStatus → PlanStatus
unfolding is_unchecked
checked_status [] status = if is_unchecked status then validated else status
checked_status (error ∷ errors) status = conflict

abbrev with_result : ValidationResult → ConnectionPlan → ConnectionPlan
with_result result plan = record plan {
  validation_errors = result.blockers;
  validation_warnings = result.warnings;
  status = checked_status result.blockers plan.status;
}

-- `rows` are the rows of the plan's batch as they are stored.
unfoldable pub validate_connection : List ConnectionPlan → ConnectionPlan → ConnectionPlan
unfolding checked_status
validate_connection rows plan =
    with_result (validate_plan_row (collect_row_reserved_interface_ids rows plan.id) plan) plan

-- `plan = f(plan); plan.save()` for the row of an identifier.
unfoldable pub update_row :
    Text → (ConnectionPlan → ConnectionPlan) → List ConnectionPlan → List ConnectionPlan
update_row id f [] = []
update_row id f (row ∷ rows) =
    let rest = update_row id f rows in if row.id == id then f row ∷ rest else row ∷ rest

-- The loop of `validate` over the rows that it read: each is checked against the stored rows.
unfoldable pub validate_each : List ConnectionPlan → List ConnectionPlan → List ConnectionPlan
unfolding update_row validate_connection
validate_each [] rows = rows
validate_each (plan ∷ plans) rows =
    validate_each plans (update_row plan.id (validate_connection rows) rows)

unfoldable pub validate_batch : Batch → Batch
unfolding validate_each
validate_batch batch = record batch {
  plans = validate_each (keep (λ plan. is_unchecked plan.status) batch.plans) batch.plans;
}

abbrev pub approve : ConnectionPlan → ConnectionPlan
approve plan = if is_validated plan.status then record plan { status = approved } else plan

unfoldable pub approve_all : Batch → Batch
unfolding is_validated
approve_all batch = record batch { plans = map approve batch.plans; status = approved_batch }

module _ {Cables : Type 0}
    (create_cable : Cables → Interface → Interface → Text → Cables × Created) where
  cable_label : ConnectionPlan → Interface → Interface → Text
  cable_label plan a b = plan.speed ++ (codes " | " ++ (a.name ++ (codes " <-> " ++ b.name)))

  -- What an execution leaves: the cables, the row, and the exception that it raises, if any.
  pub record Execution : Type 0 where
    pub cables : Cables
    pub plan : ConnectionPlan
    pub exception : Option Text

  abbrev pub after_creation : ConnectionPlan → Cables × Created → Execution
  after_creation plan (cables, created cable) = record {
    cables = cables;
    plan = record plan { created_cable = some cable; status = executed };
    exception = none;
  }
  after_creation plan (cables, not_created message) = record {
    cables = cables;
    plan = record plan { status = failed; validation_errors = message ∷ [] };
    exception = some message;
  }

  abbrev pub refuse : Cables → ConnectionPlan → Text → Execution
  refuse cables plan message = record { cables = cables; plan = plan; exception = some message }

  unfoldable pub between : Cables → ConnectionPlan → Option Interface → Option Interface → Execution
  unfolding cable_label
  between cables plan (some a) (some b) =
      after_creation plan (create_cable cables a b (cable_label plan a b))
  between cables plan _ _ =
      refuse cables plan (codes "Both interfaces must reference Nautobot objects to execute")

  unfoldable pub execute : Cables → ConnectionPlan → Execution
  unfolding between is_approved
  execute cables plan =
      if is_approved plan.status
      then between cables plan plan.interface_a plan.interface_b
      else refuse cables plan (codes "Can only execute approved plans")

  pub record BatchRun : Type 0 where
    pub cables : Cables
    pub plans : List ConnectionPlan
    pub results : Results

  abbrev pub count : Text → Option Text → Results → Results
  count id none results = add_success results
  count id (some message) results = add_error id (message ∷ []) results

  -- One row in the loop of `execute`, which takes the approved rows.
  unfoldable pub execute_step :
      Cables → Results → ConnectionPlan → Cables × Results × ConnectionPlan
  unfolding execute
  execute_step cables results plan =
      let run = execute cables plan in
      if is_approved plan.status
      then (run.cables, count plan.id run.exception results, run.plan)
      else (cables, results, plan)

  -- The loop. No row reads another.
  unfoldable pub execute_each : Cables → Results → List ConnectionPlan → BatchRun
  unfolding execute_step
  execute_each cables results [] = record { cables = cables; plans = []; results = results }
  execute_each cables results (plan ∷ plans) =
      let (cables_now, results_now, plan_now) = execute_step cables results plan in
      let rest = execute_each cables_now results_now plans in
      record rest { plans = plan_now ∷ rest.plans }

  executed_status : BatchStatus → ℕ → ℕ → BatchStatus
  executed_status status zero zero = status
  executed_status status (suc n) zero = completed
  executed_status status zero (suc e) = status
  executed_status status (suc n) (suc e) = partial

  unfoldable pub execute_batch : Cables → Batch → Cables × Batch × Results
  unfolding execute_each executed_status
  execute_batch cables batch =
      let run = execute_each cables no_results batch.plans in
      (
        run.cables,
        record {
          status = executed_status batch.status run.results.success_count run.results.error_count;
          plans = run.plans;
        },
        run.results,
      )
