-- ===== src/Matrix/Actions/Counts.antt =====
-- What an execution of a batch counts.
use nautobot_docker_compose.Base.{
  none, some, refl, inr, suc, inl, [], Bool-cases, ◌∷◌, ◌+◌, Option, false, List, true, ◌≡◌, ℕ,
  Bool, arith, nat_eq, list_eq,
}
use nautobot_docker_compose.Matrix.Rows.{
  failed, conflict, validated, draft, executed, approved, ConnectionPlan, PlanStatus, Interface,
}
use nautobot_docker_compose.Matrix.Batch.{
  not_created, count, no_results, created, Batch, Execution, execute, after_creation, execute_step,
  Results, between, execute_batch, execute_each, Created, is_executed, count_rows, is_approved,
}
use nautobot_docker_compose.Base.Text.{Text}

-- One for a row that counts.
abbrev tick : Bool → ℕ
tick true = 1
tick false = 0

count_rows-cons :
    (test : PlanStatus → Bool) (row : ConnectionPlan) (rows : List ConnectionPlan)
    → count_rows test (row ∷ rows) ≡ tick (test row.status) + count_rows test rows
unfolding count_rows
count_rows-cons test row rows = elim (Bool-cases (test row.status)) [
  | inl e ↦ rw e (omega arith)
  | inr e ↦ rw e (omega arith)
]

approved-not_executed :
    (status : PlanStatus) → is_approved status ≡ true → is_executed status ≡ false
unfolding is_approved is_executed
approved-not_executed approved h = refl
approved-not_executed executed h = cc
approved-not_executed draft h = refl
approved-not_executed validated h = refl
approved-not_executed conflict h = refl
approved-not_executed failed h = refl

module _ {Cables : Type 0}
    (create_cable : Cables → Interface → Interface → Text → Cables × Created) where
  -- What an execution, with or without an exception, adds to the counts, and the status it leaves.
  abbrev Counted : ConnectionPlan → Results → Execution create_cable → Type 0
  Counted plan results run =
      ((count create_cable plan.id run.exception results).success_count
          + (count create_cable plan.id run.exception results).error_count
        ≡ suc (results.success_count + results.error_count))
      × (tick (is_executed run.plan.status) + results.success_count
          ≡ (count create_cable plan.id run.exception results).success_count)

  after_creation-counts :
      (plan : ConnectionPlan) (results : Results) (made : Cables × Created)
      → Counted plan results (after_creation create_cable plan made)
  unfolding is_executed
  after_creation-counts plan results (cables, created cable) = (omega arith, omega arith)
  after_creation-counts plan results (cables, not_created message) = (omega arith, omega arith)

  between-counts :
      (cables : Cables) (plan : ConnectionPlan) (results : Results) (a b : Option Interface)
      → is_executed plan.status ≡ false
      → Counted plan results (between create_cable cables plan a b)
  unfolding between
  between-counts cables plan results (some a) (some b) e = after_creation-counts plan results _
  between-counts cables plan results (some a) none e = rw e (omega arith, omega arith)
  between-counts cables plan results none b e = rw e (omega arith, omega arith)

  execute_step-counts :
      (cables : Cables) (results : Results) (plan : ConnectionPlan)
      → ((execute_step create_cable cables results plan).1.success_count
            + (execute_step create_cable cables results plan).1.error_count
          ≡ tick (is_approved plan.status) + (results.success_count + results.error_count))
        × (tick (is_executed (execute_step create_cable cables results plan).2.status)
              + results.success_count
            ≡ tick (is_executed plan.status)
              + (execute_step create_cable cables results plan).1.success_count)
  unfolding execute_step execute
  execute_step-counts cables results plan = elim (Bool-cases (is_approved plan.status)) [
    | inl e ↦
        let fresh : is_executed plan.status ≡ false = approved-not_executed plan.status e in
        let (counted, done) =
          between-counts cables plan results plan.interface_a plan.interface_b fresh in
        rw (e, fresh) (omega (arith, counted), omega (arith, done))
    | inr e ↦ rw e (omega arith, omega arith)
  ]

  execute_each-counts :
      (cables : Cables) (results : Results) (rows : List ConnectionPlan)
      → ((execute_each create_cable cables results rows).results.success_count
            + (execute_each create_cable cables results rows).results.error_count
          ≡ count_rows is_approved rows + (results.success_count + results.error_count))
        × (count_rows is_executed (execute_each create_cable cables results rows).plans
              + results.success_count
            ≡ count_rows is_executed rows
              + (execute_each create_cable cables results rows).results.success_count)
  unfolding execute_each
  execute_each-counts cables results [] = unfold count_rows in (omega arith, omega arith)
  execute_each-counts cables results (row ∷ rows) =
      let step : Cables × Results × ConnectionPlan = execute_step create_cable cables results row in
      let (counted, done) = execute_step-counts cables results row in
      let (rest_counted, rest_done) = execute_each-counts (step.0) (step.1) rows in
      rw
        (
          count_rows-cons is_approved row rows,
          count_rows-cons is_executed row rows,
          count_rows-cons is_executed (step.2)
              (execute_each create_cable (step.0) (step.1) rows).plans,
        )
        (
          omega (arith, counted, done, rest_counted, rest_done),
          omega (arith, counted, done, rest_counted, rest_done),
        )

  -- An execution of a batch counts as many successes and errors as there are approved rows, and as
  -- many successes as there are more executed rows after it than before.
  pub execute_batch-counts :
      (cables : Cables) (batch : Batch)
      → ((execute_batch create_cable cables batch).2.success_count
            + (execute_batch create_cable cables batch).2.error_count
          ≡ count_rows is_approved batch.plans)
        × (count_rows is_executed (execute_batch create_cable cables batch).1.plans
            ≡ count_rows is_executed batch.plans
              + (execute_batch create_cable cables batch).2.success_count)
  unfolding execute_batch
  execute_batch-counts cables batch =
      let (attempts, successes) = execute_each-counts cables no_results batch.plans in
      (omega (arith, attempts), omega (arith, successes))
