-- ===== src/Matrix/Actions/Workflow/Refinement.antt =====
-- The actions of api/views.py follow the workflow of a row.
use nautobot_docker_compose.Matrix.Actions.{
  validate_rows, bulk_color, bulk_swap, normalize_row_color, color_row, swap_plan_endpoints,
  swap_row, execute_batch, set_color, approve_all, with_cables, color_rows, validate_batch, Dict,
  execute_rows, World, Results, validate_row, run_actions, act, Action, validate_connection,
  approve_rows,
}
use nautobot_docker_compose.Matrix.Colors.{normalize_row_color}
use nautobot_docker_compose.Matrix.Rows.{
  swap_plan_endpoints, conflict, validated, draft, approved, executed, PlanStatus, ConnectionPlan,
  Interface,
}
use nautobot_docker_compose.Matrix.Actions.Workflow.{
  update_row-Rowwise, Rowwise-map, ids-Rowwise, Trace, Rowwise-trans, update_rows-Rowwise,
  Rowwise-refl, ids_of, Rowwise, StatusAfter, RowTrace, failed, Executed, approved, executed,
  approve_rows, Approved, RowAfter,
}
use nautobot_docker_compose.Matrix.Batch.{
  no_results, execute_batch, approve_all, validate_batch, not_created, created, execute, Results,
  between, execute_each, execute_step, approve, after_creation, validate_connection, Created,
  is_approved, is_validated,
}
use nautobot_docker_compose.Base.{
  ap, [], map, ◌∙◌, sym, refl, list_beq_iff, none, ◌∷◌, inl, some, distinct, Bool, List, inr,
  Option, Bool-cases, nat_eq, ◌==◌, if◌then◌else◌, list_eq, ◌⊎◌, false, true, ◌≡◌,
}
use mathlib.Core.Path.{ap, subst}
use nautobot_docker_compose.Matrix.Actions.Workflow.Checks.{
  validate_batch-RowAfter, checked_status-Checked,
}
use nautobot_docker_compose.Matrix.Order.{ids_of}
use nautobot_docker_compose.Base.Dict.{Dict}
use nautobot_docker_compose.Slots.Profile.{failed}
use nautobot_docker_compose.Base.Text.{Text}

Approved-is_validated :
    (status : PlanStatus) → Approved status (if is_validated status then approved else status)
unfolding is_validated
Approved-is_validated draft = refl
Approved-is_validated validated = refl
Approved-is_validated approved = refl
Approved-is_validated executed = refl
Approved-is_validated conflict = refl
Approved-is_validated failed = refl

approve-RowAfter : (row : ConnectionPlan) → RowAfter approve_rows row (approve row)
approve-RowAfter row = elim (Bool-cases (is_validated row.status)) [
  | inl e ↦ rw e (refl, (rw e at (Approved-is_validated row.status)))
  | inr e ↦ rw e (refl, (rw e at (Approved-is_validated row.status)))
]

-- Where the row is not approved, it stays.
Executed-is_approved : (status : PlanStatus) → is_approved status ≡ false → Executed status status
unfolding is_approved
Executed-is_approved draft h = refl
Executed-is_approved validated h = refl
Executed-is_approved approved h = inr (inr refl)
Executed-is_approved executed h = refl
Executed-is_approved conflict h = refl
Executed-is_approved failed h = refl

Executed-approved :
    (status after : PlanStatus)
    → is_approved status ≡ true
    → (after ≡ executed) ⊎ ((after ≡ failed) ⊎ (after ≡ approved))
    → Executed status after
unfolding is_approved
Executed-approved draft after h cases = cc
Executed-approved validated after h cases = cc
Executed-approved approved after h cases = cases
Executed-approved executed after h cases = cc
Executed-approved conflict after h cases = cc
Executed-approved failed after h cases = cc

eq_of_is_approved : (status : PlanStatus) → is_approved status ≡ true → status ≡ approved
unfolding is_approved
eq_of_is_approved draft h = cc
eq_of_is_approved validated h = cc
eq_of_is_approved approved h = refl
eq_of_is_approved executed h = cc
eq_of_is_approved conflict h = cc
eq_of_is_approved failed h = cc

-- A row after its execution.
abbrev IsRun : ConnectionPlan → ConnectionPlan → Type 0
IsRun before after =
    (after.id ≡ before.id)
    × ((after.status ≡ executed) ⊎ ((after.status ≡ failed) ⊎ (after.status ≡ approved)))

module _ {Cables : Type 0}
    (create_cable : Cables → Interface → Interface → Text → Cables × Created) where
  after_creation-IsRun :
      (plan : ConnectionPlan) (made : Cables × Created)
      → IsRun plan (after_creation create_cable plan made).plan
  after_creation-IsRun plan (cables, created cable) = (refl, inl refl)
  after_creation-IsRun plan (cables, not_created message) = (refl, inr (inl refl))

  between-IsRun :
      (cables : Cables) (plan : ConnectionPlan) (a b : Option Interface)
      → plan.status ≡ approved
      → IsRun plan (between create_cable cables plan a b).plan
  unfolding between
  between-IsRun cables plan (some a) (some b) h = after_creation-IsRun plan _
  between-IsRun cables plan (some a) none h = (refl, inr (inr h))
  between-IsRun cables plan none b h = (refl, inr (inr h))

  execute_step-RowAfter :
      (cables : Cables) (results : Results) (plan : ConnectionPlan)
      → RowAfter execute_rows plan ((execute_step create_cable cables results plan).2)
  unfolding execute_step execute
  execute_step-RowAfter cables results plan = elim (Bool-cases (is_approved plan.status)) [
    | inl e ↦
        let run : IsRun plan
            (between create_cable cables plan plan.interface_a plan.interface_b).plan =
          between-IsRun cables plan plan.interface_a plan.interface_b
            (eq_of_is_approved plan.status e) in
        rw e (run.0, Executed-approved plan.status _ e (run.1))
    | inr e ↦ rw e (refl, Executed-is_approved plan.status e)
  ]

  execute_each-RowAfter :
      (cables : Cables) (results : Results) (rows : List ConnectionPlan) (new : Dict Text)
      → Rowwise
          (RowAfter execute_rows)
          rows
          (map (with_cables new) (execute_each create_cable cables results rows).plans)
  unfolding execute_each
  execute_each-RowAfter cables results [] new = tt
  execute_each-RowAfter cables results (row ∷ rows) new = (
    execute_step-RowAfter cables results row,
    execute_each-RowAfter (execute_step create_cable cables results row).0
        (execute_step create_cable cables results row).1 rows new,
  )

  color_rows-RowAfter :
      (action : Action) (ids : List Text) (color : Option Text) (rows : List ConnectionPlan)
      → ((row : ConnectionPlan) → StatusAfter action row.id row.status row.status)
      → Rowwise (RowAfter action) rows (color_rows ids color rows)
  color_rows-RowAfter action ids none rows same =
      Rowwise-refl (RowAfter action) rows (λ row. (refl, same row))
  color_rows-RowAfter action ids (some color) rows same =
      update_rows-Rowwise (RowAfter action) ids (set_color color) rows
        (λ row. unfold set_color in (refl, same row)) (λ row. (refl, same row))

  check_row-RowAfter :
      (rows : List ConnectionPlan) (id : Text) (row : ConnectionPlan)
      → row.id == id ≡ true
      → RowAfter (validate_row id) row (validate_connection rows row)
  unfolding validate_connection
  check_row-RowAfter rows id row e =
      (refl, inl ((list_beq_iff row.id id).0 e, checked_status-Checked _ row.status))

  other_row-RowAfter :
      (id : Text) (row : ConnectionPlan) → row.id == id ≡ false → RowAfter (validate_row id) row row
  other_row-RowAfter id row e = (
    refl,
    inr (
      (λ hit. let no : ◌≡◌ {A = Bool} true false = sym ((list_beq_iff row.id id).1 hit) ∙ e in cc),
      refl,
    ),
  )

  act-RowAfter :
      (w : World Cables) (action : Action)
      → distinct (ids_of w.batch.plans) ≡ true
      → Rowwise (RowAfter action) w.batch.plans (act create_cable w action).batch.plans
  unfolding act
  act-RowAfter w validate_rows h = unfold validate_batch in validate_batch-RowAfter w.batch.plans h
  act-RowAfter w approve_rows h =
      unfold approve_all in
      Rowwise-map (RowAfter approve_rows) approve w.batch.plans approve-RowAfter
  act-RowAfter w execute_rows h =
      unfold execute_batch in execute_each-RowAfter w.cables no_results w.batch.plans _
  act-RowAfter w (validate_row id) h =
      update_row-Rowwise (RowAfter (validate_row id)) id (validate_connection w.batch.plans)
        w.batch.plans (check_row-RowAfter w.batch.plans id) (other_row-RowAfter id)
  act-RowAfter w (swap_row id) h =
      update_row-Rowwise (RowAfter (swap_row id)) id swap_plan_endpoints w.batch.plans
        (λ row e. unfold swap_plan_endpoints in (refl, refl)) (λ row e. (refl, refl))
  act-RowAfter w (color_row id value) h =
      color_rows-RowAfter (color_row id value) (id ∷ []) (normalize_row_color value) w.batch.plans
        (λ row. refl)
  act-RowAfter w (bulk_swap ids) h =
      update_rows-Rowwise (RowAfter (bulk_swap ids)) ids swap_plan_endpoints w.batch.plans
        (λ row. unfold swap_plan_endpoints in (refl, refl)) (λ row. (refl, refl))
  act-RowAfter w (bulk_color ids value) h =
      color_rows-RowAfter (bulk_color ids value) ids (normalize_row_color value) w.batch.plans
        (λ row. refl)

  RowTrace-step :
      (action : Action) (actions : List Action) (a b c : ConnectionPlan)
      → RowAfter action a b
      → RowTrace actions b c
      → RowTrace (action ∷ actions) a c
  RowTrace-step action actions a b c (id1, step) (id2, rest) = (
    id2 ∙ id1,
    (b.status, (step, subst (λ (id : Text). Trace actions id b.status c.status) id1 rest)),
  )

  -- Over any sequence of actions on a batch whose rows have different identifiers, the rows and their
  -- order stay, and the status of each goes through one step per action: a check of the batch turns a
  -- draft or a row in conflict into validated or conflict, an approval turns exactly validated into
  -- approved, an execution leaves all but approved rows and makes these executed or failed or leaves
  -- them, a check of one row accepts it or puts it in conflict, and nothing else changes a status.
  pub run_actions-RowTrace :
      (w : World Cables) (actions : List Action)
      → distinct (ids_of w.batch.plans) ≡ true
      → Rowwise (RowTrace actions) w.batch.plans (run_actions create_cable w actions).batch.plans
  unfolding run_actions
  run_actions-RowTrace w [] h = Rowwise-refl (RowTrace []) w.batch.plans (λ row. (refl, refl))
  run_actions-RowTrace w (action ∷ actions) h =
      let next : World Cables = act create_cable w action in
      let stepped : Rowwise (RowAfter action) w.batch.plans next.batch.plans =
        act-RowAfter w action h in
      Rowwise-trans (RowAfter action) (RowTrace actions) (RowTrace (action ∷ actions))
        (RowTrace-step action actions) w.batch.plans next.batch.plans _ stepped
        (run_actions-RowTrace next actions (
          ap (λ (ids : List Text). distinct ids)
            (ids-Rowwise action w.batch.plans next.batch.plans stepped)
          ∙ h))
