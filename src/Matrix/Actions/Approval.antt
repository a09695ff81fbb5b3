-- ===== src/Matrix/Actions/Approval.antt =====
-- Without an approval, no action touches the cables; and what an execution of the batch counts.
use nautobot_docker_compose.Matrix.Actions.{
  execute_rows, approve_rows, validate_rows, bulk_color, bulk_swap, color_row, swap_row,
  validate_row, Action, Results, execute_batch, act, run_actions, World, Created, Text, set_color,
}
use nautobot_docker_compose.Matrix.Rows.{
  failed, conflict, executed, approved, validated, draft, PlanStatus, Interface,
  swap_plan_endpoints, ConnectionPlan,
}
use nautobot_docker_compose.Base.{
  refl, sym, true, Bool, ◌∙◌, All, [], any, ◌∷◌, false, ◌≡◌, List, arith, nat_eq, list_eq,
}
use nautobot_docker_compose.Matrix.Actions.Keeps.{act-All, is_approval}
use nautobot_docker_compose.Matrix.Batch.{
  no_results, Results, execute_batch, execute_each, execute_step, Created, is_unchecked,
  is_approved, checked_status, validate_connection,
}
use nautobot_docker_compose.Base.Text.{Text}

-- The row is not approved.
abbrev pub IsUnapproved : ConnectionPlan → Type 0
IsUnapproved plan = is_approved plan.status ≡ false

checked_status-unapproved :
    (errors : List Text) (status : PlanStatus)
    → is_approved status ≡ false
    → is_approved (checked_status errors status) ≡ false
unfolding checked_status is_unchecked is_approved
checked_status-unapproved (error ∷ errors) status h = refl
checked_status-unapproved [] draft h = refl
checked_status-unapproved [] validated h = refl
checked_status-unapproved [] approved h = h
checked_status-unapproved [] executed h = refl
checked_status-unapproved [] conflict h = refl
checked_status-unapproved [] failed h = refl

validate_connection-IsUnapproved :
    (rows : List ConnectionPlan) (plan : ConnectionPlan)
    → IsUnapproved plan
    → IsUnapproved (validate_connection rows plan)
unfolding validate_connection
validate_connection-IsUnapproved rows plan h = checked_status-unapproved _ plan.status h

swap-IsUnapproved :
    (plan : ConnectionPlan) → IsUnapproved plan → IsUnapproved (swap_plan_endpoints plan)
unfolding swap_plan_endpoints
swap-IsUnapproved plan h = h

color-IsUnapproved :
    (color : Text) (plan : ConnectionPlan) → IsUnapproved plan → IsUnapproved (set_color color plan)
unfolding set_color
color-IsUnapproved color plan h = h

module _ {Cables : Type 0}
    (create_cable : Cables → Interface → Interface → Text → Cables × Created) where
  execute_step-unapproved :
      (cables : Cables) (results : Results) (plan : ConnectionPlan)
      → IsUnapproved plan
      → execute_step create_cable cables results plan ≡ (cables, results, plan)
  unfolding execute_step
  execute_step-unapproved cables results plan h = rw h refl

  execute_each-cables :
      (cables : Cables) (results : Results) (rows : List ConnectionPlan)
      → All IsUnapproved rows
      → (execute_each create_cable cables results rows).cables ≡ cables
  unfolding execute_each
  execute_each-cables cables results [] h = refl
  execute_each-cables cables results (row ∷ rows) h =
      rw (execute_step-unapproved cables results row (h.0))
        (execute_each-cables cables results rows (h.1))

  act-cables :
      (w : World Cables) (action : Action)
      → is_approval action ≡ false
      → All IsUnapproved w.batch.plans
      → (act create_cable w action).cables ≡ w.cables
  unfolding act execute_batch
  act-cables w validate_rows e h = refl
  act-cables w approve_rows e h = cc
  act-cables w execute_rows e h = execute_each-cables w.cables no_results w.batch.plans h
  act-cables w (validate_row id) e h = refl
  act-cables w (swap_row id) e h = refl
  act-cables w (color_row id value) e h = refl
  act-cables w (bulk_swap ids) e h = refl
  act-cables w (bulk_color ids value) e h = refl

  act-IsUnapproved :
      (w : World Cables) (action : Action)
      → is_approval action ≡ false
      → All IsUnapproved w.batch.plans
      → All IsUnapproved (act create_cable w action).batch.plans
  act-IsUnapproved w action e h =
      act-All IsUnapproved validate_connection-IsUnapproved swap-IsUnapproved color-IsUnapproved
        (λ cables plan free. free) create_cable
        (λ cables results plan free. rw (execute_step-unapproved cables results plan free) free) w
        action (λ approval. let no : ◌≡◌ {A = Bool} true false = sym approval ∙ e in cc) h

  -- From a batch in which no row is approved, no sequence of actions without an approval of the batch
  -- creates a cable or changes the cables in any other way.
  pub run_actions-cables :
      (w : World Cables) (actions : List Action)
      → any is_approval actions ≡ false
      → All IsUnapproved w.batch.plans
      → (run_actions create_cable w actions).cables ≡ w.cables
  unfolding run_actions any
  run_actions-cables w [] e h = refl
  run_actions-cables w (action ∷ actions) e h =
      run_actions-cables (act create_cable w action) actions (ground arith)
        (act-IsUnapproved w action (ground arith) h)
      ∙ act-cables w action (ground arith) h
