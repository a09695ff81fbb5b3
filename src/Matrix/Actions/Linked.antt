-- ===== src/Matrix/Actions/Linked.antt =====
-- Executed rows and their cables, over any sequence of actions.

use nautobot_docker_compose.Base.{
  inr, inl, refl, Bool-cases, none, Option, [], false, some, ◌∷◌, map, true, if◌then◌else◌, All,
  ◌≡◌, List, Bool, nat_eq, list_eq,
}
use nautobot_docker_compose.Matrix.Rows.{
  failed, conflict, validated, approved, draft, PlanStatus, executed, Interface,
  swap_plan_endpoints, ConnectionPlan,
}
use nautobot_docker_compose.Matrix.Batch.{
  is_approved, not_created, Results, created, execute, is_validated, between, approve,
  after_creation, execute_step, Created, is_unchecked, checked_status, validate_connection,
}
use nautobot_docker_compose.Matrix.Actions.Keeps.{act-All}
use nautobot_docker_compose.Matrix.Actions.{
  act, Results, Action, run_actions, World, Created, Text, set_color,
}
use nautobot_docker_compose.Base.Text.{Text}

-- An executed row has the cable that was created for it.
abbrev pub IsLinked : ConnectionPlan → Type 0
IsLinked plan = plan.status ≡ executed → (cable : Text) × (plan.created_cable ≡ some cable)

if-IsLinked :
    (test : Bool) (a b : ConnectionPlan)
    → IsLinked a
    → IsLinked b
    → IsLinked (if test then a else b)
if-IsLinked true a b f g = f
if-IsLinked false a b f g = g

checked_status-executed :
    (errors : List Text) (status : PlanStatus)
    → checked_status errors status ≡ executed
    → status ≡ executed
unfolding checked_status is_unchecked
checked_status-executed (error ∷ errors) status h = cc
checked_status-executed [] draft h = cc
checked_status-executed [] validated h = cc
checked_status-executed [] approved h = cc
checked_status-executed [] executed h = refl
checked_status-executed [] conflict h = cc
checked_status-executed [] failed h = cc

validate_connection-IsLinked :
    (rows : List ConnectionPlan) (plan : ConnectionPlan)
    → IsLinked plan
    → IsLinked (validate_connection rows plan)
unfolding validate_connection
validate_connection-IsLinked rows plan linked h = linked (checked_status-executed _ plan.status h)

approve-IsLinked :
    (rows : List ConnectionPlan) → All IsLinked rows → All IsLinked (map approve rows)
approve-IsLinked [] linked = tt
approve-IsLinked (row ∷ rows) linked = (
  if-IsLinked (is_validated row.status) (record row { status = approved }) row (λ h. cc) (linked.0),
  approve-IsLinked rows (linked.1),
)

swap-IsLinked : (plan : ConnectionPlan) → IsLinked plan → IsLinked (swap_plan_endpoints plan)
unfolding swap_plan_endpoints
swap-IsLinked plan linked = linked

color-IsLinked :
    (color : Text) (plan : ConnectionPlan) → IsLinked plan → IsLinked (set_color color plan)
unfolding set_color
color-IsLinked color plan linked = linked

module _ {Cables : Type 0}
    (create_cable : Cables → Interface → Interface → Text → Cables × Created) where
  after_creation-IsLinked :
      (plan : ConnectionPlan) (made : Cables × Created)
      → IsLinked (after_creation create_cable plan made).plan
  after_creation-IsLinked plan (cables, created cable) h = (cable, refl)
  after_creation-IsLinked plan (cables, not_created message) h = cc

  between-IsLinked :
      (cables : Cables) (plan : ConnectionPlan) (a b : Option Interface)
      → IsLinked plan
      → IsLinked (between create_cable cables plan a b).plan
  unfolding between
  between-IsLinked cables plan (some a) (some b) linked = after_creation-IsLinked plan _
  between-IsLinked cables plan (some a) none linked = linked
  between-IsLinked cables plan none b linked = linked

  execute_step-IsLinked :
      (cables : Cables) (results : Results) (plan : ConnectionPlan)
      → IsLinked plan
      → IsLinked ((execute_step create_cable cables results plan).2)
  unfolding execute_step execute
  execute_step-IsLinked cables results plan linked = elim (Bool-cases (is_approved plan.status)) [
    | inl e ↦ rw e (between-IsLinked cables plan plan.interface_a plan.interface_b linked)
    | inr e ↦ rw e linked
  ]

  act-IsLinked :
      (w : World Cables) (action : Action)
      → All IsLinked w.batch.plans
      → All IsLinked (act create_cable w action).batch.plans
  act-IsLinked w action linked =
      act-All IsLinked validate_connection-IsLinked swap-IsLinked color-IsLinked
        (λ cables plan linked. linked) create_cable execute_step-IsLinked w action
        (λ _. approve-IsLinked) linked

  -- Where every executed row has a cable recorded, this stays so over any sequence of actions.
  pub run_actions-IsLinked :
      (w : World Cables) (actions : List Action)
      → All IsLinked w.batch.plans
      → All IsLinked (run_actions create_cable w actions).batch.plans
  unfolding run_actions
  run_actions-IsLinked w [] linked = linked
  run_actions-IsLinked w (action ∷ actions) linked =
      run_actions-IsLinked (act create_cable w action) actions (act-IsLinked w action linked)
