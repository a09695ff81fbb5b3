-- ===== src/Matrix/Actions/Keeps.antt =====
-- What every change of a row keeps, every action keeps of all rows.
use nautobot_docker_compose.Matrix.Actions.{
  new_cables, with_cables, normalize_row_color, World, execute_batch, execute_rows, approve_all,
  validate_batch, validate_rows, approve_rows, act, bulk_color, bulk_swap, Results, color_row,
  Created, Interface, color_rows, swap_row, validate_row, set_color, swap_plan_endpoints, Text,
  validate_connection, update_rows, update_row, Action,
}
use nautobot_docker_compose.Matrix.Batch.{
  is_unchecked, no_results, approve, execute_batch, approve_all, validate_batch, execute_each,
  execute_step, Results, Created, validate_each, validate_connection, update_row,
}
use nautobot_docker_compose.Base.{
  keep, refl, map, ◌≡◌, inr, inl, none, nat_eq, some, [], list_eq, ◌==◌, contains, Bool-cases, ◌∷◌,
  false, All, if◌then◌else◌, true, List, Bool, Option,
}
use nautobot_docker_compose.Matrix.Colors.{normalize_row_color}
use nautobot_docker_compose.Matrix.Rows.{Interface, swap_plan_endpoints, ConnectionPlan}
use nautobot_docker_compose.Base.Text.{Text}
use nautobot_docker_compose.Base.Dict.{Dict}

abbrev pub is_approval : Action → Bool
is_approval approve_rows = true
is_approval validate_rows = false
is_approval execute_rows = false
is_approval (validate_row id) = false
is_approval (swap_row id) = false
is_approval (color_row id value) = false
is_approval (bulk_swap ids) = false
is_approval (bulk_color ids value) = false

module _ (P : ConnectionPlan → Type 0) where
  update_row-All :
      (id : Text) (f : ConnectionPlan → ConnectionPlan) (rows : List ConnectionPlan)
      → ((row : ConnectionPlan) → P row → P (f row))
      → All P rows
      → All P (update_row id f rows)
  unfolding update_row
  update_row-All id f [] h held = tt
  update_row-All id f (row ∷ rows) h held = elim (Bool-cases (row.id == id)) [
    | inl e ↦ rw e (h row (held.0), update_row-All id f rows h (held.1))
    | inr e ↦ rw e (held.0, update_row-All id f rows h (held.1))
  ]

  if-All : (test : Bool) (a b : ConnectionPlan) → P a → P b → P (if test then a else b)
  if-All true a b f g = f
  if-All false a b f g = g

  update_rows-All :
      (ids : List Text) (f : ConnectionPlan → ConnectionPlan) (rows : List ConnectionPlan)
      → ((row : ConnectionPlan) → P row → P (f row))
      → All P rows
      → All P (update_rows ids f rows)
  unfolding update_rows
  update_rows-All ids f [] h held = tt
  update_rows-All ids f (row ∷ rows) h held = (
    if-All (contains ids row.id) (f row) row (h row (held.0)) (held.0),
    update_rows-All ids f rows h (held.1),
  )

  module _
      (checked : (rows : List ConnectionPlan) (plan : ConnectionPlan)
        → P plan
        → P (validate_connection rows plan))
      (swapped : (plan : ConnectionPlan) → P plan → P (swap_plan_endpoints plan))
      (colored : (color : Text) (plan : ConnectionPlan) → P plan → P (set_color color plan))
      (wired : (cables : Dict Text) (plan : ConnectionPlan)
        → P plan
        → P (with_cables cables plan)) where
    with_cables-All :
        (cables : Dict Text) (rows : List ConnectionPlan)
        → All P rows
        → All P (map (with_cables cables) rows)
    with_cables-All cables [] held = tt
    with_cables-All cables (row ∷ rows) held =
        (wired cables row (held.0), with_cables-All cables rows (held.1))

    validate_each-All :
        (plans rows : List ConnectionPlan) → All P rows → All P (validate_each plans rows)
    unfolding validate_each
    validate_each-All [] rows held = held
    validate_each-All (plan ∷ plans) rows held =
        validate_each-All plans (update_row plan.id (validate_connection rows) rows)
          (update_row-All plan.id (validate_connection rows) rows (checked rows) held)

    color_rows-All :
        (ids : List Text) (color : Option Text) (rows : List ConnectionPlan)
        → All P rows
        → All P (color_rows ids color rows)
    color_rows-All ids none rows held = held
    color_rows-All ids (some color) rows held =
        update_rows-All ids (set_color color) rows (colored color) held

    module _ {Cables : Type 0}
        (create_cable : Cables → Interface → Interface → Text → Cables × Created)
        (stepped : (cables : Cables) (results : Results) (plan : ConnectionPlan)
          → P plan
          → P ((execute_step create_cable cables results plan).2)) where
      pub execute_each-All :
          (cables : Cables) (results : Results) (rows : List ConnectionPlan)
          → All P rows
          → All P (execute_each create_cable cables results rows).plans
      unfolding execute_each
      execute_each-All cables results [] held = tt
      execute_each-All cables results (row ∷ rows) held = (
        stepped cables results row (held.0),
        execute_each-All (execute_step create_cable cables results row).0
            (execute_step create_cable cables results row).1 rows (held.1),
      )

      pub act-All :
          (w : World Cables) (action : Action)
          → (is_approval action ≡ true
              → (rows : List ConnectionPlan) → All P rows
              → All P (map approve rows))
          → All P w.batch.plans
          → All P (act create_cable w action).batch.plans
      unfolding act validate_batch approve_all execute_batch
      act-All w validate_rows approving held =
          validate_each-All (keep (λ plan. is_unchecked plan.status) w.batch.plans) w.batch.plans
            held
      act-All w approve_rows approving held = approving refl w.batch.plans held
      act-All w execute_rows approving held =
          with_cables-All (new_cables w.batch.plans _)
            (execute_each create_cable w.cables no_results w.batch.plans).plans
            (execute_each-All w.cables no_results w.batch.plans held)
      act-All w (validate_row id) approving held =
          update_row-All id (validate_connection w.batch.plans) w.batch.plans
            (checked w.batch.plans) held
      act-All w (swap_row id) approving held =
          update_row-All id swap_plan_endpoints w.batch.plans swapped held
      act-All w (color_row id value) approving held =
          color_rows-All (id ∷ []) (normalize_row_color value) w.batch.plans held
      act-All w (bulk_swap ids) approving held =
          update_rows-All ids swap_plan_endpoints w.batch.plans swapped held
      act-All w (bulk_color ids value) approving held =
          color_rows-All ids (normalize_row_color value) w.batch.plans held
