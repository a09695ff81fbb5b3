-- ===== src/Matrix/Actions.antt =====
-- The actions of api/views.py on the rows of a batch, as steps on its state. A request for a row that
-- does not exist and a colour that is refused leave everything as it is.
pub mod Keeps
pub mod Workflow
pub mod Linked
pub mod Approval
pub mod Counts
use nautobot_docker_compose.Matrix.Batch.{
  is_executed, is_approved, validate_connection, update_row, execute_batch, approve_all,
  validate_batch, Results, Created, Batch,
}
use nautobot_docker_compose.Base.{
  ◌&&◌, map, nat_eq, list_eq, contains, none, [], if◌then◌else◌, some, ◌∷◌, Option, List, arith,
}
use nautobot_docker_compose.Matrix.Colors.{normalize_row_color}
use nautobot_docker_compose.Matrix.Rows.{swap_plan_endpoints, ConnectionPlan, Interface}
use nautobot_docker_compose.Base.Text.{Text}
use nautobot_docker_compose.Base.Dict.{Dict, insert, lookup}

-- The cables of Nautobot and a batch with its rows.
pub record World (Cables : Type 0) : Type 0 where
  pub cables : Cables
  pub batch : Batch

pub data Action : Type 0 where
  validate_rows approve_rows execute_rows : Action
  validate_row swap_row : Text → Action
  color_row : Text → Option Text → Action
  bulk_swap : List Text → Action
  bulk_color : List Text → Option Text → Action

abbrev pub change_rows : (List ConnectionPlan → List ConnectionPlan) → Batch → Batch
change_rows f batch = record batch { plans = f batch.plans }

-- `queryset.filter(id__in=ids)`, each row changed and saved
unfoldable pub update_rows :
    List Text → (ConnectionPlan → ConnectionPlan) → List ConnectionPlan → List ConnectionPlan
update_rows ids f [] = []
update_rows ids f (row ∷ rows) =
    (if contains ids row.id then f row else row) ∷ update_rows ids f rows

unfoldable pub set_color : Text → ConnectionPlan → ConnectionPlan
set_color color plan = record plan { row_color = color }

abbrev pub color_rows : List Text → Option Text → List ConnectionPlan → List ConnectionPlan
color_rows ids none rows = rows
color_rows ids (some color) rows = update_rows ids (set_color color) rows

-- Nautobot enters a new cable at both of its interfaces, and the rows read their interfaces again.
abbrev at_both : Option Interface → Option Interface → Option Text → Dict Text → Dict Text
at_both (some a) (some b) (some cable) cables = insert a.id cable (insert b.id cable cables)
at_both (some a) (some b) none cables = cables
at_both (some a) none cable cables = cables
at_both none b cable cables = cables

-- The cable at each interface that got one: a row that was approved and is executed.
unfoldable pub new_cables : List ConnectionPlan → List ConnectionPlan → Dict Text
new_cables (before ∷ befores) (after ∷ afters) =
    let rest = new_cables befores afters in
    if is_approved before.status && is_executed after.status
    then at_both after.interface_a after.interface_b after.created_cable rest
    else rest
new_cables [] afters = []
new_cables (before ∷ befores) [] = []

abbrev or_cable : Option Text → Option Text → Option Text
or_cable cable none = cable
or_cable cable (some new) = some new

abbrev cabled : Dict Text → Option Interface → Option Interface
cabled cables none = none
cabled cables (some interface) =
    some (record interface { cable = or_cable interface.cable (lookup interface.id cables) })

abbrev pub with_cables : Dict Text → ConnectionPlan → ConnectionPlan
with_cables cables plan = record plan {
  interface_a = cabled cables plan.interface_a;
  interface_b = cabled cables plan.interface_b;
}

module _ {Cables : Type 0}
    (create_cable : Cables → Interface → Interface → Text → Cables × Created) where
  abbrev executed_world : List ConnectionPlan → Cables × Batch × Results → World Cables
  executed_world befores (cables, batch, results) = record {
    cables = cables;
    batch = change_rows (map (with_cables (new_cables befores batch.plans))) batch;
  }

  unfoldable pub act : World Cables → Action → World Cables
  unfolding update_rows set_color new_cables
  act w validate_rows = record w { batch = validate_batch w.batch }
  act w approve_rows = record w { batch = approve_all w.batch }
  act w execute_rows = executed_world w.batch.plans (execute_batch create_cable w.cables w.batch)
  act w (validate_row id) = record w {
    batch = change_rows (update_row id (validate_connection w.batch.plans)) w.batch;
  }
  act w (swap_row id) = record w { batch = change_rows (update_row id swap_plan_endpoints) w.batch }
  act w (color_row id value) = record w {
    batch = change_rows (color_rows (id ∷ []) (normalize_row_color value)) w.batch;
  }
  act w (bulk_swap ids) = record w {
    batch = change_rows (update_rows ids swap_plan_endpoints) w.batch;
  }
  act w (bulk_color ids value) = record w {
    batch = change_rows (color_rows ids (normalize_row_color value)) w.batch;
  }

  unfoldable pub run_actions : World Cables → List Action → World Cables
  unfolding act
  run_actions w [] = w
  run_actions w (action ∷ actions) = run_actions (act w action) actions
