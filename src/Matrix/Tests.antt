-- ===== src/Matrix/Tests.antt =====
-- The matrix at concrete inputs: two switches, and a Nautobot that has one cable of each label.
use nautobot_docker_compose.Base.Dict.{keys, insert, lookup}
use nautobot_docker_compose.Matrix.Order.{
  remaining_rows, set_order, number_remaining, number_ids, uuids_of, reorder,
}
use nautobot_docker_compose.Matrix.Actions.{
  validate_row, new_cables, set_color, update_rows, approve_rows, execute_rows, validate_rows, act,
  Action, run_actions, World,
}
use nautobot_docker_compose.Matrix.Actions.Workflow.Refinement.{run_actions-RowTrace}
use nautobot_docker_compose.Matrix.Actions.Workflow.Executed.{after_approval, run_actions-executed}
use nautobot_docker_compose.Base.{
  ℕ, Option, true, distinct, leb, Bool, all, list_beq, keep, ◌&&◌, ◌≤◌, ◌++◌, list_eq, ◌==◌, refl,
  nat_eq, length, not, if◌then◌else◌, ◌⊎◌, ◌↔◌, ◌+◌, any, ◌≡◌, none, [], ◌∷◌, some, List, All,
  contains, map,
}
use nautobot_docker_compose.Matrix.Actions.Workflow.{RowTrace, Rowwise}
use nautobot_docker_compose.Base.Sort.{text_le, insert_sorted, sort_by}
use nautobot_docker_compose.Base.Dedupe.{dedupe_onto}
use nautobot_docker_compose.Inventory.Drift.{join}
use nautobot_docker_compose.Matrix.Rows.{
  device_b_display, executed, conflict, draft, swap_plan_endpoints, approved, Interface, Device,
  ConnectionPlan,
}
use nautobot_docker_compose.Matrix.Materialize.{
  link_b, link_a, link_all_b, link_all_a, collect_unresolved_device_names, missing_batch_defaults,
  materialize_names, materialize_missing_devices, Nautobot, BatchDefaults,
}
use nautobot_docker_compose.Base.Text.{is_space, drop_while, strip_by, strip, Text, codes}
use nautobot_docker_compose.Matrix.Order.Places.{reorder-places, order_after, at_place}
use nautobot_docker_compose.Matrix.Colors.{
  lower_char, is_hex, is_six_hex, without_mark, color_of, normalize_row_color-IsColor,
  normalize_row_color, IsColor,
}
use nautobot_docker_compose.Matrix.Batch.{
  between, execute, execute_step, execute_each, approve_all, is_validated, is_unchecked,
  checked_status, created, is_executed, validate_connection, not_created, is_approved, update_row,
  count_rows, Created, pending, validate_each, validate_batch, approved_batch, execute_batch, Batch,
}
use nautobot_docker_compose.Matrix.Validation.{
  endpoint_key, endpoint_b, endpoint_a, is_closed, is_current, collect_reserved_onto, warning_tests,
  blocker_tests, messages, collect_row_reserved_interface_ids, validate_plan_row,
}
use nautobot_docker_compose.Matrix.Validation.Reserved.{reserved-uses, uses}
use nautobot_docker_compose.Orders.Changes.{created}
use nautobot_docker_compose.Matrix.Actions.Counts.{execute_batch-counts}
use nautobot_docker_compose.Matrix.Validation.Laws.{blockers-IsSound, swap-blockers, IsSound}
use nautobot_docker_compose.Matrix.Actions.Approval.{run_actions-cables}
use nautobot_docker_compose.Matrix.Actions.Linked.{run_actions-IsLinked, IsLinked}

abbrev switch : Device
switch = record { id = codes "d1"; name = codes "sw1" }

abbrev port : Interface
port = record { id = codes "i1"; name = codes "Te1/1"; cable = none }

abbrev far_port : Interface
far_port = record { id = codes "i2"; name = codes "Te1/2"; cable = none }

abbrev plan : ConnectionPlan
plan = record {
  id = codes "p1";
  row_order = 1;
  device_a = some switch;
  device_a_name = [];
  interface_a = some port;
  interface_a_name = [];
  sfp_a = [];
  device_b = none;
  device_b_name = codes "sw2";
  interface_b = some far_port;
  interface_b_name = [];
  sfp_b = [];
  medium = codes "DAC";
  speed = codes "10G";
  status = draft;
  validation_errors = [];
  validation_warnings = [];
  created_cable = none;
  notes = [];
  row_color = [];
}

-- A row that wants the same port.
abbrev rival : ConnectionPlan
rival = record plan { id = codes "p2"; interface_b = none; interface_b_name = codes "Te1/9" }

abbrev create : List Text → Interface → Interface → Text → List Text × Created
create cables a b label =
    if contains cables label
    then (cables, not_created (codes "duplicate"))
    else (cables ++ (label ∷ []), created label)

abbrev one_row : World (List Text)
one_row = record { cables = []; batch = record { status = pending; plans = plan ∷ [] } }

abbrev steps : List Action
steps = validate_rows ∷ approve_rows ∷ execute_rows ∷ []

matrix_run : (run_actions create one_row steps).cables ≡ codes "10G | Te1/1 <-> Te1/2" ∷ []
unfolding run_actions act validate_batch validate_each update_row validate_connection
    validate_plan_row messages blocker_tests warning_tests collect_row_reserved_interface_ids
    collect_reserved_onto is_current is_closed endpoint_a endpoint_b endpoint_key checked_status
    is_unchecked is_approved is_validated approve_all execute_batch execute_each execute_step
    execute between keep contains list_beq any uses is_executed count_rows normalize_row_color
    color_of without_mark is_six_hex is_hex lower_char all strip strip_by drop_while is_space
    swap_plan_endpoints update_rows set_color
matrix_run = refl

-- Both rows want one port, so neither is accepted.
rivals_conflict :
    map
      (λ row. row.status)
      (validate_batch (record { status = pending; plans = plan ∷ rival ∷ [] })).plans
    ≡ conflict ∷ conflict ∷ []
unfolding matrix_run
rivals_conflict = refl

blockers-IsSound_example :
    ((validate_plan_row (codes "i9" ∷ []) plan).blockers ≡ []) ↔ IsSound (codes "i9" ∷ []) plan
blockers-IsSound_example = blockers-IsSound (codes "i9" ∷ []) plan (refl, tt, refl, refl)

swap-blockers_example :
    (((validate_plan_row (codes "i1" ∷ []) (swap_plan_endpoints plan)).blockers ≡ [])
      ↔ ((validate_plan_row (codes "i1" ∷ []) plan).blockers ≡ []))
    × (swap_plan_endpoints (swap_plan_endpoints plan) ≡ plan)
swap-blockers_example = swap-blockers (codes "i1" ∷ []) plan (refl, tt, refl, refl)

reserved-uses_example :
    contains (collect_row_reserved_interface_ids (plan ∷ rival ∷ []) (codes "p1")) (codes "i1")
    ≡ any (λ row. not (row.id == codes "p1") && uses (codes "i1") row) (plan ∷ rival ∷ [])
reserved-uses_example = reserved-uses (plan ∷ rival ∷ []) (codes "p1") (codes "i1") refl refl

normalize_row_color-IsColor_example :
    ((codes "#ffaa00" ≡ []) ⊎ IsColor (codes "#ffaa00"))
    × (length (codes "#ffaa00") ≤ 7)
    × (normalize_row_color (some (codes "#ffaa00")) ≡ some (codes "#ffaa00"))
unfolding matrix_run
normalize_row_color-IsColor_example =
    normalize_row_color-IsColor (some (codes " FFaa00 ")) (codes "#ffaa00") refl

run_actions-RowTrace_example :
    Rowwise (RowTrace steps) (plan ∷ []) (run_actions create one_row steps).batch.plans
run_actions-RowTrace_example =
    run_actions-RowTrace create one_row steps (unfold distinct contains in refl)

run_actions-executed_example :
    All
      (λ row. ¬ (row.status ≡ executed))
      (run_actions create one_row (execute_rows ∷ validate_rows ∷ approve_rows ∷ [])).batch.plans
run_actions-executed_example =
    run_actions-executed create one_row (execute_rows ∷ validate_rows ∷ approve_rows ∷ [])
      (unfold distinct contains in refl) (refl, tt) (unfold after_approval any in refl)

-- After the execution the row reads the new cable at its interfaces, so a check puts it in conflict.
matrix_recheck :
    map
      (λ row. row.status)
      (run_actions create one_row
        (validate_rows ∷ approve_rows ∷ execute_rows ∷ validate_row (codes "p1") ∷ [])).batch.plans
    ≡ conflict ∷ []
unfolding matrix_run new_cables lookup insert
matrix_recheck = refl

run_actions-IsLinked_example : All IsLinked (run_actions create one_row steps).batch.plans
run_actions-IsLinked_example = run_actions-IsLinked create one_row steps ((λ h. cc), tt)

run_actions-cables_example :
    (run_actions create one_row (validate_rows ∷ execute_rows ∷ [])).cables ≡ []
unfolding matrix_run
run_actions-cables_example =
    run_actions-cables create one_row (validate_rows ∷ execute_rows ∷ []) refl (refl, tt)

abbrev signed : Batch
signed = record { status = approved_batch; plans = record plan { status = approved } ∷ [] }

execute_batch-counts_example :
    ((execute_batch create [] signed).2.success_count
        + (execute_batch create [] signed).2.error_count
      ≡ count_rows is_approved signed.plans)
    × (count_rows is_executed (execute_batch create [] signed).1.plans
        ≡ count_rows is_executed signed.plans + (execute_batch create [] signed).2.success_count)
execute_batch-counts_example = execute_batch-counts create [] signed

-- By number.
abbrev by_order : ConnectionPlan → ConnectionPlan → Bool
by_order a b = leb a.row_order b.row_order

-- A UUID in any case of its letters.
abbrev uuid : Text → Option Text
uuid id = some (map lower_char id)

reorder-places_example :
    reorder uuid by_order (plan ∷ rival ∷ []) (codes "p2" ∷ [])
    ≡ some (
        map
          (at_place (order_after by_order (plan ∷ rival ∷ []) (codes "p2" ∷ [])))
          (plan ∷ rival ∷ []))
unfolding list_beq
reorder-places_example =
    reorder-places uuid by_order (plan ∷ rival ∷ []) (codes "p2" ∷ [])
      (unfold distinct contains in refl) (unfold lower_char in (refl, tt))

abbrev orders : Option (List ConnectionPlan) → List ℕ
orders none = []
orders (some rows) = map (λ row. row.row_order) rows

abbrev last_row : ConnectionPlan
last_row = record rival { row_order = 5 }

-- The row of an identifier in upper case keeps its number, so it does not come first.
spelled_otherwise :
    orders (reorder uuid by_order (plan ∷ last_row ∷ []) (codes "P2" ∷ [])) ≡ 2 ∷ 5 ∷ []
unfolding matrix_run reorder uuids_of number_ids number_remaining set_order remaining_rows sort_by
    insert_sorted keys lookup insert
spelled_otherwise = refl

-- A single check of an executed row, whose interfaces have their cable by then.
abbrev wired_port : Interface
wired_port = record port { cable = some (codes "c1") }

abbrev done : ConnectionPlan
done = record plan {
  status = executed;
  created_cable = some (codes "c1");
  interface_a = some wired_port;
}

executed_conflicts : (validate_connection (done ∷ []) done).status ≡ conflict
unfolding matrix_run
executed_conflicts = refl

-- A Nautobot whose state is the names of its devices.
abbrev device_named : Text → Device
device_named name = record { id = codes "id-" ++ name; name = name }

abbrev devices : Nautobot (List Text)
devices = record {
  device_for = λ names name. (
    if contains names name then names else names ++ (name ∷ []),
    device_named name,
    not (contains names name),
  );
  finalize = λ names device. (names, [], []);
  interface_for = λ names device name.
      (names, record { id = device.name ++ name; name = name; cable = none }, true);
  has_planned_status = true;
}

abbrev defaults : BatchDefaults
defaults = record {
  location = codes "l1";
  default_device_role = codes "r1";
  default_device_status = [];
}

-- The far device is created and the row refers to it.
materialized :
    map device_b_display (materialize_missing_devices devices defaults [] (plan ∷ [])).plans
    ≡ codes "sw2" ∷ []
unfolding materialize_missing_devices materialize_names missing_batch_defaults
    collect_unresolved_device_names link_all_a link_all_b link_a link_b device_b_display join
    dedupe_onto sort_by insert_sorted text_le keep contains list_beq strip strip_by drop_while
    is_space
materialized = refl

-- With a blank before its name the device is created, and the row does not refer to it.
abbrev blank_before : ConnectionPlan
blank_before = record plan { device_b_name = codes " sw2" }

blank_unlinked :
    ((materialize_missing_devices devices defaults [] (blank_before ∷ [])).result.created_devices
      ≡ codes "sw2" ∷ [])
    × (map
          (λ row. row.device_b)
          (materialize_missing_devices devices defaults [] (blank_before ∷ [])).plans
        ≡ none ∷ [])
unfolding materialized
blank_unlinked = (refl, refl)
