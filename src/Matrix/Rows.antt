-- ===== src/Matrix/Rows.antt =====
-- The rows of the matrix: ConnectionPlan of models.py with its displays, and swap_plan_endpoints of
-- services/row_actions.py. An object of Nautobot is what the rows read of it.
use nautobot_docker_compose.Base.{none, ◌++◌, List, some, ℕ, Option}
use nautobot_docker_compose.Base.Text.{codes, or_text, Text}

pub data PlanStatus : Type 0 where
  draft validated approved executed conflict failed : PlanStatus

pub record Device : Type 0 where
  pub id : Text
  pub name : Text

-- `cable` is the interface's cable, if it has one.
pub record Interface : Type 0 where
  pub id : Text
  pub name : Text
  pub cable : Option Text

pub record ConnectionPlan : Type 0 where
  pub id : Text
  pub row_order : ℕ
  pub device_a : Option Device
  pub device_a_name : Text
  pub interface_a : Option Interface
  pub interface_a_name : Text
  pub sfp_a : Text
  pub device_b : Option Device
  pub device_b_name : Text
  pub interface_b : Option Interface
  pub interface_b_name : Text
  pub sfp_b : Text
  pub medium : Text
  pub speed : Text
  pub status : PlanStatus
  pub validation_errors : List Text
  pub validation_warnings : List Text
  pub created_cable : Option Text
  pub notes : Text
  pub row_color : Text

-- `device.name if device else device_name`
abbrev pub device_name_or : Option Device → Text → Text
device_name_or none name = name
device_name_or (some device) name = device.name

abbrev pub interface_name_or : Option Interface → Text → Text
interface_name_or none name = name
interface_name_or (some interface) name = interface.name

unfoldable pub device_a_display : ConnectionPlan → Text
device_a_display plan = device_name_or plan.device_a plan.device_a_name

unfoldable pub device_b_display : ConnectionPlan → Text
device_b_display plan = device_name_or plan.device_b plan.device_b_name

unfoldable pub interface_a_display : ConnectionPlan → Text
interface_a_display plan = interface_name_or plan.interface_a plan.interface_a_name

unfoldable pub interface_b_display : ConnectionPlan → Text
interface_b_display plan = interface_name_or plan.interface_b plan.interface_b_name

-- `str(plan)`
unfoldable pub plan_text : ConnectionPlan → Text
plan_text plan =
    device_name_or plan.device_a (or_text plan.device_a_name (codes "?"))
    ++ (codes ":"
        ++ (interface_name_or plan.interface_a (or_text plan.interface_a_name (codes "?"))
            ++ (codes " <-> "
                ++ (device_name_or plan.device_b (or_text plan.device_b_name (codes "?"))
                    ++ (codes ":"
                        ++ interface_name_or plan.interface_b
                            (or_text plan.interface_b_name (codes "?")))))))

-- `swap_plan_endpoints`, and the method `swap_endpoints` that calls it
unfoldable pub swap_plan_endpoints : ConnectionPlan → ConnectionPlan
swap_plan_endpoints plan = record plan {
  device_a = plan.device_b;
  device_b = plan.device_a;
  device_a_name = plan.device_b_name;
  device_b_name = plan.device_a_name;
  interface_a = plan.interface_b;
  interface_b = plan.interface_a;
  interface_a_name = plan.interface_b_name;
  interface_b_name = plan.interface_a_name;
  sfp_a = plan.sfp_b;
  sfp_b = plan.sfp_a;
}
