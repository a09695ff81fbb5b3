-- ===== src/Matrix/Validation.antt =====
-- services/validation.py and services/interface_options.py: the interfaces that other rows reserve,
-- and what blocks a row.
pub mod Laws
pub mod Reserved
use nautobot_docker_compose.Matrix.Rows.{
  failed, executed, Device, Interface, PlanStatus, ConnectionPlan,
}
use nautobot_docker_compose.Base.{
  ◌&&◌, ◌==◌, list_eq, contains, nat_eq, some, false, true, keep, not, if◌then◌else◌, none, [],
  Bool, ◌∷◌, Option, List, arith,
}
use nautobot_docker_compose.Base.Text.{is_empty, codes, or_text, Text}
use nautobot_docker_compose.Base.Dedupe.{append_new}

-- `status in CLOSED_PLAN_STATUSES`
unfoldable pub is_closed : PlanStatus → Bool
is_closed executed = true
is_closed failed = true
is_closed _ = false

-- `plan.interface_a_id`: of no interface, no id.
abbrev pub interface_id : Option Interface → Text
interface_id none = []
interface_id (some interface) = interface.id

-- `if interface_id: reserved.add(interface_id)`
abbrev pub add_id : Text → List Text → List Text
add_id [] reserved = reserved
add_id (c ∷ cs) reserved = append_new reserved (c ∷ cs)

abbrev reserve : List Text → ConnectionPlan → List Text
reserve reserved row =
    if is_closed row.status
    then reserved
    else add_id (interface_id row.interface_b) (add_id (interface_id row.interface_a) reserved)

-- `collect_reserved_interface_ids`
unfoldable pub collect_reserved_onto : List Text → List ConnectionPlan → List Text
unfolding is_closed
collect_reserved_onto reserved [] = reserved
collect_reserved_onto reserved (row ∷ rows) = collect_reserved_onto (reserve reserved row) rows

unfoldable pub collect_reserved_interface_ids : List ConnectionPlan → List Text
collect_reserved_interface_ids rows = collect_reserved_onto [] rows

-- `collect_row_reserved_interface_ids`: an empty id of the current row leaves no row out.
unfoldable pub is_current : Text → ConnectionPlan → Bool
is_current current row = not (is_empty current) && row.id == current

unfoldable pub collect_row_reserved_interface_ids : List ConnectionPlan → Text → List Text
unfolding is_current
collect_row_reserved_interface_ids rows current =
    collect_reserved_onto [] (keep (λ row. not (is_current current row)) rows)

pub record ValidationResult : Type 0 where
  pub blockers : List Text
  pub warnings : List Text

abbrev device_id : Option Device → Text
device_id none = []
device_id (some device) = device.id

abbrev key_pair : Text → Text → Option (Text × Text)
key_pair [] interface_key = none
key_pair (c ∷ cs) [] = none
key_pair (c ∷ cs) (d ∷ ds) = some ((c ∷ cs), (d ∷ ds))

-- `_endpoint_key`
unfoldable pub endpoint_key : Option Device → Text → Option Interface → Text → Option (Text × Text)
endpoint_key device device_name interface interface_name =
    key_pair (or_text (device_id device) device_name)
      (or_text (interface_id interface) interface_name)

abbrev is_same_endpoint : Option (Text × Text) → Option (Text × Text) → Bool
is_same_endpoint none b = false
is_same_endpoint (some a) none = false
is_same_endpoint (some a) (some b) = a.0 == b.0 && a.1 == b.1

abbrev is_given {ℓ} : {A : Type ℓ} → Option A → Text → Bool
is_given none name = not (is_empty name)
is_given (some a) name = true

abbrev is_unresolved : Option Device → Text → Bool
is_unresolved none name = not (is_empty name)
is_unresolved (some device) name = false

abbrev is_cabled : Option Interface → Bool
is_cabled none = false
is_cabled (some interface) = elim interface.cable [ none ↦ false | some cable ↦ true ]

abbrev is_reserved : List Text → Option Interface → Bool
is_reserved reserved none = false
is_reserved reserved (some interface) = contains reserved interface.id

-- A list that each test that succeeds appends its message to.
unfoldable pub messages : List (Bool × Text) → List Text
messages [] = []
messages ((test, message) ∷ rest) = if test then message ∷ messages rest else messages rest

unfoldable pub endpoint_a : ConnectionPlan → Option (Text × Text)
unfolding endpoint_key
endpoint_a plan =
    endpoint_key plan.device_a plan.device_a_name plan.interface_a plan.interface_a_name

unfoldable pub endpoint_b : ConnectionPlan → Option (Text × Text)
unfolding endpoint_key
endpoint_b plan =
    endpoint_key plan.device_b plan.device_b_name plan.interface_b plan.interface_b_name

unfoldable pub blocker_tests : List Text → ConnectionPlan → List (Bool × Text)
unfolding endpoint_a endpoint_b
blocker_tests reserved plan =
    (not (is_given plan.device_a plan.device_a_name), codes "Device A is required")
    ∷ (not (is_given plan.device_b plan.device_b_name), codes "Device B is required")
    ∷ (not (is_given plan.interface_a plan.interface_a_name), codes "Interface A is required")
    ∷ (not (is_given plan.interface_b plan.interface_b_name), codes "Interface B is required")
    ∷ (
      is_same_endpoint (endpoint_a plan) (endpoint_b plan),
      codes "Device A/interface A and Device B/interface B are the same endpoint",
    )
    ∷ (is_cabled plan.interface_a, codes "Interface A is already cabled in Nautobot")
    ∷ (is_reserved reserved plan.interface_a, codes "already used in this matrix")
    ∷ (is_cabled plan.interface_b, codes "Interface B is already cabled in Nautobot")
    ∷ (is_reserved reserved plan.interface_b, codes "already used in this matrix")
    ∷ []

unfoldable pub warning_tests : ConnectionPlan → List (Bool × Text)
warning_tests plan =
    (
      is_unresolved plan.device_a plan.device_a_name,
      codes "Device A is unresolved and will not be cabled until materialized",
    )
    ∷ (
      is_unresolved plan.device_b plan.device_b_name,
      codes "Device B is unresolved and will not be cabled until materialized",
    )
    ∷ []

unfoldable pub validate_plan_row : List Text → ConnectionPlan → ValidationResult
unfolding messages blocker_tests warning_tests
validate_plan_row reserved plan = record {
  blockers = messages (blocker_tests reserved plan);
  warnings = messages (warning_tests plan);
}
