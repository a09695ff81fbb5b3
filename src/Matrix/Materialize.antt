-- ===== src/Matrix/Materialize.antt =====
-- services/materialization.py: the devices that a batch names and that do not exist yet are created, and
-- its rows refer to them. What Nautobot does is a record of operations on its state: to get or create a
-- device, to finalise its interfaces, and to get or create one of them. A batch's default is its key,
-- empty where there is none. Every save succeeds.
use nautobot_docker_compose.Base.{
  ◌&&◌, none, false, keep, true, ◌++◌, not, list_eq, ◌==◌, nat_eq, Bool, if◌then◌else◌, some, ◌∷◌,
  Option, List, [],
}
use nautobot_docker_compose.Base.Dedupe.{dedupe_onto}
use nautobot_docker_compose.Base.Text.{codes, strip, is_empty, Text}
use nautobot_docker_compose.Base.Sort.{text_le, sort_by}
use nautobot_docker_compose.Matrix.Rows.{Interface, ConnectionPlan, Device}
use nautobot_docker_compose.Inventory.Drift.{join}

pub record BatchDefaults : Type 0 where
  pub location : Text
  pub default_device_role : Text
  pub default_device_status : Text

-- `missing_batch_defaults`
unfoldable pub missing_batch_defaults : BatchDefaults → List Text
missing_batch_defaults defaults =
    (if is_empty defaults.location then codes "location" ∷ [] else [])
    ++ (if is_empty defaults.default_device_role then codes "default_device_role" ∷ [] else [])

-- `if not plan.device_a and plan.device_a_name: names.add(plan.device_a_name.strip())`
unresolved_name : Option Device → Text → List Text
unresolved_name (some device) name = []
unresolved_name none [] = []
unresolved_name none (c ∷ cs) = strip (c ∷ cs) ∷ []

unresolved_names : List ConnectionPlan → List Text
unfolding unresolved_name
unresolved_names [] = []
unresolved_names (plan ∷ plans) =
    unresolved_name plan.device_a plan.device_a_name
    ++ (unresolved_name plan.device_b plan.device_b_name ++ unresolved_names plans)

-- `collect_unresolved_device_names`
unfoldable pub collect_unresolved_device_names : List ConnectionPlan → List Text
unfolding unresolved_names
collect_unresolved_device_names plans =
    sort_by text_le (keep (λ name. not (is_empty name)) (dedupe_onto [] (unresolved_names plans)))

pub record MaterializationResult : Type 0 where
  pub created_devices : List Text
  pub reused_devices : List Text
  pub created_interfaces : List Text
  pub errors : List Text

abbrev empty_result : MaterializationResult
empty_result = record {
  created_devices = [];
  reused_devices = [];
  created_interfaces = [];
  errors = [];
}

-- A device or an interface, and whether it was created.
pub record Nautobot (S : Type 0) : Type 0 where
  pub device_for : S → Text → S × Device × Bool
  pub finalize : S → Device → S × List Text × List Text
  pub interface_for : S → Device → Text → S × Interface × Bool
  pub has_planned_status : Bool

module _ {S : Type 0} (nautobot : Nautobot S) where
  -- The state, the result so far, and the rows that are done.
  pub record Progress : Type 0 where
    pub state : S
    pub result : MaterializationResult
    pub plans : List ConnectionPlan

  created_entry : Device → Text → Bool → List Text
  created_entry device name true = (device.name ++ (codes ":" ++ name)) ∷ []
  created_entry device name false = []

  abbrev add_interface : Device → Text → Bool → MaterializationResult → MaterializationResult
  add_interface device name is_created result = record result {
    created_interfaces = result.created_interfaces ++ created_entry device name is_created;
  }

  -- One row whose end A has this name: the device, and the interface where the row names one.
  unfoldable pub link_a :
      Device
      → S
      → MaterializationResult
      → ConnectionPlan
      → S × MaterializationResult × ConnectionPlan
  unfolding created_entry
  link_a device s result plan =
      let (s_now, interface, is_created) = nautobot.interface_for s device plan.interface_a_name in
      if is_empty plan.interface_a_name
      then (s, result, record plan { device_a = some device; device_a_name = [] })
      else (
        s_now,
        add_interface device plan.interface_a_name is_created result,
        record plan {
          device_a = some device;
          device_a_name = [];
          interface_a = some interface;
          interface_a_name = [];
        },
      )

  unfoldable pub link_b :
      Device
      → S
      → MaterializationResult
      → ConnectionPlan
      → S × MaterializationResult × ConnectionPlan
  unfolding created_entry
  link_b device s result plan =
      let (s_now, interface, is_created) = nautobot.interface_for s device plan.interface_b_name in
      if is_empty plan.interface_b_name
      then (s, result, record plan { device_b = some device; device_b_name = [] })
      else (
        s_now,
        add_interface device plan.interface_b_name is_created result,
        record plan {
          device_b = some device;
          device_b_name = [];
          interface_b = some interface;
          interface_b_name = [];
        },
      )

  -- `device__isnull=True, device_name=name`
  is_named : Option Device → Text → Text → Bool
  is_named none device_name name = device_name == name
  is_named (some device) device_name name = false

  abbrev push : ConnectionPlan → Progress → Progress
  push plan progress = record progress { plans = plan ∷ progress.plans }

  -- The loops over the rows that the two queries give.
  unfoldable pub link_all_a :
      Device → Text → S → MaterializationResult → List ConnectionPlan → Progress
  unfolding link_a is_named
  link_all_a device name s result [] = record { state = s; result = result; plans = [] }
  link_all_a device name s result (plan ∷ plans) =
      let (s_now, result_now, plan_now) =
        if is_named plan.device_a plan.device_a_name name
        then link_a device s result plan
        else (s, result, plan) in
      push plan_now (link_all_a device name s_now result_now plans)

  unfoldable pub link_all_b :
      Device → Text → S → MaterializationResult → List ConnectionPlan → Progress
  unfolding link_b is_named
  link_all_b device name s result [] = record { state = s; result = result; plans = [] }
  link_all_b device name s result (plan ∷ plans) =
      let (s_now, result_now, plan_now) =
        if is_named plan.device_b plan.device_b_name name
        then link_b device s result plan
        else (s, result, plan) in
      push plan_now (link_all_b device name s_now result_now plans)

  add_device : Text → Bool → MaterializationResult → MaterializationResult
  add_device name true result = record result {
    created_devices = result.created_devices ++ (name ∷ []);
  }
  add_device name false result = record result {
    reused_devices = result.reused_devices ++ (name ∷ []);
  }

  -- The loop over the names.
  unfoldable pub materialize_names : List Text → Progress → Progress
  unfolding add_device link_all_a link_all_b
  materialize_names [] progress = progress
  materialize_names (name ∷ names) progress =
      let (s, device, is_created) = nautobot.device_for progress.state name in
      let (s_final, created_names, errors) = nautobot.finalize s device in
      let counted = add_device name is_created progress.result in
      let result = record counted {
        created_interfaces = counted.created_interfaces ++ created_names;
        errors = counted.errors ++ errors;
      } in
      let linked_a = link_all_a device name s_final result progress.plans in
      let linked_b = link_all_b device name linked_a.state linked_a.result linked_a.plans in
      materialize_names names linked_b

  abbrev stopped : S → List ConnectionPlan → Text → Progress
  stopped s plans message = record {
    state = s;
    result = record empty_result { errors = message ∷ [] };
    plans = plans;
  }

  -- The generic device type that is made for a batch without one is of the operation that creates devices.
  unfoldable pub materialize_missing_devices : BatchDefaults → S → List ConnectionPlan → Progress
  unfolding materialize_names missing_batch_defaults collect_unresolved_device_names join
  materialize_missing_devices defaults s plans =
      let missing = missing_batch_defaults defaults in
      if not (missing == [])
      then stopped s plans (codes "Missing batch defaults: " ++ join (codes ", ") missing)
      else if is_empty defaults.default_device_status && not nautobot.has_planned_status
      then stopped s plans
          (codes "Missing batch default device status and no 'Planned' status exists.")
      else materialize_names (collect_unresolved_device_names plans)
          (record { state = s; result = empty_result; plans = plans })
