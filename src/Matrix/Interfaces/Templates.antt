-- ===== src/Matrix/Interfaces/Templates.antt =====
-- ensure_device_type_interfaces and render_module_interface_name of
-- services/interface_finalization.py. Interfaces have different names on a device, and every save
-- succeeds.
pub mod Settled
pub mod Find
use nautobot_docker_compose.Matrix.Interfaces.{
  replace_all, replace_first_number, cleanup_interface_name,
}
use nautobot_docker_compose.Base.Text.{or_text, is_empty, codes, Text}
use nautobot_docker_compose.Base.{
  ◌&&◌, [], nat_eq, ◌==◌, false, if◌then◌else◌, list_eq, not, ◌++◌, ◌∷◌, true, ℕ, Bool, List, arith,
}
use nautobot_docker_compose.Matrix.Interfaces.Types.{InterfaceTemplate, DeviceInterface}

-- An interface with whether it was changed: `if interface.x != value: interface.x = value;
-- changed = True`.
abbrev pub Edited : Type 0
Edited = DeviceInterface × Bool

abbrev pub edit : Bool → (DeviceInterface → DeviceInterface) → Edited → Edited
edit true f edited = (f edited.0, true)
edit false f edited = edited

unfoldable pub bool_differs : Bool → Bool → Bool
bool_differs true b = not b
bool_differs false b = b

-- The attributes of a template, its label where it has one, and the status where there is one.
unfoldable pub apply_template : Text → InterfaceTemplate → DeviceInterface → Edited
unfolding bool_differs
apply_template status template interface =
    let kind =
      edit (not (interface.kind == template.kind)) (λ i. record i { kind = template.kind })
        (interface, false) in
    let mgmt =
      edit (bool_differs interface.mgmt_only template.mgmt_only)
        (λ i. record i { mgmt_only = template.mgmt_only }) kind in
    let described =
      edit (not (interface.description == template.description))
        (λ i. record i { description = template.description }) mgmt in
    let labelled =
      edit (not (is_empty template.label) && not (interface.label == template.label))
        (λ i. record i { label = template.label }) described in
    edit (not (is_empty status) && not (interface.status == status))
      (λ i. record i { status = status }) labelled

unfoldable pub new_interface : Text → Text → InterfaceTemplate → DeviceInterface
new_interface status name template = record {
  name = name;
  label = template.label;
  kind = template.kind;
  mgmt_only = template.mgmt_only;
  description = template.description;
  status = status;
}

-- The interfaces, and the entries of those that a run created and updated.
pub record Ensured : Type 0 where
  pub interfaces : List DeviceInterface
  pub created_interfaces : List Text
  pub updated_interfaces : List Text

abbrev entry_if : Bool → Text → List Text
entry_if true text = text ∷ []
entry_if false text = []

module _ (device_name status : Text) where
  -- `get_or_create` and the changes, for one name.
  unfoldable pub put_interface : Text → InterfaceTemplate → List DeviceInterface → Ensured
  unfolding apply_template new_interface
  put_interface name template [] = record {
    interfaces = (apply_template status template (new_interface status name template)).0 ∷ [];
    created_interfaces = (device_name ++ (codes ":" ++ name)) ∷ [];
    updated_interfaces =
        entry_if (apply_template status template (new_interface status name template)).1
          (device_name ++ (codes ":" ++ name));
  }
  put_interface name template (interface ∷ interfaces) =
      let rest = put_interface name template interfaces in
      if interface.name == name
      then record {
        interfaces = (apply_template status template interface).0 ∷ interfaces;
        created_interfaces = [];
        updated_interfaces =
            entry_if (apply_template status template interface).1
              (device_name ++ (codes ":" ++ name));
      }
      else record rest { interfaces = interface ∷ rest.interfaces }

  -- A template that gives no name is left out.
  unfoldable pub put_named : Text → InterfaceTemplate → List DeviceInterface → Ensured
  unfolding put_interface
  put_named name template interfaces =
      if is_empty name
      then record { interfaces = interfaces; created_interfaces = []; updated_interfaces = [] }
      else put_interface name template interfaces

  -- The loop over the templates, with the name that each gives.
  unfoldable pub ensure_interfaces :
      (InterfaceTemplate → Text) → List InterfaceTemplate → List DeviceInterface → Ensured
  unfolding put_named
  ensure_interfaces name_of [] interfaces = record {
    interfaces = interfaces;
    created_interfaces = [];
    updated_interfaces = [];
  }
  ensure_interfaces name_of (template ∷ templates) interfaces =
      let first = put_named (name_of template) template interfaces in
      let rest = ensure_interfaces name_of templates first.interfaces in
      record {
        interfaces = rest.interfaces;
        created_interfaces = first.created_interfaces ++ rest.created_interfaces;
        updated_interfaces = first.updated_interfaces ++ rest.updated_interfaces;
      }

module _ (is_decimal : ℕ → Bool) where
  -- The name that a template gives, on a member of a stack or not.
  unfoldable pub interface_name_of : Text → InterfaceTemplate → Text
  interface_name_of member_position template =
      if is_empty member_position
      then template.name
      else cleanup_interface_name (replace_first_number is_decimal template.name member_position)

  unfoldable pub ensure_device_type_interfaces :
      Text → Text → Text → List InterfaceTemplate → List DeviceInterface → Ensured
  unfolding ensure_interfaces interface_name_of
  ensure_device_type_interfaces device_name status member_position templates interfaces =
      ensure_interfaces device_name status (interface_name_of member_position) templates interfaces

  -- `render_module_interface_name`: a module without a name stands in slot 1.
  unfoldable pub render_module_interface_name : InterfaceTemplate → Text → Text → Text
  render_module_interface_name template module_name member_position =
      let raw_name = or_text template.name template.label in
      let slot = or_text module_name (codes "1") in
      let rendered =
        replace_all (codes "{{module}}") slot 0 (
          replace_all (codes "<module>") slot 0 (replace_all (codes "{module}") slot 0 raw_name)) in
      cleanup_interface_name (
        if is_empty member_position
        then rendered
        else replace_first_number is_decimal rendered member_position)
