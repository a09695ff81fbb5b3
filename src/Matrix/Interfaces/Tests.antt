-- ===== src/Matrix/Interfaces/Tests.antt =====
-- Names and types of interfaces at concrete inputs.
use nautobot_docker_compose.Base.Text.{
  strip_prefix?, starts_with, within, is_space, drop_while, strip_by, strip, Text, codes,
}
use nautobot_docker_compose.Matrix.Interfaces.{
  replace_first_number, forced_interface_type_from_name, single_slashes, replace_all,
  virtual_prefixes, cleanup_interface_name, has_part, infer_interface_type_from_name,
}
use nautobot_docker_compose.Matrix.Interfaces.Types.{
  template_named, with_type, wanted_type, normalize-settles, normalize_device_interface_types,
  AllTyped, InterfaceTemplate, DeviceInterface,
}
use nautobot_docker_compose.Matrix.Interfaces.Templates.Find.{
  ensure_interfaces-expected, expected, interface_named,
}
use nautobot_docker_compose.Matrix.Interfaces.Templates.{
  ensure_interfaces, render_module_interface_name,
}
use nautobot_docker_compose.Base.{
  false, ℕ, Bool, list_beq, keep, list_eq, refl, nat_eq, any, ◌≡◌, [], ◌∷◌, map,
}

-- The class of the ASCII digits.
abbrev ascii_digit : ℕ → Bool
ascii_digit c = within b'0' b'9' c

abbrev same : Text → Text
same s = s

-- A slash that a space separates from another stays.
interfaces_run : cleanup_interface_name (codes "1/ /2") ≡ codes "1//2"
unfolding cleanup_interface_name single_slashes infer_interface_type_from_name
    forced_interface_type_from_name normalize_device_interface_types wanted_type with_type
    template_named replace_first_number render_module_interface_name has_part virtual_prefixes
    replace_all starts_with strip_prefix? drop_while strip strip_by is_space keep list_beq any
interfaces_run = refl

abbrev bay : Text → InterfaceTemplate
bay name = record {
  name = name;
  label = [];
  kind = codes "25gbase-x-sfp28";
  mgmt_only = false;
  description = [];
}

braces_left :
    render_module_interface_name ascii_digit (bay (codes "Te1/{{module}}/1")) [] (codes "2")
    ≡ codes "Te2/{1}/1"
unfolding interfaces_run
braces_left = refl

names_typed :
    map
      (infer_interface_type_from_name ascii_digit ascii_digit same)
      (codes "te1/1" ∷ codes "gi1.5" ∷ codes "po3" ∷ codes "port" ∷ [])
    ≡ codes "10gbase-x-sfpp" ∷ codes "virtual" ∷ codes "lag" ∷ codes "other" ∷ []
unfolding interfaces_run
names_typed = refl

abbrev vlan : DeviceInterface
vlan = record {
  name = codes "vlan5";
  label = [];
  kind = codes "other";
  mgmt_only = false;
  description = [];
  status = [];
}

normalize-settles_example :
    AllTyped same ascii_digit ascii_digit []
      (vlan ∷ [])
      (normalize_device_interface_types same ascii_digit ascii_digit []
        (codes "sw1")
        (vlan ∷ [])).interfaces
    × (normalize_device_interface_types same ascii_digit ascii_digit []
          (codes "sw1")
          (normalize_device_interface_types same ascii_digit ascii_digit []
            (codes "sw1")
            (vlan ∷ [])).interfaces
        ≡ record {
          interfaces =
              (normalize_device_interface_types same ascii_digit ascii_digit []
                (codes "sw1")
                (vlan ∷ [])).interfaces;
          updated = [];
        })
normalize-settles_example =
    normalize-settles same ascii_digit ascii_digit [] (codes "sw1") (vlan ∷ [])

abbrev name_kept : InterfaceTemplate → Text
name_kept template = template.name

ensure_interfaces-expected_example :
    interface_named
      (codes "te1")
      (ensure_interfaces
        (codes "sw1")
        (codes "s1")
        name_kept
        (bay (codes "te1") ∷ [])
        (vlan ∷ [])).interfaces
    ≡ expected
        (codes "s1")
        name_kept
        (codes "te1")
        (bay (codes "te1") ∷ [])
        (interface_named (codes "te1") (vlan ∷ []))
ensure_interfaces-expected_example =
    ensure_interfaces-expected (codes "sw1") (codes "s1") name_kept (bay (codes "te1") ∷ [])
      (vlan ∷ []) (codes "te1") refl
