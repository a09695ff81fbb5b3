-- ===== src/Matrix/Interfaces.antt =====
-- services/interface_finalization.py: the names and the types of interfaces. `lower` is `str.lower`,
-- `is_decimal` the class `\d` of `re`, `is_digit` `str.isdigit` on one character.
pub mod Types
pub mod Templates
mod Tests
use nautobot_docker_compose.Base.{
  zero, ◌-◌, length, suc, ◌&&◌, list_eq, false, nat_eq, none, some, ◌==◌, [], ◌||◌, not, ◌++◌,
  if◌then◌else◌, Option, any, keep, ◌∷◌, List, ℕ, Bool, arith,
}
use nautobot_docker_compose.Base.Text.{
  drop_while, strip_prefix?, strip, starts_with, codes, is_empty, is_space, Text,
}

-- `part in s`
unfoldable pub has_part : Text → Text → Bool
has_part [] part = is_empty part
has_part (c ∷ cs) part = starts_with (c ∷ cs) part || has_part cs part

-- `re.sub(r"/{2,}", "/", value)`: a slash after a slash goes.
unfoldable pub single_slashes : Bool → Text → Text
single_slashes after_slash [] = []
single_slashes after_slash (c ∷ cs) =
    let rest = single_slashes (c == b'/') cs in if after_slash && c == b'/' then rest else c ∷ rest

-- `cleanup_interface_name`: the slashes, then the spaces.
unfoldable pub cleanup_interface_name : Text → Text
unfolding single_slashes is_space
cleanup_interface_name value = keep (λ c. not (is_space c)) (single_slashes false (strip value))

unfoldable pub virtual_prefixes : List Text
virtual_prefixes =
    codes "virtual-access"
    ∷ codes "virtual-template"
    ∷ codes "loopback"
    ∷ codes "vlan"
    ∷ codes "tunnel"
    ∷ codes "nve"
    ∷ codes "bvi"
    ∷ codes "nvi"
    ∷ codes "null"
    ∷ codes "dialer"
    ∷ []

-- `default_interface_status`: a status has its key and whether its name is Active, in any case.
pub record InterfaceStatus : Type 0 where
  pub pk : Text
  pub is_active : Bool

first_active : List InterfaceStatus → Option InterfaceStatus → Option InterfaceStatus
first_active [] otherwise = otherwise
first_active (status ∷ statuses) otherwise =
    let rest = first_active statuses otherwise in if status.is_active then some status else rest

first_status : List InterfaceStatus → Option InterfaceStatus
first_status [] = none
first_status (status ∷ statuses) = some status

unfoldable pub default_interface_status :
    List InterfaceStatus → Option InterfaceStatus → Option InterfaceStatus
unfolding first_active first_status
default_interface_status statuses none = first_active statuses (first_status statuses)
default_interface_status statuses (some preferred) =
    if any (λ status. status.pk == preferred.pk) statuses
    then some preferred
    else first_active statuses (first_status statuses)

-- `s.replace(old, new)` for a text `old` that is not empty; `skipped` characters are of a match.
unfoldable pub replace_all : Text → Text → ℕ → Text → Text
replace_all old new skipped [] = []
replace_all old new (suc skipped) (c ∷ cs) = replace_all old new skipped cs
replace_all old new zero (c ∷ cs) =
    let matched = new ++ replace_all old new (length old - 1) cs in
    let rest = replace_all old new zero cs in if starts_with (c ∷ cs) old then matched else c ∷ rest

module _ (lower : Text → Text) where
  -- `forced_interface_type_from_name`
  unfoldable pub forced_interface_type_from_name : Text → Option Text
  unfolding virtual_prefixes has_part
  forced_interface_type_from_name interface_name =
      let name_lower = lower interface_name in
      let virtual_name = any (starts_with name_lower) virtual_prefixes in
      if is_empty name_lower
      then none
      else if has_part interface_name (codes ".")
          || (has_part interface_name (codes ":") && not (starts_with name_lower (codes "vlan")))
      then some (codes "virtual")
      else if virtual_name
      then some (codes "virtual")
      else if starts_with name_lower (codes "cellular")
          || starts_with name_lower (codes "wwan")
          || has_part name_lower (codes "lte")
      then some (codes "lte")
      else if starts_with name_lower (codes "embedded-service-engine")
          || starts_with name_lower (codes "service-engine")
      then some (codes "other")
      else none

module _ (is_decimal : ℕ → Bool) where
  -- The text begins with a digit: `\d+` at its start.
  begins_with_number : Option Text → Bool
  begins_with_number none = false
  begins_with_number (some []) = false
  begins_with_number (some (c ∷ cs)) = is_decimal c

  -- `re.sub(r"(\d+)", replacement, value, count=1)`
  substitute_number : Text → Text → Text
  unfolding drop_while
  substitute_number replacement [] = []
  substitute_number replacement (c ∷ cs) =
      let rest = substitute_number replacement cs in
      if is_decimal c then replacement ++ drop_while is_decimal cs else c ∷ rest

  unfoldable pub replace_first_number : Text → Text → Text
  unfolding substitute_number
  replace_first_number value replacement =
      if is_empty value || is_empty replacement then value else substitute_number replacement value

module _ (is_decimal is_digit : ℕ → Bool) where
  -- `e1`, `em`
  is_numbered_e : Text → Bool
  is_numbered_e (e ∷ c ∷ cs) = e == b'e' && (is_digit c || c == b'm')
  is_numbered_e _ = false

  -- The chain of tests of `infer_interface_type_from_name`, after the forced type.
  usual_interface_type : Text → Text
  unfolding has_part begins_with_number is_numbered_e
  usual_interface_type name_lower =
      let is_management =
        any (has_part name_lower)
          (codes "mgmt" ∷ codes "management" ∷ codes "me0" ∷ codes "fxp0" ∷ codes "em0" ∷ []) in
      let begins : List Text → Bool = λ prefixes. any (starts_with name_lower) prefixes in
      if is_management
      then codes "1000base-t"
      else if begins (codes "hundredgig" ∷ codes "hu" ∷ [])
      then codes "100gbase-x-qsfp28"
      else if begins (codes "fortygig" ∷ codes "fo" ∷ [])
      then codes "40gbase-x-qsfpp"
      else if begins (codes "fastethernet" ∷ codes "fa" ∷ [])
      then codes "100base-tx"
      else if begins (codes "twentyfivegig" ∷ codes "tf" ∷ [])
      then codes "25gbase-x-sfp28"
      else if begins (codes "tengig" ∷ codes "tenge" ∷ codes "xge" ∷ [])
          || has_part name_lower (codes "10ge")
      then codes "10gbase-x-sfpp"
      else if starts_with name_lower (codes "te")
          && not (starts_with name_lower (codes "tunnel"))
          && not (has_part name_lower (codes "fast"))
      then codes "10gbase-x-sfpp"
      else if has_part name_lower (codes "lag")
          || has_part name_lower (codes "bond")
          || starts_with name_lower (codes "port-channel")
          || begins_with_number is_decimal (strip_prefix? (codes "po") name_lower)
          || begins_with_number is_decimal (strip_prefix? (codes "ae") name_lower)
      then codes "lag"
      else if begins (codes "gigabitethernet" ∷ codes "gi" ∷ codes "ge" ∷ codes "eth" ∷ [])
          || has_part name_lower (codes "vmnic")
      then codes "1000base-t"
      else if is_numbered_e name_lower
      then codes "1000base-t"
      else codes "other"

  given_type : Option Text → Text → Text
  given_type none otherwise = otherwise
  given_type (some forced_type) otherwise = forced_type

  unfoldable pub infer_interface_type_from_name : (Text → Text) → Text → Text
  unfolding usual_interface_type given_type
  infer_interface_type_from_name lower interface_name =
      if is_empty interface_name
      then codes "other"
      else given_type (forced_interface_type_from_name lower interface_name)
          (usual_interface_type (lower interface_name))
