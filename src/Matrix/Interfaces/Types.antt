-- ===== src/Matrix/Interfaces/Types.antt =====
-- normalize_device_interface_types and set_device_interface_status of
-- services/interface_finalization.py on the interfaces of a device. A status is its key, no status
-- the empty text. Every save succeeds.
use nautobot_docker_compose.Base.{
  beq_refl, false, sym, ◌∙◌, list_beq_iff, inr, ◌&&◌, Bool-cases, ◌||◌, ◌==◌, nat_eq, list_eq, ◌⊎◌,
  inl, refl, not, none, some, [], if◌then◌else◌, ◌≡◌, ℕ, Bool, ◌++◌, Option, ◌∷◌, List, arith,
}
use nautobot_docker_compose.Matrix.Interfaces.{
  infer_interface_type_from_name, forced_interface_type_from_name,
}
use nautobot_docker_compose.Base.Text.{or_text, is_empty, codes, Text}

pub record DeviceInterface : Type 0 where
  pub name : Text
  pub label : Text
  pub kind : Text
  pub mgmt_only : Bool
  pub description : Text
  pub status : Text

pub record InterfaceTemplate : Type 0 where
  pub name : Text
  pub label : Text
  pub kind : Text
  pub mgmt_only : Bool
  pub description : Text

-- `f"{device.name}:{interface.name}"`
abbrev pub entry : Text → DeviceInterface → Text
entry device_name interface = device_name ++ (codes ":" ++ interface.name)

-- The first template of a name.
unfoldable pub template_named : Text → List InterfaceTemplate → Option InterfaceTemplate
template_named name [] = none
template_named name (template ∷ templates) =
    let rest = template_named name templates in
    if template.name == name then some template else rest

-- What a run leaves: the interfaces, and the entries of those that it updated.
pub record Finalized : Type 0 where
  pub interfaces : List DeviceInterface
  pub updated : List Text

abbrev pub also : DeviceInterface → List Text → Finalized → Finalized
also interface entries rest = record {
  interfaces = interface ∷ rest.interfaces;
  updated = entries ++ rest.updated;
}

module _ (lower : Text → Text) (is_decimal is_digit : ℕ → Bool) where
  abbrev type_of_template : Option InterfaceTemplate → Text
  type_of_template none = []
  type_of_template (some template) = if is_empty template.kind then [] else lower template.kind

  forced_or : Option Text → Text → Text
  forced_or none otherwise = otherwise
  forced_or (some forced_type) otherwise = forced_type

  -- The type that the interface gets. A device without a type has no templates.
  unfoldable pub wanted_type : List InterfaceTemplate → Text → Text
  unfolding forced_or
  wanted_type templates name = forced_or (forced_interface_type_from_name lower name) (
      or_text (type_of_template (template_named name templates))
        (infer_interface_type_from_name is_decimal is_digit lower name))

  unfoldable pub with_type : Text → DeviceInterface → Text → Finalized → Finalized
  with_type device_name interface new_type rest =
      if not (is_empty new_type) && not (interface.kind == new_type)
      then also (record interface { kind = new_type }) (entry device_name interface ∷ []) rest
      else also interface [] rest

  unfoldable pub normalize_device_interface_types :
      List InterfaceTemplate → Text → List DeviceInterface → Finalized
  unfolding wanted_type with_type
  normalize_device_interface_types templates device_name [] = record {
    interfaces = [];
    updated = [];
  }
  normalize_device_interface_types templates device_name (interface ∷ interfaces) =
      with_type device_name interface (wanted_type templates interface.name)
        (normalize_device_interface_types templates device_name interfaces)

  -- What a normalisation leaves of an interface: the name it had and the type of its name.
  abbrev pub IsTyped : List InterfaceTemplate → DeviceInterface → DeviceInterface → Type 0
  IsTyped templates before after =
      (after.name ≡ before.name)
      × ((wanted_type templates before.name ≡ [])
          ⊎ (after.kind ≡ wanted_type templates before.name))

  abbrev pub AllTyped :
      List InterfaceTemplate → List DeviceInterface → List DeviceInterface → Type 0
  AllTyped templates [] [] = Unit
  AllTyped templates [] (after ∷ afters) = ⊥
  AllTyped templates (before ∷ befores) [] = ⊥
  AllTyped templates (before ∷ befores) (after ∷ afters) =
      IsTyped templates before after × AllTyped templates befores afters

  with_type-AllTyped :
      (templates : List InterfaceTemplate) (device_name : Text) (before : DeviceInterface)
      (befores : List DeviceInterface) (new_type : Text) (rest : Finalized)
      → wanted_type templates before.name ≡ new_type
      → AllTyped templates befores rest.interfaces
      → AllTyped templates
          (before ∷ befores)
          (with_type device_name before new_type rest).interfaces
  unfolding with_type
  with_type-AllTyped templates device_name before befores [] rest e typed = ((refl, inl e), typed)
  with_type-AllTyped templates device_name before befores (c ∷ cs) rest e typed =
      elim (Bool-cases (before.kind == (c ∷ cs))) [
        | inl same ↦
            rw same ((refl, inr ((list_beq_iff before.kind (c ∷ cs)).0 same ∙ sym e)), typed)
        | inr differs ↦ rw differs ((refl, inr (sym e)), typed)
      ]

  normalize-AllTyped :
      (templates : List InterfaceTemplate) (device_name : Text) (interfaces : List DeviceInterface)
      → AllTyped templates interfaces
          (normalize_device_interface_types templates device_name interfaces).interfaces
  unfolding normalize_device_interface_types
  normalize-AllTyped templates device_name [] = tt
  normalize-AllTyped templates device_name (interface ∷ interfaces) =
      with_type-AllTyped templates device_name interface interfaces
        (wanted_type templates interface.name)
        (normalize_device_interface_types templates device_name interfaces) refl
        (normalize-AllTyped templates device_name interfaces)

  untouched :
      (kind wanted : Text)
      → (wanted ≡ []) ⊎ (kind ≡ wanted)
      → (not (is_empty wanted) && not (kind == wanted)) ≡ false
  untouched kind wanted (inl e) = rw e refl
  untouched kind wanted (inr e) = rw e (ground (arith, beq_refl wanted))

  typed-settled :
      (templates : List InterfaceTemplate) (device_name : Text)
      (befores afters : List DeviceInterface)
      → AllTyped templates befores afters
      → normalize_device_interface_types templates device_name afters
        ≡ record { interfaces = afters; updated = [] }
  unfolding normalize_device_interface_types with_type
  typed-settled templates device_name [] [] typed = refl
  typed-settled templates device_name [] (after ∷ afters) typed = absurd typed
  typed-settled templates device_name (before ∷ befores) [] typed = absurd typed
  typed-settled templates device_name (before ∷ befores) (after ∷ afters)
        ((named, is_typed), typed) =
      rw (typed-settled templates device_name befores afters typed)
        (rw (named) (rw (untouched after.kind (wanted_type templates before.name) is_typed) refl))

  -- A normalisation keeps the interfaces of a device with their names and their order, gives each the
  -- type wanted for its name, where one is wanted, and a second normalisation updates nothing.
  pub normalize-settles :
      (templates : List InterfaceTemplate) (device_name : Text) (interfaces : List DeviceInterface)
      → AllTyped templates interfaces
          (normalize_device_interface_types templates device_name interfaces).interfaces
        × (normalize_device_interface_types templates device_name
              (normalize_device_interface_types templates device_name interfaces).interfaces
            ≡ record {
              interfaces =
                  (normalize_device_interface_types templates device_name interfaces).interfaces;
              updated = [];
            })
  normalize-settles templates device_name interfaces = (
    normalize-AllTyped templates device_name interfaces,
    typed-settled templates device_name interfaces _
        (normalize-AllTyped templates device_name interfaces),
  )

-- `set_device_interface_status` on the interfaces of the device itself
unfoldable pub set_device_interface_status : Text → Text → List DeviceInterface → Finalized
set_device_interface_status status device_name [] = record { interfaces = []; updated = [] }
set_device_interface_status status device_name (interface ∷ interfaces) =
    let rest = set_device_interface_status status device_name interfaces in
    if is_empty status || interface.status == status
    then also interface [] rest
    else also (record interface { status = status }) (entry device_name interface ∷ []) rest
