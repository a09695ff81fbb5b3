-- ===== src/Matrix/Interfaces/Templates/Find.antt =====
-- What ensure_device_type_interfaces makes of the interface of a name.
use nautobot_docker_compose.Matrix.Interfaces.Templates.Settled.{settled, apply_template-settled}
use nautobot_docker_compose.Base.{
  list_beq, ap, ◌∙◌, inr, list_beq_iff, sym, inl, refl, [], Bool-cases, list_eq, ◌==◌, nat_eq,
  if◌then◌else◌, some, false, ◌∷◌, none, Option, ◌≡◌, List, arith,
}
use nautobot_docker_compose.Matrix.Interfaces.Templates.{
  ensure_interfaces, put_named, put_interface, new_interface, DeviceInterface, InterfaceTemplate,
}
use nautobot_docker_compose.Base.Text.{is_empty, or_text, Text}
use nautobot_docker_compose.Matrix.Interfaces.Types.{DeviceInterface, InterfaceTemplate}

-- The first interface of a name.
unfoldable pub interface_named : Text → List DeviceInterface → Option DeviceInterface
interface_named name [] = none
interface_named name (interface ∷ interfaces) =
    let rest = interface_named name interfaces in
    if interface.name == name then some interface else rest

-- The interface of a name after a template of that name.
abbrev pub settled_or_new :
    Text → Text → InterfaceTemplate → Option DeviceInterface → Option DeviceInterface
settled_or_new status name template none = some (new_interface status name template)
settled_or_new status name template (some interface) = some (settled status template interface)

-- The interface of a name after the templates that give this name, in their order.
unfoldable pub expected :
    Text
    → (InterfaceTemplate → Text)
    → Text
    → List InterfaceTemplate
    → Option DeviceInterface
    → Option DeviceInterface
expected status name_of name [] interface = interface
expected status name_of name (template ∷ templates) interface =
    expected status name_of name templates (
      if name_of template == name then settled_or_new status name template interface else interface)

or_text_same : (s : Text) → or_text s s ≡ s
or_text_same [] = refl
or_text_same (c ∷ cs) = refl

new_interface-settled :
    (status name : Text) (template : InterfaceTemplate)
    → settled status template (new_interface status name template)
      ≡ new_interface status name template
unfolding new_interface
new_interface-settled status name template =
    rw (or_text_same template.label, or_text_same status) refl

module _ (device_name status : Text) where
  named-put :
      (name n : Text) (template : InterfaceTemplate) (interfaces : List DeviceInterface)
      → interface_named n (put_interface device_name status name template interfaces).interfaces ≡ (
          if name == n
          then settled_or_new status name template (interface_named name interfaces)
          else interface_named n interfaces)
  unfolding put_interface interface_named new_interface
  named-put name n template [] =
      rw (apply_template-settled status template (new_interface status name template))
        (rw (or_text_same template.label, or_text_same status) refl)
  named-put name n template (interface ∷ interfaces) = elim (Bool-cases (interface.name == name)) [
    | inl e ↦ rw e (
        rw (apply_template-settled status template interface) (
          rw (sym ((list_beq_iff interface.name name).0 e))
            (elim (Bool-cases (interface.name == n)) [ inl f ↦ rw f refl | inr f ↦ rw f refl ])))
    | inr e ↦ rw e (
        rw (named-put name n template interfaces) (
          ground (
            arith,
            list_beq_iff interface.name n,
            list_beq_iff name n,
            list_beq_iff interface.name name,
          )))
  ]

  named-put_named :
      (name n : Text) (template : InterfaceTemplate) (interfaces : List DeviceInterface)
      → is_empty n ≡ false
      → interface_named n (put_named device_name status name template interfaces).interfaces ≡ (
          if name == n
          then settled_or_new status n template (interface_named n interfaces)
          else interface_named n interfaces)
  unfolding put_named
  named-put_named [] [] template interfaces h = cc
  named-put_named [] (c ∷ cs) template interfaces h = unfold list_beq in refl
  named-put_named (d ∷ ds) n template interfaces h =
      named-put (d ∷ ds) n template interfaces ∙ elim (Bool-cases ((d ∷ ds) == n)) [
        | inl e ↦ rw ((list_beq_iff (d ∷ ds) n).0 e) refl
        | inr e ↦ rw e refl
      ]

  -- After a run over the templates of a device type, the interface of any name that is not empty is the
  -- one it was before, or a new one, settled by the templates that give this name one after the other,
  -- and by no other: the type, the management flag and the description are the template's, and so are
  -- the label and the status of the run where they are not empty.
  pub ensure_interfaces-expected :
      (name_of : InterfaceTemplate → Text) (templates : List InterfaceTemplate)
      (interfaces : List DeviceInterface) (n : Text)
      → is_empty n ≡ false
      → interface_named n
          (ensure_interfaces device_name status name_of templates interfaces).interfaces
        ≡ expected status name_of n templates (interface_named n interfaces)
  unfolding ensure_interfaces expected
  ensure_interfaces-expected name_of [] interfaces n h = refl
  ensure_interfaces-expected name_of (template ∷ templates) interfaces n h =
      ensure_interfaces-expected name_of templates
        (put_named device_name status (name_of template) template interfaces).interfaces n h
      ∙ ap (expected status name_of n templates)
          (named-put_named (name_of template) n template interfaces h)
