-- ===== src/Matrix/Interfaces/Templates/Settled.antt =====
-- What the edits of a template make of an interface.
use nautobot_docker_compose.Base.{
  ap, ◌&&◌, ◌∙◌, inr, list_beq_iff, inl, refl, [], Bool-cases, list_eq, true, ◌==◌, nat_eq,
  if◌then◌else◌, false, ◌∷◌, not, ◌≡◌, Bool,
}
use nautobot_docker_compose.Base.Text.{is_empty, or_text, Text}
use nautobot_docker_compose.Matrix.Interfaces.Templates.{
  edit, DeviceInterface, InterfaceTemplate, Edited, apply_template, bool_differs,
}
use nautobot_docker_compose.Matrix.Interfaces.Types.{DeviceInterface, InterfaceTemplate}

-- The interface as a template and a status want it; a label or a status that is empty is not wanted.
abbrev pub settled : Text → InterfaceTemplate → DeviceInterface → DeviceInterface
settled status template interface = record {
  name = interface.name;
  label = or_text template.label interface.label;
  kind = template.kind;
  mgmt_only = template.mgmt_only;
  description = template.description;
  status = or_text status interface.status;
}

edit_kind :
    (test : Bool) (v : Text) (e : Edited)
    → (edit test (λ i. record i { kind = v }) e).0
      ≡ record e.0 { kind = if test then v else e.0.kind }
edit_kind true v e = refl
edit_kind false v e = refl

edit_mgmt_only :
    (test : Bool) (v : Bool) (e : Edited)
    → (edit test (λ i. record i { mgmt_only = v }) e).0
      ≡ record e.0 { mgmt_only = if test then v else e.0.mgmt_only }
edit_mgmt_only true v e = refl
edit_mgmt_only false v e = refl

edit_description :
    (test : Bool) (v : Text) (e : Edited)
    → (edit test (λ i. record i { description = v }) e).0
      ≡ record e.0 { description = if test then v else e.0.description }
edit_description true v e = refl
edit_description false v e = refl

edit_label :
    (test : Bool) (v : Text) (e : Edited)
    → (edit test (λ i. record i { label = v }) e).0
      ≡ record e.0 { label = if test then v else e.0.label }
edit_label true v e = refl
edit_label false v e = refl

edit_status :
    (test : Bool) (v : Text) (e : Edited)
    → (edit test (λ i. record i { status = v }) e).0
      ≡ record e.0 { status = if test then v else e.0.status }
edit_status true v e = refl
edit_status false v e = refl

picked : (old new : Text) → (if not (old == new) then new else old) ≡ new
picked old new = elim (Bool-cases (old == new)) [
  | inl e ↦ rw e ((list_beq_iff old new).0 e)
  | inr e ↦ rw e refl
]

picked_flag : (old new : Bool) → (if bool_differs old new then new else old) ≡ new
unfolding bool_differs
picked_flag true true = refl
picked_flag true false = refl
picked_flag false true = refl
picked_flag false false = refl

picked_given :
    (old new : Text)
    → (if not (is_empty new) && not (old == new) then new else old) ≡ or_text new old
picked_given old [] = refl
picked_given old (c ∷ cs) = picked old (c ∷ cs)

-- Five edits, one after the other.
edits :
    (t1 t2 t3 t4 t5 : Bool) (kind description label status : Text) (mgmt : Bool)
    (interface : DeviceInterface)
    → (edit t5
        (λ i. record i { status = status })
        (edit t4
          (λ i. record i { label = label })
          (edit t3
            (λ i. record i { description = description })
            (edit t2
              (λ i. record i { mgmt_only = mgmt })
              (edit t1 (λ i. record i { kind = kind }) (interface, false)))))).0
      ≡ record {
        name = interface.name;
        label = if t4 then label else interface.label;
        kind = if t1 then kind else interface.kind;
        mgmt_only = if t2 then mgmt else interface.mgmt_only;
        description = if t3 then description else interface.description;
        status = if t5 then status else interface.status;
      }
edits t1 t2 t3 t4 t5 kind description label status mgmt interface =
    let e1 : Edited = edit t1 (λ i. record i { kind = kind }) (interface, false) in
    let e2 : Edited = edit t2 (λ i. record i { mgmt_only = mgmt }) e1 in
    let e3 : Edited = edit t3 (λ i. record i { description = description }) e2 in
    let e4 : Edited = edit t4 (λ i. record i { label = label }) e3 in
    edit_status t5 status e4
    ∙ ap (λ (i : DeviceInterface). record i { status = if t5 then status else i.status })
        (edit_label t4 label e3
          ∙ ap (λ (i : DeviceInterface). record i { label = if t4 then label else i.label })
              (edit_description t3 description e2
                ∙ ap
                    (λ (i : DeviceInterface). record i {
                      description = if t3 then description else i.description;
                    })
                    (edit_mgmt_only t2 mgmt e1
                      ∙ ap
                          (λ (i : DeviceInterface). record i {
                            mgmt_only = if t2 then mgmt else i.mgmt_only;
                          })
                          (edit_kind t1 kind (interface, false)))))

pub apply_template-settled :
    (status : Text) (template : InterfaceTemplate) (interface : DeviceInterface)
    → (apply_template status template interface).0 ≡ settled status template interface
unfolding apply_template
apply_template-settled status template interface =
    edits (not (interface.kind == template.kind))
      (bool_differs interface.mgmt_only template.mgmt_only)
      (not (interface.description == template.description))
      (not (is_empty template.label) && not (interface.label == template.label))
      (not (is_empty status) && not (interface.status == status)) template.kind template.description
      template.label status template.mgmt_only interface
    ∙ rw
        (
          picked interface.kind template.kind,
          picked interface.description template.description,
          picked_flag interface.mgmt_only template.mgmt_only,
          picked_given interface.label template.label,
          picked_given interface.status status,
        )
        refl
