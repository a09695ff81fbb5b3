-- ===== src/Matrix/Validation/Reserved.antt =====
-- Which interfaces the other rows of a batch reserve, against a test on each row.
use nautobot_docker_compose.Base.{
  contains-append, keep, inr, refl, list_beq_iff, list_beq, [], inl, Bool-cases, ◌∷◌, ◌||◌, ◌&&◌,
  list_eq, ◌==◌, nat_eq, false, not, Bool, ◌≡◌, any, contains, List, arith,
}
use nautobot_docker_compose.Matrix.Validation.{
  reserve, interface_id, add_id, append_new, is_current, ConnectionPlan, collect_reserved_onto,
  collect_row_reserved_interface_ids, is_closed,
}
use nautobot_docker_compose.Base.Dedupe.{append_new}
use nautobot_docker_compose.Base.Text.{is_empty, Text}
use nautobot_docker_compose.Matrix.Rows.{ConnectionPlan}

-- The row is neither executed nor failed, and the interface is at one of its ends.
unfoldable pub uses : Text → ConnectionPlan → Bool
unfolding is_closed
uses id row =
    not (is_closed row.status)
    && (interface_id row.interface_a == id || interface_id row.interface_b == id)

contains-append_new :
    (seen : List Text) (x a : Text) → contains (append_new seen x) a ≡ (x == a || contains seen a)
contains-append_new seen x a = elim (Bool-cases (contains seen x)) [
  | inl e ↦ rw e (ground (arith, list_beq_iff x a))
  | inr e ↦ rw e (unfold contains in ground (arith, contains-append seen (x ∷ []) a))
]

contains-add_id :
    (id : Text) (reserved : List Text) (a : Text)
    → is_empty a ≡ false
    → contains (add_id id reserved) a ≡ (id == a || contains reserved a)
contains-add_id [] reserved [] h = cc
contains-add_id [] reserved (d ∷ ds) h = unfold list_beq in refl
contains-add_id (c ∷ cs) reserved a h = contains-append_new reserved (c ∷ cs) a

contains-reserve :
    (reserved : List Text) (row : ConnectionPlan) (id : Text)
    → is_empty id ≡ false
    → contains (reserve reserved row) id ≡ (uses id row || contains reserved id)
unfolding uses
contains-reserve reserved row id h = elim (Bool-cases (is_closed row.status)) [
  | inl e ↦ rw e refl
  | inr e ↦ rw e (
      rw
        (
          contains-add_id (interface_id row.interface_b)
              (add_id (interface_id row.interface_a) reserved) id h,
          contains-add_id (interface_id row.interface_a) reserved id h,
        )
        (ground arith))
]

contains-collect_onto :
    (reserved : List Text) (rows : List ConnectionPlan) (id : Text)
    → is_empty id ≡ false
    → contains (collect_reserved_onto reserved rows) id
      ≡ (contains reserved id || any (uses id) rows)
unfolding collect_reserved_onto any
contains-collect_onto reserved [] id h = ground arith
contains-collect_onto reserved (row ∷ rows) id h =
    rw (contains-collect_onto (reserve reserved row) rows id h, contains-reserve reserved row id h)
      (ground arith)

any-others :
    (rows : List ConnectionPlan) (current id : Text)
    → is_empty current ≡ false
    → any (uses id) (keep (λ row. not (is_current current row)) rows)
      ≡ any (λ row. not (row.id == current) && uses id row) rows
unfolding any keep is_current
any-others [] current id hc = refl
any-others (row ∷ rows) current id hc = ground (arith, any-others rows current id hc)

-- An interface is reserved for a row, where neither has an empty identifier, exactly if a row with
-- another identifier, neither executed nor failed, has it at one of its ends.
pub reserved-uses :
    (rows : List ConnectionPlan) (current id : Text)
    → is_empty current ≡ false
    → is_empty id ≡ false
    → contains (collect_row_reserved_interface_ids rows current) id
      ≡ any (λ row. not (row.id == current) && uses id row) rows
unfolding collect_row_reserved_interface_ids contains
reserved-uses rows current id hc h =
    rw (contains-collect_onto [] (keep (λ row. not (is_current current row)) rows) id h)
      (any-others rows current id hc)
