-- ===== src/Matrix/Order/Sorting.antt =====
-- The identifiers of sorted rows.
use nautobot_docker_compose.Base.{
  refl, [], ◌||◌, list_beq_iff, ◌&&◌, ◌∷◌, nat_eq, list_eq, ◌==◌, ◌≡◌, List, distinct, all,
  contains, Bool, arith,
}
use nautobot_docker_compose.Matrix.Order.{ids_of}
use nautobot_docker_compose.Base.Text.{Text}
use nautobot_docker_compose.Base.Sort.{sort_by, insert_sorted}
use nautobot_docker_compose.Matrix.Rows.{ConnectionPlan}

module _ (ordered_before : ConnectionPlan → ConnectionPlan → Bool) where
  ids-insert_sorted :
      (plan : ConnectionPlan) (plans : List ConnectionPlan) (id : Text)
      → contains (ids_of (insert_sorted ordered_before plan plans)) id
        ≡ (plan.id == id || contains (ids_of plans) id)
  unfolding insert_sorted contains
  ids-insert_sorted plan [] id = refl
  ids-insert_sorted plan (p ∷ plans) id = ground (arith, ids-insert_sorted plan plans id)

  distinct-insert_sorted :
      (plan : ConnectionPlan) (plans : List ConnectionPlan)
      → distinct (ids_of (insert_sorted ordered_before plan plans))
        ≡ distinct (plan.id ∷ ids_of plans)
  unfolding insert_sorted distinct contains
  distinct-insert_sorted plan [] = refl
  distinct-insert_sorted plan (p ∷ plans) = ground (
    arith,
    distinct-insert_sorted plan plans,
    ids-insert_sorted plan plans p.id,
    list_beq_iff plan.id p.id,
    list_beq_iff p.id plan.id,
  )

  ids-sort_by :
      (plans : List ConnectionPlan) (id : Text)
      → contains (ids_of (sort_by ordered_before plans)) id ≡ contains (ids_of plans) id
  unfolding sort_by contains
  ids-sort_by [] id = refl
  ids-sort_by (plan ∷ plans) id =
      rw (ids-insert_sorted plan (sort_by ordered_before plans) id, ids-sort_by plans id) refl

  pub distinct-sort_by :
      (plans : List ConnectionPlan)
      → distinct (ids_of (sort_by ordered_before plans)) ≡ distinct (ids_of plans)
  unfolding sort_by distinct
  distinct-sort_by [] = refl
  distinct-sort_by (plan ∷ plans) =
      rw (distinct-insert_sorted plan (sort_by ordered_before plans), distinct-sort_by plans)
        (rw (ids-sort_by plans plan.id) refl)

  all-insert_sorted :
      (test : Text → Bool) (plan : ConnectionPlan) (plans : List ConnectionPlan)
      → all test (ids_of (insert_sorted ordered_before plan plans))
        ≡ (test plan.id && all test (ids_of plans))
  unfolding insert_sorted all
  all-insert_sorted test plan [] = refl
  all-insert_sorted test plan (p ∷ plans) = ground (arith, all-insert_sorted test plan plans)

  pub all-sort_by :
      (test : Text → Bool) (plans : List ConnectionPlan)
      → all test (ids_of (sort_by ordered_before plans)) ≡ all test (ids_of plans)
  unfolding sort_by all
  all-sort_by test [] = refl
  all-sort_by test (plan ∷ plans) =
      rw (all-insert_sorted test plan (sort_by ordered_before plans), all-sort_by test plans) refl
