-- ===== src/Matrix/Order/Places.antt =====
-- The action reorder gives each row its place.
use nautobot_docker_compose.Base.{
  inr, inl, list_eq, nat_eq, Bool-cases, ◌==◌, some, All, Option, ap, length, ◌∙◌, suc, refl, [],
  false, ◌∷◌, true, ◌++◌, ◌≡◌, map, not, contains, distinct, Bool, all, List, keep, arith,
}
use nautobot_docker_compose.Matrix.Order.{
  uuids_of, number_remaining, sort_by, number_ids, remaining_rows, reorder, or_number, ids_of, Text,
  set_order,
}
use nautobot_docker_compose.Matrix.Order.Numbering.{
  number_remaining-numbered, length-numbered, keys-numbered, number_ids-numbered, distinct-append,
  lookup-numbered, place, numbered,
}
use nautobot_docker_compose.Base.Dedupe.{dedupe-firsts, firsts-distinct, firsts}
use nautobot_docker_compose.Matrix.Order.Sorting.{all-sort_by, distinct-sort_by}
use nautobot_docker_compose.Base.Sort.{sort_by}
use nautobot_docker_compose.Base.Text.{Text}
use nautobot_docker_compose.Matrix.Rows.{ConnectionPlan}

ids-keep_absent :
    (ids : List Text) (rows : List ConnectionPlan) (id : Text)
    → contains (ids_of rows) id ≡ false
    → contains (ids_of (keep (λ row. not (contains ids row.id)) rows)) id ≡ false
unfolding keep contains
ids-keep_absent ids [] id h = refl
ids-keep_absent ids (row ∷ rows) id h = ground (arith, ids-keep_absent ids rows id)

distinct-keep_rows :
    (ids : List Text) (rows : List ConnectionPlan)
    → distinct (ids_of rows) ≡ true
    → distinct (ids_of (keep (λ row. not (contains ids row.id)) rows)) ≡ true
unfolding keep distinct
distinct-keep_rows ids [] h = refl
distinct-keep_rows ids (row ∷ rows) h =
    ground (arith, distinct-keep_rows ids rows, ids-keep_absent ids rows row.id)

keep_rows-apart :
    (ids : List Text) (rows : List ConnectionPlan)
    → all (λ id. not (contains ids id)) (ids_of (keep (λ row. not (contains ids row.id)) rows))
      ≡ true
unfolding keep all
keep_rows-apart ids [] = refl
keep_rows-apart ids (row ∷ rows) = ground (arith, keep_rows-apart ids rows)

-- The row with the number of its place, if it has one.
abbrev pub at_place : List Text → ConnectionPlan → ConnectionPlan
at_place ids plan = record plan { row_order = or_number plan.row_order (place 1 plan.id ids) }

set_order-numbered :
    (ids : List Text) (rows : List ConnectionPlan)
    → map (set_order (numbered 1 ids)) rows ≡ map (at_place ids) rows
unfolding set_order
set_order-numbered ids [] = refl
set_order-numbered ids (row ∷ rows) =
    rw (lookup-numbered 1 row.id ids, set_order-numbered ids rows) refl

module _ (ordered_before : ConnectionPlan → ConnectionPlan → Bool) where
  -- The identifiers as listed, each once, then those of the other rows in the order that they had.
  unfoldable pub order_after : List ConnectionPlan → List Text → List Text
  order_after rows ordered_ids =
      firsts ordered_ids
      ++ ids_of
          (sort_by ordered_before (keep (λ row. not (contains (firsts ordered_ids) row.id)) rows))

  order_after-distinct :
      (rows : List ConnectionPlan) (ordered_ids : List Text)
      → distinct (ids_of rows) ≡ true
      → distinct (order_after rows ordered_ids) ≡ true
  unfolding order_after
  order_after-distinct rows ordered_ids h =
      distinct-append (firsts ordered_ids) _ (firsts-distinct ordered_ids)
        (rw
          (distinct-sort_by ordered_before
            (keep (λ row. not (contains (firsts ordered_ids) row.id)) rows))
          (distinct-keep_rows (firsts ordered_ids) rows h))
        (rw
          (all-sort_by ordered_before (λ id. not (contains (firsts ordered_ids) id))
            (keep (λ row. not (contains (firsts ordered_ids) row.id)) rows))
          (keep_rows-apart (firsts ordered_ids) rows))

keep-All :
    (P : Text → Type 0) (test : Text → Bool) (ids : List Text) → All P ids → All P (keep test ids)
unfolding keep
keep-All P test [] held = tt
keep-All P test (id ∷ ids) held = elim (Bool-cases (test id)) [
  | inl e ↦ rw e (held.0, keep-All P test ids (held.1))
  | inr e ↦ rw e (keep-All P test ids (held.1))
]

firsts-All : (P : Text → Type 0) (ids : List Text) → All P ids → All P (firsts ids)
unfolding firsts
firsts-All P [] held = tt
firsts-All P (id ∷ ids) held =
    (held.0, keep-All P (λ y. not (y == id)) (firsts ids) (firsts-All P ids (held.1)))

module _ (uuid_of : Text → Option Text) where
  uuids-canonical :
      (ids : List Text) → All (λ id. uuid_of id ≡ some id) ids → uuids_of uuid_of ids ≡ some ids
  unfolding uuids_of
  uuids-canonical [] canonical = refl
  uuids-canonical (id ∷ ids) canonical = rw (canonical.0, uuids-canonical ids (canonical.1)) refl

numbered_ids : (ids : List Text) → number_ids [] ids ≡ numbered 1 (firsts ids)
unfolding numbered
numbered_ids ids = number_ids-numbered [] ids ∙ ap (numbered 1) (dedupe-firsts ids)

module _ (ordered_before : ConnectionPlan → ConnectionPlan → Bool) where
  reordered :
      (rows : List ConnectionPlan) (ordered_ids : List Text)
      → distinct (ids_of rows) ≡ true
      → map
          (set_order (
            number_remaining
              (numbered 1 (firsts ordered_ids))
              (suc (length (numbered 1 (firsts ordered_ids))))
              (remaining_rows ordered_before (firsts ordered_ids) rows)))
          rows
        ≡ map (at_place (order_after ordered_before rows ordered_ids)) rows
  unfolding remaining_rows order_after
  reordered rows ordered_ids h =
      let seen : List Text = firsts ordered_ids in
      rw (length-numbered 1 seen) (
        rw
          (number_remaining-numbered seen (suc (length seen))
            (sort_by ordered_before (keep (λ row. not (contains seen row.id)) rows))
            (order_after-distinct ordered_before rows ordered_ids h) refl)
          (set_order-numbered (order_after ordered_before rows ordered_ids) rows))

module _ (uuid_of : Text → Option Text)
    (ordered_before : ConnectionPlan → ConnectionPlan → Bool) where
  -- Where the rows of a batch have different identifiers and each requested text is the usual spelling
  -- of a UUID, a reordering succeeds and gives each row the number of its place, from 1 on, in the list
  -- of the requested identifiers, each once at its first occurrence, and after them those of the rows
  -- that are not requested, in the order that they had.
  pub reorder-places :
      (rows : List ConnectionPlan) (ordered_ids : List Text)
      → distinct (ids_of rows) ≡ true
      → All (λ id. uuid_of id ≡ some id) ordered_ids
      → reorder uuid_of ordered_before rows ordered_ids
        ≡ some (map (at_place (order_after ordered_before rows ordered_ids)) rows)
  unfolding reorder
  reorder-places rows ordered_ids h canonical = rw (numbered_ids ordered_ids) (
      rw (keys-numbered 1 (firsts ordered_ids)) (
        rw
          (uuids-canonical uuid_of (firsts ordered_ids)
            (firsts-All (λ id. uuid_of id ≡ some id) ordered_ids canonical))
          (ap some (reordered ordered_before rows ordered_ids h))))
