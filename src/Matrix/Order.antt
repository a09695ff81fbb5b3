-- ===== src/Matrix/Order.antt =====
-- The order of rows: the actions reorder and bulk_create of api/views.py, ConnectionPlan.save of
-- models.py and reorder_rows of services/row_actions.py. The queryset's order of the rows, by
-- `row_order`, `created` and `pk`, is a parameter, and so
-- is the reading of a text as a UUID, which gives its usual spelling, that of `str(pk)`, or none.
pub mod Numbering
pub mod Sorting
pub mod Places
use nautobot_docker_compose.Base.{
  length, ◌*◌, not, none, map, ◌+◌, ◌++◌, keep, list_eq, some, nat_eq, suc, ◌==◌, [], contains, ltb,
  if◌then◌else◌, ◌∷◌, Option, Bool, ℕ, List, arith,
}
use nautobot_docker_compose.Base.Dict.{keys, insert, lookup, Dict}
use nautobot_docker_compose.Base.Sort.{sort_by}
use nautobot_docker_compose.Base.Text.{Text}
use nautobot_docker_compose.Matrix.Rows.{ConnectionPlan}

-- `if raw_id in order_map: continue; order_map[raw_id] = len(order_map) + 1`
unfoldable pub number_ids : Dict ℕ → List Text → Dict ℕ
number_ids order_map [] = order_map
number_ids order_map (id ∷ ids) =
    number_ids
      (if contains (keys order_map) id
        then order_map
        else insert id (suc (length order_map)) order_map)
      ids

unfoldable pub number_remaining : Dict ℕ → ℕ → List ConnectionPlan → Dict ℕ
number_remaining order_map next_order [] = order_map
number_remaining order_map next_order (plan ∷ plans) =
    number_remaining (insert plan.id next_order order_map) (suc next_order) plans

-- `plan.row_order = order_map.get(str(plan.pk), plan.row_order)`
abbrev pub or_number : ℕ → Option ℕ → ℕ
or_number number none = number
or_number number (some order) = order

unfoldable pub set_order : Dict ℕ → ConnectionPlan → ConnectionPlan
set_order order_map plan = record plan {
  row_order = or_number plan.row_order (lookup plan.id order_map);
}

abbrev pub ids_of : List ConnectionPlan → List Text
ids_of [] = []
ids_of (plan ∷ plans) = plan.id ∷ ids_of plans

-- What raises stops the request.
infixl 5 ◌>>=◌
abbrev pub ◌>>=◌ {ℓ κ} : {A : Type ℓ} {B : Type κ} → Option A → (A → Option B) → Option B
some a >>= f = f a
none >>= f = none

module _ (uuid_of : Text → Option Text) where
  -- `pk__in=ids` reads each text as a UUID and raises where one is none.
  unfoldable pub uuids_of : List Text → Option (List Text)
  uuids_of [] = some []
  uuids_of (id ∷ ids) = do uuid ← uuid_of id; uuids ← uuids_of ids; some (uuid ∷ uuids)

module _ (ordered_before : ConnectionPlan → ConnectionPlan → Bool) where
  -- The rows that are not selected, in the order of the queryset.
  unfoldable pub remaining_rows : List Text → List ConnectionPlan → List ConnectionPlan
  remaining_rows selected rows =
      sort_by ordered_before (keep (λ row. not (contains selected row.id)) rows)

module _ (uuid_of : Text → Option Text)
    (ordered_before : ConnectionPlan → ConnectionPlan → Bool) where
  -- `reorder`: the selected rows and the others are all the rows of the batch. `order_map` has the
  -- texts as they were sent, so a selected row whose identifier was spelled otherwise has no entry.
  unfoldable pub reorder : List ConnectionPlan → List Text → Option (List ConnectionPlan)
  unfolding uuids_of number_ids number_remaining set_order remaining_rows
  reorder rows ordered_ids =
      let order_map = number_ids [] ordered_ids in
      do
        selected ← uuids_of uuid_of (keys order_map)
        some (
            map
              (set_order (
                number_remaining order_map (suc (length order_map))
                  (remaining_rows ordered_before selected rows)))
              rows)

max_order : ℕ → List ConnectionPlan → ℕ
max_order highest [] = highest
max_order highest (row ∷ rows) =
    max_order (if ltb highest row.row_order then row.row_order else highest) rows

-- `save` of a row that is being added: `max_order + 1` where it has no order.
unfoldable pub save_new : List ConnectionPlan → ConnectionPlan → List ConnectionPlan
unfolding max_order
save_new rows plan =
    if plan.row_order == 0
    then rows ++ (record plan { row_order = max_order 0 rows + 1 } ∷ [])
    else rows ++ (plan ∷ [])

-- `{str(row_id): (index + 1) * 10 for index, row_id in enumerate(ordered_ids)}`
unfoldable pub dense_orders : ℕ → Dict ℕ → List Text → Dict ℕ
dense_orders index order_map [] = order_map
dense_orders index order_map (id ∷ ids) =
    dense_orders (suc index) (insert id ((index + 1) * 10) order_map) ids

abbrev listed_row : ConnectionPlan → Option ℕ → List ConnectionPlan → List ConnectionPlan
listed_row row none updated = updated
listed_row row (some order) updated = record row { row_order = order } ∷ updated

unfoldable pub with_orders : Dict ℕ → List ConnectionPlan → List ConnectionPlan
with_orders order_map [] = []
with_orders order_map (row ∷ rows) =
    listed_row row (lookup row.id order_map) (with_orders order_map rows)

-- `reorder_rows`
unfoldable pub reorder_rows : List ConnectionPlan → List Text → List ConnectionPlan
unfolding dense_orders with_orders
reorder_rows rows ordered_ids = with_orders (dense_orders 0 [] ordered_ids) rows
