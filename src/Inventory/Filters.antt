-- ===== src/Inventory/Filters.antt =====
-- filter_remote_workers and find_remote_worker of nautobot_vpn_manager/worker_inventory.py. Parameters
-- are `lower` (`str.lower`), `fnmatchcase` and the reading of a date (`parse_filter_datetime`, with
-- whether the day's end is meant), which gives its instant as a number.
use nautobot_docker_compose.Base.{
  ltb, not, list_eq, ◌==◌, nat_eq, false, ◌++◌, [], contains, some, ◌∷◌, any, true, keep, ◌||◌,
  ◌&&◌, map, ℕ, if◌then◌else◌, none, Bool, Option, List,
}
use nautobot_docker_compose.Base.Text.{codes, strip, is_empty, Text}
use nautobot_docker_compose.Inventory.Drift.{Worker}

-- `value if isinstance(value, (list, tuple, set)) else [value]`, each item as a text
pub data FilterValue : Type 0 where
  one_value : Text → FilterValue
  many_values : List Text → FilterValue

pub record Filters : Type 0 where
  pub assignment_from : Text
  pub assignment_to : Text
  pub heartbeat_from : Text
  pub heartbeat_to : Text
  pub queue : FilterValue
  pub status : FilterValue
  pub name : Text

-- `_filter_values`: one value stays although it strips to the empty text.
unfoldable pub filter_values : FilterValue → List Text
filter_values (one_value value) = if is_empty value then [] else strip value ∷ []
filter_values (many_values values) = keep (λ value. not (is_empty value)) (map strip values)

-- `any(p(x) for x in xs)` on sets: `bool(a & b)`
abbrev share : List Text → List Text → Bool
share a b = any (contains b) a

no_filter : List Text → Bool
no_filter [] = true
no_filter (value ∷ values) = false

-- `_matches_queue_filter`
unfoldable pub matches_queue_filter : Worker → FilterValue → Bool
unfolding filter_values no_filter
matches_queue_filter worker queue_filter =
    let filters = filter_values queue_filter in
    no_filter filters || share filters (worker.current_queues ++ worker.desired_queues)

-- `_matches_datetime_window`, of the instant of a field, if it has one
unfoldable pub matches_datetime_window : Option ℕ → Option ℕ → Option ℕ → Bool
matches_datetime_window value none none = true
matches_datetime_window none none (some end) = false
matches_datetime_window none (some start) end = false
matches_datetime_window (some value) (some start) none = not (ltb value start)
matches_datetime_window (some value) none (some end) = not (ltb end value)
matches_datetime_window (some value) (some start) (some end) =
    not (ltb value start) && not (ltb end value)

module _ (lower : Text → Text) where
  -- `_matches_status_filter`
  unfoldable pub matches_status_filter : Worker → FilterValue → Bool
  unfolding filter_values no_filter
  matches_status_filter worker status_filter =
      let filters = map lower (filter_values status_filter) in
      no_filter filters
      || (contains filters (codes "stale") && worker.stale)
      || contains filters (lower worker.status)

  -- `find_remote_worker`
  unfoldable pub find_remote_worker : List Worker → Text → Option Worker
  find_remote_worker [] worker_name = none
  find_remote_worker (worker ∷ workers) worker_name =
      let rest = find_remote_worker workers worker_name in
      if lower worker.worker_id == lower (strip worker_name)
        || lower worker.hostname == lower (strip worker_name)
      then some worker
      else rest

  module _ (fnmatchcase : Text → Text → Bool) (parse_filter_datetime : Bool → Text → Option ℕ) where
    -- `_matches_name_filter`
    unfoldable pub matches_name_filter : Worker → Text → Bool
    matches_name_filter worker raw_filter =
        let name_filter = lower (strip raw_filter) in
        let pattern =
          if contains name_filter b'*'
          then name_filter
          else codes "*" ++ (name_filter ++ codes "*") in
        is_empty name_filter
        || any (λ candidate. fnmatchcase (lower candidate) pattern)
            (worker.worker_id ∷ worker.hostname ∷ worker.celery_node_name ∷ [])

    unfoldable pub matches_filters : Filters → Worker → Bool
    matches_filters filters worker =
        matches_name_filter worker filters.name
        && matches_queue_filter worker filters.queue
        && matches_status_filter worker filters.status
        && matches_datetime_window (parse_filter_datetime false worker.last_assignment)
            (parse_filter_datetime false filters.assignment_from)
            (parse_filter_datetime true filters.assignment_to)
        && matches_datetime_window (parse_filter_datetime false worker.last_heartbeat)
            (parse_filter_datetime false filters.heartbeat_from)
            (parse_filter_datetime true filters.heartbeat_to)

    unfoldable pub filter_remote_workers : Filters → List Worker → List Worker
    filter_remote_workers filters workers = keep (matches_filters filters) workers
