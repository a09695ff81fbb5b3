-- ===== src/Orders/Tests.antt =====
-- A snapshot of two lines on a table that has one of them and one other, and the theorems there.
use nautobot_docker_compose.Orders.Numbers.Parents.{parent_line_number_for-ends}
use nautobot_docker_compose.Base.{
  map, Option, length, some-injective, sym, some, ◌≡◌, refl, Bool, true, false, none, List, [], ◌∷◌,
  nat_eq, list_eq, list_beq, contains, distinct, keep,
}
use nautobot_docker_compose.Base.Text.{is_space, drop_while, strip_by, strip, Text, codes}
use nautobot_docker_compose.Orders.Serials.{
  nothing, text_item, ensure_list, many, text_values, Values, serial_attribute_values,
}
use nautobot_docker_compose.Base.Dict.{lookup, Dict}
use nautobot_docker_compose.Base.Dedupe.{dedupe_onto}
use nautobot_docker_compose.Orders.Numbers.{split_dots, parent_line_number_for}
use nautobot_docker_compose.Orders.Lines.Rows.{
  expected_row, last_line, described_row, row_of-sync_lines,
}
use nautobot_docker_compose.Orders.Changes.{
  line_changes, equal_dates, dates_of, previous_dates, previous_shipment, Update, previous_status,
  same_date, OrderState, Snapshot, record_changes,
}
use nautobot_docker_compose.Orders.Lines.{
  Synced, LineFields, SnapshotLine, OrderLine, synced, refused, row_of, line_keys, snapshot_keys,
  put_row, tracked_of, written_row, save_lines, sync_lines,
}
use nautobot_docker_compose.Orders.Lines.Success.{sync_lines-returns}
use nautobot_docker_compose.Orders.Sync.{
  Order, OrderSnapshot, sync_order, blank_fields, new_order, find_order, put_order, written_order,
  is_order, change_snapshot,
}
use nautobot_docker_compose.Orders.Sync.Again.{sync_order-again}
use nautobot_docker_compose.Orders.Sync.Other.{sync_order-other}

abbrev fields_of : Text → LineFields
fields_of status = record {
  line_number = [];
  sku = [];
  description = [];
  status = status;
  shipment_status = [];
  quantity_ordered = 1;
  quantity_fulfilled = 1;
  quantity_backordered = 1;
  promised_delivery_date = none;
  estimated_delivery_date = none;
  serial_number = [];
  parent_serial_number = [];
  mac_address = [];
  imei_number = [];
  instance_number = [];
  license_key = [];
  cloud_id = [];
  contract_number = [];
  ship_set = [];
  carrier = [];
  tracking_number = [];
  tracking_url = [];
  proof_of_delivery_url = [];
  actual_delivery_date = none;
  estimated_ship_date = none;
  raw_payload = codes "{}";
}

abbrev two_lines : List SnapshotLine
two_lines =
    (record { key = codes "1"; fields = fields_of (codes "shipped") })
    ∷ (record { key = codes "2"; fields = fields_of (codes "open") })
    ∷ []

abbrev row : Text → Bool → Text → OrderLine
row key is_tracked status = record {
  line_key = key;
  is_tracked = is_tracked;
  fields = fields_of status;
}

abbrev old_rows : List OrderLine
old_rows = row (codes "9") true (codes "open") ∷ row (codes "1") true (codes "open") ∷ []

abbrev new_rows : List OrderLine
new_rows = row (codes "1") true (codes "shipped") ∷ row (codes "2") false (codes "open") ∷ []

abbrev all_valid : OrderLine → Bool
all_valid _ = true

abbrev state : OrderState
state = record {
  status = codes "booked";
  status_detail = [];
  lifecycle_state = [];
  requested_delivery_date = none;
  promised_delivery_date = none;
  estimated_delivery_date = none;
  open_exception_count = 0;
}

abbrev snapshot : Snapshot
snapshot = record { state = state; exceptions = []; raw_payload = codes "{}" }

sync_runs : sync_lines all_valid none two_lines old_rows ≡ synced new_rows
unfolding sync_lines save_lines row_of line_keys snapshot_keys put_row tracked_of written_row
    list_beq contains distinct keep record_changes last_line described_row
sync_runs = refl

sync_again : sync_lines all_valid none two_lines new_rows ≡ synced new_rows
unfolding sync_runs
sync_again = refl

-- Two new lines of one key.
sync_refused :
    sync_lines all_valid none
      ((record { key = codes "2"; fields = fields_of [] })
        ∷ (record { key = codes "2"; fields = fields_of [] })
        ∷ [])
      old_rows
    ≡ refused
unfolding sync_runs
sync_refused = refl

row_of-sync_lines_example :
    row_of (codes "1") new_rows
    ≡ expected_row none (last_line (codes "1") two_lines) (row_of (codes "1") old_rows)
row_of-sync_lines_example =
    row_of-sync_lines all_valid none two_lines old_rows new_rows (codes "1") sync_runs

sync_lines-returns_example :
    (saved : List OrderLine) × (sync_lines all_valid none two_lines old_rows ≡ synced saved)
unfolding sync_runs
sync_lines-returns_example = sync_lines-returns all_valid (λ r. refl) none two_lines old_rows refl

abbrev order_snapshot : OrderSnapshot
order_snapshot = record {
  order_number = codes "77";
  fields = record blank_fields { state = state };
  exceptions = [];
  lines = two_lines;
}

abbrev old_order : Text → Order
old_order number = record (new_order (codes "poe") number) { lines = old_rows }

abbrev old_orders : List Order
old_orders = old_order (codes "76") ∷ old_order (codes "77") ∷ []

abbrev any_order : Order → Bool
any_order _ = true

abbrev first_sync : Synced (List Update) × List Order
first_sync =
    sync_order any_order all_valid 5 (codes "poe") (codes "poll") none order_snapshot old_orders

abbrev second_sync : Synced (List Update) × List Order
second_sync =
    sync_order any_order all_valid 9 (codes "poe") (codes "manual") (some []) order_snapshot
      first_sync.1

updates_of : Synced (List Update) → List Update
updates_of (synced updates) = updates
updates_of refused = []

-- The first of the two records that the status and a line changed, and that a line is new.
sync_order_runs : length (updates_of first_sync.0) ≡ 2
unfolding sync_runs sync_order find_order put_order new_order written_order updates_of is_order
    change_snapshot same_date previous_status previous_shipment previous_dates dates_of equal_dates
    line_changes
sync_order_runs = refl

sync_order-again_example : updates_of second_sync.0 ≡ []
unfolding sync_order_runs
sync_order-again_example =
    sync_order-again any_order all_valid 5 9 (codes "poe") (codes "poll") (codes "manual") none
      (some []) order_snapshot old_orders first_sync.1 second_sync.1 (updates_of first_sync.0)
      (updates_of second_sync.0) (λ o found. rw (sym (some-injective _ _ found)) refl) refl refl

sync_order-other_example :
    find_order (codes "poe") (codes "76") first_sync.1
    ≡ find_order (codes "poe") (codes "76") old_orders
unfolding sync_order_runs
sync_order-other_example =
    sync_order-other any_order all_valid (codes "poe") (codes "76") 5 (codes "poe") (codes "poll")
      none order_snapshot old_orders refl

-- The parents of two lines, and a serial attribute with a blank and a repeated value.
parents_run :
    map parent_line_number_for (codes "2.0" ∷ codes "2.1" ∷ codes "2.1.4" ∷ [])
    ≡ [] ∷ codes "2.0" ∷ codes "2.1" ∷ []
unfolding parent_line_number_for split_dots list_beq serial_attribute_values text_values ensure_list
    dedupe_onto contains lookup strip strip_by drop_while is_space
parents_run = refl

abbrev attributes : List (Option (Dict Values))
attributes =
    none
    ∷ some
        ((codes "sn", many (text_item (codes " A1") ∷ nothing ∷ text_item (codes "A1") ∷ [])) ∷ [])
    ∷ []

serials_once : serial_attribute_values attributes (codes "sn") (codes "F") ≡ codes "A1" ∷ []
unfolding parents_run
serials_once = refl

parent_line_number_for-ends_example :
    parent_line_number_for (parent_line_number_for (parent_line_number_for (codes "1.2.3"))) ≡ []
parent_line_number_for-ends_example = parent_line_number_for-ends (codes "1.2.3")
