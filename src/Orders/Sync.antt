-- ===== src/Orders/Sync.antt =====
-- `CiscoOrderSynchronizer.sync_order_by_number` and `record_sync_error` of
-- plugins/nautobot-app-nbcot/nbcot/cisco/sync.py, from the normalised snapshot on: the table of
-- orders, each with its lines. A refusal of `validated_save` or an empty order number raises, and the
-- transaction leaves the table as it was. The fields that no synchronisation touches (notes,
-- recipients and the like) and the notification are left out.
pub mod Stored
pub mod Again
pub mod Other
use nautobot_docker_compose.Base.{
  ℕ, Bool, true, false, not, ◌&&◌, Option, none, some, List, [], ◌∷◌, ◌++◌, ◌==◌, nat_eq, list_eq,
  if◌then◌else◌, take,
}
use nautobot_docker_compose.Base.Text.{Text, codes, is_empty}
use nautobot_docker_compose.Orders.Lines.{
  SnapshotLine, OrderLine, Synced, synced, refused, sync_lines,
}
use nautobot_docker_compose.Orders.Changes.{OrderState, Snapshot, Update, record_changes}

-- What the snapshot says of the order itself.
pub record OrderFields : Type 0 where
  pub customer_po_number : Text
  pub account_name : Text
  pub account_number : Text
  pub state : OrderState
  pub ordered_at : Option Text
  pub last_event_at : Option Text
  pub web_order_url : Text
  pub cisco_sales_order_url : Text
  pub raw_payload : Text

pub record OrderSnapshot : Type 0 where
  pub order_number : Text
  pub fields : OrderFields
  pub exceptions : Text
  pub lines : List SnapshotLine

pub data SyncStatus : Type 0 where
  pending success error : SyncStatus

pub record Order : Type 0 where
  pub environment : Text
  pub order_number : Text
  pub is_tracked : Bool
  pub last_synced_at : Option ℕ
  pub last_sync_status : SyncStatus
  pub last_sync_message : Text
  pub fields : OrderFields
  pub lines : List OrderLine

unfoldable pub is_order : Text → Text → Order → Bool
is_order environment number o = o.environment == environment && o.order_number == number

unfoldable pub find_order : Text → Text → List Order → Option Order
unfolding is_order
find_order environment number [] = none
find_order environment number (o ∷ orders) =
    if is_order environment number o then some o else find_order environment number orders

-- A row is written in place of that of its environment and number, or added.
unfoldable pub put_order : Order → List Order → List Order
unfolding is_order
put_order order [] = order ∷ []
put_order order (o ∷ orders) =
    if is_order order.environment order.order_number o
    then order ∷ orders
    else o ∷ put_order order orders

-- The defaults of a new row.
abbrev pub blank_state : OrderState
blank_state = record {
  status = [];
  status_detail = [];
  lifecycle_state = [];
  requested_delivery_date = none;
  promised_delivery_date = none;
  estimated_delivery_date = none;
  open_exception_count = 0;
}

abbrev pub blank_fields : OrderFields
blank_fields = record {
  customer_po_number = [];
  account_name = [];
  account_number = [];
  state = blank_state;
  ordered_at = none;
  last_event_at = none;
  web_order_url = [];
  cisco_sales_order_url = [];
  raw_payload = codes "{}";
}

unfoldable pub new_order : Text → Text → Order
new_order environment number = record {
  environment = environment;
  order_number = number;
  is_tracked = true;
  last_synced_at = none;
  last_sync_status = pending;
  last_sync_message = [];
  fields = blank_fields;
  lines = [];
}

unfoldable pub written_order : ℕ → OrderSnapshot → Order → List OrderLine → Order
written_order now snapshot old lines = record old {
  last_synced_at = some now;
  last_sync_status = success;
  last_sync_message = [];
  fields = snapshot.fields;
  lines = lines;
}

-- What `_record_changes` reads of the snapshot.
unfoldable pub change_snapshot : OrderSnapshot → Snapshot
change_snapshot s = record {
  state = s.fields.state;
  exceptions = s.exceptions;
  raw_payload = s.fields.raw_payload;
}

module _ (is_valid_order : Order → Bool) (is_valid : OrderLine → Bool) where
  store_lines :
      Bool
      → ℕ
      → Text
      → OrderSnapshot
      → Order
      → List Order
      → Synced (List OrderLine)
      → Synced (List Update) × List Order
  store_lines is_created now source snapshot old orders refused = (refused, orders)
  store_lines is_created now source snapshot old orders (synced lines) = (
    synced (
        record_changes is_created source old.fields.state old.lines (change_snapshot snapshot)
          lines),
    put_order (written_order now snapshot old lines) orders,
  )

  sync_found :
      Bool
      → ℕ
      → Text
      → Option (List Text)
      → OrderSnapshot
      → Order
      → List Order
      → Synced (List Update) × List Order
  unfolding store_lines
  sync_found is_created now source tracked snapshot old orders =
      if is_valid_order (written_order now snapshot old old.lines)
      then store_lines is_created now source snapshot old orders
          (sync_lines is_valid tracked snapshot.lines old.lines)
      else (refused, orders)

  get_or_new :
      ℕ
      → Text
      → Text
      → Option (List Text)
      → OrderSnapshot
      → List Order
      → Option Order
      → Synced (List Update) × List Order
  unfolding sync_found
  get_or_new now environment source tracked snapshot orders none =
      sync_found true now source tracked snapshot (new_order environment snapshot.order_number)
        orders
  get_or_new now environment source tracked snapshot orders (some old) =
      sync_found false now source tracked snapshot old orders

  -- `sync_order_by_number`
  unfoldable pub sync_order :
      ℕ
      → Text
      → Text
      → Option (List Text)
      → OrderSnapshot
      → List Order
      → Synced (List Update) × List Order
  unfolding get_or_new
  sync_order now environment source tracked snapshot orders =
      if is_empty snapshot.order_number
      then (refused, orders)
      else get_or_new now environment source tracked snapshot orders
          (find_order environment snapshot.order_number orders)

-- The row that `record_sync_error` saves; its update says the message in full.
unfoldable pub failed_order : ℕ → Text → Order → Order
failed_order now message old = record old {
  last_synced_at = some now;
  last_sync_status = error;
  last_sync_message = take 255 message;
}
