-- ===== src/Orders/Lines.antt =====
-- `CiscoOrderSynchronizer._sync_lines` of plugins/nautobot-app-nbcot/nbcot/cisco/sync.py: the lines
-- of one order, as a table whose rows have the order's line keys. A date is given by its ISO text, a
-- raw payload by its JSON text; the derived `line_sort_key` is left out. `is_valid` is the field
-- validation of `validated_save`, which also refuses a second row of the same key.
pub mod Rows
pub mod Success
use nautobot_docker_compose.Base.{
  ℕ, Bool, true, false, not, ◌&&◌, ◌||◌, Option, none, some, List, [], ◌∷◌, ◌++◌, ◌==◌, nat_eq,
  list_eq, if◌then◌else◌, contains, keep,
}
use nautobot_docker_compose.Base.Text.{Text}

-- What a snapshot says of a line, and what a row keeps of it.
pub record LineFields : Type 0 where
  pub line_number : Text
  pub sku : Text
  pub description : Text
  pub status : Text
  pub shipment_status : Text
  pub quantity_ordered : ℕ
  pub quantity_fulfilled : ℕ
  pub quantity_backordered : ℕ
  pub promised_delivery_date : Option Text
  pub estimated_delivery_date : Option Text
  pub serial_number : Text
  pub parent_serial_number : Text
  pub mac_address : Text
  pub imei_number : Text
  pub instance_number : Text
  pub license_key : Text
  pub cloud_id : Text
  pub contract_number : Text
  pub ship_set : Text
  pub carrier : Text
  pub tracking_number : Text
  pub tracking_url : Text
  pub proof_of_delivery_url : Text
  pub actual_delivery_date : Option Text
  pub estimated_ship_date : Option Text
  pub raw_payload : Text

pub record SnapshotLine : Type 0 where
  pub key : Text
  pub fields : LineFields

pub record OrderLine : Type 0 where
  pub line_key : Text
  pub is_tracked : Bool
  pub fields : LineFields

pub data Synced {ℓ} (A : Type ℓ) : Type ℓ where
  synced : A → Synced A
  refused : Synced A

-- The row of a key.
unfoldable pub row_of : Text → List OrderLine → Option OrderLine
row_of key [] = none
row_of key (r ∷ rows) = if r.line_key == key then some r else row_of key rows

unfoldable pub line_keys : List OrderLine → List Text
line_keys [] = []
line_keys (r ∷ rows) = r.line_key ∷ line_keys rows

unfoldable pub snapshot_keys : List SnapshotLine → List Text
snapshot_keys [] = []
snapshot_keys (line ∷ lines) = line.key ∷ snapshot_keys lines

-- A row is written in place of that of its key, or added.
unfoldable pub put_row : OrderLine → List OrderLine → List OrderLine
put_row row [] = row ∷ []
put_row row (r ∷ rows) = if r.line_key == row.line_key then row ∷ rows else r ∷ put_row row rows

-- `is_tracked` of a line: the default, or what the object had, unless keys are given.
unfoldable pub tracked_of : Option (List Text) → Text → Option OrderLine → Bool
tracked_of (some keys) key old = contains keys key
tracked_of none key none = false
tracked_of none key (some row) = row.is_tracked

unfoldable pub written_row : Option (List Text) → SnapshotLine → Option OrderLine → OrderLine
written_row tracked line old = record {
  line_key = line.key;
  is_tracked = tracked_of tracked line.key old;
  fields = line.fields;
}

unfoldable pub and_then :
    Synced (List OrderLine) → (List OrderLine → Synced (List OrderLine)) → Synced (List OrderLine)
and_then (synced rows) next = next rows
and_then refused next = refused

-- `order.lines.exclude(line_key__in=seen_keys).delete()`; all rows where no line was seen.
unfoldable pub without_unseen : List Text → List OrderLine → List OrderLine
without_unseen seen rows = keep (λ r. contains seen r.line_key) rows

module _ (is_valid : OrderLine → Bool) where
  -- `existing` are the keys that the table had before; a line of another key makes a new object,
  -- which the table refuses if it has got a row of the key meanwhile.
  unfoldable pub save_line :
      List Text → Option (List Text) → SnapshotLine → List OrderLine → Synced (List OrderLine)
  unfolding written_row
  save_line existing tracked line rows =
      let row = written_row tracked line (row_of line.key rows) in
      if is_valid row && (contains existing line.key || not (contains (line_keys rows) line.key))
      then synced (put_row row rows)
      else refused

  unfoldable pub save_lines :
      List Text → Option (List Text) → List SnapshotLine → List OrderLine → Synced (List OrderLine)
  unfolding save_line and_then
  save_lines existing tracked [] rows = synced rows
  save_lines existing tracked (line ∷ lines) rows =
      and_then (save_line existing tracked line rows) (save_lines existing tracked lines)

  -- `_sync_lines`
  unfoldable pub sync_lines :
      Option (List Text) → List SnapshotLine → List OrderLine → Synced (List OrderLine)
  unfolding without_unseen and_then
  sync_lines tracked lines rows =
      and_then (save_lines (line_keys rows) tracked lines rows)
        (λ saved. synced (without_unseen (snapshot_keys lines) saved))
