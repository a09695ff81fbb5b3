-- ===== src/Orders/Changes.antt =====
-- `CiscoOrderSynchronizer._record_changes` of plugins/nautobot-app-nbcot/nbcot/cisco/sync.py: the
-- updates that a synchronisation records. The state of an order before it is a value; that of its
-- lines is the table before it, whose keys are unique. Rows are in the order of the table. The
-- summary of an update follows from its kind and is left out.
pub mod Resync
use nautobot_docker_compose.Base.{
  ℕ, Bool, true, false, not, ◌&&◌, Option, none, some, List, [], ◌∷◌, ◌++◌, ◌==◌, nat_eq, list_eq,
  if◌then◌else◌,
}
use nautobot_docker_compose.Base.Text.{Text}
use nautobot_docker_compose.Orders.Lines.{LineFields, OrderLine, row_of}

pub record OrderState : Type 0 where
  pub status : Text
  pub status_detail : Text
  pub lifecycle_state : Text
  pub requested_delivery_date : Option Text
  pub promised_delivery_date : Option Text
  pub estimated_delivery_date : Option Text
  pub open_exception_count : ℕ

-- An item of `changes`: the line, and what it was before and is after.
pub record LineChange (V : Type 0) : Type 0 where
  pub line_key : Text
  pub line_number : Text
  pub sku : Text
  pub before : V
  pub after : V

abbrev pub Dates : Type 0
Dates = Option Text × Option Text

pub data Change : Type 0 where
  created : OrderState → Change
  status_changed : Text × Text × Text → Text × Text × Text → Change
  date_changed : Option Text × Dates → Option Text × Dates → Change
  exception_changed : ℕ → ℕ → Text → Change
  line_status_changed : List (LineChange Text) → Change
  line_date_changed : List (LineChange Dates) → Change
  shipment_changed : List (LineChange Text) → Change

pub record Update : Type 0 where
  pub source : Text
  pub change : Change
  pub raw_payload : Text

pub record Snapshot : Type 0 where
  pub state : OrderState
  pub exceptions : Text
  pub raw_payload : Text

unfoldable pub same_date : Option Text → Option Text → Bool
same_date none none = true
same_date (some a) (some b) = a == b
same_date _ _ = false

status_part : OrderState → Text × Text × Text
status_part s = (s.status, s.status_detail, s.lifecycle_state)

same_status : OrderState → OrderState → Bool
same_status a b =
    a.status == b.status
    && a.status_detail == b.status_detail
    && a.lifecycle_state == b.lifecycle_state

date_part : OrderState → Option Text × Dates
date_part s = (s.requested_delivery_date, (s.promised_delivery_date, s.estimated_delivery_date))

same_dates : OrderState → OrderState → Bool
same_dates a b =
    same_date a.requested_delivery_date b.requested_delivery_date
    && same_date a.promised_delivery_date b.promised_delivery_date
    && same_date a.estimated_delivery_date b.estimated_delivery_date

-- What a line was before: empty if it is new.
unfoldable pub previous_status : Option OrderLine → Text
previous_status none = []
previous_status (some row) = row.fields.status

unfoldable pub previous_shipment : Option OrderLine → Text
previous_shipment none = []
previous_shipment (some row) = row.fields.shipment_status

unfoldable pub dates_of : LineFields → Dates
dates_of fields = (fields.promised_delivery_date, fields.estimated_delivery_date)

unfoldable pub previous_dates : Option OrderLine → Dates
unfolding dates_of
previous_dates none = (none, none)
previous_dates (some row) = dates_of row.fields

unfoldable pub equal_dates : Dates → Dates → Bool
equal_dates (a, b) (c, d) = same_date a c && same_date b d

add_change : {V : Type 0} → Bool → OrderLine → V → V → List (LineChange V) → List (LineChange V)
add_change same row before after changes =
    if same
    then changes
    else record {
      line_key = row.line_key;
      line_number = row.fields.line_number;
      sku = row.fields.sku;
      before = before;
      after = after;
    }
      ∷ changes

-- The loop over `order.lines.all()`: status, date and shipment changes.
unfoldable pub line_changes :
    List OrderLine
    → List OrderLine
    → List (LineChange Text) × List (LineChange Dates) × List (LineChange Text)
unfolding add_change
line_changes before [] = ([], [], [])
line_changes before (row ∷ rows) =
    let (statuses, dates, shipments) = line_changes before rows in
    let old = row_of row.line_key before in
    (
      add_change (previous_status old == row.fields.status) row (previous_status old)
          row.fields.status statuses,
      add_change (equal_dates (previous_dates old) (dates_of row.fields)) row (previous_dates old)
          (dates_of row.fields) dates,
      add_change (previous_shipment old == row.fields.shipment_status) row (previous_shipment old)
          row.fields.shipment_status shipments,
    )

update_if : Bool → Change → List Change
update_if wanted change = if wanted then change ∷ [] else []

update_of : {V : Type 0} → (List (LineChange V) → Change) → List (LineChange V) → List Change
update_of kind [] = []
update_of kind (c ∷ changes) = kind (c ∷ changes) ∷ []

order_changes : OrderState → Snapshot → List Change
unfolding update_if same_status same_dates status_part date_part
order_changes previous snapshot =
    let current = snapshot.state in
    update_if (not (same_status previous current))
      (status_changed (status_part previous) (status_part current))
    ++ (update_if (not (same_dates previous current))
          (date_changed (date_part previous) (date_part current))
        ++ update_if (not (previous.open_exception_count == current.open_exception_count)) (
            exception_changed previous.open_exception_count current.open_exception_count
              snapshot.exceptions))

lines_updates : List OrderLine → List OrderLine → List Change
unfolding update_of
lines_updates before rows =
    let (statuses, dates, shipments) = line_changes before rows in
    update_of line_status_changed statuses
    ++ (update_of line_date_changed dates ++ update_of shipment_changed shipments)

-- Each change as a row of `CiscoOrderUpdate`.
as_updates : Text → Text → List Change → List Update
as_updates source raw_payload [] = []
as_updates source raw_payload (change ∷ changes) =
    (record { source = source; change = change; raw_payload = raw_payload })
    ∷ as_updates source raw_payload changes

-- `_record_changes`
unfoldable pub record_changes :
    Bool → Text → OrderState → List OrderLine → Snapshot → List OrderLine → List Update
unfolding order_changes lines_updates as_updates
record_changes is_created source previous before snapshot rows =
    as_updates source snapshot.raw_payload (
      if is_created
      then created snapshot.state ∷ []
      else order_changes previous snapshot ++ lines_updates before rows)
