-- ===== src/Orders/Changes/Resync.antt =====
-- A snapshot that is synchronised again, plugins/nautobot-app-nbcot/nbcot/cisco/sync.py.
use nautobot_docker_compose.Base.{
  inr, sym, inl, Bool-cases, false, some-injective, ap, ◌∙◌, ◌≡◌, refl, Bool, true, ◌&&◌, Option,
  none, some, List, [], ◌∷◌, ◌==◌, nat_eq, list_eq, list_beq_iff, contains, distinct, all, arith,
  beq_refl,
}
use nautobot_docker_compose.Orders.Lines.Rows.{last_line, row_of-after_sync, described_row}
use nautobot_docker_compose.Orders.Lines.{
  snapshot_keys, synced, sync_lines, SnapshotLine, written_row, OrderLine, row_of, line_keys,
}
use nautobot_docker_compose.Orders.Lines.Success.{distinct-sync_lines}
use nautobot_docker_compose.Orders.Changes.{
  lines_updates, record_changes, Snapshot, same_date, equal_dates, line_changes, previous_status,
  previous_dates, previous_shipment, dates_of, order_changes, same_status, same_dates,
}
use nautobot_docker_compose.Base.Text.{Text}

same_date_refl : (d : Option Text) → same_date d d ≡ true
unfolding same_date
same_date_refl none = refl
same_date_refl (some a) = beq_refl a

order_changes-same : (s : Snapshot) → order_changes s.state s ≡ []
unfolding order_changes same_status same_dates
order_changes-same s = ground (
  arith,
  beq_refl s.state.status,
  beq_refl s.state.status_detail,
  beq_refl s.state.lifecycle_state,
  same_date_refl s.state.requested_delivery_date,
  same_date_refl s.state.promised_delivery_date,
  same_date_refl s.state.estimated_delivery_date,
)

-- The row before has the same status, dates and shipment.
unfoldable pub unchanged : List OrderLine → OrderLine → Bool
unchanged before row =
    previous_status (row_of row.line_key before) == row.fields.status
    && equal_dates (previous_dates (row_of row.line_key before)) (dates_of row.fields)
    && previous_shipment (row_of row.line_key before) == row.fields.shipment_status

line_changes-none :
    (before rows : List OrderLine)
    → all (unchanged before) rows ≡ true
    → line_changes before rows ≡ ([], [], [])
unfolding line_changes all unchanged
line_changes-none before [] h = refl
line_changes-none before (row ∷ rows) h =
    rw (line_changes-none before rows (ground arith)) (ground arith)

contains-row_of :
    (key : Text) (rows : List OrderLine) {r : OrderLine}
    → row_of key rows ≡ some r
    → contains (line_keys rows) key ≡ true
unfolding row_of line_keys contains
contains-row_of key [] h = cc
contains-row_of key (x ∷ rows) {r} h = ground (arith, contains-row_of key rows {r = r})

all-row_of :
    (p : OrderLine → Bool) (rows : List OrderLine)
    → distinct (line_keys rows) ≡ true
    → ((r : OrderLine) → row_of r.line_key rows ≡ some r → p r ≡ true)
    → all p rows ≡ true
unfolding row_of line_keys distinct all
all-row_of p [] d h = refl
all-row_of p (x ∷ rows) d h =
    let tail = all-row_of p rows (ground arith) (λ r found.
      ground (
        arith,
        h r,
        contains-row_of r.line_key rows {r = r},
        list_beq_iff x.line_key r.line_key,
      )) in
    ground (arith, h x, beq_refl x.line_key)

-- The row that a line described has its fields.
described-fields :
    (tracked tracked' : Option (List Text)) (line : Option SnapshotLine)
    (old old' : Option OrderLine) {r : OrderLine}
    → described_row tracked' line old' ≡ some r
    → ((line ≡ none) → old ≡ old')
    → (w : OrderLine) × (described_row tracked line old ≡ some w) × (w.fields ≡ r.fields)
unfolding described_row written_row
described-fields tracked tracked' none old old' {r} h same = (r, same refl ∙ h, refl)
described-fields tracked tracked' (some line) old old' {r} h same =
    (written_row tracked line old, refl, ap (λ (x : OrderLine). x.fields) (some-injective _ _ h))

unchanged-fields :
    (before : List OrderLine) (w r : OrderLine)
    → row_of r.line_key before ≡ some w
    → w.fields ≡ r.fields
    → unchanged before r ≡ true
unfolding unchanged previous_status previous_shipment previous_dates equal_dates dates_of
unchanged-fields before w r found same = rw found (
    rw same (
      ground (
        arith,
        beq_refl r.fields.status,
        beq_refl r.fields.shipment_status,
        same_date_refl r.fields.promised_delivery_date,
        same_date_refl r.fields.estimated_delivery_date,
      )))

described-none :
    (tracked : Option (List Text)) (line : Option SnapshotLine) (old : Option OrderLine)
    → line ≡ none
    → described_row tracked line old ≡ old
unfolding described_row
described-none tracked none old n = refl
described-none tracked (some line) old n = cc

module _ (is_valid : OrderLine → Bool) where
  row_before :
      (tracked tracked' : Option (List Text)) (lines : List SnapshotLine)
      (rows saved again : List OrderLine) (key : Text) {r : OrderLine}
      → sync_lines is_valid tracked lines rows ≡ synced saved
      → sync_lines is_valid tracked' lines saved ≡ synced again
      → row_of key again ≡ some r
      → (w : OrderLine) × (row_of key saved ≡ some w) × (w.fields ≡ r.fields)
  row_before tracked tracked' lines rows saved again key {r} h h' found =
      let at_saved = row_of-after_sync is_valid tracked lines rows saved key h in
      let at_again = row_of-after_sync is_valid tracked' lines saved again key h' in
      elim (Bool-cases (contains (snapshot_keys lines) key)) [
        | inl e ↦
            let line = last_line key lines in
            let old : row_of key saved ≡ described_row tracked line (row_of key rows) =
              rw e at at_saved in
            let new : row_of key again ≡ described_row tracked' line (row_of key saved) =
              rw e at at_again in
            let (w, is_w, same) =
              described-fields tracked tracked' line (row_of key rows) (row_of key saved)
                (sym new ∙ found)
                (λ n. sym (old ∙ described-none tracked line (row_of key rows) n)) in
            (w, old ∙ is_w, same)
        | inr e ↦ let gone : row_of key again ≡ none = rw e at at_again in cc
      ]

  -- Synchronising a snapshot a second time, whatever lines are tracked either time, records no
  -- update, if the table's keys were unique and neither synchronisation is refused.
  pub record_changes-resync :
      (tracked tracked' : Option (List Text)) (source : Text) (snapshot : Snapshot)
      (lines : List SnapshotLine) (rows saved again : List OrderLine)
      → distinct (line_keys rows) ≡ true
      → sync_lines is_valid tracked lines rows ≡ synced saved
      → sync_lines is_valid tracked' lines saved ≡ synced again
      → record_changes false source snapshot.state saved snapshot again ≡ []
  unfolding record_changes lines_updates
  record_changes-resync tracked tracked' source snapshot lines rows saved again d h h' =
      let unique =
        distinct-sync_lines is_valid tracked' lines saved again
          (distinct-sync_lines is_valid tracked lines rows saved d h) h' in
      let kept = all-row_of (unchanged saved) again unique (λ r found.
        let (w, was, same) =
          row_before tracked tracked' lines rows saved again r.line_key h h' found in
        unchanged-fields saved w r was same) in
      rw (order_changes-same snapshot, line_changes-none saved again kept)
