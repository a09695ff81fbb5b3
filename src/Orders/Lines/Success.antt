-- ===== src/Orders/Lines/Success.antt =====
-- When `_sync_lines` of plugins/nautobot-app-nbcot/nbcot/cisco/sync.py is not refused.
use nautobot_docker_compose.Orders.Lines.Rows.{save_line-synced, synced-injective, and_then-synced}
use nautobot_docker_compose.Base.{
  ◌∙◌, false, sym, ap, keep, ◌≡◌, refl, Bool, true, ◌||◌, Option, List, [], ◌∷◌, ◌==◌, nat_eq,
  list_eq, list_beq_iff, contains, distinct, arith,
}
use nautobot_docker_compose.Base.Text.{Text}
use nautobot_docker_compose.Orders.Lines.{
  SnapshotLine, OrderLine, synced, row_of, line_keys, snapshot_keys, put_row, written_row,
  save_line, and_then, save_lines, without_unseen, sync_lines,
}

contains-put_row :
    (row : OrderLine) (rows : List OrderLine) (k : Text)
    → contains (line_keys (put_row row rows)) k ≡ (contains (line_keys rows) k || row.line_key == k)
unfolding line_keys put_row contains
contains-put_row row [] k = ground arith
contains-put_row row (r ∷ rows) k = ground (
  arith,
  contains-put_row row rows k,
  list_beq_iff r.line_key row.line_key,
  list_beq_iff r.line_key k,
  list_beq_iff row.line_key k,
)

module _ (is_valid : OrderLine → Bool) (valid : (r : OrderLine) → is_valid r ≡ true) where
  save_line-returns :
      (existing : List Text) (tracked : Option (List Text)) (line : SnapshotLine)
      (rows : List OrderLine)
      → (contains (line_keys rows) line.key ≡ true → contains existing line.key ≡ true)
      → save_line is_valid existing tracked line rows
        ≡ synced (put_row (written_row tracked line (row_of line.key rows)) rows)
  unfolding save_line
  save_line-returns existing tracked line rows h =
      rw (valid (written_row tracked line (row_of line.key rows))) (ground arith)

  save_lines-returns :
      (existing : List Text) (tracked : Option (List Text)) (lines : List SnapshotLine)
      (rows : List OrderLine)
      → distinct (snapshot_keys lines) ≡ true
      → ((k : Text)
          → contains (snapshot_keys lines) k ≡ true
          → contains (line_keys rows) k ≡ true
          → contains existing k ≡ true)
      → (saved : List OrderLine) × (save_lines is_valid existing tracked lines rows ≡ synced saved)
  unfolding save_lines and_then snapshot_keys distinct contains written_row
  save_lines-returns existing tracked [] rows d h = (rows, refl)
  save_lines-returns existing tracked (line ∷ lines) rows d h =
      let row = written_row tracked line (row_of line.key rows) in
      let (saved, rest) =
        save_lines-returns existing tracked lines (put_row row rows) (ground arith) (λ k seen there.
          ground (arith, h k, contains-put_row row rows k, list_beq_iff line.key k)) in
      (
        saved,
        rw
            (save_line-returns existing tracked line rows
              (λ there. h line.key (ground (arith, list_beq_iff line.key line.key)) there))
            rest,
      )

  -- A snapshot whose lines have different keys is never refused, where every row is valid.
  pub sync_lines-returns :
      (tracked : Option (List Text)) (lines : List SnapshotLine) (rows : List OrderLine)
      → distinct (snapshot_keys lines) ≡ true
      → (saved : List OrderLine) × (sync_lines is_valid tracked lines rows ≡ synced saved)
  unfolding sync_lines and_then
  sync_lines-returns tracked lines rows d =
      let (mid, e) =
        save_lines-returns (line_keys rows) tracked lines rows d (λ k seen there. there) in
      (without_unseen (snapshot_keys lines) mid, rw e)

-- Row keys stay unique.
distinct-put_row :
    (row : OrderLine) (rows : List OrderLine)
    → distinct (line_keys rows) ≡ true
    → distinct (line_keys (put_row row rows)) ≡ true
unfolding line_keys put_row distinct contains
distinct-put_row row [] d = refl
distinct-put_row row (r ∷ rows) d = ground (
  arith,
  distinct-put_row row rows,
  contains-put_row row rows r.line_key,
  list_beq_iff r.line_key row.line_key,
  list_beq_iff row.line_key r.line_key,
)

contains-keys-keep :
    (p : OrderLine → Bool) (rows : List OrderLine) (k : Text)
    → contains (line_keys rows) k ≡ false
    → contains (line_keys (keep p rows)) k ≡ false
unfolding line_keys contains keep
contains-keys-keep p [] k h = refl
contains-keys-keep p (r ∷ rows) k h = ground (arith, contains-keys-keep p rows k)

distinct-keep :
    (p : OrderLine → Bool) (rows : List OrderLine)
    → distinct (line_keys rows) ≡ true
    → distinct (line_keys (keep p rows)) ≡ true
unfolding line_keys distinct keep
distinct-keep p [] d = refl
distinct-keep p (r ∷ rows) d =
    ground (arith, distinct-keep p rows, contains-keys-keep p rows r.line_key)

module _ (is_valid : OrderLine → Bool) where
  distinct-save_lines :
      (existing : List Text) (tracked : Option (List Text)) (lines : List SnapshotLine)
      (rows saved : List OrderLine)
      → distinct (line_keys rows) ≡ true
      → save_lines is_valid existing tracked lines rows ≡ synced saved
      → distinct (line_keys saved) ≡ true
  unfolding save_lines
  distinct-save_lines existing tracked [] rows saved d h =
      ap (λ xs. distinct (line_keys xs)) (sym (synced-injective h)) ∙ d
  distinct-save_lines existing tracked (line ∷ lines) rows saved d h =
      let (mid, first, rest) =
        and_then-synced (save_line is_valid existing tracked line rows)
          (save_lines is_valid existing tracked lines) h in
      distinct-save_lines existing tracked lines mid saved
        (ap (λ xs. distinct (line_keys xs))
            (sym (save_line-synced is_valid existing tracked line rows mid first))
          ∙ distinct-put_row (written_row tracked line (row_of line.key rows)) rows d)
        rest

  pub distinct-sync_lines :
      (tracked : Option (List Text)) (lines : List SnapshotLine) (rows saved : List OrderLine)
      → distinct (line_keys rows) ≡ true
      → sync_lines is_valid tracked lines rows ≡ synced saved
      → distinct (line_keys saved) ≡ true
  unfolding sync_lines without_unseen
  distinct-sync_lines tracked lines rows saved d h =
      let (mid, first, rest) =
        and_then-synced (save_lines is_valid (line_keys rows) tracked lines rows)
          (λ saved'. synced (without_unseen (snapshot_keys lines) saved')) h in
      ap (λ xs. distinct (line_keys xs)) (sym (synced-injective rest))
      ∙ distinct-keep (λ r. contains (snapshot_keys lines) r.line_key) mid
          (distinct-save_lines (line_keys rows) tracked lines rows mid d first)
