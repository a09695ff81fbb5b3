-- ===== src/Orders/Lines/Rows.antt =====
-- The rows that `_sync_lines` of plugins/nautobot-app-nbcot/nbcot/cisco/sync.py leaves.
use nautobot_docker_compose.Base.{
  true, false, inr, inl, Bool-cases, sym, ◌∙◌, ap, Bool, ◌≡◌, refl, Option, none, some, List, [],
  ◌∷◌, ◌==◌, nat_eq, list_eq, list_beq_iff, if◌then◌else◌, contains, keep, arith,
}
use nautobot_docker_compose.Orders.Lines.{
  refused, line_keys, sync_lines, without_unseen, Synced, and_then, synced, save_lines, save_line,
  snapshot_keys, tracked_of, SnapshotLine, OrderLine, row_of, put_row, written_row,
}
use nautobot_docker_compose.Base.Text.{Text}

-- The last line of a key in a snapshot.
unfoldable pub last_line : Text → List SnapshotLine → Option SnapshotLine
last_line key [] = none
last_line key (line ∷ lines) = elim (last_line key lines) [
  | none ↦ if line.key == key then some line else none
  | some later ↦ some later
]

-- The row that a snapshot describes for a key, given the row that was there.
unfoldable pub described_row :
    Option (List Text) → Option SnapshotLine → Option OrderLine → Option OrderLine
described_row tracked none old = old
described_row tracked (some line) old = some (written_row tracked line old)

row_of-put_row :
    (key : Text) (row : OrderLine) (rows : List OrderLine)
    → row_of key (put_row row rows) ≡ (if row.line_key == key then some row else row_of key rows)
unfolding row_of put_row
row_of-put_row key row [] = refl
row_of-put_row key row (r ∷ rows) = ground (
  arith,
  row_of-put_row key row rows,
  list_beq_iff r.line_key row.line_key,
  list_beq_iff row.line_key key,
  list_beq_iff r.line_key key,
)

row_of-keep :
    (seen : List Text) (key : Text) (rows : List OrderLine)
    → row_of key (keep (λ r. contains seen r.line_key) rows)
      ≡ (if contains seen key then row_of key rows else none)
unfolding row_of keep
row_of-keep seen key [] = ground arith
row_of-keep seen key (r ∷ rows) =
    ground (arith, row_of-keep seen key rows, list_beq_iff r.line_key key)

-- A second line of the key keeps what the first took over from the old row.
written_row-again :
    (tracked : Option (List Text)) (first later : SnapshotLine) (old : Option OrderLine)
    → written_row tracked later (some (written_row tracked first old))
      ≡ written_row tracked later old
unfolding written_row tracked_of
written_row-again (some keys) first later old = refl
written_row-again none first later none = refl
written_row-again none first later (some row) = refl

pub and_then-synced :
    (m : Synced (List OrderLine)) (next : List OrderLine → Synced (List OrderLine))
    {saved : List OrderLine}
    → and_then m next ≡ synced saved
    → (mid : List OrderLine) × (m ≡ synced mid) × (next mid ≡ synced saved)
unfolding and_then
and_then-synced (synced rows) next h = (rows, refl, h)
and_then-synced refused next h = cc

rows_or : List OrderLine → Synced (List OrderLine) → List OrderLine
rows_or rows (synced saved) = saved
rows_or rows refused = rows

pub synced-injective : {xs ys : List OrderLine} → synced xs ≡ synced ys → xs ≡ ys
unfolding rows_or
synced-injective {xs} h = ap (rows_or xs) h

row_of-without_unseen :
    (seen : List Text) (key : Text) (rows : List OrderLine)
    → row_of key (without_unseen seen rows) ≡ (if contains seen key then row_of key rows else none)
unfolding without_unseen
row_of-without_unseen seen key rows = row_of-keep seen key rows

described_step :
    (tracked : Option (List Text)) (line : SnapshotLine) (later : Option SnapshotLine) (key : Text)
    (rows : List OrderLine)
    → described_row tracked later (
        if line.key == key
        then some (written_row tracked line (row_of line.key rows))
        else row_of key rows)
      ≡ described_row tracked
          (elim later [ none ↦ if line.key == key then some line else none | some l ↦ some l ])
          (row_of key rows)
unfolding described_row
described_step tracked line none key rows = elim (Bool-cases (line.key == key)) [
  | inl e ↦ rw (e, ap (λ (k : Text). row_of k rows) ((list_beq_iff line.key key).0 e))
  | inr e ↦ rw e
]
described_step tracked line (some l) key rows = elim (Bool-cases (line.key == key)) [
  | inl e ↦
      rw (e, ap (λ (k : Text). row_of k rows) ((list_beq_iff line.key key).0 e))
        (ap some (written_row-again tracked line l (row_of key rows)))
  | inr e ↦ rw e
]

module _ (is_valid : OrderLine → Bool) where
  pub save_line-synced :
      (existing : List Text) (tracked : Option (List Text)) (line : SnapshotLine)
      (rows saved : List OrderLine)
      → save_line is_valid existing tracked line rows ≡ synced saved
      → put_row (written_row tracked line (row_of line.key rows)) rows ≡ saved
  unfolding save_line
  save_line-synced existing tracked line rows saved h = ground arith

  row_of-save_lines :
      (existing : List Text) (tracked : Option (List Text)) (lines : List SnapshotLine)
      (rows saved : List OrderLine) (key : Text)
      → save_lines is_valid existing tracked lines rows ≡ synced saved
      → row_of key saved ≡ described_row tracked (last_line key lines) (row_of key rows)
  unfolding save_lines last_line described_row and_then
  row_of-save_lines existing tracked [] rows saved key h = ground arith
  row_of-save_lines existing tracked (line ∷ lines) rows saved key h =
      let (mid, first, rest) =
        and_then-synced (save_line is_valid existing tracked line rows)
          (save_lines is_valid existing tracked lines) h in
      row_of-save_lines existing tracked lines mid saved key rest
      ∙ rw (sym (save_line-synced existing tracked line rows mid first)) (
          rw (row_of-put_row key (written_row tracked line (row_of line.key rows)) rows)
            (described_step tracked line (last_line key lines) key rows))

  pub row_of-after_sync :
      (tracked : Option (List Text)) (lines : List SnapshotLine) (rows saved : List OrderLine)
      (key : Text)
      → sync_lines is_valid tracked lines rows ≡ synced saved
      → row_of key saved ≡ (
          if contains (snapshot_keys lines) key
          then described_row tracked (last_line key lines) (row_of key rows)
          else none)
  unfolding sync_lines
  row_of-after_sync tracked lines rows saved key h =
      let (mid, first, rest) =
        and_then-synced (save_lines is_valid (line_keys rows) tracked lines rows)
          (λ saved'. synced (without_unseen (snapshot_keys lines) saved')) h in
      ap (row_of key) (sym (synced-injective rest))
      ∙ row_of-without_unseen (snapshot_keys lines) key mid
      ∙ rw (row_of-save_lines (line_keys rows) tracked lines rows mid key first)

-- The independent description: the line's fields, tracked as the given keys say or, without them,
-- as the row was.
unfoldable pub was_tracked : Option OrderLine → Bool
was_tracked none = false
was_tracked (some row) = row.is_tracked

unfoldable pub is_tracked_after : Option (List Text) → Text → Option OrderLine → Bool
is_tracked_after none key old = was_tracked old
is_tracked_after (some keys) key old = contains keys key

unfoldable pub expected_row :
    Option (List Text) → Option SnapshotLine → Option OrderLine → Option OrderLine
expected_row tracked none old = none
expected_row tracked (some line) old = some (record {
  line_key = line.key;
  is_tracked = is_tracked_after tracked line.key old;
  fields = line.fields;
})

last_line-none :
    (key : Text) (lines : List SnapshotLine)
    → contains (snapshot_keys lines) key ≡ false
    → last_line key lines ≡ none
unfolding last_line snapshot_keys contains
last_line-none key [] h = refl
last_line-none key (line ∷ lines) h = rw (last_line-none key lines (ground arith)) (ground arith)

last_line-some :
    (key : Text) (lines : List SnapshotLine)
    → last_line key lines ≡ none
    → contains (snapshot_keys lines) key ≡ false
unfolding last_line snapshot_keys contains
last_line-some key [] h = refl
last_line-some key (line ∷ lines) h = ground (arith, last_line-some key lines)

described-expected :
    (tracked : Option (List Text)) (line : SnapshotLine) (old : Option OrderLine)
    → described_row tracked (some line) old ≡ expected_row tracked (some line) old
unfolding described_row expected_row written_row tracked_of is_tracked_after was_tracked
described-expected (some keys) line old = refl
described-expected none line none = refl
described-expected none line (some row) = refl

-- A key of no line has no row.
seen-expected :
    (tracked : Option (List Text)) (line : Option SnapshotLine) (old : Option OrderLine)
    (seen : Bool)
    → (line ≡ none → seen ≡ false)
    → (seen ≡ false → line ≡ none)
    → (if seen then described_row tracked line old else none) ≡ expected_row tracked line old
unfolding expected_row
seen-expected tracked none old seen h k = rw (h refl)
seen-expected tracked (some line) old true h k = described-expected tracked line old
seen-expected tracked (some line) old false h k =
    let no : ◌≡◌ {A = Option SnapshotLine} (some line) none = k refl in cc

module _ (is_valid : OrderLine → Bool) where
  -- After a synchronisation that is not refused, the row of any key is the one that the last line
  -- of the key describes: the line's fields, and `is_tracked` from the given keys or, without
  -- them, from the row that was there; a key of no line has no row.
  pub row_of-sync_lines :
      (tracked : Option (List Text)) (lines : List SnapshotLine) (rows saved : List OrderLine)
      (key : Text)
      → sync_lines is_valid tracked lines rows ≡ synced saved
      → row_of key saved ≡ expected_row tracked (last_line key lines) (row_of key rows)
  row_of-sync_lines tracked lines rows saved key h =
      row_of-after_sync is_valid tracked lines rows saved key h
      ∙ seen-expected tracked (last_line key lines) (row_of key rows)
          (contains (snapshot_keys lines) key) (last_line-some key lines) (last_line-none key lines)
