-- ===== src/Matrix/Actions/Workflow/Checks.antt =====
-- The statuses after `validate` of a batch, which checks the drafts and the rows in conflict.
use nautobot_docker_compose.Base.{
  beq_refl, keep, ◌⊎◌, distinct, refl, ap, inl, ◌∙◌, list_beq_iff, inr, [], nat_eq, ◌∷◌, ◌==◌,
  list_eq, false, true, Bool, ◌≡◌, contains, List, arith,
}
use nautobot_docker_compose.Matrix.Actions.Workflow.{
  validate_rows, RowAfter, CheckedIfOpen, update_row-Rowwise, Rowwise-trans, update_row,
  Rowwise-refl, ids_of, Checked, Rowwise,
}
use nautobot_docker_compose.Matrix.Actions.{validate_rows}
use nautobot_docker_compose.Matrix.Rows.{
  failed, executed, approved, conflict, validated, draft, ConnectionPlan, PlanStatus,
}
use nautobot_docker_compose.Matrix.Batch.{
  update_row, is_unchecked, validate_connection, checked_status, validate_each,
}
use nautobot_docker_compose.Matrix.Order.{ids_of}
use nautobot_docker_compose.Base.Text.{Text}

-- Not signed off, executed or failed.
abbrev is_open : PlanStatus → Bool
is_open draft = true
is_open validated = true
is_open conflict = true
is_open approved = false
is_open executed = false
is_open failed = false

-- What a check makes of an open row.
abbrev is_outcome : PlanStatus → Bool
is_outcome validated = true
is_outcome conflict = true
is_outcome draft = false
is_outcome approved = false
is_outcome executed = false
is_outcome failed = false

pub checked_status-Checked :
    (errors : List Text) (status : PlanStatus) → Checked status (checked_status errors status)
unfolding checked_status is_unchecked
checked_status-Checked (error ∷ errors) status = inr refl
checked_status-Checked [] draft = inl refl
checked_status-Checked [] validated = inl refl
checked_status-Checked [] approved = inl refl
checked_status-Checked [] executed = inl refl
checked_status-Checked [] conflict = inl refl
checked_status-Checked [] failed = inl refl

checked_status-open :
    (errors : List Text) (status : PlanStatus)
    → is_open status ≡ true
    → is_outcome (checked_status errors status) ≡ true
unfolding checked_status is_unchecked
checked_status-open (error ∷ errors) status h = refl
checked_status-open [] draft h = refl
checked_status-open [] validated h = refl
checked_status-open [] approved h = cc
checked_status-open [] executed h = cc
checked_status-open [] conflict h = refl
checked_status-open [] failed h = cc

open_of_outcome : (status : PlanStatus) → is_outcome status ≡ true → is_open status ≡ true
open_of_outcome draft h = refl
open_of_outcome validated h = refl
open_of_outcome approved h = cc
open_of_outcome executed h = cc
open_of_outcome conflict h = refl
open_of_outcome failed h = cc

-- A row after the checks of these identifiers.
abbrev RowChecked : List Text → ConnectionPlan → ConnectionPlan → Type 0
RowChecked ids before after =
    (after.id ≡ before.id)
    × (contains ids before.id ≡ false → after.status ≡ before.status)
    × (contains ids before.id ≡ true
        → is_open before.status ≡ true
        → is_outcome after.status ≡ true)

RowChecked-trans :
    (id : Text) (ids : List Text) (a b c : ConnectionPlan)
    → RowChecked (id ∷ []) a b
    → RowChecked ids b c
    → RowChecked (id ∷ ids) a c
unfolding contains
RowChecked-trans id ids a b c (id1, same1, open1) (id2, same2, open2) = (
  id2 ∙ id1,
  (λ h. ground (arith, ap (contains ids) id1)),
  (λ h o. ground (arith, ap (contains ids) id1, open_of_outcome b.status)),
)

validate_connection-RowChecked :
    (rows : List ConnectionPlan) (id : Text) (row : ConnectionPlan)
    → row.id == id ≡ true
    → RowChecked (id ∷ []) row (validate_connection rows row)
unfolding validate_connection contains
validate_connection-RowChecked rows id row e = (
  refl,
  (λ h. ground (arith, list_beq_iff id row.id, list_beq_iff row.id id)),
  (λ h o. checked_status-open _ row.status o),
)

RowChecked-miss :
    (id : Text) (row : ConnectionPlan) → row.id == id ≡ false → RowChecked (id ∷ []) row row
unfolding contains
RowChecked-miss id row e =
    (refl, (λ h. refl), (λ h o. ground (arith, list_beq_iff id row.id, list_beq_iff row.id id)))

validate_each-RowChecked :
    (plans rows : List ConnectionPlan)
    → Rowwise (RowChecked (ids_of plans)) rows (validate_each plans rows)
unfolding validate_each contains
validate_each-RowChecked [] rows =
    Rowwise-refl (RowChecked []) rows
      (λ row. (refl, (λ h. refl), (λ h o. let no : ◌≡◌ {A = Bool} false true = h in cc)))
validate_each-RowChecked (plan ∷ plans) rows =
    let checked : List ConnectionPlan = update_row plan.id (validate_connection rows) rows in
    Rowwise-trans (RowChecked (plan.id ∷ [])) (RowChecked (ids_of plans))
      (RowChecked (ids_of (plan ∷ plans))) (RowChecked-trans plan.id (ids_of plans)) rows checked
      (validate_each plans checked)
      (update_row-Rowwise (RowChecked (plan.id ∷ [])) plan.id (validate_connection rows) rows
        (validate_connection-RowChecked rows plan.id) (RowChecked-miss plan.id))
      (validate_each-RowChecked plans checked)

outcome_cases :
    (status : PlanStatus) → is_outcome status ≡ true → (status ≡ validated) ⊎ (status ≡ conflict)
outcome_cases draft h = cc
outcome_cases validated h = inl refl
outcome_cases approved h = cc
outcome_cases executed h = cc
outcome_cases conflict h = inr refl
outcome_cases failed h = cc

CheckedIfOpen-is_unchecked :
    (before after : PlanStatus)
    → (is_unchecked before ≡ false → after ≡ before)
    → (is_unchecked before ≡ true → is_open before ≡ true → is_outcome after ≡ true)
    → CheckedIfOpen before after
unfolding is_unchecked
CheckedIfOpen-is_unchecked draft after same checked = outcome_cases after (checked refl refl)
CheckedIfOpen-is_unchecked validated after same checked = same refl
CheckedIfOpen-is_unchecked approved after same checked = same refl
CheckedIfOpen-is_unchecked executed after same checked = same refl
CheckedIfOpen-is_unchecked conflict after same checked = outcome_cases after (checked refl refl)
CheckedIfOpen-is_unchecked failed after same checked = same refl

-- The rows that `validate` reads.
abbrev unchecked : List ConnectionPlan → List ConnectionPlan
unchecked rows = keep (λ plan. is_unchecked plan.status) rows

unchecked-absent :
    (rows : List ConnectionPlan) (id : Text)
    → contains (ids_of rows) id ≡ false
    → contains (ids_of (unchecked rows)) id ≡ false
unfolding keep contains
unchecked-absent [] id h = refl
unchecked-absent (row ∷ rows) id h = ground (arith, unchecked-absent rows id)

unchecked-head :
    (row : ConnectionPlan) (rows : List ConnectionPlan)
    → distinct (ids_of (row ∷ rows)) ≡ true
    → contains (ids_of (unchecked (row ∷ rows))) row.id ≡ is_unchecked row.status
unfolding keep contains distinct
unchecked-head row rows h = ground (arith, unchecked-absent rows row.id, list_beq_iff row.id row.id)

unchecked-tail :
    (row : ConnectionPlan) (rows : List ConnectionPlan) (id : Text)
    → distinct (ids_of (row ∷ rows)) ≡ true
    → contains (ids_of rows) id ≡ true
    → contains (ids_of (unchecked (row ∷ rows))) id ≡ contains (ids_of (unchecked rows)) id
unfolding keep contains distinct
unchecked-tail row rows id h m = ground (
  arith,
  list_beq_iff row.id id,
  (λ (e : row.id ≡ id). ap (λ (j : Text). contains (ids_of rows) j) e),
)

validated-RowAfter :
    (ids : List Text) (befores afters : List ConnectionPlan)
    → distinct (ids_of befores) ≡ true
    → ((id : Text)
        → contains (ids_of befores) id ≡ true
        → contains ids id ≡ contains (ids_of (unchecked befores)) id)
    → Rowwise (RowChecked ids) befores afters
    → Rowwise (RowAfter validate_rows) befores afters
unfolding contains distinct
validated-RowAfter ids [] [] h same rows = tt
validated-RowAfter ids [] (after ∷ afters) h same rows = absurd rows
validated-RowAfter ids (before ∷ befores) [] h same rows = absurd rows
validated-RowAfter ids (before ∷ befores) (after ∷ afters) h same rows =
    let found : contains ids before.id ≡ is_unchecked before.status =
      same before.id (rw (beq_refl before.id) refl) ∙ unchecked-head before befores h in
    (
      (
        rows.0.0,
        CheckedIfOpen-is_unchecked before.status after.status (λ e. (rows.0.1) (found ∙ e))
            (λ e. (rows.0.2) (found ∙ e)),
      ),
      validated-RowAfter ids befores afters (ground arith)
          (λ id m. same id (ground arith) ∙ unchecked-tail before befores id h m) (rows.1),
    )

pub validate_batch-RowAfter :
    (rows : List ConnectionPlan)
    → distinct (ids_of rows) ≡ true
    → Rowwise (RowAfter validate_rows) rows (validate_each (unchecked rows) rows)
validate_batch-RowAfter rows h =
    validated-RowAfter (ids_of (unchecked rows)) rows (validate_each (unchecked rows) rows) h
      (λ id m. refl) (validate_each-RowChecked (unchecked rows) rows)
