-- ===== src/Matrix/Actions/Workflow.antt =====
-- What each action of api/views.py may make of the status of a row, and the traces of such steps.
pub mod Checks
pub mod Refinement
pub mod Executed
use nautobot_docker_compose.Matrix.Actions.{
  execute_rows, approve_rows, validate_rows, bulk_color, bulk_swap, color_row, swap_row,
  validate_row, update_rows, update_row, Text, Action,
}
use nautobot_docker_compose.Base.{
  inr, inl, Bool-cases, false, true, nat_eq, ◌⊎◌, contains, refl, list_eq, ◌==◌, if◌then◌else◌,
  Bool, ◌≡◌, map, [], ◌∷◌, List,
}
use nautobot_docker_compose.Slots.Profile.{failed}
use nautobot_docker_compose.Matrix.Rows.{
  failed, conflict, executed, approved, draft, validated, PlanStatus, ConnectionPlan,
}
use nautobot_docker_compose.Matrix.Batch.{update_row}
use nautobot_docker_compose.Base.Text.{Text}
use nautobot_docker_compose.Matrix.Order.{ids_of}

-- Accepted by a check: a draft and a row in conflict are validated, others stay.
abbrev pub accepted : PlanStatus → PlanStatus
accepted draft = validated
accepted validated = validated
accepted approved = approved
accepted executed = executed
accepted conflict = validated
accepted failed = failed

abbrev pub Checked : PlanStatus → PlanStatus → Type 0
Checked before after = (after ≡ accepted before) ⊎ (after ≡ conflict)

-- `validate` of a batch checks drafts and rows in conflict.
abbrev pub CheckedIfOpen : PlanStatus → PlanStatus → Type 0
CheckedIfOpen draft after = Checked draft after
CheckedIfOpen conflict after = Checked conflict after
CheckedIfOpen validated after = after ≡ validated
CheckedIfOpen approved after = after ≡ approved
CheckedIfOpen executed after = after ≡ executed
CheckedIfOpen failed after = after ≡ failed

abbrev pub Approved : PlanStatus → PlanStatus → Type 0
Approved validated after = after ≡ approved
Approved draft after = after ≡ draft
Approved approved after = after ≡ approved
Approved executed after = after ≡ executed
Approved conflict after = after ≡ conflict
Approved failed after = after ≡ failed

-- An approved row stays so where an interface is missing.
abbrev pub Executed : PlanStatus → PlanStatus → Type 0
Executed approved after = (after ≡ executed) ⊎ ((after ≡ failed) ⊎ (after ≡ approved))
Executed draft after = after ≡ draft
Executed validated after = after ≡ validated
Executed executed after = after ≡ executed
Executed conflict after = after ≡ conflict
Executed failed after = after ≡ failed

-- What one action may make of the status of the row with an identifier.
abbrev pub StatusAfter : Action → Text → PlanStatus → PlanStatus → Type 0
StatusAfter validate_rows id before after = CheckedIfOpen before after
StatusAfter approve_rows id before after = Approved before after
StatusAfter execute_rows id before after = Executed before after
StatusAfter (validate_row checked) id before after =
    ((id ≡ checked) × Checked before after) ⊎ ((¬ (id ≡ checked)) × (after ≡ before))
StatusAfter (swap_row swapped) id before after = after ≡ before
StatusAfter (color_row colored value) id before after = after ≡ before
StatusAfter (bulk_swap ids) id before after = after ≡ before
StatusAfter (bulk_color ids value) id before after = after ≡ before

-- A status for each moment between the actions, each got from the one before by its action.
abbrev pub Trace : List Action → Text → PlanStatus → PlanStatus → Type 0
Trace [] id before after = after ≡ before
Trace (action ∷ actions) id before after =
    (between : PlanStatus) × (StatusAfter action id before between × Trace actions id between after)

-- The same rows in the same order, each related to what it was.
abbrev pub Rowwise :
    (ConnectionPlan → ConnectionPlan → Type 0) → List ConnectionPlan → List ConnectionPlan → Type 0
Rowwise R [] [] = Unit
Rowwise R [] (after ∷ afters) = ⊥
Rowwise R (before ∷ befores) [] = ⊥
Rowwise R (before ∷ befores) (after ∷ afters) = R before after × Rowwise R befores afters

abbrev pub RowAfter : Action → ConnectionPlan → ConnectionPlan → Type 0
RowAfter action before after =
    (after.id ≡ before.id) × StatusAfter action before.id before.status after.status

abbrev pub RowTrace : List Action → ConnectionPlan → ConnectionPlan → Type 0
RowTrace actions before after =
    (after.id ≡ before.id) × Trace actions before.id before.status after.status

module _ (R : ConnectionPlan → ConnectionPlan → Type 0) where
  pub Rowwise-refl :
      (rows : List ConnectionPlan) → ((row : ConnectionPlan) → R row row) → Rowwise R rows rows
  Rowwise-refl [] h = tt
  Rowwise-refl (row ∷ rows) h = (h row, Rowwise-refl rows h)

  pub Rowwise-map :
      (f : ConnectionPlan → ConnectionPlan) (rows : List ConnectionPlan)
      → ((row : ConnectionPlan) → R row (f row))
      → Rowwise R rows (map f rows)
  Rowwise-map f [] h = tt
  Rowwise-map f (row ∷ rows) h = (h row, Rowwise-map f rows h)

  pub update_row-Rowwise :
      (id : Text) (f : ConnectionPlan → ConnectionPlan) (rows : List ConnectionPlan)
      → ((row : ConnectionPlan) → row.id == id ≡ true → R row (f row))
      → ((row : ConnectionPlan) → row.id == id ≡ false → R row row)
      → Rowwise R rows (update_row id f rows)
  unfolding update_row
  update_row-Rowwise id f [] hit miss = tt
  update_row-Rowwise id f (row ∷ rows) hit miss = elim (Bool-cases (row.id == id)) [
    | inl e ↦ rw e (hit row e, update_row-Rowwise id f rows hit miss)
    | inr e ↦ rw e (miss row e, update_row-Rowwise id f rows hit miss)
  ]

  if-R :
      (test : Bool) (before a b : ConnectionPlan)
      → R before a
      → R before b
      → R before (if test then a else b)
  if-R true before a b f g = f
  if-R false before a b f g = g

  pub update_rows-Rowwise :
      (ids : List Text) (f : ConnectionPlan → ConnectionPlan) (rows : List ConnectionPlan)
      → ((row : ConnectionPlan) → R row (f row))
      → ((row : ConnectionPlan) → R row row)
      → Rowwise R rows (update_rows ids f rows)
  unfolding update_rows
  update_rows-Rowwise ids f [] hit miss = tt
  update_rows-Rowwise ids f (row ∷ rows) hit miss = (
    if-R (contains ids row.id) row (f row) row (hit row) (miss row),
    update_rows-Rowwise ids f rows hit miss,
  )

module _ (R S T : ConnectionPlan → ConnectionPlan → Type 0) where
  pub Rowwise-trans :
      ((a b c : ConnectionPlan) → R a b → S b c → T a c)
      → (before mid after : List ConnectionPlan) → Rowwise R before mid
      → Rowwise S mid after
      → Rowwise T before after
  Rowwise-trans step [] [] [] f g = tt
  Rowwise-trans step [] [] (z ∷ after) f g = absurd g
  Rowwise-trans step [] (y ∷ mid) after f g = absurd f
  Rowwise-trans step (x ∷ before) [] after f g = absurd f
  Rowwise-trans step (x ∷ before) (y ∷ mid) [] f g = absurd g
  Rowwise-trans step (x ∷ before) (y ∷ mid) (z ∷ after) f g =
      (step x y z (f.0) (g.0), Rowwise-trans step before mid after (f.1) (g.1))

pub ids-Rowwise :
    (action : Action) (befores afters : List ConnectionPlan)
    → Rowwise (RowAfter action) befores afters
    → ids_of afters ≡ ids_of befores
ids-Rowwise action [] [] h = refl
ids-Rowwise action [] (after ∷ afters) h = absurd h
ids-Rowwise action (before ∷ befores) [] h = absurd h
ids-Rowwise action (before ∷ befores) (after ∷ afters) h =
    rw (h.0.0, ids-Rowwise action befores afters (h.1)) refl
