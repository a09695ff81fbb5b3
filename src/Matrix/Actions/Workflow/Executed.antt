-- ===== src/Matrix/Actions/Workflow/Executed.antt =====
-- Which runs of actions can execute a row: those that approve the batch and execute it afterwards.
use nautobot_docker_compose.Base.{
  All, list_eq, nat_eq, refl, inl, inr, ◌∙◌, [], distinct, sym, ap, ◌⊎◌, if◌then◌else◌, true, false,
  Bool, ◌∷◌, ◌≡◌, List, any,
}
use nautobot_docker_compose.Matrix.Actions.{
  validate_rows, bulk_color, run_actions, bulk_swap, color_row, swap_row, execute_rows,
  validate_row, World, Created, approve_rows, ConnectionPlan, Text, Action,
}
use nautobot_docker_compose.Matrix.Actions.Workflow.Refinement.{run_actions-RowTrace}
use mathlib.Core.Path.{subst}
use nautobot_docker_compose.Matrix.Order.{ids_of}
use nautobot_docker_compose.Matrix.Actions.Workflow.{
  ids_of, CheckedIfOpen, Checked, accepted, StatusAfter, RowTrace, conflict, executed, Trace,
  validated, Rowwise, Approved, Executed,
}
use nautobot_docker_compose.Matrix.Rows.{
  approved, failed, conflict, executed, draft, validated, ConnectionPlan, Interface, PlanStatus,
}
use nautobot_docker_compose.Matrix.Actions.Keeps.{is_approval}
use nautobot_docker_compose.Matrix.Batch.{Created}
use nautobot_docker_compose.Base.Text.{Text}

-- The actions after the first approval of the batch.
unfoldable pub after_approval : List Action → List Action
after_approval [] = []
after_approval (action ∷ actions) = if is_approval action then actions else after_approval actions

abbrev pub is_execution : Action → Bool
is_execution execute_rows = true
is_execution validate_rows = false
is_execution approve_rows = false
is_execution (validate_row id) = false
is_execution (swap_row id) = false
is_execution (color_row id value) = false
is_execution (bulk_swap ids) = false
is_execution (bulk_color ids value) = false

-- Neither approved nor executed.
abbrev pub is_free : PlanStatus → Bool
is_free draft = true
is_free validated = true
is_free conflict = true
is_free failed = true
is_free approved = false
is_free executed = false

abbrev is_unexecuted : PlanStatus → Bool
is_unexecuted executed = false
is_unexecuted draft = true
is_unexecuted validated = true
is_unexecuted conflict = true
is_unexecuted failed = true
is_unexecuted approved = true

module _ (test : PlanStatus → Bool) (on_validated : test validated ≡ true)
    (on_conflict : test conflict ≡ true) where
  accepted_test : (status : PlanStatus) → test status ≡ true → test (accepted status) ≡ true
  accepted_test draft h = on_validated
  accepted_test validated h = on_validated
  accepted_test approved h = h
  accepted_test executed h = h
  accepted_test conflict h = on_validated
  accepted_test failed h = h

  Checked-keeps :
      (before after : PlanStatus) → Checked before after → test before ≡ true → test after ≡ true
  Checked-keeps before after (inl e) h = ap test e ∙ accepted_test before h
  Checked-keeps before after (inr e) h = ap test e ∙ on_conflict

  CheckedIfOpen-keeps :
      (before after : PlanStatus)
      → CheckedIfOpen before after
      → test before ≡ true
      → test after ≡ true
  CheckedIfOpen-keeps draft after c h = Checked-keeps draft after c h
  CheckedIfOpen-keeps validated after c h = ap test c ∙ h
  CheckedIfOpen-keeps approved after c h = ap test c ∙ h
  CheckedIfOpen-keeps executed after c h = ap test c ∙ h
  CheckedIfOpen-keeps conflict after c h = Checked-keeps conflict after c h
  CheckedIfOpen-keeps failed after c h = ap test c ∙ h

  -- A step other than an approval and an execution.
  StatusAfter-keeps :
      (action : Action) (id : Text) (before after : PlanStatus)
      → is_approval action ≡ false
      → is_execution action ≡ false
      → StatusAfter action id before after
      → test before ≡ true
      → test after ≡ true
  StatusAfter-keeps validate_rows id before after a x c h = CheckedIfOpen-keeps before after c h
  StatusAfter-keeps approve_rows id before after a x c h = cc
  StatusAfter-keeps execute_rows id before after a x c h = cc
  StatusAfter-keeps (validate_row checked) id before after a x (inl (hit, c)) h =
      Checked-keeps before after c h
  StatusAfter-keeps (validate_row checked) id before after a x (inr (miss, c)) h = ap test c ∙ h
  StatusAfter-keeps (swap_row swapped) id before after a x c h = ap test c ∙ h
  StatusAfter-keeps (color_row colored value) id before after a x c h = ap test c ∙ h
  StatusAfter-keeps (bulk_swap ids) id before after a x c h = ap test c ∙ h
  StatusAfter-keeps (bulk_color ids value) id before after a x c h = ap test c ∙ h

Executed-free :
    (before after : PlanStatus)
    → Executed before after
    → is_free before ≡ true
    → is_free after ≡ true
Executed-free draft after c h = ap is_free c
Executed-free validated after c h = ap is_free c
Executed-free approved after c h = cc
Executed-free executed after c h = cc
Executed-free conflict after c h = ap is_free c
Executed-free failed after c h = ap is_free c

Approved-unexecuted :
    (before after : PlanStatus)
    → Approved before after
    → is_unexecuted before ≡ true
    → is_unexecuted after ≡ true
Approved-unexecuted draft after c h = ap is_unexecuted c
Approved-unexecuted validated after c h = ap is_unexecuted c
Approved-unexecuted approved after c h = ap is_unexecuted c
Approved-unexecuted executed after c h = cc
Approved-unexecuted conflict after c h = ap is_unexecuted c
Approved-unexecuted failed after c h = ap is_unexecuted c

unexecuted_of_free : (status : PlanStatus) → is_free status ≡ true → is_unexecuted status ≡ true
unexecuted_of_free draft h = refl
unexecuted_of_free validated h = refl
unexecuted_of_free approved h = refl
unexecuted_of_free executed h = cc
unexecuted_of_free conflict h = refl
unexecuted_of_free failed h = refl

action_cases :
    (action : Action)
    → (action ≡ approve_rows)
      ⊎ ((action ≡ execute_rows) ⊎ ((is_approval action ≡ false) × (is_execution action ≡ false)))
action_cases validate_rows = inr (inr (refl, refl))
action_cases approve_rows = inl refl
action_cases execute_rows = inr (inl refl)
action_cases (validate_row id) = inr (inr (refl, refl))
action_cases (swap_row id) = inr (inr (refl, refl))
action_cases (color_row id value) = inr (inr (refl, refl))
action_cases (bulk_swap ids) = inr (inr (refl, refl))
action_cases (bulk_color ids value) = inr (inr (refl, refl))

Trace-execution :
    (actions : List Action) (id : Text) (before after : PlanStatus)
    → Trace actions id before after
    → is_unexecuted before ≡ true
    → after ≡ executed
    → any is_execution actions ≡ true
unfolding any
Trace-execution [] id before after e h x =
    let no : ◌≡◌ {A = Bool} true false = sym h ∙ (ap is_unexecuted (sym e) ∙ ap is_unexecuted x) in
    cc
Trace-execution (action ∷ actions) id before after (mid, (step, rest)) h x =
    elim (action_cases action) [
      | inl e ↦ rw e (
          Trace-execution actions id mid after rest
            (Approved-unexecuted before mid
              (subst (λ (a : Action). StatusAfter a id before mid) e step) h)
            x)
      | inr (inl e) ↦ rw e refl
      | inr (inr (a, e)) ↦ rw e (
          Trace-execution actions id mid after rest
            (StatusAfter-keeps is_unexecuted refl refl action id before mid a e step h) x)
    ]

Trace-approval :
    (actions : List Action) (id : Text) (before after : PlanStatus)
    → Trace actions id before after
    → is_free before ≡ true
    → after ≡ executed
    → any is_execution (after_approval actions) ≡ true
unfolding after_approval any
Trace-approval [] id before after e h x =
    let no : ◌≡◌ {A = Bool} true false = sym h ∙ (ap is_free (sym e) ∙ ap is_free x) in cc
Trace-approval (action ∷ actions) id before after (mid, (step, rest)) h x =
    elim (action_cases action) [
      | inl e ↦ rw e (
          Trace-execution actions id mid after rest
            (Approved-unexecuted before mid
              (subst (λ (a : Action). StatusAfter a id before mid) e step)
              (unexecuted_of_free before h))
            x)
      | inr (inl e) ↦ rw e (
          Trace-approval actions id mid after rest
            (Executed-free before mid (subst (λ (a : Action). StatusAfter a id before mid) e step)
              h)
            x)
      | inr (inr (a, e)) ↦ rw a (
          Trace-approval actions id mid after rest
            (StatusAfter-keeps is_free refl refl action id before mid a e step h) x)
    ]

pub unexecuted_of_trace :
    (actions : List Action) (befores afters : List ConnectionPlan)
    → any is_execution (after_approval actions) ≡ false
    → All (λ row. is_free row.status ≡ true) befores
    → Rowwise (RowTrace actions) befores afters
    → All (λ row. ¬ (row.status ≡ executed)) afters
unexecuted_of_trace actions [] [] e free h = tt
unexecuted_of_trace actions [] (after ∷ afters) e free h = absurd h
unexecuted_of_trace actions (before ∷ befores) [] e free h = absurd h
unexecuted_of_trace actions (before ∷ befores) (after ∷ afters) e free h = (
  (λ x.
      let no : ◌≡◌ {A = Bool} true false =
        sym (Trace-approval actions before.id before.status after.status (h.0.1) (free.0) x) ∙ e in
      cc),
  unexecuted_of_trace actions befores afters e (free.1) (h.1),
)

module _ {Cables : Type 0}
    (create_cable : Cables → Interface → Interface → Text → Cables × Created) where
  -- In a batch whose rows have different identifiers and are neither approved nor executed, no row is
  -- executed after any sequence of actions that does not execute the batch at some point after
  -- approving it.
  pub run_actions-executed :
      (w : World Cables) (actions : List Action)
      → distinct (ids_of w.batch.plans) ≡ true
      → All (λ row. is_free row.status ≡ true) w.batch.plans
      → any is_execution (after_approval actions) ≡ false
      → All (λ row. ¬ (row.status ≡ executed)) (run_actions create_cable w actions).batch.plans
  run_actions-executed w actions h free e =
      unexecuted_of_trace actions w.batch.plans (run_actions create_cable w actions).batch.plans e
        free (run_actions-RowTrace create_cable w actions h)
