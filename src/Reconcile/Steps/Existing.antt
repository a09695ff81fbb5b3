-- ===== src/Reconcile/Steps/Existing.antt =====
-- Which queues are there after `_ensure_queue` and `_ensure_assignments` of
-- jobs/vpn_queue_reconciliation.py.
use nautobot_docker_compose.Base.{
  ◌∙◌, ◌≡◌, refl, inl, inr, Option-cases, Bool, false, ◌||◌, Option, none, some, List, [], ◌∷◌,
  ◌++◌, ◌==◌, nat_eq, list_eq, contains, arith, list_beq_iff,
}
use nautobot_docker_compose.Base.Text.{Text}
use nautobot_docker_compose.Reconcile.Names.{Tenant}
use nautobot_docker_compose.Reconcile.Database.{JobQueue, Job, Database, find_queue, save_queue}
use nautobot_docker_compose.Reconcile.Steps.{
  queue_names, ensure_queue, ensure_found, wanted_queue, ensure_assignments, enable, assign,
}

queue_names-save_queue :
    (object : JobQueue) (queues : List JobQueue)
    → queue_names (save_queue object queues) ≡ queue_names queues
unfolding queue_names save_queue
queue_names-save_queue object [] = refl
queue_names-save_queue object (q ∷ queues) =
    ground (arith, queue_names-save_queue object queues, list_beq_iff q.name object.name)

contains-names-snoc :
    (queues : List JobQueue) (object : JobQueue) (n : Text)
    → contains (queue_names (queues ++ (object ∷ []))) n
      ≡ (contains (queue_names queues) n || object.name == n)
unfolding queue_names contains
contains-names-snoc [] object n = ground arith
contains-names-snoc (q ∷ queues) object n = ground (arith, contains-names-snoc queues object n)

-- A queue is there.
abbrev pub has : Text → Database → Bool
has n db = contains (queue_names db.queues) n

module _ (n : Text) where
  pub has-ensure_queue :
      (name : Text) (tenant : Option Tenant) (description : Text) (db : Database)
      → (name == n) ≡ false
      → has n (ensure_queue false name tenant description db).2 ≡ has n db
  unfolding ensure_queue ensure_found wanted_queue
  has-ensure_queue name tenant description db other =
      elim (Option-cases (find_queue name db.queues)) [
        | inl e ↦
            rw e (
              ground
                (arith, contains-names-snoc db.queues (wanted_queue name tenant description) n))
        | inr (q, e) ↦ rw e (
            ground (arith, queue_names-save_queue (wanted_queue name tenant description) db.queues))
      ]

  step_queues :
      (q : Option Text) (object : Job) (db : Database)
      → (assign false q (enable false object db).0 (enable false object db).1).queues ≡ db.queues
  unfolding enable assign
  step_queues none object db = ground arith
  step_queues (some q) object db = ground arith

  pub queues-ensure_assignments :
      (q : Option Text) (jobs : List Job) (db : Database)
      → (ensure_assignments false q jobs db).1.queues ≡ db.queues
  unfolding ensure_assignments
  queues-ensure_assignments q [] db = refl
  queues-ensure_assignments q (object ∷ jobs) db =
      let db' = assign false q (enable false object db).0 (enable false object db).1 in
      queues-ensure_assignments q jobs db' ∙ step_queues q object db
