-- ===== src/Reconcile/Run/Ensure.antt =====
-- What ensuring a queue for the jobs of a run does, in a real run and in a dry one.
use nautobot_docker_compose.Base.{
  ◌≡◌, ap, ◌∙◌, inl, inr, Bool, true, false, ◌&&◌, ◌||◌, Option, some, List, [], ◌∷◌, ◌==◌, nat_eq,
  list_eq, contains, arith, Option-cases, contains-append, list_beq_iff,
}
use nautobot_docker_compose.Base.Text.{Text}
use nautobot_docker_compose.Reconcile.Names.{Tenant}
use nautobot_docker_compose.Reconcile.Database.{JobQueue, Job, Database, find_queue, is_assigned}
use nautobot_docker_compose.Reconcile.Steps.{ensure_queue}
use nautobot_docker_compose.Reconcile.Steps.Effects.{
  job_names, is_assigned-ensure_queue, is_assigned-ensure_assignments, job_names-ensure_assignments,
  ensure_queue-dry, ensure_assignments-dry,
}
use nautobot_docker_compose.Reconcile.Run.{Progress, ensure}

find_queue-name :
    (name : Text) (queues : List JobQueue) {queue : JobQueue}
    → find_queue name queues ≡ some queue
    → queue.name ≡ name
unfolding find_queue
find_queue-name name [] h = cc
find_queue-name name (q ∷ queues) {queue} h =
    ground (arith, find_queue-name name queues {queue = queue}, list_beq_iff q.name name)

-- In a real run the queue is there afterwards.
ensure_queue-some :
    (name : Text) (tenant : Option Tenant) (description : Text) (db : Database)
    → (ensure_queue false name tenant description db).0 ≡ some name
unfolding ensure_queue
ensure_queue-some name tenant description db = elim (Option-cases (find_queue name db.queues)) [
  | inl e ↦ rw (e, ensure_queue)
  | inr (queue, e) ↦ let same = find_queue-name name db.queues e in ground arith
]

module _ (name : Text) (tenant : Option Tenant) (description : Text) (p : Progress) where
  pub is_assigned-ensure :
      (job queue : Text)
      → is_assigned job queue (ensure false name tenant description p).db.assignments ≡ (
          is_assigned job queue p.db.assignments
          || (contains (job_names p.jobs) job && name == queue))
  unfolding ensure
  is_assigned-ensure job queue = rw (ensure_queue-some name tenant description p.db) (
      rw (
        is_assigned-ensure_assignments job queue name p.jobs
            (ensure_queue false name tenant description p.db).2,
        is_assigned-ensure_queue job queue false name tenant description p.db,
      ))

  pub managed-ensure :
      (queue : Text)
      → contains (ensure false name tenant description p).managed_queues queue
        ≡ (contains p.managed_queues queue || name == queue)
  unfolding ensure
  managed-ensure queue =
      rw (ensure_queue-some name tenant description p.db)
        (contains-append p.managed_queues (name ∷ []) queue ∙ (unfold contains in ground arith))

  pub job_names-ensure :
      (dry : Bool) → job_names (ensure dry name tenant description p).jobs ≡ job_names p.jobs
  unfolding ensure
  job_names-ensure dry =
      job_names-ensure_assignments dry (ensure_queue dry name tenant description p.db).0 p.jobs
        (ensure_queue dry name tenant description p.db).2

  pub ensure-dry : (ensure true name tenant description p).db ≡ p.db
  unfolding ensure
  ensure-dry =
      ap (λ (r : List Job × Database). r.1)
        (ensure_assignments-dry (ensure_queue true name tenant description p.db).0 p.jobs
          (ensure_queue true name tenant description p.db).2)
      ∙ ensure_queue-dry name tenant description p.db
