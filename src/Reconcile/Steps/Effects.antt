-- ===== src/Reconcile/Steps/Effects.antt =====
-- What each step does to the assignments; nothing in a dry run.
use nautobot_docker_compose.Base.Sort.{text_le, sort_by, contains-sort_by}
use nautobot_docker_compose.Reconcile.Steps.{
  sort_by, ensure_queue, enable, assign, ensure_assignments, desired_queues, same_names,
  persist_one, persist_job_queue_override, is_stale_queue, delete_queues, cleanup_stale_queues,
  queue_names,
}
use nautobot_docker_compose.Base.{
  all-contains, ◌≡◌, refl, Bool, true, false, not, ◌&&◌, ◌||◌, Option, some, List, [], ◌∷◌, ◌==◌,
  nat_eq, list_eq, if◌then◌else◌, contains, keep, arith, contains-keep, contains-append,
  list_beq_iff, ap,
}
use nautobot_docker_compose.Base.Text.{Text}
use nautobot_docker_compose.Reconcile.Names.{is_shms_managed_queue_name, Tenant}
use nautobot_docker_compose.Reconcile.Database.{
  Job, Database, is_assigned, queues_of_job, is_assigned-append, contains-queues_of_job,
  is_assigned-set_queues, is_assigned-without,
}

-- The names of job objects.
unfoldable pub job_names : List Job → List Text
job_names [] = []
job_names (job ∷ jobs) = job.name ∷ job_names jobs

enable-keeps :
    (dry : Bool) (object : Job) (db : Database)
    → ((enable dry object db).0.name ≡ object.name)
      × ((enable dry object db).1.assignments ≡ db.assignments)
unfolding enable
enable-keeps dry object db = ground arith

-- The jobs keep their names.
pub job_names-ensure_assignments :
    (dry : Bool) (q : Option Text) (jobs : List Job) (db : Database)
    → job_names (ensure_assignments dry q jobs db).0 ≡ job_names jobs
unfolding ensure_assignments job_names
job_names-ensure_assignments dry q [] db = refl
job_names-ensure_assignments dry q (object ∷ jobs) db =
    let object' = (enable dry object db).0 in
    let db' = (enable dry object db).1 in
    rw (job_names-ensure_assignments dry q jobs (assign dry q object' db'))
      (ap (λ (n : Text). n ∷ job_names jobs) (enable-keeps dry object db).0)

module _ (job queue : Text) where
  -- `ensure_queue` makes no assignment.
  pub is_assigned-ensure_queue :
      (dry : Bool) (name : Text) (tenant : Option Tenant) (description : Text) (db : Database)
      → is_assigned job queue (ensure_queue dry name tenant description db).2.assignments
        ≡ is_assigned job queue db.assignments
  unfolding ensure_queue
  is_assigned-ensure_queue dry name tenant description db = ground arith

  is_assigned-one : (j q : Text) → is_assigned job queue ((j, q) ∷ []) ≡ (j == job && q == queue)
  unfolding is_assigned
  is_assigned-one j q = ground arith

  is_assigned-assign :
      (name : Text) (object : Job) (db : Database)
      → is_assigned job queue (assign false (some name) object db).assignments
        ≡ (is_assigned job queue db.assignments || (object.name == job && name == queue))
  unfolding assign
  is_assigned-assign name object db = ground (
    arith,
    is_assigned-append job queue db.assignments ((object.name, name) ∷ []),
    is_assigned-one object.name name,
    list_beq_iff object.name job,
    list_beq_iff name queue,
  )

  -- In a real run each of the jobs gets the queue, and nothing else is assigned.
  pub is_assigned-ensure_assignments :
      (name : Text) (jobs : List Job) (db : Database)
      → is_assigned job queue (ensure_assignments false (some name) jobs db).1.assignments
        ≡ (is_assigned job queue db.assignments || (contains (job_names jobs) job && name == queue))
  unfolding ensure_assignments job_names contains
  is_assigned-ensure_assignments name [] db = ground arith
  is_assigned-ensure_assignments name (object ∷ jobs) db =
      let object' = (enable false object db).0 in
      let db' = (enable false object db).1 in
      let (same_name, same) = enable-keeps false object db in
      rw
        (
          is_assigned-ensure_assignments name jobs (assign false (some name) object' db'),
          is_assigned-assign name object' db',
          same_name,
          same,
        )
        (ground arith)

  -- The queues that a job has after its override.
  abbrev pub overridden : List Text → List (Text × Text) → Bool
  overridden managed xs =
      (is_assigned job queue xs && not (is_shms_managed_queue_name queue)) || contains managed queue

  contains-desired :
      (managed : List Text) (xs : List (Text × Text))
      → contains (desired_queues managed (queues_of_job job xs)) queue ≡ overridden managed xs
  unfolding desired_queues
  contains-desired managed xs =
      rw
        (contains-append
          (keep (λ name. not (contains managed name) && not (is_shms_managed_queue_name name))
            (queues_of_job job xs))
          managed queue)
        (rw
          (contains-keep
            (λ name. not (contains managed name) && not (is_shms_managed_queue_name name))
            (queues_of_job job xs) queue)
          (rw (contains-queues_of_job job queue xs) (ground arith)))

  contains-desired_at :
      (managed : List Text) (xs : List (Text × Text)) (name : Text)
      → name ≡ job
      → contains (desired_queues managed (queues_of_job name xs)) queue ≡ overridden managed xs
  contains-desired_at managed xs name e = rw e (contains-desired managed xs)

  contains-current_at :
      (xs : List (Text × Text)) (name : Text)
      → name ≡ job
      → contains (queues_of_job name xs) queue ≡ is_assigned job queue xs
  contains-current_at xs name e = rw e (contains-queues_of_job job queue xs)

  same_names-contains :
      (xs ys : List Text) → same_names xs ys ≡ true → contains xs queue ≡ contains ys queue
  unfolding same_names
  same_names-contains xs ys h =
      ground (arith, all-contains (contains ys) xs queue, all-contains (contains xs) ys queue)

  is_assigned-persist_one :
      (managed : List Text) (object : Job) (db : Database)
      → is_assigned job queue (persist_one false managed object db).assignments ≡ (
          if object.name == job
          then overridden managed db.assignments
          else is_assigned job queue db.assignments)
  unfolding persist_one
  is_assigned-persist_one managed object db =
      let xs = db.assignments in
      let current = queues_of_job object.name xs in
      ground (
        arith,
        list_beq_iff object.name job,
        list_beq_iff job object.name,
        is_assigned-set_queues job queue object.name (desired_queues managed current) xs,
        contains-desired_at managed xs object.name,
        contains-current_at xs object.name,
        same_names-contains current (desired_queues managed current),
      )

  -- In a real run the named jobs keep their queues of other names and get the managed ones; the
  -- other jobs keep theirs.
  pub is_assigned-persist :
      (managed : List Text) (jobs : List Job) (db : Database)
      → is_assigned job queue (persist_job_queue_override false jobs managed db).assignments ≡ (
          if contains (job_names jobs) job
          then overridden managed db.assignments
          else is_assigned job queue db.assignments)
  unfolding persist_job_queue_override job_names contains
  is_assigned-persist managed [] db = refl
  is_assigned-persist managed (object ∷ jobs) db =
      rw
        (
          is_assigned-persist managed jobs (persist_one false managed object db),
          is_assigned-persist_one managed object db,
        )
        (ground arith)

  is_assigned-delete :
      (names : List Text) (db : Database)
      → is_assigned job queue (delete_queues false names db).assignments
        ≡ (is_assigned job queue db.assignments && not (contains names queue))
  unfolding delete_queues contains
  is_assigned-delete [] db = ground arith
  is_assigned-delete (name ∷ names) db =
      rw (is_assigned-delete names _, is_assigned-without job queue name db.assignments)
        (ground (arith, list_beq_iff name queue, list_beq_iff queue name))

  -- In a real run the cleanup takes the stale queues that are there from the job, and no others.
  pub is_assigned-cleanup :
      (expected_names : List Text) (db : Database)
      → is_assigned job queue (cleanup_stale_queues false expected_names db).assignments ≡ (
          is_assigned job queue db.assignments
          && not (contains (queue_names db.queues) queue && is_stale_queue expected_names queue))
  unfolding cleanup_stale_queues
  is_assigned-cleanup expected_names db = rw (
    is_assigned-delete
        (sort_by text_le (keep (is_stale_queue expected_names) (queue_names db.queues))) db,
    contains-sort_by text_le (keep (is_stale_queue expected_names) (queue_names db.queues)) queue,
    contains-keep (is_stale_queue expected_names) (queue_names db.queues) queue,
  )

-- A dry run changes nothing.
pub ensure_queue-dry :
    (name : Text) (tenant : Option Tenant) (description : Text) (db : Database)
    → (ensure_queue true name tenant description db).2 ≡ db
unfolding ensure_queue
ensure_queue-dry name tenant description db = ground arith

assign-dry : (q : Option Text) (object : Job) (db : Database) → assign true q object db ≡ db
unfolding assign
assign-dry q object db = ground arith

enable-dry : (object : Job) (db : Database) → enable true object db ≡ (object, db)
unfolding enable
enable-dry object db = ground arith

pub ensure_assignments-dry :
    (q : Option Text) (jobs : List Job) (db : Database)
    → ensure_assignments true q jobs db ≡ (jobs, db)
unfolding ensure_assignments
ensure_assignments-dry q [] db = refl
ensure_assignments-dry q (object ∷ jobs) db =
    rw (enable-dry object db) (rw (assign-dry q object db) (rw (ensure_assignments-dry q jobs db)))

persist_one-dry :
    (managed : List Text) (object : Job) (db : Database) → persist_one true managed object db ≡ db
unfolding persist_one
persist_one-dry managed object db = ground arith

pub persist-dry :
    (jobs : List Job) (managed : List Text) (db : Database)
    → persist_job_queue_override true jobs managed db ≡ db
unfolding persist_job_queue_override
persist-dry [] managed db = refl
persist-dry (object ∷ jobs) managed db =
    rw (persist_one-dry managed object db) (persist-dry jobs managed db)

delete-dry : (names : List Text) (db : Database) → delete_queues true names db ≡ db
unfolding delete_queues
delete-dry [] db = refl
delete-dry (name ∷ names) db = delete-dry names db

pub cleanup-dry :
    (expected_names : List Text) (db : Database) → cleanup_stale_queues true expected_names db ≡ db
unfolding cleanup_stale_queues
cleanup-dry expected_names db =
    delete-dry (sort_by text_le (keep (is_stale_queue expected_names) (queue_names db.queues))) db
