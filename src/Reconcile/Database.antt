-- ===== src/Reconcile/Database.antt =====
-- The rows of Nautobot's database that jobs/vpn_queue_reconciliation.py reads and writes, and the
-- queries that it makes. A queue and a job have unique names, which stand here for their primary
-- keys; an assignment (`JobQueueAssignment`) is the pair of a job's and a queue's name.
use nautobot_docker_compose.Base.{
  refl, list_beq_iff, ◌≡◌, Bool, false, not, ◌&&◌, ◌||◌, Option, none, some, List, [], ◌∷◌, ◌++◌,
  ◌==◌, nat_eq, list_eq, if◌then◌else◌, contains, arith,
}
use nautobot_docker_compose.Base.Text.{Text}

pub record JobQueue : Type 0 where
  pub name : Text
  pub description : Text
  pub queue_type : Text
  pub tenant_id : Option Text

pub record Job : Type 0 where
  pub name : Text
  pub enabled : Bool
  pub job_queues_override : Bool

pub record Database : Type 0 where
  pub queues : List JobQueue
  pub jobs : List Job
  pub assignments : List (Text × Text)

-- `JobQueue.objects.filter(name=name).first()`
unfoldable pub find_queue : Text → List JobQueue → Option JobQueue
find_queue name [] = none
find_queue name (q ∷ queues) = if q.name == name then some q else find_queue name queues

-- `queue.save()`: the row of this name gets the fields of the object.
unfoldable pub save_queue : JobQueue → List JobQueue → List JobQueue
save_queue object [] = []
save_queue object (q ∷ queues) =
    (if q.name == object.name then object else q) ∷ save_queue object queues

unfoldable pub save_job : Job → List Job → List Job
save_job object [] = []
save_job object (j ∷ jobs) = (if j.name == object.name then object else j) ∷ save_job object jobs

-- `JobQueueAssignment.objects.filter(job=job, job_queue=queue).exists()`
unfoldable pub is_assigned : Text → Text → List (Text × Text) → Bool
is_assigned job queue [] = false
is_assigned job queue ((j, q) ∷ rest) = (j == job && q == queue) || is_assigned job queue rest

-- `job.job_queues`: the names of the queues of a job.
unfoldable pub queues_of_job : Text → List (Text × Text) → List Text
queues_of_job job [] = []
queues_of_job job ((j, q) ∷ rest) =
    let more = queues_of_job job rest in if j == job then q ∷ more else more

-- `job.job_queues.set(names)`: removes what is not named, and adds what is missing.
unfoldable pub drop_unnamed : Text → List Text → List (Text × Text) → List (Text × Text)
drop_unnamed job names [] = []
drop_unnamed job names ((j, q) ∷ rest) =
    let more = drop_unnamed job names rest in
    if j == job && not (contains names q) then more else (j, q) ∷ more

unfoldable pub add_missing : Text → List Text → List (Text × Text) → List (Text × Text)
add_missing job [] assignments = assignments
add_missing job (name ∷ names) assignments =
    add_missing job names
      (if is_assigned job name assignments then assignments else assignments ++ ((job, name) ∷ []))

unfoldable pub set_queues : Text → List Text → List (Text × Text) → List (Text × Text)
unfolding drop_unnamed add_missing
set_queues job names assignments = add_missing job names (drop_unnamed job names assignments)

-- `queue.delete()` deletes the assignments of the queue too.
unfoldable pub without_queue : Text → List JobQueue → List JobQueue
without_queue name [] = []
without_queue name (q ∷ queues) =
    let more = without_queue name queues in if q.name == name then more else q ∷ more

unfoldable pub without_assignments : Text → List (Text × Text) → List (Text × Text)
without_assignments name [] = []
without_assignments name ((j, q) ∷ rest) =
    let more = without_assignments name rest in if q == name then more else (j, q) ∷ more

module _ (job queue : Text) where
  pub is_assigned-append :
      (xs ys : List (Text × Text))
      → is_assigned job queue (xs ++ ys) ≡ (is_assigned job queue xs || is_assigned job queue ys)
  unfolding is_assigned
  is_assigned-append [] ys = refl
  is_assigned-append ((j, q) ∷ xs) ys = ground (arith, is_assigned-append xs ys)

  -- A job has the queues that it is assigned to.
  pub contains-queues_of_job :
      (xs : List (Text × Text)) → contains (queues_of_job job xs) queue ≡ is_assigned job queue xs
  unfolding is_assigned queues_of_job contains
  contains-queues_of_job [] = refl
  contains-queues_of_job ((j, q) ∷ xs) = ground (arith, contains-queues_of_job xs)

  is_assigned-drop :
      (other : Text) (names : List Text) (xs : List (Text × Text))
      → is_assigned job queue (drop_unnamed other names xs)
        ≡ (is_assigned job queue xs && not (job == other && not (contains names queue)))
  unfolding is_assigned drop_unnamed
  is_assigned-drop other names [] = refl
  is_assigned-drop other names ((j, q) ∷ xs) = ground (
    arith,
    is_assigned-drop other names xs,
    list_beq_iff j job,
    list_beq_iff q queue,
    list_beq_iff job other,
    list_beq_iff j other,
  )

  is_assigned-add :
      (other : Text) (names : List Text) (xs : List (Text × Text))
      → is_assigned job queue (add_missing other names xs)
        ≡ (is_assigned job queue xs || (job == other && contains names queue))
  unfolding is_assigned add_missing contains
  is_assigned-add other [] xs = ground arith
  is_assigned-add other (name ∷ names) xs = ground (
    arith,
    is_assigned-add other names xs,
    is_assigned-add other names (xs ++ ((other, name) ∷ [])),
    is_assigned-append xs ((other, name) ∷ []),
    list_beq_iff job other,
    list_beq_iff other job,
    list_beq_iff name queue,
  )

  -- After `set` the job has exactly the named queues, and the other jobs have theirs.
  pub is_assigned-set_queues :
      (other : Text) (names : List Text) (xs : List (Text × Text))
      → is_assigned job queue (set_queues other names xs)
        ≡ (if job == other then contains names queue else is_assigned job queue xs)
  unfolding set_queues
  is_assigned-set_queues other names xs =
      rw
        (is_assigned-add other names (drop_unnamed other names xs), is_assigned-drop other names xs)
        (ground arith)

  pub is_assigned-without :
      (name : Text) (xs : List (Text × Text))
      → is_assigned job queue (without_assignments name xs)
        ≡ (is_assigned job queue xs && not (queue == name))
  unfolding is_assigned without_assignments
  is_assigned-without name [] = refl
  is_assigned-without name ((j, q) ∷ xs) = ground (
    arith,
    is_assigned-without name xs,
    list_beq_iff q queue,
    list_beq_iff queue name,
    list_beq_iff q name,
  )
