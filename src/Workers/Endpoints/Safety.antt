-- ===== src/Workers/Endpoints/Safety.antt =====
-- Any run of requests leaves a registry that can be listed, and a refused request leaves no trace.
use nautobot_docker_compose.Workers.Registry.Invariant.{
  load_ok, IsWellFormed, IsConsistent, status_of, build-status_of, upsert-IsConsistent,
  assignment-IsConsistent,
}
use nautobot_docker_compose.Base.Text.{strip, Text}
use mathlib.Core.List.{Perm}
use nautobot_docker_compose.Base.{
  ◌==◌, nat_eq, list_eq, ℕ, ◌≡◌, refl, inl, inr, true, false, Option, List, [], ◌∷◌, Bool-cases,
  arith, list_beq_iff,
}
use nautobot_docker_compose.Base.Dict.{Dict, AllValues}
use nautobot_docker_compose.Base.Sort.{
  sort_by, sort_by-perm, sort_by-IsSorted, IsSorted, text_le-total,
}
use nautobot_docker_compose.Workers.Errors.{HttpError, ok, err}
use nautobot_docker_compose.Workers.Registry.{
  WorkerRecord, StateFile, missing, workers_of, RemoteWorkerStatus, statuses, list_remote_workers,
  worker_le,
}
use nautobot_docker_compose.Workers.Registry.Assignment.{
  upsert-err, assignment-err, stored, stored-upsert_other, stored-assignment_other,
}
use nautobot_docker_compose.Workers.Endpoints.{
  Request, register, heartbeat, assignment, registration, Call, is_allowed, dispatch, handle, serve,
}

-- The statuses of all workers, in the order of the file.
unfoldable pub all_statuses : ℕ → ℕ → Dict WorkerRecord → List RemoteWorkerStatus
all_statuses stale_seconds now [] = []
all_statuses stale_seconds now ((worker_id, r) ∷ d) =
    status_of stale_seconds now worker_id r ∷ all_statuses stale_seconds now d

statuses-ok :
    (stale_seconds now : ℕ) (d : Dict WorkerRecord)
    → AllValues IsWellFormed d
    → statuses stale_seconds now d ≡ ok (all_statuses stale_seconds now d)
unfolding statuses all_statuses
statuses-ok stale_seconds now [] w = refl
statuses-ok stale_seconds now ((worker_id, r) ∷ d) (w, ws) =
    rw (build-status_of stale_seconds now worker_id r w) (rw (statuses-ok stale_seconds now d ws))

worker_le-total :
    (lower : Text → Text) (a b : RemoteWorkerStatus)
    → worker_le lower a b ≡ false
    → worker_le lower b a ≡ true
unfolding worker_le
worker_le-total lower a b h = ground (
  arith,
  text_le-total (lower a.worker_id) (lower b.worker_id),
  text_le-total (lower a.hostname) (lower b.hostname),
  list_beq_iff (lower a.hostname) (lower b.hostname),
  list_beq_iff (lower b.hostname) (lower a.hostname),
)

-- The list has the status of every worker, sorted.
abbrev pub IsListing : (Text → Text) → ℕ → ℕ → StateFile → List RemoteWorkerStatus → Type 0
IsListing lower stale_seconds now file listed =
    Perm listed (all_statuses stale_seconds now (workers_of file))
    × IsSorted (worker_le lower) listed

list-IsListing :
    (lower : Text → Text) (stale_seconds now : ℕ) (file : StateFile)
    → IsConsistent file
    → (listed : List RemoteWorkerStatus) × (list_remote_workers lower stale_seconds now file
        ≡ ok listed)
      × IsListing lower stale_seconds now file listed
unfolding list_remote_workers
list-IsListing lower stale_seconds now file w =
    let d = workers_of file in
    (
      sort_by (worker_le lower) (all_statuses stale_seconds now d),
      rw (load_ok file w) (rw (statuses-ok stale_seconds now d (w.1))),
      (
        sort_by-perm (worker_le lower) (all_statuses stale_seconds now d),
        sort_by-IsSorted (worker_le lower) (worker_le-total lower)
            (all_statuses stale_seconds now d),
      ),
    )

-- The worker that a request names.
abbrev pub worker_of : Request → Text
worker_of (register p) = p.worker_id
worker_of (heartbeat worker_id q) = worker_id
worker_of (assignment worker_id desired_queues) = worker_id

module _ (configured : Option Text) (stale_seconds : ℕ) where
  dispatch-IsConsistent :
      (now later : ℕ) (q : Request) (file : StateFile)
      → IsConsistent file
      → IsConsistent (dispatch configured stale_seconds now later q file).1
  unfolding dispatch
  dispatch-IsConsistent now later (register p) file w =
      upsert-IsConsistent stale_seconds now later p.worker_id (registration p) file w
  dispatch-IsConsistent now later (heartbeat worker_id q) file w =
      upsert-IsConsistent stale_seconds now later worker_id q file w
  dispatch-IsConsistent now later (assignment worker_id desired_queues) file w =
      assignment-IsConsistent stale_seconds now later worker_id desired_queues file w

  pub handle-IsConsistent :
      (c : Call) (file : StateFile)
      → IsConsistent file
      → IsConsistent (handle configured stale_seconds c file).1
  unfolding handle
  handle-IsConsistent c file w = elim (Bool-cases (is_allowed configured c.api_key)) [
    | inl e ↦ rw e (dispatch-IsConsistent c.now c.later c.request file w)
    | inr e ↦ rw e w
  ]

  pub serve-IsConsistent :
      (calls : List Call) (file : StateFile)
      → IsConsistent file
      → IsConsistent (serve configured stale_seconds calls file)
  unfolding serve
  serve-IsConsistent [] file w = w
  serve-IsConsistent (c ∷ calls) file w = serve-IsConsistent calls _ (handle-IsConsistent c file w)

  -- From an absent state file, whatever calls are served, listing the workers returns: it never
  -- raises, and it returns the status of every worker once, sorted by staleness, host and name.
  pub list-after_serve :
      (lower : Text → Text) (now : ℕ) (calls : List Call)
      → (listed : List RemoteWorkerStatus) × (list_remote_workers lower stale_seconds now
            (serve configured stale_seconds calls missing)
          ≡ ok listed)
        × IsListing lower stale_seconds now (serve configured stale_seconds calls missing) listed
  list-after_serve lower now calls =
      list-IsListing lower stale_seconds now (serve configured stale_seconds calls missing)
        (serve-IsConsistent calls missing (unfold workers_of in (tt, tt)))

  dispatch-err :
      (now later : ℕ) (q : Request) (file : StateFile) {e : HttpError}
      → IsConsistent file
      → (dispatch configured stale_seconds now later q file).0 ≡ err e
      → (dispatch configured stale_seconds now later q file).1 ≡ file
  unfolding dispatch
  dispatch-err now later (register p) file w h =
      upsert-err stale_seconds now later p.worker_id (registration p) file w h
  dispatch-err now later (heartbeat worker_id q) file w h =
      upsert-err stale_seconds now later worker_id q file w h
  dispatch-err now later (assignment worker_id desired_queues) file w h =
      assignment-err stale_seconds now later worker_id desired_queues file w h

  -- In a consistent registry, a call that is answered by an error, of whatever kind, has left the
  -- state file as it was.
  pub handle-err_unchanged :
      (c : Call) (file : StateFile) {e : HttpError}
      → IsConsistent file
      → (handle configured stale_seconds c file).0 ≡ err e
      → (handle configured stale_seconds c file).1 ≡ file
  unfolding handle
  handle-err_unchanged c file w h = elim (Bool-cases (is_allowed configured c.api_key)) [
    | inl e ↦ rw e (dispatch-err c.now c.later c.request file w (rw e at h))
    | inr e ↦ rw e
  ]

  dispatch-other :
      (now later : ℕ) (q : Request) (file : StateFile) (other : Text)
      → (strip (worker_of q) == other) ≡ false
      → stored other (dispatch configured stale_seconds now later q file).1 ≡ stored other file
  unfolding dispatch
  dispatch-other now later (register p) file other h =
      stored-upsert_other stale_seconds now later p.worker_id other (registration p) file h
  dispatch-other now later (heartbeat worker_id q) file other h =
      stored-upsert_other stale_seconds now later worker_id other q file h
  dispatch-other now later (assignment worker_id desired_queues) file other h =
      stored-assignment_other stale_seconds now later worker_id other desired_queues file h

  -- A call about one worker, accepted or refused, changes no other worker's record.
  pub handle-other_unchanged :
      (c : Call) (file : StateFile) (other : Text)
      → (strip (worker_of c.request) == other) ≡ false
      → stored other (handle configured stale_seconds c file).1 ≡ stored other file
  unfolding handle
  handle-other_unchanged c file other h = elim (Bool-cases (is_allowed configured c.api_key)) [
    | inl e ↦ rw e (dispatch-other c.now c.later c.request file other h)
    | inr e ↦ rw e
  ]
