-- ===== src/Workers/Endpoints/Restart.antt =====
-- The round of an assignment: what an accepted one writes, and what the worker's next heartbeat,
-- after it has restarted on its queues, is answered.
use nautobot_docker_compose.Workers.Registry.Invariant.{
  load_ok, IsWellFormed, IsConsistent, status_of, build-status_of, assignment-IsConsistent,
  updated_record-IsWellFormed,
}
use nautobot_docker_compose.Workers.Registry.{
  load_remote_worker_state, WorkerRecord, StateFile, workers_of, RemoteWorkerStatus,
  HeartbeatRequest, upsert_remote_worker, updated_record, refreshed, queues_of,
  set_remote_worker_assignment, assignment_status_of, unassigned, assigned, existing_or_new,
  is_stale_age, heartbeat_age,
}
use nautobot_docker_compose.Base.{
  ℕ, ◌≡◌, refl, ap, sym, ◌∙◌, true, false, not, none, some, List, [], ◌∷◌, ◌==◌, nat_eq, list_eq,
  if◌then◌else◌, arith, list_beq, beq_refl, ◌≤◌, ◌-◌, ◌/◌,
}
use nautobot_docker_compose.Base.Text.{Text, strip, is_empty}
use nautobot_docker_compose.Base.Dict.{AllValues-lookup}
use nautobot_docker_compose.Workers.Errors.{ok}
use nautobot_docker_compose.Workers.Queues.Normal.{normalize_self, IsNormal-weaken}
use nautobot_docker_compose.Workers.Registry.Assignment.{stored, assignment-Accepts}

-- A heartbeat that reports `queues` and says nothing of what the worker advertises.
abbrev pub Reports : List Text → HeartbeatRequest → Type 0
Reports queues q = (q.current_queues ≡ some queues) × (q.advertised_queues ≡ none)

updated_record-Reports :
    (now : ℕ) (q : HeartbeatRequest) (old : WorkerRecord)
    → IsWellFormed old
    → Reports old.desired_queues q
    → updated_record now q old ≡ ok (refreshed now q old old.advertised_queues old.desired_queues)
unfolding updated_record
updated_record-Reports now q old w (c, a) =
    rw (a, queues_of)
      (rw (c, queues_of)
        (rw
          (normalize_self false old.desired_queues (IsNormal-weaken old.desired_queues w.desired))))

assignment_status-fresh :
    (desired : List Text)
    → assignment_status_of false desired false ≡ (if desired == [] then unassigned else assigned)
unfolding assignment_status_of
assignment_status-fresh [] = unfold list_beq in refl
assignment_status-fresh (name ∷ desired) = unfold list_beq in refl

is_stale_age-fresh :
    (stale_seconds now later : ℕ)
    → (later - now) / 1000000 ≤ stale_seconds
    → is_stale_age stale_seconds (heartbeat_age later (some now)) ≡ false
unfolding is_stale_age heartbeat_age
is_stale_age-fresh stale_seconds now later h = ground arith

status-assigned :
    (stale_seconds now later : ℕ) (id : Text) (r : WorkerRecord)
    → r.current_queues ≡ r.desired_queues
    → r.last_heartbeat ≡ some now
    → (later - now) / 1000000 ≤ stale_seconds
    → ((status_of stale_seconds later id r).needs_restart ≡ false)
      × ((status_of stale_seconds later id r).assignment_status
          ≡ (if r.desired_queues == [] then unassigned else assigned))
unfolding status_of
status-assigned stale_seconds now later id r c b fresh =
    let same : (r.desired_queues == r.current_queues) ≡ true = rw c (beq_refl r.desired_queues) in
    (
      ap not same,
      rw same (
          rw b (
            rw (is_stale_age-fresh stale_seconds now later fresh)
              (assignment_status-fresh r.desired_queues))),
    )

-- The worker runs on `queues`, and is asked for no restart.
abbrev pub IsSettled : List Text → RemoteWorkerStatus → Type 0
IsSettled queues t =
    (t.desired_queues ≡ queues)
    × (t.needs_restart ≡ false)
    × (t.assignment_status ≡ (if queues == [] then unassigned else assigned))

module _ (stale_seconds : ℕ) where
  upsert-Reports :
      (now later : ℕ) (worker_id : Text) (q : HeartbeatRequest) (file : StateFile)
      (old : WorkerRecord)
      → is_empty (strip worker_id) ≡ false
      → load_remote_worker_state file ≡ ok (workers_of file)
      → stored (strip worker_id) file ≡ some old
      → IsWellFormed old
      → Reports old.desired_queues q
      → (upsert_remote_worker stale_seconds now later worker_id q file).0
        ≡ ok (
            status_of stale_seconds later
              (strip worker_id)
              (refreshed now q old old.advertised_queues old.desired_queues))
  unfolding upsert_remote_worker existing_or_new
  upsert-Reports now later worker_id q file old named loaded found w reports =
      rw (named, loaded)
        (rw found (
          rw (updated_record-Reports now q old w reports) (
            build-status_of stale_seconds later (strip worker_id) _ (
              updated_record-IsWellFormed now q old w
                (updated_record-Reports now q old w reports)))))

  -- In a consistent registry: once an assignment is accepted, a heartbeat by which the worker
  -- reports just the queues that the answer names is answered, within the staleness bound, by a
  -- status that asks for no restart, keeps these queues, and is `assigned`, or `unassigned` where
  -- there are none.
  pub restart_completes :
      (now later : ℕ) (worker_id : Text) (desired_queues : List Text) (file : StateFile)
      {s : RemoteWorkerStatus} (beat after : ℕ) (q : HeartbeatRequest)
      → IsConsistent file
      → is_empty (strip worker_id) ≡ false
      → (set_remote_worker_assignment stale_seconds now later worker_id desired_queues file).0
        ≡ ok s
      → Reports s.desired_queues q
      → (after - beat) / 1000000 ≤ stale_seconds
      → (t : RemoteWorkerStatus) × ((upsert_remote_worker stale_seconds beat after worker_id q
            (set_remote_worker_assignment stale_seconds now later worker_id desired_queues
              file).1).0
          ≡ ok t)
        × IsSettled s.desired_queues t
  restart_completes now later worker_id desired_queues file {s} beat after q w named accepted
        reports fresh =
      let file' =
        (set_remote_worker_assignment stale_seconds now later worker_id desired_queues file).1 in
      let (old, r, desired, found, n, kept, answer, a) =
        assignment-Accepts stale_seconds now later worker_id desired_queues file w accepted in
      let same : s.desired_queues ≡ r.desired_queues =
        unfold status_of in ap (λ (s : RemoteWorkerStatus). s.desired_queues) answer in
      let consistent : IsConsistent file' =
        assignment-IsConsistent stale_seconds now later worker_id desired_queues file w in
      let w' =
        AllValues-lookup IsWellFormed (strip worker_id) (workers_of file')
          (assignment-IsConsistent stale_seconds now later worker_id desired_queues file w).1
          kept in
      let r' = refreshed beat q r r.advertised_queues r.desired_queues in
      let reports' : Reports r.desired_queues q = (reports.0 ∙ ap some same, reports.1) in
      let (no_restart, status) =
        status-assigned stale_seconds beat after (strip worker_id) r' (unfold refreshed in refl)
          (unfold refreshed in refl) fresh in
      (
        status_of stale_seconds after (strip worker_id) r',
        upsert-Reports beat after worker_id q file' r named (load_ok file' consistent) kept w'
            reports',
        (
          (unfold status_of refreshed in sym same),
          no_restart,
          status
              ∙ (unfold refreshed in
                  ap (λ (names : List Text). if names == [] then unassigned else assigned)
                    (sym same)),
        ),
      )
