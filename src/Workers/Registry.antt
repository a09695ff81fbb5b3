-- ===== src/Workers/Registry.antt =====
-- The state of vpn/VPN_Control_API/app.py's remote-worker registry, and its operations. Every
-- operation returns the state file beside its result, since the file stays written where a later
-- step raises.
pub mod Invariant
pub mod Assignment
use nautobot_docker_compose.Base.{
  ℕ, ◌-◌, ◌/◌, Bool, true, false, not, ◌&&◌, Option, none, some, List, [], ◌∷◌, ◌==◌, nat_eq,
  list_eq, if◌then◌else◌, ltb, contains, any,
}
use nautobot_docker_compose.Base.Text.{Text, codes, strip, is_empty, or_text}
use nautobot_docker_compose.Base.Dict.{Dict, lookup, insert}
use nautobot_docker_compose.Base.Dict.Sorted.{sort_keys}
use nautobot_docker_compose.Base.Sort.{sort_by, text_le}
use nautobot_docker_compose.Workers.Errors.{
  Result, ok, err, empty_worker_id, unknown_remote_worker, internal_error, not_advertised, ◌>>=◌,
}
use nautobot_docker_compose.Workers.Queues.{normalize_remote_queue_names}

-- One entry of `workers`. An empty text, an empty list or `none` stands for an absent key: the code
-- reads each by `get(key) or default`. A capability's value is kept as its JSON text; a time is in
-- microseconds, which `isoformat` and `fromisoformat` carry through the file unchanged.
pub record WorkerRecord : Type 0 where
  pub hostname : Text
  pub software_version : Option Text
  pub platform : Option Text
  pub capabilities : Dict Text
  pub advertised_queues : List Text
  pub desired_queues : List Text
  pub current_queues : List Text
  pub status : Text
  pub registered_at : Option ℕ
  pub last_assignment : Option ℕ
  pub last_heartbeat : Option ℕ

-- What `REMOTE_WORKER_STATE_FILE` holds: nothing, no JSON, JSON that is no object, an object with no
-- `workers` object, or workers.
pub data StateFile : Type 0 where
  missing unreadable not_an_object no_workers : StateFile
  workers : Dict WorkerRecord → StateFile

unfoldable pub workers_of : StateFile → Dict WorkerRecord
workers_of (workers d) = d
workers_of _ = []

-- A payload that is no object has no `get`.
unfoldable pub load_remote_worker_state : StateFile → Result (Dict WorkerRecord)
unfolding workers_of
load_remote_worker_state not_an_object = err internal_error
load_remote_worker_state file = ok (workers_of file)

pub data AssignmentStatus : Type 0 where
  stale unassigned pending_restart assigned : AssignmentStatus

pub record RemoteWorkerStatus : Type 0 where
  pub worker_id : Text
  pub hostname : Text
  pub software_version : Option Text
  pub platform : Option Text
  pub capabilities : Dict Text
  pub advertised_queues : List Text
  pub desired_queues : List Text
  pub current_queues : List Text
  pub status : Text
  pub assignment_status : AssignmentStatus
  pub needs_restart : Bool
  pub is_stale : Bool
  pub heartbeat_age_seconds : Option ℕ
  pub registered_at : Option ℕ
  pub last_assignment : Option ℕ
  pub last_heartbeat : Option ℕ

-- `max(int((utcnow() - timestamp).total_seconds()), 0)`: a time in the future has age 0.
unfoldable pub heartbeat_age : ℕ → Option ℕ → Option ℕ
heartbeat_age now none = none
heartbeat_age now (some timestamp) = some ((now - timestamp) / 1000000)

unfoldable pub is_stale_age : ℕ → Option ℕ → Bool
is_stale_age stale_seconds none = true
is_stale_age stale_seconds (some age) = ltb stale_seconds age

unfoldable pub assignment_status_of : Bool → List Text → Bool → AssignmentStatus
assignment_status_of true desired needs_restart = stale
assignment_status_of false [] needs_restart = unassigned
assignment_status_of false (name ∷ desired) true = pending_restart
assignment_status_of false (name ∷ desired) false = assigned

-- `stale_seconds` is `REMOTE_WORKER_STALE_SECONDS`, an environment setting.
unfoldable pub build_remote_worker_status : ℕ → ℕ → Text → WorkerRecord → Result RemoteWorkerStatus
unfolding heartbeat_age is_stale_age assignment_status_of
build_remote_worker_status stale_seconds now worker_id r = do
  desired ← normalize_remote_queue_names true r.desired_queues
  current ← normalize_remote_queue_names false r.current_queues
  advertised ← normalize_remote_queue_names true r.advertised_queues
  let age = heartbeat_age now r.last_heartbeat
  let is_stale = is_stale_age stale_seconds age
  let needs_restart = not (desired == current)
  ok (record {
    worker_id = worker_id;
    hostname = or_text r.hostname worker_id;
    software_version = r.software_version;
    platform = r.platform;
    capabilities = r.capabilities;
    advertised_queues = advertised;
    desired_queues = desired;
    current_queues = current;
    status = or_text r.status (codes "unknown");
    assignment_status = assignment_status_of is_stale desired needs_restart;
    needs_restart = needs_restart;
    is_stale = is_stale;
    heartbeat_age_seconds = age;
    registered_at = r.registered_at;
    last_assignment = r.last_assignment;
    last_heartbeat = r.last_heartbeat;
  })

-- The arguments of `upsert_remote_worker`: those of a heartbeat, each of which may be absent.
pub record HeartbeatRequest : Type 0 where
  pub hostname : Option Text
  pub software_version : Option Text
  pub platform : Option Text
  pub capabilities : Option (Dict Text)
  pub advertised_queues : Option (List Text)
  pub current_queues : Option (List Text)
  pub status : Option Text

abbrev new_record : ℕ → WorkerRecord
new_record now = record {
  hostname = [];
  software_version = none;
  platform = none;
  capabilities = [];
  advertised_queues = [];
  desired_queues = [];
  current_queues = [];
  status = [];
  registered_at = some now;
  last_assignment = none;
  last_heartbeat = none;
}

-- `value.strip() or None`
non_blank : Text → Option Text
non_blank s = let t = strip s in if is_empty t then none else some t

-- A field that the request leaves out keeps its value.
or_keep {ℓ κ} : {A : Type ℓ} {B : Type κ} → Option A → (A → B) → B → B
or_keep none f old = old
or_keep (some a) f old = f a

-- `if hostname:` also skips an empty text
hostname_of : Option Text → Text → Text
hostname_of none old = old
hostname_of (some []) old = old
hostname_of (some (c ∷ cs)) old = strip (c ∷ cs)

unfoldable pub queues_of : Bool → Option (List Text) → List Text → Result (List Text)
queues_of canonicalize none old = ok old
queues_of canonicalize (some names) old = normalize_remote_queue_names canonicalize names

-- The record with the fields of the request, and these queues.
unfoldable pub refreshed :
    ℕ → HeartbeatRequest → WorkerRecord → List Text → List Text → WorkerRecord
unfolding non_blank or_keep hostname_of
refreshed now q old advertised current = record old {
  hostname = hostname_of q.hostname old.hostname;
  software_version = or_keep q.software_version non_blank old.software_version;
  platform = or_keep q.platform non_blank old.platform;
  capabilities = or_keep q.capabilities (λ c. c) old.capabilities;
  advertised_queues = advertised;
  current_queues = current;
  status = or_keep q.status (λ s. or_text (strip s) (codes "unknown")) old.status;
  last_heartbeat = some now;
}

unfoldable pub updated_record : ℕ → HeartbeatRequest → WorkerRecord → Result WorkerRecord
unfolding refreshed queues_of
updated_record now q old = do
  advertised ← queues_of true q.advertised_queues old.advertised_queues
  current ← queues_of false q.current_queues old.current_queues
  ok (refreshed now q old advertised current)

unfoldable pub existing_or_new : ℕ → Option WorkerRecord → WorkerRecord
existing_or_new now none = new_record now
existing_or_new now (some r) = r

-- `save_remote_worker_state`, with `sort_keys=True`: the workers are written by identifier. The order
-- of the members within a record is not told apart.
unfoldable pub save_remote_worker_state : Dict WorkerRecord → StateFile
save_remote_worker_state d = workers (sort_keys d)

save_and_report :
    ℕ
    → ℕ
    → Text
    → Dict WorkerRecord
    → StateFile
    → Result WorkerRecord
    → Result RemoteWorkerStatus × StateFile
unfolding save_remote_worker_state
save_and_report stale_seconds now worker_id d file (err e) = (err e, file)
save_and_report stale_seconds now worker_id d file (ok r) = (
  build_remote_worker_status stale_seconds now worker_id r,
  save_remote_worker_state (insert worker_id r d),
)

-- Where the state cannot be loaded, nothing is written.
abbrev with_workers :
    Result (Dict WorkerRecord)
    → StateFile
    → (Dict WorkerRecord → Result RemoteWorkerStatus × StateFile)
    → Result RemoteWorkerStatus × StateFile
with_workers (err e) file k = (err e, file)
with_workers (ok d) file k = k d

-- `now` is the clock when the record is written, `later` when its status is built.
unfoldable pub upsert_remote_worker :
    ℕ → ℕ → ℕ → Text → HeartbeatRequest → StateFile → Result RemoteWorkerStatus × StateFile
unfolding save_and_report existing_or_new updated_record
upsert_remote_worker stale_seconds now later worker_id q file =
    let id = strip worker_id in
    if is_empty id
    then (err empty_worker_id, file)
    else with_workers (load_remote_worker_state file) file (λ d.
      save_and_report stale_seconds later id d file
        (updated_record now q (existing_or_new now (lookup id d))))

-- A worker that advertises nothing may be given any queue.
offered : ℕ → Text → List Text → List Text → WorkerRecord → Result WorkerRecord
offered now worker_id desired advertised r =
    if not (advertised == []) && any (λ name. not (contains advertised name)) desired
    then err (not_advertised worker_id desired advertised)
    else ok (record r { desired_queues = desired; last_assignment = some now })

assigned_record : ℕ → Text → List Text → WorkerRecord → Result WorkerRecord
unfolding offered
assigned_record now worker_id desired_queues r = do
  desired ← normalize_remote_queue_names true desired_queues
  advertised ← normalize_remote_queue_names true r.advertised_queues
  offered now worker_id desired advertised r

unfoldable pub found_record : ℕ → Text → List Text → Option WorkerRecord → Result WorkerRecord
unfolding assigned_record
found_record now worker_id desired_queues none = err (unknown_remote_worker worker_id)
found_record now worker_id desired_queues (some r) = assigned_record now worker_id desired_queues r

unfoldable pub set_remote_worker_assignment :
    ℕ → ℕ → ℕ → Text → List Text → StateFile → Result RemoteWorkerStatus × StateFile
unfolding save_and_report assigned_record found_record
set_remote_worker_assignment stale_seconds now later worker_id desired_queues file =
    let id = strip worker_id in
    with_workers (load_remote_worker_state file) file (λ d.
      save_and_report stale_seconds later id d file
        (found_record now worker_id desired_queues (lookup id d)))

unfoldable pub statuses : ℕ → ℕ → Dict WorkerRecord → Result (List RemoteWorkerStatus)
statuses stale_seconds now [] = ok []
statuses stale_seconds now ((worker_id, r) ∷ d) = do
  s ← build_remote_worker_status stale_seconds now worker_id r
  rest ← statuses stale_seconds now d
  ok (s ∷ rest)

stale_le : Bool → Bool → Bool → Bool
stale_le false true le_names = true
stale_le true false le_names = false
stale_le _ _ le_names = le_names

-- The key `(worker.stale, worker.hostname.lower(), worker.worker_id.lower())`; `lower` is `str.lower`.
module _ (lower : Text → Text) where
  name_le : RemoteWorkerStatus → RemoteWorkerStatus → Bool
  name_le a b =
      if lower a.hostname == lower b.hostname
      then text_le (lower a.worker_id) (lower b.worker_id)
      else text_le (lower a.hostname) (lower b.hostname)

  unfoldable pub worker_le : RemoteWorkerStatus → RemoteWorkerStatus → Bool
  unfolding name_le stale_le
  worker_le a b = stale_le a.is_stale b.is_stale (name_le a b)

  unfoldable pub list_remote_workers : ℕ → ℕ → StateFile → Result (List RemoteWorkerStatus)
  unfolding statuses worker_le
  list_remote_workers stale_seconds now file = do
    d ← load_remote_worker_state file
    found ← statuses stale_seconds now d
    ok (sort_by worker_le found)
