-- ===== src/Workers/Registry/Invariant.antt =====
-- What every operation of the registry keeps: the stored queue lists are in normal form, so that
-- `build_remote_worker_status` can always read them.
use nautobot_docker_compose.Workers.Registry.{
  no_workers, unreadable, not_an_object, missing, load_remote_worker_state, workers, WorkerRecord,
  StateFile, workers_of, heartbeat_age, is_stale_age, assignment_status_of, RemoteWorkerStatus,
  build_remote_worker_status, HeartbeatRequest, queues_of, updated_record, existing_or_new,
  save_and_report, upsert_remote_worker, assigned_record, offered, found_record,
  set_remote_worker_assignment,
}
use nautobot_docker_compose.Workers.Errors.{
  internal_error, Result, ok, err, bind-eq-ok, ok-injective,
}
use nautobot_docker_compose.Base.{
  ◌⊎◌, ℕ, ◌≡◌, refl, inl, inr, Bool, true, false, not, ◌&&◌, Option, none, some, List, [], ◌==◌,
  nat_eq, list_eq, Bool-cases, any, contains, distinct,
}
use nautobot_docker_compose.Base.Dict.Sorted.{AllValues-sort_keys}
use nautobot_docker_compose.Base.Dict.{
  insert, Dict, lookup, AllValues, AllValues-insert, AllValues-lookup,
}
use mathlib.Core.Path.{subst}
use nautobot_docker_compose.Base.Text.{Text, codes, strip, is_empty, or_text}
use nautobot_docker_compose.Workers.Queues.{normalize_remote_queue_names}
use nautobot_docker_compose.Workers.Queues.Normal.{IsNormal, normalize-IsNormal, normalize_self}

pub record IsWellFormed (r : WorkerRecord) : Type 0 where
  pub advertised : IsNormal true r.advertised_queues
  pub desired : IsNormal true r.desired_queues
  pub current : IsNormal false r.current_queues

-- The file can be loaded.
abbrev pub IsLoadable : StateFile → Type 0
IsLoadable not_an_object = ⊥
IsLoadable missing = Unit
IsLoadable unreadable = Unit
IsLoadable no_workers = Unit
IsLoadable (workers d) = Unit

-- It can be loaded, and its records are well-formed.
abbrev pub IsConsistent : StateFile → Type 0
IsConsistent file = IsLoadable file × AllValues IsWellFormed (workers_of file)

pub load_ok :
    (file : StateFile) → IsConsistent file → load_remote_worker_state file ≡ ok (workers_of file)
unfolding load_remote_worker_state
load_ok missing w = refl
load_ok unreadable w = refl
load_ok not_an_object w = absurd (w.0)
load_ok no_workers w = refl
load_ok (workers d) w = refl

pub load_cases :
    (file : StateFile)
    → (load_remote_worker_state file ≡ ok (workers_of file))
      ⊎ (load_remote_worker_state file ≡ err internal_error)
unfolding load_remote_worker_state
load_cases missing = inl refl
load_cases unreadable = inl refl
load_cases not_an_object = inr refl
load_cases no_workers = inl refl
load_cases (workers d) = inl refl

pub IsNormal-nil : (canonicalize : Bool) → IsNormal canonicalize []
IsNormal-nil canonicalize = record { valid = tt; once = unfold distinct in refl }

-- The status of a well-formed record, without the checks that it passes.
unfoldable pub status_of : ℕ → ℕ → Text → WorkerRecord → RemoteWorkerStatus
status_of stale_seconds now worker_id r =
    let age = heartbeat_age now r.last_heartbeat in
    let is_stale = is_stale_age stale_seconds age in
    let needs_restart = not (r.desired_queues == r.current_queues) in
    record {
      worker_id = worker_id;
      hostname = or_text r.hostname worker_id;
      software_version = r.software_version;
      platform = r.platform;
      capabilities = r.capabilities;
      advertised_queues = r.advertised_queues;
      desired_queues = r.desired_queues;
      current_queues = r.current_queues;
      status = or_text r.status (codes "unknown");
      assignment_status = assignment_status_of is_stale r.desired_queues needs_restart;
      needs_restart = needs_restart;
      is_stale = is_stale;
      heartbeat_age_seconds = age;
      registered_at = r.registered_at;
      last_assignment = r.last_assignment;
      last_heartbeat = r.last_heartbeat;
    }

pub build-status_of :
    (stale_seconds now : ℕ) (worker_id : Text) (r : WorkerRecord)
    → IsWellFormed r
    → build_remote_worker_status stale_seconds now worker_id r
      ≡ ok (status_of stale_seconds now worker_id r)
unfolding build_remote_worker_status status_of
build-status_of stale_seconds now worker_id r w =
    rw (normalize_self true r.desired_queues w.desired) (
      rw (normalize_self false r.current_queues w.current)
        (rw (normalize_self true r.advertised_queues w.advertised)))

queues_of-IsNormal :
    (canonicalize : Bool) (request : Option (List Text)) (old : List Text) {names : List Text}
    → IsNormal canonicalize old
    → queues_of canonicalize request old ≡ ok names
    → IsNormal canonicalize names
unfolding queues_of
queues_of-IsNormal canonicalize none old w h = subst (IsNormal canonicalize) (ok-injective h) w
queues_of-IsNormal canonicalize (some values) old w h = normalize-IsNormal canonicalize values h

pub updated_record-IsWellFormed :
    (now : ℕ) (q : HeartbeatRequest) (old : WorkerRecord) {r : WorkerRecord}
    → IsWellFormed old
    → updated_record now q old ≡ ok r
    → IsWellFormed r
unfolding updated_record
updated_record-IsWellFormed now q old w h =
    let (advertised, a, h') =
      bind-eq-ok (queues_of true q.advertised_queues old.advertised_queues) _ h in
    let (current, c, h'') = bind-eq-ok (queues_of false q.current_queues old.current_queues) _ h' in
    subst IsWellFormed (ok-injective h'') (record {
      advertised = queues_of-IsNormal true q.advertised_queues old.advertised_queues w.advertised a;
      desired = w.desired;
      current = queues_of-IsNormal false q.current_queues old.current_queues w.current c;
    })

pub existing_or_new-IsWellFormed :
    (now : ℕ) (id : Text) (d : Dict WorkerRecord) (found : Option WorkerRecord)
    → AllValues IsWellFormed d
    → lookup id d ≡ found
    → IsWellFormed (existing_or_new now found)
unfolding existing_or_new
existing_or_new-IsWellFormed now id d none w e = record {
  advertised = IsNormal-nil true;
  desired = IsNormal-nil true;
  current = IsNormal-nil false;
}
existing_or_new-IsWellFormed now id d (some r) w e = AllValues-lookup IsWellFormed id d w e

offered-IsWellFormed :
    (now : ℕ) (worker_id : Text) (desired advertised : List Text) (old : WorkerRecord)
    {r : WorkerRecord}
    → IsWellFormed old
    → IsNormal true desired
    → offered now worker_id desired advertised old ≡ ok r
    → IsWellFormed r
unfolding offered
offered-IsWellFormed now worker_id desired advertised old w n h =
    elim (Bool-cases
      (not (advertised == []) && any (λ name. not (contains advertised name)) desired)) [
        | inl e ↦ cc (rw e at h)
        | inr e ↦
            subst IsWellFormed (ok-injective (rw e at h))
              (record { advertised = w.advertised; desired = n; current = w.current })
      ]

assigned_record-IsWellFormed :
    (now : ℕ) (worker_id : Text) (desired_queues : List Text) (old : WorkerRecord)
    {r : WorkerRecord}
    → IsWellFormed old
    → assigned_record now worker_id desired_queues old ≡ ok r
    → IsWellFormed r
unfolding assigned_record
assigned_record-IsWellFormed now worker_id desired_queues old w h =
    let (desired, d, h') = bind-eq-ok (normalize_remote_queue_names true desired_queues) _ h in
    let (advertised, a, h'') =
      bind-eq-ok (normalize_remote_queue_names true old.advertised_queues) _ h' in
    offered-IsWellFormed now worker_id desired advertised old w
      (normalize-IsNormal true desired_queues d) h''

pub found_record-IsWellFormed :
    (now : ℕ) (worker_id id : Text) (desired_queues : List Text) (d : Dict WorkerRecord)
    (found : Option WorkerRecord) {r : WorkerRecord}
    → AllValues IsWellFormed d
    → lookup id d ≡ found
    → found_record now worker_id desired_queues found ≡ ok r
    → IsWellFormed r
unfolding found_record
found_record-IsWellFormed now worker_id id desired_queues d none w e h = cc
found_record-IsWellFormed now worker_id id desired_queues d (some old) w e h =
    assigned_record-IsWellFormed now worker_id desired_queues old
      (AllValues-lookup IsWellFormed id d w e) h

-- A record is written only where it is well-formed.
save_and_report-IsConsistent :
    (stale_seconds now : ℕ) (id : Text) (file : StateFile) (m : Result WorkerRecord)
    → IsConsistent file
    → ((r : WorkerRecord) → m ≡ ok r → IsWellFormed r)
    → IsConsistent (save_and_report stale_seconds now id (workers_of file) file m).1
unfolding save_and_report workers_of
save_and_report-IsConsistent stale_seconds now id file (err e) w f = w
save_and_report-IsConsistent stale_seconds now id file (ok r) w f = (
  tt,
  AllValues-sort_keys IsWellFormed (insert id r (workers_of file))
      (AllValues-insert IsWellFormed id r (workers_of file) (f r refl) (w.1)),
)

-- A registration or a heartbeat keeps the file consistent, whether it is accepted or refused.
pub upsert-IsConsistent :
    (stale_seconds now later : ℕ) (worker_id : Text) (q : HeartbeatRequest) (file : StateFile)
    → IsConsistent file
    → IsConsistent (upsert_remote_worker stale_seconds now later worker_id q file).1
unfolding upsert_remote_worker
upsert-IsConsistent stale_seconds now later worker_id q file w =
    elim (Bool-cases (is_empty (strip worker_id))) [
      | inl e ↦ rw e w
      | inr e ↦
          rw (e, load_ok file w)
            (save_and_report-IsConsistent stale_seconds later (strip worker_id) file _ w λ r h.
              updated_record-IsWellFormed now q _
                (existing_or_new-IsWellFormed now (strip worker_id) (workers_of file) _ (w.1) refl)
                h)
    ]

-- So does an assignment.
pub assignment-IsConsistent :
    (stale_seconds now later : ℕ) (worker_id : Text) (desired_queues : List Text) (file : StateFile)
    → IsConsistent file
    → IsConsistent
        (set_remote_worker_assignment stale_seconds now later worker_id desired_queues file).1
unfolding set_remote_worker_assignment
assignment-IsConsistent stale_seconds now later worker_id desired_queues file w =
    rw (load_ok file w) (
      save_and_report-IsConsistent stale_seconds later (strip worker_id) file _ w λ r h.
        found_record-IsWellFormed now worker_id (strip worker_id) desired_queues (workers_of file) _
          (w.1) refl h)
