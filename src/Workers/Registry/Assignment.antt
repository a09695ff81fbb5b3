-- ===== src/Workers/Registry/Assignment.antt =====
-- What an operation answers and what it leaves alone.
use nautobot_docker_compose.Workers.Registry.Invariant.{
  load_ok, load_cases, IsConsistent, IsWellFormed, status_of, build-status_of,
  existing_or_new-IsWellFormed, updated_record-IsWellFormed, found_record-IsWellFormed,
}
use nautobot_docker_compose.Workers.Registry.{
  load_remote_worker_state, existing_or_new, WorkerRecord, StateFile, workers_of,
  RemoteWorkerStatus, HeartbeatRequest, queues_of, updated_record, save_and_report,
  upsert_remote_worker, assigned_record, offered, found_record, set_remote_worker_assignment,
}
use nautobot_docker_compose.Base.Dict.Sorted.{lookup-sort_keys}
use nautobot_docker_compose.Base.Dict.{insert, AllValues-lookup, lookup, lookup-insert}
use nautobot_docker_compose.Base.{
  ℕ, ◌≡◌, refl, ap, sym, ◌∙◌, ◌⊎◌, inl, inr, Bool, true, false, not, Option, none, some, List, [],
  ◌∷◌, ◌==◌, nat_eq, list_eq, arith, Bool-cases, all, any, contains, list_beq_iff, beq_refl,
}
use nautobot_docker_compose.Base.Text.{Text, strip, is_empty}
use nautobot_docker_compose.Workers.Errors.{HttpError, Result, ok, err, bind-eq-ok, ok-injective}
use nautobot_docker_compose.Workers.Queues.{normalize_remote_queue_names}
use nautobot_docker_compose.Workers.Queues.Normal.{normalize_self}

-- The record that the file holds for a worker.
abbrev pub stored : Text → StateFile → Option WorkerRecord
stored worker_id file = lookup worker_id (workers_of file)

all-not-any :
    (p : Text → Bool) (names : List Text)
    → any (λ name. not (p name)) names ≡ false
    → all p names ≡ true
unfolding all any
all-not-any p [] h = refl
all-not-any p (name ∷ names) h = ground (arith, all-not-any p names)

-- Only the record of the worker that is written changes.
stored-save :
    (stale_seconds now : ℕ) (id other : Text) (file : StateFile) (m : Result WorkerRecord)
    → (id == other) ≡ false
    → stored other (save_and_report stale_seconds now id (workers_of file) file m).1
      ≡ stored other file
unfolding save_and_report workers_of
stored-save stale_seconds now id other file (err e) h = refl
stored-save stale_seconds now id other file (ok r) h =
    lookup-sort_keys other (insert id r (workers_of file))
    ∙ rw (lookup-insert id other r (workers_of file)) (rw h)

pub stored-upsert_other :
    (stale_seconds now later : ℕ) (worker_id other : Text) (q : HeartbeatRequest) (file : StateFile)
    → (strip worker_id == other) ≡ false
    → stored other (upsert_remote_worker stale_seconds now later worker_id q file).1
      ≡ stored other file
unfolding upsert_remote_worker
stored-upsert_other stale_seconds now later worker_id other q file h =
    elim (Bool-cases (is_empty (strip worker_id))) [
      | inl e ↦ rw e
      | inr e ↦ elim (load_cases file) [
        | inl l ↦ rw (e, l) (stored-save stale_seconds later (strip worker_id) other file _ h)
        | inr l ↦ rw (e, l) refl
      ]
    ]

pub stored-assignment_other :
    (stale_seconds now later : ℕ) (worker_id other : Text) (desired_queues : List Text)
    (file : StateFile)
    → (strip worker_id == other) ≡ false
    → stored other
        (set_remote_worker_assignment stale_seconds now later worker_id desired_queues file).1
      ≡ stored other file
unfolding set_remote_worker_assignment
stored-assignment_other stale_seconds now later worker_id other desired_queues file h =
    elim (load_cases file) [
      | inl l ↦ rw l (stored-save stale_seconds later (strip worker_id) other file _ h)
      | inr l ↦ rw l refl
    ]

-- A heartbeat keeps the assignment, its time and the time of registration.
pub updated_record-keeps :
    (now : ℕ) (q : HeartbeatRequest) (old : WorkerRecord) {r : WorkerRecord}
    → updated_record now q old ≡ ok r
    → (r.desired_queues ≡ old.desired_queues)
      × (r.last_assignment ≡ old.last_assignment)
      × (r.registered_at ≡ old.registered_at)
      × (r.last_heartbeat ≡ some now)
unfolding updated_record
updated_record-keeps now q old {r} h =
    let (advertised, a, h') =
      bind-eq-ok (queues_of true q.advertised_queues old.advertised_queues) _ h in
    let (current, c, h'') = bind-eq-ok (queues_of false q.current_queues old.current_queues) _ h' in
    let e = ok-injective h'' in
    (
      sym (ap (λ (r : WorkerRecord). r.desired_queues) e),
      sym (ap (λ (r : WorkerRecord). r.last_assignment) e),
      sym (ap (λ (r : WorkerRecord). r.registered_at) e),
      sym (ap (λ (r : WorkerRecord). r.last_heartbeat) e),
    )

-- What an assignment that is not refused writes.
abbrev pub IsAssigned : ℕ → List Text → WorkerRecord → WorkerRecord → Type 0
IsAssigned now desired old r =
    (r ≡ record old { desired_queues = desired; last_assignment = some now })
    × ((old.advertised_queues ≡ []) ⊎ (all (contains old.advertised_queues) desired ≡ true))

offered-IsAssigned :
    (now : ℕ) (worker_id : Text) (desired advertised : List Text) (old : WorkerRecord)
    {r : WorkerRecord}
    → advertised ≡ old.advertised_queues
    → offered now worker_id desired advertised old ≡ ok r
    → IsAssigned now desired old r
unfolding offered
offered-IsAssigned now worker_id desired advertised old e h = elim (Bool-cases (advertised == [])) [
  | inl nothing ↦
      (sym (ok-injective (rw nothing at h)), inl (sym e ∙ (list_beq_iff advertised []).0 nothing))
  | inr some_queues ↦ elim (Bool-cases (any (λ name. not (contains advertised name)) desired)) [
    | inl refused ↦ cc (rw (some_queues, refused) at h)
    | inr fine ↦ (
      sym (ok-injective (rw (some_queues, fine) at h)),
      inr (rw (← e) (all-not-any (contains advertised) desired fine)),
    )
  ]
]

found_record-IsAssigned :
    (now : ℕ) (worker_id : Text) (desired_queues : List Text) (found : Option WorkerRecord)
    {r : WorkerRecord}
    → ((old : WorkerRecord) → found ≡ some old → IsWellFormed old)
    → found_record now worker_id desired_queues found ≡ ok r
    → (old : WorkerRecord) × (desired : List Text) × (found ≡ some old)
      × (normalize_remote_queue_names true desired_queues ≡ ok desired)
      × IsAssigned now desired old r
unfolding found_record assigned_record
found_record-IsAssigned now worker_id desired_queues none w h = cc
found_record-IsAssigned now worker_id desired_queues (some old) w h =
    let (desired, d, h') = bind-eq-ok (normalize_remote_queue_names true desired_queues) _ h in
    let (advertised, a, h'') =
      bind-eq-ok (normalize_remote_queue_names true old.advertised_queues) _ h' in
    let same =
      ok-injective (sym a ∙ normalize_self true old.advertised_queues (w old refl).advertised) in
    (old, desired, refl, d, offered-IsAssigned now worker_id desired advertised old same h'')

save_and_report-ok :
    (stale_seconds now : ℕ) (id : Text) (file : StateFile) (m : Result WorkerRecord)
    {s : RemoteWorkerStatus}
    → ((r : WorkerRecord) → m ≡ ok r → IsWellFormed r)
    → (save_and_report stale_seconds now id (workers_of file) file m).0 ≡ ok s
    → (r : WorkerRecord) × (m ≡ ok r)
      × (stored id (save_and_report stale_seconds now id (workers_of file) file m).1 ≡ some r)
      × (s ≡ status_of stale_seconds now id r)
unfolding save_and_report workers_of
save_and_report-ok stale_seconds now id file (err x) f h = cc
save_and_report-ok stale_seconds now id file (ok r) f h = (
  r,
  refl,
  lookup-sort_keys id (insert id r (workers_of file))
      ∙ rw (lookup-insert id id r (workers_of file)) (rw (beq_refl id)),
  sym (ok-injective (rw (build-status_of stale_seconds now id r (f r refl)) at h)),
)

-- An error leaves the file as it was.
save_and_report-err :
    (stale_seconds now : ℕ) (id : Text) (file : StateFile) (m : Result WorkerRecord) {e : HttpError}
    → ((r : WorkerRecord) → m ≡ ok r → IsWellFormed r)
    → (save_and_report stale_seconds now id (workers_of file) file m).0 ≡ err e
    → (save_and_report stale_seconds now id (workers_of file) file m).1 ≡ file
unfolding save_and_report
save_and_report-err stale_seconds now id file (err x) f h = refl
save_and_report-err stale_seconds now id file (ok r) f h =
    cc (rw (build-status_of stale_seconds now id r (f r refl)) at h)

upsert_record-IsWellFormed :
    (now : ℕ) (id : Text) (q : HeartbeatRequest) (file : StateFile)
    → IsConsistent file
    → (r : WorkerRecord) → updated_record now q (existing_or_new now (stored id file)) ≡ ok r
    → IsWellFormed r
upsert_record-IsWellFormed now id q file w r h =
    updated_record-IsWellFormed now q _
      (existing_or_new-IsWellFormed now id (workers_of file) _ (w.1) refl) h

assignment_record-IsWellFormed :
    (now : ℕ) (worker_id id : Text) (desired_queues : List Text) (file : StateFile)
    → IsConsistent file
    → (r : WorkerRecord) → found_record now worker_id desired_queues (stored id file) ≡ ok r
    → IsWellFormed r
assignment_record-IsWellFormed now worker_id id desired_queues file w r h =
    found_record-IsWellFormed now worker_id id desired_queues (workers_of file) _ (w.1) refl h

pub upsert-err :
    (stale_seconds now later : ℕ) (worker_id : Text) (q : HeartbeatRequest) (file : StateFile)
    {e : HttpError}
    → IsConsistent file
    → (upsert_remote_worker stale_seconds now later worker_id q file).0 ≡ err e
    → (upsert_remote_worker stale_seconds now later worker_id q file).1 ≡ file
unfolding upsert_remote_worker
upsert-err stale_seconds now later worker_id q file w h =
    elim (Bool-cases (is_empty (strip worker_id))) [
      | inl e ↦ rw e
      | inr e ↦
          let l : load_remote_worker_state file ≡ ok (workers_of file) = load_ok file w in
          rw (e, l)
            (save_and_report-err stale_seconds later (strip worker_id) file _
              (upsert_record-IsWellFormed now (strip worker_id) q file w) (rw (e, l) at h))
    ]

pub assignment-err :
    (stale_seconds now later : ℕ) (worker_id : Text) (desired_queues : List Text) (file : StateFile)
    {e : HttpError}
    → IsConsistent file
    → (set_remote_worker_assignment stale_seconds now later worker_id desired_queues file).0 ≡ err e
    → (set_remote_worker_assignment stale_seconds now later worker_id desired_queues file).1 ≡ file
unfolding set_remote_worker_assignment
assignment-err stale_seconds now later worker_id desired_queues file w h =
    let l : load_remote_worker_state file ≡ ok (workers_of file) = load_ok file w in
    rw l (
      save_and_report-err stale_seconds later (strip worker_id) file _
        (assignment_record-IsWellFormed now worker_id (strip worker_id) desired_queues file w)
        (rw l at h))

-- `s` answers the request for `desired_queues` at `now`, and `after` is the file that it leaves.
abbrev pub Accepts :
    ℕ → ℕ → ℕ → Text → List Text → StateFile → StateFile → RemoteWorkerStatus → Type 0
Accepts stale_seconds now later id desired_queues before after s =
    (old r : WorkerRecord) × (desired : List Text) × (stored id before ≡ some old)
    × (normalize_remote_queue_names true desired_queues ≡ ok desired)
    × (stored id after ≡ some r)
    × (s ≡ status_of stale_seconds later id r)
    × IsAssigned now desired old r

-- In a consistent registry, what an accepted assignment answers and stores: the worker was known,
-- the queues are the normalised ones of the request, a worker that advertises any queue advertises
-- all of these, and of its record only the assignment and its time change.
pub assignment-Accepts :
    (stale_seconds now later : ℕ) (worker_id : Text) (desired_queues : List Text) (file : StateFile)
    {s : RemoteWorkerStatus}
    → IsConsistent file
    → (set_remote_worker_assignment stale_seconds now later worker_id desired_queues file).0 ≡ ok s
    → Accepts stale_seconds now later
        (strip worker_id)
        desired_queues
        file
        (set_remote_worker_assignment stale_seconds now later worker_id desired_queues file).1
        s
unfolding set_remote_worker_assignment
assignment-Accepts stale_seconds now later worker_id desired_queues file w h =
    let id = strip worker_id in
    let l : load_remote_worker_state file ≡ ok (workers_of file) = load_ok file w in
    let (r, written, kept, answer) =
      save_and_report-ok stale_seconds later id file _
        (assignment_record-IsWellFormed now worker_id id desired_queues file w) (rw l at h) in
    let (old, desired, found, n, a) =
      found_record-IsAssigned now worker_id desired_queues (stored id file)
        (λ old e. AllValues-lookup IsWellFormed id (workers_of file) (w.1) e) written in
    rw l (old, r, desired, found, n, kept, answer, a)
