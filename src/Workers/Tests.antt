-- ===== src/Workers/Tests.antt =====
-- Tests of the registry, and the theorems at concrete inputs.
use nautobot_docker_compose.Workers.Errors.{
  internal_error, ok, err, invalid_queue_name, not_advertised, ◌>>=◌,
}
use nautobot_docker_compose.Workers.Registry.{
  not_an_object, save_remote_worker_state, build_remote_worker_status, StateFile, missing,
  RemoteWorkerStatus, HeartbeatRequest, upsert_remote_worker, set_remote_worker_assignment,
  load_remote_worker_state, pending_restart, list_remote_workers,
}
use nautobot_docker_compose.Base.Sort.{text_le, insert_sorted, sort_by}
use nautobot_docker_compose.Base.Dict.Sorted.{sort_keys}
use nautobot_docker_compose.Base.{
  arith, ◌≡◌, refl, true, false, none, some, List, [], ◌∷◌, nat_eq, list_eq, list_beq, contains,
  all, any,
}
use nautobot_docker_compose.Workers.Endpoints.Restart.{restart_completes, IsSettled}
use nautobot_docker_compose.Workers.Registry.Assignment.{assignment-Accepts, Accepts, stored}
use nautobot_docker_compose.Base.Text.{Text, codes, strip, strip_prefix?}
use nautobot_docker_compose.Base.Dict.{lookup, insert}
use nautobot_docker_compose.Base.Dedupe.{firsts}
use nautobot_docker_compose.Workers.Queues.{
  normalize_remote_queue_names, is_tenant_queue_slug, tenant_slug_from_queue_name,
  remote_worker_queue_name,
}
use nautobot_docker_compose.Workers.Queues.Normal.{
  IsNormal, queue_names, normalize-firsts, normalize_idem,
}
use nautobot_docker_compose.Workers.Registry.Invariant.{IsConsistent}
use nautobot_docker_compose.Workers.Endpoints.{
  RegisterRequest, register, assignment, Call, handle, serve,
}
use nautobot_docker_compose.Workers.Endpoints.Safety.{
  list-after_serve, handle-err_unchanged, handle-other_unchanged, serve-IsConsistent, IsListing,
}

-- What a run of the registry opens.
registry_runs : Unit {0}
unfolding normalize_remote_queue_names strip list_beq is_tenant_queue_slug
    tenant_slug_from_queue_name strip_prefix? contains remote_worker_queue_name lookup insert
    load_remote_worker_state upsert_remote_worker set_remote_worker_assignment
    build_remote_worker_status handle serve all any save_remote_worker_state sort_keys sort_by
    insert_sorted text_le
registry_runs = tt

abbrev acme : Text
acme = codes "remote-worker-acme"

abbrev raw_queues : List Text
raw_queues = codes " vpn-acme " ∷ codes "" ∷ acme ∷ codes "remote-worker-north-1" ∷ []

abbrev queues : List Text
queues = acme ∷ codes "remote-worker-north-1" ∷ []

normalize_aliases : normalize_remote_queue_names true raw_queues ≡ ok queues
unfolding registry_runs
normalize_aliases = refl

normalize_refuses :
    normalize_remote_queue_names true (codes "remote-worker-a-" ∷ [])
    ≡ err (invalid_queue_name (codes "remote-worker-a-"))
unfolding registry_runs
normalize_refuses = refl

normalize-firsts_example :
    normalize_remote_queue_names true raw_queues
    ≡ (queue_names true raw_queues >>= λ names. ok (firsts names))
normalize-firsts_example = normalize-firsts true raw_queues

normalize_idem_example :
    IsNormal true queues × (normalize_remote_queue_names true queues ≡ ok queues)
normalize_idem_example = normalize_idem true raw_queues normalize_aliases

abbrev worker : RegisterRequest
worker = record {
  worker_id = codes "w1";
  hostname = codes "host";
  software_version = none;
  platform = none;
  capabilities = [];
  advertised_queues = raw_queues;
  current_queues = [];
  status = codes "up";
}

abbrev registers : Call
registers = record { api_key = none; now = 5; later = 6; request = register worker }

abbrev registered : StateFile
registered = (handle none 180 registers missing).1

abbrev beat : HeartbeatRequest
beat = record {
  hostname = none;
  software_version = none;
  platform = none;
  capabilities = none;
  advertised_queues = none;
  current_queues = some (acme ∷ []);
  status = none;
}

-- With a file whose JSON is no object, a registration is answered by an error of the server.
broken_file : handle none 180 registers not_an_object ≡ (err internal_error, not_an_object)
unfolding registry_runs
broken_file = refl

registered-IsConsistent : IsConsistent registered
unfolding serve load_remote_worker_state
registered-IsConsistent = serve-IsConsistent none 180 (registers ∷ []) missing (tt, tt)

list-after_serve_example :
    (listed : List RemoteWorkerStatus) × (list_remote_workers
        (λ s. s)
        180
        7
        (serve none 180 (registers ∷ []) missing)
      ≡ ok listed)
    × IsListing (λ s. s) 180 7 (serve none 180 (registers ∷ []) missing) listed
list-after_serve_example = list-after_serve none 180 (λ s. s) 7 (registers ∷ [])

-- The worker does not advertise this queue.
abbrev overreaches : Call
overreaches = record {
  api_key = none;
  now = 8;
  later = 9;
  request = assignment (codes "w1") (codes "remote-worker-south" ∷ []);
}

overreaches_refused :
    (handle none 180 overreaches registered).0
    ≡ err (not_advertised (codes "w1") (codes "remote-worker-south" ∷ []) queues)
unfolding registry_runs
overreaches_refused = refl

handle-err_unchanged_example : (handle none 180 overreaches registered).1 ≡ registered
handle-err_unchanged_example =
    handle-err_unchanged none 180 overreaches registered registered-IsConsistent overreaches_refused

handle-other_unchanged_example :
    stored (codes "w2") (handle none 180 overreaches registered).1 ≡ stored (codes "w2") registered
unfolding registry_runs
handle-other_unchanged_example =
    handle-other_unchanged none 180 overreaches registered (codes "w2") refl

abbrev answer : RemoteWorkerStatus
answer = record {
  worker_id = codes "w1";
  hostname = codes "host";
  software_version = none;
  platform = none;
  capabilities = [];
  advertised_queues = queues;
  desired_queues = acme ∷ [];
  current_queues = [];
  status = codes "up";
  assignment_status = pending_restart;
  needs_restart = true;
  is_stale = false;
  heartbeat_age_seconds = some 0;
  registered_at = some 5;
  last_assignment = some 10;
  last_heartbeat = some 5;
}

assignment_accepted :
    (set_remote_worker_assignment 180 10 11 (codes "w1") (codes "vpn-acme" ∷ []) registered).0
    ≡ ok answer
unfolding registry_runs
assignment_accepted = refl

assignment-Accepts_example :
    Accepts 180 10 11
      (codes "w1")
      (codes "vpn-acme" ∷ [])
      registered
      (set_remote_worker_assignment 180 10 11 (codes "w1") (codes "vpn-acme" ∷ []) registered).1
      answer
unfolding registry_runs
assignment-Accepts_example =
    assignment-Accepts 180 10 11 (codes "w1") (codes "vpn-acme" ∷ []) registered
      registered-IsConsistent assignment_accepted

restart_completes_example :
    (t : RemoteWorkerStatus) × ((upsert_remote_worker 180 20 21
        (codes "w1")
        beat
        (set_remote_worker_assignment 180 10 11
          (codes "w1")
          (codes "vpn-acme" ∷ [])
          registered).1).0
      ≡ ok t)
    × IsSettled (acme ∷ []) t
unfolding registry_runs
restart_completes_example =
    restart_completes 180 10 11 (codes "w1") (codes "vpn-acme" ∷ []) registered 20 21 beat
      registered-IsConsistent refl assignment_accepted (refl, refl) (omega arith)
