-- ===== src/Reconcile/Tests.antt =====
-- A run on a small database, and the theorems at concrete inputs. `lower` is the identity on them.
use nautobot_docker_compose.Base.{
  take, list_beq, all, any, keep, ◌≡◌, refl, true, false, ◌||◌, ◌&&◌, not, none, some, [], ◌∷◌,
  ◌==◌, nat_eq, list_eq, contains,
}
use nautobot_docker_compose.Reconcile.Run.{get_central_writer_jobs, Options, run, vpn_jobs}
use nautobot_docker_compose.Reconcile.Steps.{
  cleanup_stale_queues, persist_job_queue_override, ensure_assignments, ensure_queue, queue_names,
}
use nautobot_docker_compose.Reconcile.Database.{
  without_assignments, without_queue, set_queues, save_job, save_queue, find_queue, queues_of_job,
  JobQueue, Job, Database, is_assigned,
}
use nautobot_docker_compose.Base.Dict.{lookup, insert, keys}
use nautobot_docker_compose.Base.Text.{starts_with, is_slug_char, strip, strip_by, Text, codes}
use nautobot_docker_compose.Base.Sort.{sort_by}
use nautobot_docker_compose.Workers.Errors.{ok}
use nautobot_docker_compose.Workers.Queues.{queue_name_of}
use nautobot_docker_compose.Reconcile.Names.{
  Tenant, tenant_queue_name, remote_worker_queue_name, is_shms_managed_queue_name, vpn_legacy_queue,
}
use nautobot_docker_compose.Reconcile.Names.Accepted.{remote_name-accepted, vpn_name-alias}
use nautobot_docker_compose.Reconcile.Steps.Effects.{job_names}
use nautobot_docker_compose.Reconcile.Run.Keeps.{run-dry, dry}
use nautobot_docker_compose.Reconcile.Run.Targets.{real, is_target}
use nautobot_docker_compose.Reconcile.Run.Legacy.{has_legacy}
use nautobot_docker_compose.Reconcile.Run.Outcome.{run-vpn_job, run-unmanaged}

abbrev acme : Tenant
acme = record {
  id = codes "0a1b2c3d-0000-4000-8000-000000000000";
  name = codes "acme sa";
  slug = [];
}

abbrev lan_mapper : Job
lan_mapper = record { name = codes "LAN Mapper"; enabled = false; job_queues_override = false }

abbrev apply_job : Job
apply_job = record {
  name = codes "Apply Stage 4 Network Data Artifact";
  enabled = true;
  job_queues_override = false;
}

abbrev celery_queue : Text → JobQueue
celery_queue name = record {
  name = name;
  description = [];
  queue_type = codes "celery";
  tenant_id = none;
}

abbrev old_db : Database
old_db = record {
  queues = celery_queue (codes "default") ∷ celery_queue (codes "vpn-old") ∷ [];
  jobs = lan_mapper ∷ apply_job ∷ [];
  assignments =
      (lan_mapper.name, codes "default")
      ∷ (lan_mapper.name, codes "vpn-old")
      ∷ (apply_job.name, codes "default")
      ∷ [];
}

abbrev all_options : Options
all_options = record {
  include_generic_queue = true;
  include_remote_worker_queues = true;
  include_central_writer_queue = true;
  cleanup_unselected_tenant_queues = false;
  dry_run = true;
}

abbrev same : Text → Text
same s = s

-- What the tests compute.
reconcile_runs : tenant_queue_name same acme ≡ codes "vpn-acme-sa"
unfolding tenant_queue_name remote_worker_queue_name strip_by strip is_slug_char vpn_jobs job_names
    contains sort_by keys keep any all queues_of_job list_beq queue_names starts_with insert lookup
    run is_assigned is_shms_managed_queue_name find_queue save_queue save_job set_queues
    without_queue without_assignments ensure_queue ensure_assignments persist_job_queue_override
    cleanup_stale_queues get_central_writer_jobs is_target take
reconcile_runs = refl

remote_queue : remote_worker_queue_name same acme ≡ codes "remote-worker-acme-sa"
unfolding reconcile_runs
remote_queue = refl

is_vpn_job : contains (job_names (vpn_jobs old_db)) lan_mapper.name ≡ true
unfolding reconcile_runs
is_vpn_job = refl

after_run : (run same (real all_options) (acme ∷ []) old_db).assignments ≡ (
    (lan_mapper.name, codes "default")
    ∷ (apply_job.name, codes "default")
    ∷ (lan_mapper.name, codes "vpn-acme-sa")
    ∷ (lan_mapper.name, codes "remote-worker-acme-sa")
    ∷ (lan_mapper.name, codes "vpn-generic")
    ∷ (lan_mapper.name, codes "remote-worker-generic")
    ∷ (apply_job.name, codes "central-writer")
    ∷ [])
unfolding reconcile_runs
after_run = refl

remote_name-accepted_example :
    queue_name_of true (remote_worker_queue_name same acme)
    ≡ ok (some (remote_worker_queue_name same acme))
unfolding reconcile_runs
remote_name-accepted_example = remote_name-accepted same acme (refl, refl)

vpn_name-alias_example :
    queue_name_of true (tenant_queue_name same acme)
    ≡ ok (some (remote_worker_queue_name same acme))
unfolding reconcile_runs
vpn_name-alias_example = vpn_name-alias same acme (refl, refl) refl

run-dry_example : run same (dry all_options) (acme ∷ []) old_db ≡ old_db
run-dry_example = run-dry same all_options (acme ∷ []) old_db

run-vpn_job_example :
    is_assigned lan_mapper.name
      (codes "vpn-old")
      (run same (real all_options) (acme ∷ []) old_db).assignments
    ≡ ((is_assigned lan_mapper.name (codes "vpn-old") old_db.assignments
          && not (is_shms_managed_queue_name (codes "vpn-old")))
        || is_target same all_options (acme ∷ []) (codes "vpn-old")
        || (has_legacy old_db && vpn_legacy_queue == codes "vpn-old"))
unfolding reconcile_runs
run-vpn_job_example =
    run-vpn_job same all_options (acme ∷ []) old_db lan_mapper.name (codes "vpn-old") is_vpn_job
      refl

run-unmanaged_example :
    is_assigned apply_job.name
      (codes "default")
      (run same (real all_options) (acme ∷ []) old_db).assignments
    ≡ is_assigned apply_job.name (codes "default") old_db.assignments
unfolding reconcile_runs
run-unmanaged_example =
    run-unmanaged same all_options (acme ∷ []) old_db apply_job.name (codes "default") refl
