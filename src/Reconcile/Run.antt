-- ===== src/Reconcile/Run.antt =====
-- `ReconcileVpnTenantQueues.run` of jobs/vpn_queue_reconciliation.py. The job objects that the run
-- holds are values: those of `jobs` and of `central_writer_jobs` are fetched by separate queries,
-- so an object of one is never an object of the other.
pub mod Ensure
pub mod Keeps
pub mod Targets
pub mod Legacy
pub mod Assigns
pub mod Outcome
use nautobot_docker_compose.Base.{
  Bool, true, false, not, ◌&&◌, ◌||◌, Option, none, some, List, [], ◌∷◌, ◌++◌, ◌==◌, nat_eq,
  list_eq, if◌then◌else◌, contains, any, keep,
}
use nautobot_docker_compose.Base.Text.{Text, codes, starts_with}
use nautobot_docker_compose.Base.Dict.{Dict, lookup, insert, keys}
use nautobot_docker_compose.Base.Sort.{sort_by, text_le}
use nautobot_docker_compose.Reconcile.Names.{
  Tenant, vpn_queue_prefix, vpn_legacy_queue, vpn_generic_queue, remote_worker_queue_prefix,
  remote_worker_generic_queue, central_writer_queue, tenant_queue_name, remote_worker_queue_name,
}
use nautobot_docker_compose.Reconcile.Database.{
  JobQueue, Job, Database, find_queue, is_assigned, queues_of_job,
}
use nautobot_docker_compose.Reconcile.Steps.{
  vpn_control_job_names, vpn_bound_job_names, central_writer_job_names, ensure_queue,
  ensure_assignments, persist_job_queue_override, cleanup_stale_queues, queue_names,
}

-- `jobs_by_name[job.name] = job` for each job
by_name : List Job → Dict Job → Dict Job
by_name [] d = d
by_name (job ∷ jobs) d = by_name jobs (insert job.name job d)

-- `[jobs_by_name[name] for name in sorted(jobs_by_name)]`
found : List Text → Dict Job → List Job
found [] d = []
found (name ∷ names) d = elim (lookup name d) [
  | none ↦ found names d
  | some job ↦ job ∷ found names d
]

in_name_order : Dict Job → List Job
in_name_order d = found (sort_by text_le (keys d)) d

pub named : List Text → List Job → List Job
named names = keep (λ job. contains names job.name)

-- Jobs on one of the queues, without the control-plane jobs.
on_queues : List Text → Database → List Job
on_queues queues db =
    keep
      (λ job.
        any (contains queues) (queues_of_job job.name db.assignments)
        && not (contains vpn_control_job_names job.name))
      db.jobs

-- `_get_vpn_jobs`
get_vpn_jobs : Database → List Job
get_vpn_jobs db = in_name_order (
    by_name (on_queues (vpn_legacy_queue ∷ []) db) (by_name (named vpn_bound_job_names db.jobs) []))

-- `_current_managed_vpn_jobs`
current_managed_vpn_jobs : Database → List Job
current_managed_vpn_jobs db =
    on_queues
      ((vpn_legacy_queue ∷ vpn_generic_queue ∷ remote_worker_generic_queue ∷ [])
        ++ (keep (λ name. starts_with name vpn_queue_prefix) (queue_names db.queues)
            ++ keep (λ name. starts_with name remote_worker_queue_prefix) (queue_names db.queues)))
      db

unfoldable pub vpn_jobs : Database → List Job
unfolding by_name found in_name_order named on_queues get_vpn_jobs current_managed_vpn_jobs
vpn_jobs db = in_name_order (by_name (current_managed_vpn_jobs db) (by_name (get_vpn_jobs db) []))

-- `_get_central_writer_jobs`
unfoldable pub get_central_writer_jobs : Database → List Job
unfolding named
get_central_writer_jobs db = named central_writer_job_names db.jobs

pub record Options : Type 0 where
  pub include_generic_queue : Bool
  pub include_remote_worker_queues : Bool
  pub include_central_writer_queue : Bool
  pub cleanup_unselected_tenant_queues : Bool
  pub dry_run : Bool

-- What the run carries from step to step.
pub record Progress : Type 0 where
  pub jobs : List Job
  pub managed_queues : List Text
  pub db : Database

managed_with : List Text → Option Text → List Text
managed_with managed none = managed
managed_with managed (some name) = managed ++ (name ∷ [])

-- `_ensure_queue`, `managed_queues.append` and `_ensure_assignments` for one queue.
unfoldable pub ensure : Bool → Text → Option Tenant → Text → Progress → Progress
unfolding managed_with
ensure dry name tenant description p =
    let (queue, _, db) = ensure_queue dry name tenant description p.db in
    let (jobs, db') = ensure_assignments dry queue p.jobs db in
    record { jobs = jobs; managed_queues = managed_with p.managed_queues queue; db = db' }

unfoldable pub ensure_if : Bool → Bool → Text → Option Tenant → Text → Progress → Progress
ensure_if wanted dry name tenant description p =
    if wanted then ensure dry name tenant description p else p

unfoldable pub with_legacy : Option JobQueue → Progress → Progress
with_legacy none p = p
with_legacy (some queue) p = record p {
  managed_queues = p.managed_queues ++ (vpn_legacy_queue ∷ []);
}

module _ (lower : Text → Text) where
  ensure_tenant : Options → Tenant → Progress → Progress
  ensure_tenant o tenant p =
      ensure_if o.include_remote_worker_queues o.dry_run (remote_worker_queue_name lower tenant)
        (some tenant) (codes "Tenant-scoped remote worker collector queue for " ++ tenant.name)
        (ensure o.dry_run (tenant_queue_name lower tenant) (some tenant) [] p)

  ensure_tenants : Options → List Tenant → Progress → Progress
  ensure_tenants o [] p = p
  ensure_tenants o (tenant ∷ tenants) p = ensure_tenants o tenants (ensure_tenant o tenant p)

  unfoldable pub expected_names : List Tenant → List Text
  expected_names [] = []
  expected_names (tenant ∷ tenants) = tenant_queue_name lower tenant ∷ expected_names tenants

  -- The queues and assignments of the VPN jobs.
  pub ensure_vpn : Options → List Tenant → Progress → Progress
  ensure_vpn o tenants p =
      ensure_if (o.include_remote_worker_queues && o.include_generic_queue) o.dry_run
        remote_worker_generic_queue none (codes "Generic remote worker collector queue")
        (ensure_if o.include_generic_queue o.dry_run vpn_generic_queue none []
          (ensure_tenants o tenants p))

  -- The central writers and their queue, from the database that the VPN jobs leave.
  pub ensure_central : Options → List Job → Database → Progress
  ensure_central o central db =
      ensure_if o.include_central_writer_queue o.dry_run central_writer_queue none
        (codes "Shared central writer queue for local Nautobot ORM apply jobs")
        (record { jobs = central; managed_queues = []; db = db })

  unfoldable pub finish : Options → List Text → Progress → Progress → Database
  finish o expected vpn central =
      let db = persist_job_queue_override o.dry_run vpn.jobs vpn.managed_queues central.db in
      let db' = persist_job_queue_override o.dry_run central.jobs central.managed_queues db in
      if o.cleanup_unselected_tenant_queues
      then cleanup_stale_queues o.dry_run expected db'
      else db'

  unfoldable pub vpn_progress : Options → List Tenant → Database → Progress
  vpn_progress o tenants db =
      ensure_vpn o tenants (record { jobs = vpn_jobs db; managed_queues = []; db = db })

  unfoldable pub central_progress : Options → List Tenant → Database → Progress
  central_progress o tenants db =
      ensure_central o (get_central_writer_jobs db) (vpn_progress o tenants db).db

  -- `tenants` are the target tenants: those selected, or all. With no central-writer job the second
  -- override is over no job.
  unfoldable pub run : Options → List Tenant → Database → Database
  unfolding ensure ensure_if with_legacy ensure_tenant ensure_tenants ensure_vpn ensure_central
      finish expected_names vpn_progress central_progress
  run o tenants db =
      let vpn = vpn_progress o tenants db in
      let central = central_progress o tenants db in
      finish o (expected_names tenants)
        (with_legacy (find_queue vpn_legacy_queue central.db.queues) vpn) central
