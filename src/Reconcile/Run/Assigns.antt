-- ===== src/Reconcile/Run/Assigns.antt =====
-- How the queues that a run of `ReconcileVpnTenantQueues.run`, jobs/vpn_queue_reconciliation.py,
-- means, manages and cleans up relate, and what its first half leaves of the other assignments.
use nautobot_docker_compose.Reconcile.Run.Targets.{
  managed-ensure_if, job_names-ensure_if, tenant_queue_name-managed,
  remote_worker_queue_name-managed, is_assigned-ensure_if, real, is_target, named_or_id-starts,
  remote_names,
}
use nautobot_docker_compose.Reconcile.Names.{
  central_writer_queue, remote_worker_generic_queue, vpn_generic_queue, vpn_legacy_queue,
  is_shms_managed_queue_name, tenant_queue_slug, remote_worker_queue_prefix, vpn_queue_prefix,
  tenant_queue_name, remote_worker_queue_name, Tenant,
}
use nautobot_docker_compose.Reconcile.Run.Ensure.{is_assigned-ensure}
use nautobot_docker_compose.Reconcile.Database.{Database, is_assigned, Job}
use nautobot_docker_compose.Base.{
  keep, ◌==◌, nat_eq, list_eq, nat_beq_iff, ◌≡◌, refl, true, false, List, [], ◌∷◌, contains, arith,
  list_beq_iff,
}
use nautobot_docker_compose.Reconcile.Run.{
  Progress, ensure_tenant, Job, ensure_central, named, ensure_tenants, ensure_vpn, Options,
  expected_names,
}
use nautobot_docker_compose.Reconcile.Steps.Effects.{job_names}
use nautobot_docker_compose.Reconcile.Steps.{is_stale_queue}
use nautobot_docker_compose.Base.Text.{or_text, starts_with, Text}

-- A name has one of the two prefixes.
vpn-not_remote :
    (queue : Text)
    → starts_with queue vpn_queue_prefix ≡ true
    → starts_with queue remote_worker_queue_prefix ≡ false
unfolding starts_with
vpn-not_remote [] h = ground arith
vpn-not_remote (c ∷ queue) h = ground (arith, nat_beq_iff b'v' c, nat_beq_iff b'r' c)

remote_generic-not_vpn :
    (queue : Text)
    → (remote_worker_generic_queue == queue) ≡ true
    → starts_with queue vpn_queue_prefix ≡ false
unfolding starts_with
remote_generic-not_vpn queue h =
    let e = (list_beq_iff remote_worker_generic_queue queue).0 h in rw (← e) refl

module _ (lower : Text → Text) where
  remote_names-prefix :
      (tenants : List Tenant) (queue : Text)
      → contains (remote_names lower tenants) queue ≡ true
      → starts_with queue remote_worker_queue_prefix ≡ true
  unfolding remote_names contains remote_worker_queue_name
  remote_names-prefix [] queue h = ground arith
  remote_names-prefix (tenant ∷ tenants) queue h = ground (
    arith,
    remote_names-prefix tenants queue,
    list_beq_iff (remote_worker_queue_name lower tenant) queue,
    named_or_id-starts remote_worker_queue_prefix tenant
        (tenant_queue_slug lower (or_text tenant.slug tenant.name)),
  )

  expected_names-prefix :
      (tenants : List Tenant) (queue : Text)
      → contains (expected_names lower tenants) queue ≡ true
      → starts_with queue vpn_queue_prefix ≡ true
  unfolding expected_names contains tenant_queue_name
  expected_names-prefix [] queue h = ground arith
  expected_names-prefix (tenant ∷ tenants) queue h = ground (
    arith,
    expected_names-prefix tenants queue,
    list_beq_iff (tenant_queue_name lower tenant) queue,
    named_or_id-starts vpn_queue_prefix tenant (tenant_queue_slug lower tenant.name),
  )

  -- What has no managed name is no target, and a stale queue is one that the run leaves out.
  pub target-managed :
      (o : Options) (tenants : List Tenant) (queue : Text)
      → is_shms_managed_queue_name queue ≡ false
      → is_target lower o tenants queue ≡ false
  unfolding is_target is_shms_managed_queue_name contains
  target-managed o tenants queue h =
      ground (arith, expected_names-prefix tenants queue, remote_names-prefix tenants queue)

  pub stale-managed :
      (tenants : List Tenant) (queue : Text)
      → is_stale_queue (expected_names lower tenants) queue ≡ true
      → is_shms_managed_queue_name queue ≡ true
  unfolding is_stale_queue is_shms_managed_queue_name
  stale-managed tenants queue h = ground arith

  pub stale-target :
      (o : Options) (tenants : List Tenant) (queue : Text)
      → is_stale_queue (expected_names lower tenants) queue ≡ true
      → is_target lower o tenants queue ≡ false
  unfolding is_stale_queue is_target
  stale-target o tenants queue h = ground (
    arith,
    remote_names-prefix tenants queue,
    vpn-not_remote queue,
    list_beq_iff vpn_generic_queue queue,
    list_beq_iff queue vpn_generic_queue,
    remote_generic-not_vpn queue,
  )

  pub stale-legacy :
      (tenants : List Tenant) (queue : Text)
      → is_stale_queue (expected_names lower tenants) queue ≡ true
      → (vpn_legacy_queue == queue) ≡ false
  unfolding is_stale_queue starts_with
  stale-legacy tenants queue h = ground (arith, list_beq_iff vpn_legacy_queue queue)

-- The names of some of the jobs.
pub contains-named :
    (names : List Text) (jobs : List Job) (job : Text)
    → contains names job ≡ false
    → contains (job_names (named names jobs)) job ≡ false
unfolding named job_names contains keep
contains-named names [] job h = refl
contains-named names (object ∷ jobs) job h =
    ground (arith, contains-named names jobs job h, list_beq_iff object.name job)

module _ (lower : Text → Text) (o : Options) where
  is_assigned-tenants :
      (tenants : List Tenant) (p : Progress) (job queue : Text)
      → is_shms_managed_queue_name queue ≡ false
      → is_assigned job queue (ensure_tenants lower (real o) tenants p).db.assignments
        ≡ is_assigned job queue p.db.assignments
  unfolding ensure_tenants ensure_tenant
  is_assigned-tenants [] p job queue h = refl
  is_assigned-tenants (tenant ∷ tenants) p job queue h =
      rw
        (
          is_assigned-tenants tenants (ensure_tenant lower (real o) tenant p) job queue h,
          is_assigned-ensure_if _ _ _ _ _ job queue,
          is_assigned-ensure _ _ _ p job queue,
        )
        (ground (
          arith,
          remote_worker_queue_name-managed lower tenant,
          tenant_queue_name-managed lower tenant,
          list_beq_iff (tenant_queue_name lower tenant) queue,
          list_beq_iff (remote_worker_queue_name lower tenant) queue,
        ))

  -- What is ensured for the VPN jobs leaves the queues of other names.
  pub is_assigned-vpn :
      (tenants : List Tenant) (p : Progress) (job queue : Text)
      → is_shms_managed_queue_name queue ≡ false
      → is_assigned job queue (ensure_vpn lower (real o) tenants p).db.assignments
        ≡ is_assigned job queue p.db.assignments
  unfolding ensure_vpn is_shms_managed_queue_name contains
  is_assigned-vpn tenants p job queue h =
      rw
        (
          is_assigned-ensure_if _ _ _ _ _ job queue,
          is_assigned-ensure_if _ _ _ _ _ job queue,
          is_assigned-tenants tenants p job queue h,
        )
        (ground (
          arith,
          list_beq_iff vpn_generic_queue queue,
          list_beq_iff remote_worker_generic_queue queue,
        ))

  pub is_assigned-central :
      (central : List Job) (db : Database) (job queue : Text)
      → is_shms_managed_queue_name queue ≡ false
      → is_assigned job queue (ensure_central lower (real o) central db).db.assignments
        ≡ is_assigned job queue db.assignments
  unfolding ensure_central is_shms_managed_queue_name contains
  is_assigned-central central db job queue h =
      rw (is_assigned-ensure_if _ _ _ _ _ job queue)
        (ground (arith, list_beq_iff central_writer_queue queue))

  pub job_names-central :
      (central : List Job) (db : Database)
      → job_names (ensure_central lower (real o) central db).jobs ≡ job_names central
  unfolding ensure_central
  job_names-central central db = job_names-ensure_if _ _ _ _ _

  -- The central writers' queue is the only one that is managed for them.
  pub managed-central :
      (central : List Job) (db : Database) (queue : Text)
      → is_shms_managed_queue_name queue ≡ false
      → contains (ensure_central lower (real o) central db).managed_queues queue ≡ false
  unfolding ensure_central is_shms_managed_queue_name contains
  managed-central central db queue h =
      rw (managed-ensure_if _ _ _ _ _ queue)
        (ground (arith, list_beq_iff central_writer_queue queue))

-- The legacy queue has a managed name.
pub legacy-managed :
    (queue : Text) → is_shms_managed_queue_name queue ≡ false → (vpn_legacy_queue == queue) ≡ false
unfolding is_shms_managed_queue_name contains
legacy-managed queue h = ground arith
