-- ===== src/Reconcile/Run/Targets.antt =====
-- The queues that a run of `ReconcileVpnTenantQueues.run`, jobs/vpn_queue_reconciliation.py, means
-- a VPN job to have, and the queues that it manages.
use nautobot_docker_compose.Base.Text.{or_text, starts_with, Text}
use nautobot_docker_compose.Reconcile.Names.{
  tenant_queue_slug, Tenant, named_or_id, tenant_queue_name, remote_worker_queue_name,
  is_shms_managed_queue_name, vpn_generic_queue, remote_worker_generic_queue, vpn_queue_prefix,
  remote_worker_queue_prefix,
}
use nautobot_docker_compose.Base.{
  ◌∙◌, ◌≡◌, refl, Bool, true, false, ◌&&◌, ◌||◌, Option, List, [], ◌∷◌, ◌==◌, nat_eq, list_eq,
  contains, arith,
}
use nautobot_docker_compose.Base.Text.Laws.{starts_with-append}
use nautobot_docker_compose.Reconcile.Database.{is_assigned}
use nautobot_docker_compose.Reconcile.Steps.Effects.{job_names}
use nautobot_docker_compose.Reconcile.Run.{
  Options, Progress, ensure_if, ensure_tenant, ensure_tenants, ensure_vpn, expected_names,
}
use nautobot_docker_compose.Reconcile.Run.Ensure.{
  is_assigned-ensure, managed-ensure, job_names-ensure,
}

-- The options of a real run.
abbrev pub real : Options → Options
real o = record o { dry_run = false }

pub named_or_id-starts :
    (prefix : Text) (tenant : Tenant) (slug : Text)
    → starts_with (named_or_id prefix tenant slug) prefix ≡ true
unfolding named_or_id
named_or_id-starts prefix tenant [] = starts_with-append prefix _
named_or_id-starts prefix tenant (c ∷ slug) = starts_with-append prefix (c ∷ slug)

module _ (name : Text) (tenant : Option Tenant) (description : Text) (p : Progress) where
  pub is_assigned-ensure_if :
      (wanted : Bool) (job queue : Text)
      → is_assigned job queue (ensure_if wanted false name tenant description p).db.assignments ≡ (
          is_assigned job queue p.db.assignments
          || (wanted && contains (job_names p.jobs) job && name == queue))
  unfolding ensure_if
  is_assigned-ensure_if true job queue = is_assigned-ensure name tenant description p job queue
  is_assigned-ensure_if false job queue = ground arith

  pub managed-ensure_if :
      (wanted : Bool) (queue : Text)
      → contains (ensure_if wanted false name tenant description p).managed_queues queue
        ≡ (contains p.managed_queues queue || (wanted && name == queue))
  unfolding ensure_if
  managed-ensure_if true queue = managed-ensure name tenant description p queue
  managed-ensure_if false queue = ground arith

  pub job_names-ensure_if :
      (wanted : Bool)
      → job_names (ensure_if wanted false name tenant description p).jobs ≡ job_names p.jobs
  unfolding ensure_if
  job_names-ensure_if true = job_names-ensure name tenant description p false
  job_names-ensure_if false = refl

module _ (lower : Text → Text) where
  pub tenant_queue_name-managed :
      (tenant : Tenant) → is_shms_managed_queue_name (tenant_queue_name lower tenant) ≡ true
  unfolding is_shms_managed_queue_name tenant_queue_name
  tenant_queue_name-managed tenant =
      ground
        (arith, named_or_id-starts vpn_queue_prefix tenant (tenant_queue_slug lower tenant.name))

  pub remote_worker_queue_name-managed :
      (tenant : Tenant) → is_shms_managed_queue_name (remote_worker_queue_name lower tenant) ≡ true
  unfolding is_shms_managed_queue_name remote_worker_queue_name
  remote_worker_queue_name-managed tenant = ground (
    arith,
    named_or_id-starts remote_worker_queue_prefix tenant
        (tenant_queue_slug lower (or_text tenant.slug tenant.name)),
  )

  unfoldable pub remote_names : List Tenant → List Text
  remote_names [] = []
  remote_names (tenant ∷ tenants) = remote_worker_queue_name lower tenant ∷ remote_names tenants

  -- The queues of the tenants, and the generic ones that the options ask for.
  unfoldable pub is_target : Options → List Tenant → Text → Bool
  is_target o tenants queue =
      contains (expected_names lower tenants) queue
      || (o.include_remote_worker_queues && contains (remote_names tenants) queue)
      || (o.include_generic_queue && vpn_generic_queue == queue)
      || (o.include_remote_worker_queues
          && o.include_generic_queue
          && remote_worker_generic_queue == queue)

  module _ (o : Options) where
    -- The tenants' part of the targets.
    abbrev of_tenants : List Tenant → Text → Bool
    of_tenants tenants queue =
        contains (expected_names lower tenants) queue
        || (o.include_remote_worker_queues && contains (remote_names tenants) queue)

    managed-tenant :
        (tenant : Tenant) (p : Progress) (queue : Text)
        → contains (ensure_tenant lower (real o) tenant p).managed_queues queue ≡ (
            contains p.managed_queues queue
            || tenant_queue_name lower tenant == queue
            || (o.include_remote_worker_queues && remote_worker_queue_name lower tenant == queue))
    unfolding ensure_tenant
    managed-tenant tenant p queue =
        rw (managed-ensure_if _ _ _ _ _ queue, managed-ensure _ _ _ p queue) (ground arith)

    managed-tenants :
        (tenants : List Tenant) (p : Progress) (queue : Text)
        → contains (ensure_tenants lower (real o) tenants p).managed_queues queue
          ≡ (contains p.managed_queues queue || of_tenants tenants queue)
    unfolding ensure_tenants expected_names remote_names contains
    managed-tenants [] p queue = ground arith
    managed-tenants (tenant ∷ tenants) p queue =
        rw
          (
            managed-tenants tenants (ensure_tenant lower (real o) tenant p) queue,
            managed-tenant tenant p queue,
          )
          (ground arith)

    -- What a real run ensures for the VPN jobs is what is meant.
    pub managed-vpn :
        (tenants : List Tenant) (p : Progress) (queue : Text)
        → contains (ensure_vpn lower (real o) tenants p).managed_queues queue
          ≡ (contains p.managed_queues queue || is_target o tenants queue)
    unfolding ensure_vpn is_target
    managed-vpn tenants p queue =
        rw
          (
            managed-ensure_if _ _ _ _ _ queue,
            managed-ensure_if _ _ _ _ _ queue,
            managed-tenants tenants p queue,
          )
          (ground arith)

    job_names-tenants :
        (tenants : List Tenant) (p : Progress)
        → job_names (ensure_tenants lower (real o) tenants p).jobs ≡ job_names p.jobs
    unfolding ensure_tenants ensure_tenant
    job_names-tenants [] p = refl
    job_names-tenants (tenant ∷ tenants) p =
        job_names-tenants tenants (ensure_tenant lower (real o) tenant p)
        ∙ job_names-ensure_if _ _ _ _ _
        ∙ job_names-ensure _ _ _ p false

    pub job_names-vpn :
        (tenants : List Tenant) (p : Progress)
        → job_names (ensure_vpn lower (real o) tenants p).jobs ≡ job_names p.jobs
    unfolding ensure_vpn
    job_names-vpn tenants p =
        job_names-ensure_if _ _ _ _ _ ∙ job_names-ensure_if _ _ _ _ _ ∙ job_names-tenants tenants p
