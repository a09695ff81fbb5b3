-- ===== src/Reconcile/Run/Legacy.antt =====
-- The legacy queue `vpn` in `ReconcileVpnTenantQueues.run`, jobs/vpn_queue_reconciliation.py: it is
-- managed where it is there, and no step before makes it.
use nautobot_docker_compose.Reconcile.Names.{
  vpn_generic_queue, central_writer_queue, remote_worker_generic_queue, vpn_queue_prefix,
  remote_worker_queue_prefix, named_or_id, remote_worker_queue_name, tenant_queue_name, Tenant,
  vpn_legacy_queue,
}
use nautobot_docker_compose.Base.{
  list_beq, ◌∙◌, ◌≡◌, refl, inl, inr, Bool, true, false, ◌&&◌, ◌||◌, Option, none, some, List, [],
  ◌∷◌, ◌==◌, nat_eq, list_eq, contains, arith, list_beq_iff, ap, Bool-cases, contains-append,
}
use nautobot_docker_compose.Reconcile.Run.Targets.{named_or_id-starts, real}
use nautobot_docker_compose.Base.Text.{starts_with, Text}
use nautobot_docker_compose.Reconcile.Database.{JobQueue, Job, Database, find_queue}
use nautobot_docker_compose.Reconcile.Steps.{queue_names, ensure_queue}
use nautobot_docker_compose.Reconcile.Steps.Existing.{
  has, has-ensure_queue, queues-ensure_assignments,
}
use nautobot_docker_compose.Reconcile.Run.{
  Options, Progress, ensure, ensure_if, ensure_tenant, ensure_tenants, ensure_vpn, ensure_central,
  with_legacy,
}

-- `first()` finds a row when there is one.
pub with_legacy-managed :
    (queues : List JobQueue) (p : Progress) (queue : Text)
    → contains (with_legacy (find_queue vpn_legacy_queue queues) p).managed_queues queue ≡ (
        contains p.managed_queues queue
        || (contains (queue_names queues) vpn_legacy_queue && vpn_legacy_queue == queue))
unfolding with_legacy find_queue queue_names contains
with_legacy-managed [] p queue = ground arith
with_legacy-managed (q ∷ queues) p queue = elim (Bool-cases (q.name == vpn_legacy_queue)) [
  | inl e ↦ rw e (
      contains-append p.managed_queues (vpn_legacy_queue ∷ []) queue
      ∙ (unfold contains in ground arith))
  | inr e ↦ rw e (with_legacy-managed queues p queue)
]

pub with_legacy-jobs : (q : Option JobQueue) (p : Progress) → (with_legacy q p).jobs ≡ p.jobs
unfolding with_legacy
with_legacy-jobs none p = refl
with_legacy-jobs (some q) p = refl

-- The legacy queue is there.
abbrev pub has_legacy : Database → Bool
has_legacy db = has vpn_legacy_queue db

module _ (name : Text) (tenant : Option Tenant) (description : Text) (p : Progress)
    (other : (name == vpn_legacy_queue) ≡ false) where
  legacy-ensure : has_legacy (ensure false name tenant description p).db ≡ has_legacy p.db
  unfolding ensure
  legacy-ensure =
      ap (λ (queues : List JobQueue). contains (queue_names queues) vpn_legacy_queue)
        (queues-ensure_assignments vpn_legacy_queue
          (ensure_queue false name tenant description p.db).0 p.jobs
          (ensure_queue false name tenant description p.db).2)
      ∙ has-ensure_queue vpn_legacy_queue name tenant description p.db other

  legacy-ensure_if :
      (wanted : Bool)
      → has_legacy (ensure_if wanted false name tenant description p).db ≡ has_legacy p.db
  unfolding ensure_if
  legacy-ensure_if true = legacy-ensure
  legacy-ensure_if false = refl

-- No tenant's queue has the legacy name, which has no dash.
named_or_id-not_legacy :
    (prefix : Text) (tenant : Tenant) (slug : Text)
    → starts_with vpn_legacy_queue prefix ≡ false
    → (named_or_id prefix tenant slug == vpn_legacy_queue) ≡ false
named_or_id-not_legacy prefix tenant slug h = ground (
  arith,
  named_or_id-starts prefix tenant slug,
  list_beq_iff (named_or_id prefix tenant slug) vpn_legacy_queue,
)

module _ (lower : Text → Text) (o : Options) where
  legacy-tenants :
      (tenants : List Tenant) (p : Progress)
      → has_legacy (ensure_tenants lower (real o) tenants p).db ≡ has_legacy p.db
  unfolding ensure_tenants ensure_tenant tenant_queue_name remote_worker_queue_name starts_with
  legacy-tenants [] p = refl
  legacy-tenants (tenant ∷ tenants) p =
      legacy-tenants tenants (ensure_tenant lower (real o) tenant p)
      ∙ legacy-ensure_if _ _ _ _ (named_or_id-not_legacy remote_worker_queue_prefix tenant _ refl) _
      ∙ legacy-ensure _ _ _ p (named_or_id-not_legacy vpn_queue_prefix tenant _ refl)

  pub legacy-vpn :
      (tenants : List Tenant) (p : Progress)
      → has_legacy (ensure_vpn lower (real o) tenants p).db ≡ has_legacy p.db
  unfolding ensure_vpn list_beq
  legacy-vpn tenants p =
      legacy-ensure_if remote_worker_generic_queue _ _ _ refl _
      ∙ legacy-ensure_if vpn_generic_queue _ _ _ refl _
      ∙ legacy-tenants tenants p

  pub legacy-central :
      (central : List Job) (db : Database)
      → has_legacy (ensure_central lower (real o) central db).db ≡ has_legacy db
  unfolding ensure_central list_beq
  legacy-central central db = legacy-ensure_if central_writer_queue _ _ _ refl _
