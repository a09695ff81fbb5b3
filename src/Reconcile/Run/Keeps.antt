-- ===== src/Reconcile/Run/Keeps.antt =====
-- A dry run of `ReconcileVpnTenantQueues.run`, jobs/vpn_queue_reconciliation.py.
use nautobot_docker_compose.Reconcile.Names.{
  vpn_legacy_queue, Tenant, tenant_queue_name, remote_worker_queue_name,
}
use nautobot_docker_compose.Reconcile.Database.{find_queue, Job, Database}
use nautobot_docker_compose.Reconcile.Run.{
  with_legacy, expected_names, get_central_writer_jobs, vpn_jobs, central_progress, vpn_progress,
  Options, Progress, ensure_if, ensure_tenant, ensure_tenants, ensure_vpn, ensure_central, finish,
  run,
}
use nautobot_docker_compose.Base.{
  ◌≡◌, refl, ◌∙◌, Bool, true, false, ◌&&◌, Option, none, some, List, [], ◌∷◌, nat_eq, list_eq,
  arith,
}
use nautobot_docker_compose.Base.Text.{Text}
use nautobot_docker_compose.Reconcile.Steps.Effects.{persist-dry, cleanup-dry}
use nautobot_docker_compose.Reconcile.Run.Ensure.{ensure-dry}

ensure_if-dry :
    (wanted : Bool) (name : Text) (tenant : Option Tenant) (description : Text) (p : Progress)
    → (ensure_if wanted true name tenant description p).db ≡ p.db
unfolding ensure_if
ensure_if-dry true name tenant description p = ensure-dry name tenant description p
ensure_if-dry false name tenant description p = refl

-- The options of a dry run.
abbrev pub dry : Options → Options
dry o = record o { dry_run = true }

module _ (lower : Text → Text) (o : Options) where
  ensure_tenants-dry :
      (tenants : List Tenant) (p : Progress) → (ensure_tenants lower (dry o) tenants p).db ≡ p.db
  unfolding ensure_tenants ensure_tenant
  ensure_tenants-dry [] p = refl
  ensure_tenants-dry (tenant ∷ tenants) p =
      ensure_tenants-dry tenants (ensure_tenant lower (dry o) tenant p)
      ∙ ensure_if-dry o.include_remote_worker_queues (remote_worker_queue_name lower tenant)
          (some tenant) _ _
      ∙ ensure-dry (tenant_queue_name lower tenant) (some tenant) [] p

  ensure_vpn-dry :
      (tenants : List Tenant) (p : Progress) → (ensure_vpn lower (dry o) tenants p).db ≡ p.db
  unfolding ensure_vpn
  ensure_vpn-dry tenants p =
      ensure_if-dry (o.include_remote_worker_queues && o.include_generic_queue) _ none _ _
      ∙ ensure_if-dry o.include_generic_queue _ none [] _
      ∙ ensure_tenants-dry tenants p

  ensure_central-dry :
      (central : List Job) (db : Database) → (ensure_central lower (dry o) central db).db ≡ db
  unfolding ensure_central
  ensure_central-dry central db = ensure_if-dry o.include_central_writer_queue _ none _ _

  finish-dry :
      (expected : List Text) (vpn central : Progress)
      → finish lower (dry o) expected vpn central ≡ central.db
  unfolding finish
  finish-dry expected vpn central = rw (persist-dry vpn.jobs vpn.managed_queues central.db) (
      rw (persist-dry central.jobs central.managed_queues central.db)
        (rw (cleanup-dry expected central.db) (ground arith)))

  -- A dry run leaves the database as it is, whatever the other options.
  pub run-dry : (tenants : List Tenant) (db : Database) → run lower (dry o) tenants db ≡ db
  unfolding run vpn_progress central_progress
  run-dry tenants db =
      let p : Progress = record { jobs = vpn_jobs db; managed_queues = []; db = db } in
      let vpn = ensure_vpn lower (dry o) tenants p in
      let central = ensure_central lower (dry o) (get_central_writer_jobs db) vpn.db in
      finish-dry (expected_names lower tenants)
        (with_legacy (find_queue vpn_legacy_queue central.db.queues) vpn) central
      ∙ ensure_central-dry (get_central_writer_jobs db) vpn.db
      ∙ ensure_vpn-dry tenants p
