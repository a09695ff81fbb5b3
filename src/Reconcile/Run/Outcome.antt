-- ===== src/Reconcile/Run/Outcome.antt =====
-- The assignments that a real run of `ReconcileVpnTenantQueues.run`,
-- jobs/vpn_queue_reconciliation.py, leaves.
use nautobot_docker_compose.Reconcile.Run.Assigns.{
  legacy-managed, target-managed, managed-central, stale-legacy, stale-target, stale-managed,
  is_assigned-vpn, is_assigned-central, contains-named, job_names-central,
}
use nautobot_docker_compose.Reconcile.Run.Legacy.{
  legacy-vpn, legacy-central, with_legacy-managed, with_legacy-jobs, has_legacy,
}
use nautobot_docker_compose.Reconcile.Run.Targets.{managed-vpn, job_names-vpn, is_target, real}
use nautobot_docker_compose.Reconcile.Run.{
  expected_names, with_legacy, get_central_writer_jobs, ensure_central, ensure_vpn,
  central_writer_job_names, vpn_jobs, central_progress, vpn_progress, run, Options, Progress,
  finish,
}
use nautobot_docker_compose.Reconcile.Database.{find_queue, Database, is_assigned}
use nautobot_docker_compose.Base.{
  [], ◌==◌, nat_eq, list_eq, true, ◌≡◌, false, not, if◌then◌else◌, ◌&&◌, ◌||◌, List, contains,
  arith,
}
use nautobot_docker_compose.Reconcile.Names.{vpn_legacy_queue, Tenant, is_shms_managed_queue_name}
use nautobot_docker_compose.Reconcile.Steps.{
  central_writer_job_names, is_stale_queue, queue_names, persist_job_queue_override,
}
use nautobot_docker_compose.Base.Text.{Text}
use nautobot_docker_compose.Reconcile.Steps.Effects.{
  job_names, is_assigned-persist, is_assigned-cleanup, overridden,
}

no_central :
    (db : Database) (job : Text)
    → contains central_writer_job_names job ≡ false
    → contains (job_names (get_central_writer_jobs db)) job ≡ false
unfolding get_central_writer_jobs
no_central db job h = contains-named central_writer_job_names db.jobs job h

module _ (lower : Text → Text) (o : Options) where
  is_assigned-finish :
      (expected : List Text) (vpn central : Progress) (job queue : Text)
      → is_assigned job queue (finish lower (real o) expected vpn central).assignments ≡ (
          let at_vpn =
            if contains (job_names vpn.jobs) job
            then overridden job queue vpn.managed_queues central.db.assignments
            else is_assigned job queue central.db.assignments in
          let at_central =
            if contains (job_names central.jobs) job
            then (at_vpn && not (is_shms_managed_queue_name queue))
              || contains central.managed_queues queue
            else at_vpn in
          at_central
          && not (
              o.cleanup_unselected_tenant_queues
              && contains
                  (queue_names
                    (finish lower
                      (real (record o { cleanup_unselected_tenant_queues = false }))
                      expected
                      vpn
                      central).queues)
                  queue
              && is_stale_queue expected queue))
  unfolding finish
  is_assigned-finish expected vpn central job queue =
      let db1 = persist_job_queue_override false vpn.jobs vpn.managed_queues central.db in
      let db2 = persist_job_queue_override false central.jobs central.managed_queues db1 in
      ground (
        arith,
        is_assigned-cleanup job queue expected db2,
        is_assigned-persist job queue central.managed_queues central.jobs db1,
        is_assigned-persist job queue vpn.managed_queues vpn.jobs central.db,
      )

  -- In a real run, for a VPN job whose name is no central writer's: whatever queues it had, it has
  -- afterwards its queues of names that are not managed, the targets of the options and tenants,
  -- the legacy queue if there is one, and no other.
  pub run-vpn_job :
      (tenants : List Tenant) (db : Database) (job queue : Text)
      → contains (job_names (vpn_jobs db)) job ≡ true
      → contains central_writer_job_names job ≡ false
      → is_assigned job queue (run lower (real o) tenants db).assignments ≡ (
          (is_assigned job queue db.assignments && not (is_shms_managed_queue_name queue))
          || is_target lower o tenants queue
          || (has_legacy db && vpn_legacy_queue == queue))
  unfolding run vpn_progress central_progress contains
  run-vpn_job tenants db job queue is_vpn no_writer =
      let p : Progress = record { jobs = vpn_jobs db; managed_queues = []; db = db } in
      let vpn = ensure_vpn lower (real o) tenants p in
      let central = ensure_central lower (real o) (get_central_writer_jobs db) vpn.db in
      let legacy = find_queue vpn_legacy_queue central.db.queues in
      let vpn' = with_legacy legacy vpn in
      rw (is_assigned-finish (expected_names lower tenants) vpn' central job queue) (
        rw
          (
            with_legacy-jobs legacy vpn,
            job_names-vpn lower o tenants p,
            is_vpn,
            job_names-central lower o (get_central_writer_jobs db) vpn.db,
            no_central db job no_writer,
            with_legacy-managed central.db.queues vpn queue,
            managed-vpn lower o tenants p queue,
            legacy-central lower o (get_central_writer_jobs db) vpn.db,
            legacy-vpn lower o tenants p,
          )
          (ground (
            arith,
            is_assigned-central lower o (get_central_writer_jobs db) vpn.db job queue,
            is_assigned-vpn lower o tenants p job queue,
            stale-managed lower tenants queue,
            stale-target lower o tenants queue,
            stale-legacy lower tenants queue,
          )))

  -- A real run leaves every assignment of a queue whose name is not a managed one, to whatever job,
  -- with any options, and makes none of such a queue.
  pub run-unmanaged :
      (tenants : List Tenant) (db : Database) (job queue : Text)
      → is_shms_managed_queue_name queue ≡ false
      → is_assigned job queue (run lower (real o) tenants db).assignments
        ≡ is_assigned job queue db.assignments
  unfolding run vpn_progress central_progress contains
  run-unmanaged tenants db job queue unmanaged =
      let p : Progress = record { jobs = vpn_jobs db; managed_queues = []; db = db } in
      let vpn = ensure_vpn lower (real o) tenants p in
      let central = ensure_central lower (real o) (get_central_writer_jobs db) vpn.db in
      let legacy = find_queue vpn_legacy_queue central.db.queues in
      let vpn' = with_legacy legacy vpn in
      rw (is_assigned-finish (expected_names lower tenants) vpn' central job queue) (
        rw
          (
            managed-central lower o (get_central_writer_jobs db) vpn.db queue unmanaged,
            with_legacy-managed central.db.queues vpn queue,
            managed-vpn lower o tenants p queue,
          )
          (ground (
            arith,
            is_assigned-central lower o (get_central_writer_jobs db) vpn.db job queue,
            is_assigned-vpn lower o tenants p job queue,
            target-managed lower o tenants queue,
            legacy-managed queue,
            stale-managed lower tenants queue,
          )))
