-- ===== src/Reconcile/Steps.antt =====
-- The steps of jobs/vpn_queue_reconciliation.py, each as a function on the database. Log lines are
-- left out. `dry` is `dry_run`.
pub mod Effects
pub mod Existing
use nautobot_docker_compose.Base.{
  ℕ, Bool, true, false, not, ◌&&◌, ◌||◌, Option, none, some, List, [], ◌∷◌, ◌++◌, ◌==◌, nat_eq,
  list_eq, if◌then◌else◌, contains, any, all, keep,
}
use nautobot_docker_compose.Base.Text.{Text, codes, starts_with, is_empty}
use nautobot_docker_compose.Base.Dict.{Dict, lookup, insert, keys}
use nautobot_docker_compose.Base.Sort.{sort_by, text_le}
use nautobot_docker_compose.Reconcile.Names.{
  Tenant, vpn_queue_prefix, vpn_legacy_queue, vpn_generic_queue, remote_worker_queue_prefix,
  remote_worker_generic_queue, is_shms_managed_queue_name,
}
use nautobot_docker_compose.Reconcile.Database.{
  JobQueue, Job, Database, find_queue, save_queue, save_job, is_assigned, queues_of_job, set_queues,
  without_queue, without_assignments,
}

abbrev pub vpn_control_job_names : List Text
vpn_control_job_names = codes "Control VPN" ∷ codes "Reconcile VPN Tenant Queues" ∷ []

abbrev pub vpn_bound_job_names : List Text
vpn_bound_job_names =
    codes "Customer Onboarding Workflow"
    ∷ codes "Collect Stage 4 Network Data Raw Artifact"
    ∷ codes "Sync Devices From Network (custom)"
    ∷ codes "Sync Network Data From Network, extended to include Tenant"
    ∷ codes "Sync Devices From Network - Cisco ASA"
    ∷ codes "Sync Network Data From ASA"
    ∷ codes "Sync Devices from FMC"
    ∷ codes "Sync Network Data From FMC"
    ∷ codes "Sync Devices From Network - FortiGate"
    ∷ codes "Sync Network Data From FortiGate"
    ∷ codes "Scan network and create cables"
    ∷ codes "Scan network for new devices not present in NB"
    ∷ codes "Find Unmanaged Switch Candidates"
    ∷ codes "Create Diagram with Unmanaged Switches"
    ∷ codes "LAN Mapper"
    ∷ codes "Network crawler, which given IP addresses, will crawl the network and create output"
    ∷ codes "Materialize Unreachable Devices"
    ∷ codes "Script to update devices in ENA-ONs SCADA network"
    ∷ codes "Assign Tenant by Primary IP"
    ∷ codes "Validate and Cleanup Cables"
    ∷ codes "Extract Domain Names from Backups"
    ∷ codes "Update Cisco Device Domain Names"
    ∷ codes "Enriches device data"
    ∷ codes "Enrich device data"
    ∷ codes "Network Lifecycle Cleanup"
    ∷ codes "Cleanup Inactive Devices"
    ∷ codes "Create NSOT Excel"
    ∷ codes "Create device coverage dictionary and export to excel"
    ∷ codes "Export NB inventory to excel for use in other scripts"
    ∷ codes "Find Unused Interfaces (Counters)"
    ∷ codes "Generate Migration Bundle"
    ∷ codes "Refresh coverage and EOX"
    ∷ codes "Summarize Unused Interface Capacity"
    ∷ codes "Bulk Device Management"
    ∷ codes "Backup Configurations"
    ∷ codes "VMWare vSphere (custom)"
    ∷ codes "VMWare vSphere ⟹ Nautobot"
    ∷ []

abbrev pub central_writer_job_names : List Text
central_writer_job_names = codes "Apply Stage 4 Network Data Artifact" ∷ []

-- `_ensure_queue`: the queue of this name, absent only in a dry run, and whether it was missing.
-- A description that is not given, here an empty one, is made from the tenant.
tenant_id_of : Option Tenant → Option Text
tenant_id_of none = none
tenant_id_of (some tenant) = some tenant.id

default_description : Option Tenant → Text
default_description none = codes "Generic VPN queue"
default_description (some tenant) = codes "Tenant-scoped VPN queue for " ++ tenant.name

described : Text → Option Tenant → Text
described [] tenant = default_description tenant
described (c ∷ cs) tenant = c ∷ cs

-- The row as the job wants it.
wanted_queue : Text → Option Tenant → Text → JobQueue
wanted_queue name tenant description = record {
  name = name;
  description = described description tenant;
  queue_type = codes "celery";
  tenant_id = tenant_id_of tenant;
}

same_id : Option Text → Option Text → Bool
same_id none none = true
same_id (some a) (some b) = a == b
same_id _ _ = false

differs : JobQueue → JobQueue → Bool
differs queue wanted =
    not (queue.queue_type == wanted.queue_type)
    || not (queue.description == wanted.description)
    || not (same_id queue.tenant_id wanted.tenant_id)

ensure_found : Bool → JobQueue → Option JobQueue → Database → Option Text × Bool × Database
ensure_found dry wanted none db =
    if dry
    then (none, true, db)
    else (some wanted.name, true, record db { queues = db.queues ++ (wanted ∷ []) })
ensure_found dry wanted (some queue) db =
    if differs queue wanted && not dry
    then (some queue.name, false, record db { queues = save_queue wanted db.queues })
    else (some queue.name, false, db)

unfoldable pub ensure_queue :
    Bool → Text → Option Tenant → Text → Database → Option Text × Bool × Database
unfolding ensure_found wanted_queue differs same_id described tenant_id_of default_description
ensure_queue dry name tenant description db =
    ensure_found dry (wanted_queue name tenant description) (find_queue name db.queues) db

-- `_ensure_assignments`: the job objects that the run holds, and the database.
enable : Bool → Job → Database → Job × Database
enable dry job db =
    if job.enabled || dry
    then (job, db)
    else let job' = record job { enabled = true } in
      (job', record db { jobs = save_job job' db.jobs })

-- In a real run the queue is there.
assign : Bool → Option Text → Job → Database → Database
assign dry none job db = db
assign dry (some queue) job db =
    if is_assigned job.name queue db.assignments || dry
    then db
    else record db { assignments = db.assignments ++ ((job.name, queue) ∷ []) }

unfoldable pub ensure_assignments : Bool → Option Text → List Job → Database → List Job × Database
unfolding enable assign
ensure_assignments dry queue [] db = ([], db)
ensure_assignments dry queue (job ∷ jobs) db =
    let (job', db') = enable dry job db in
    let (rest, after) = ensure_assignments dry queue jobs (assign dry queue job' db') in
    (job' ∷ rest, after)

-- `_persist_job_queue_override`. The sets of queue ids are compared both ways.
desired_queues : List Text → List Text → List Text
desired_queues managed current =
    keep (λ name. not (contains managed name) && not (is_shms_managed_queue_name name)) current
    ++ managed

same_names : List Text → List Text → Bool
same_names xs ys = all (contains ys) xs && all (contains xs) ys

persist_one : Bool → List Text → Job → Database → Database
unfolding desired_queues same_names
persist_one dry managed job db =
    let current = queues_of_job job.name db.assignments in
    let desired = desired_queues managed current in
    if (job.job_queues_override && same_names current desired) || dry then db else record db {
      jobs = save_job (record job { job_queues_override = true }) db.jobs;
      assignments = set_queues job.name desired db.assignments;
    }

unfoldable pub persist_job_queue_override : Bool → List Job → List Text → Database → Database
unfolding persist_one
persist_job_queue_override dry [] managed db = db
persist_job_queue_override dry (job ∷ jobs) managed db =
    persist_job_queue_override dry jobs managed (persist_one dry managed job db)

-- `_cleanup_stale_queues`
unfoldable pub is_stale_queue : List Text → Text → Bool
is_stale_queue expected_names name =
    starts_with name vpn_queue_prefix
    && not (name == vpn_generic_queue)
    && not (contains expected_names name)

delete_queues : Bool → List Text → Database → Database
delete_queues dry [] db = db
delete_queues dry (name ∷ names) db = delete_queues dry names (
    if dry then db else record db {
      queues = without_queue name db.queues;
      assignments = without_assignments name db.assignments;
    })

unfoldable pub queue_names : List JobQueue → List Text
queue_names [] = []
queue_names (q ∷ queues) = q.name ∷ queue_names queues

unfoldable pub cleanup_stale_queues : Bool → List Text → Database → Database
unfolding is_stale_queue delete_queues
cleanup_stale_queues dry expected_names db =
    delete_queues dry
      (sort_by text_le (keep (is_stale_queue expected_names) (queue_names db.queues))) db
