-- ===== src/Inventory/Drift.antt =====
-- vpn_queue_set and annotate_worker_drift of nautobot_vpn_manager/worker_inventory.py. A set is the list
-- of its members, each once.
pub mod InSync
use nautobot_docker_compose.Base.Dedupe.{contains-dedupe, dedupe_onto}
use nautobot_docker_compose.Base.{
  refl, beq_refl, keep, not, ◌++◌, list_eq, ◌==◌, [], contains-keep, nat_eq, if◌then◌else◌, true,
  ◌↔◌, ◌||◌, ◌&&◌, ◌∷◌, Bool, ◌≡◌, contains, false, List, arith,
}
use nautobot_docker_compose.Base.Sort.{contains-sort_by, text_le, sort_by}
use nautobot_docker_compose.Base.Text.{codes, starts_with, Text}

-- The keys of a worker that the helpers read.
pub record Worker : Type 0 where
  pub worker_id : Text
  pub hostname : Text
  pub celery_node_name : Text
  pub desired_queues : List Text
  pub current_queues : List Text
  pub current_queues_source : Text
  pub is_online : Bool
  pub stale : Bool
  pub status : Text
  pub last_assignment : Text
  pub last_heartbeat : Text

unfoldable pub generic_queues : List Text
generic_queues = codes "remote-worker-generic" ∷ codes "vpn-generic" ∷ []

-- A queue that the set takes.
unfoldable pub is_vpn_queue : Text → Bool
is_vpn_queue queue = starts_with queue (codes "remote-worker-") || starts_with queue (codes "vpn-")

unfoldable pub vpn_queue_set : List Text → Bool → List Text
unfolding is_vpn_queue generic_queues
vpn_queue_set queue_names include_generic =
    let queues = dedupe_onto [] (keep is_vpn_queue queue_names) in
    if include_generic then queues else keep (λ queue. not (contains generic_queues queue)) queues

pub data DriftStatus : Type 0 where
  drift in_sync deferred idle : DriftStatus

-- The keys that the annotation writes.
pub record Annotation : Type 0 where
  pub queue_drift_missing : List Text
  pub queue_drift_unexpected : List Text
  pub queue_drift : Bool
  pub queue_drift_status : DriftStatus
  pub queue_drift_summary : Text

-- `sorted(a - b)`
unfoldable pub sorted_difference : List Text → List Text → List Text
sorted_difference a b = sort_by text_le (keep (λ queue. not (contains b queue)) a)

-- `separator.join(parts)`
unfoldable pub join : Text → List Text → Text
join separator [] = []
join separator (part ∷ []) = part
join separator (part ∷ next ∷ parts) = part ++ (separator ++ join separator (next ∷ parts))

abbrev part_if : Text → List Text → List Text
part_if word [] = []
part_if word (queue ∷ queues) = (word ++ join (codes ", ") (queue ∷ queues)) ∷ []

abbrev pub is_none : List Text → Bool
is_none [] = true
is_none (queue ∷ queues) = false

unfoldable pub drift_status_of : Bool → List Text → List Text → List Text → DriftStatus
drift_status_of live missing unexpected desired =
    if live
    then (if is_none missing && is_none unexpected then in_sync else drift)
    else if is_none desired
    then idle
    else deferred

unfoldable pub summary_of : DriftStatus → List Text → List Text → Text
unfolding join
summary_of drift missing unexpected =
    join (codes "; ")
      (part_if (codes "missing ") missing ++ part_if (codes "unexpected ") unexpected)
summary_of in_sync missing unexpected = codes "live queues match assignment intent"
summary_of deferred missing unexpected = codes "assignment will apply on next worker check-in"
summary_of idle missing unexpected = codes "no tenant assignment intent"

abbrev is_drift : DriftStatus → Bool
is_drift drift = true
is_drift in_sync = false
is_drift deferred = false
is_drift idle = false

abbrev pub has_live_current : Worker → Bool
has_live_current worker = worker.is_online || worker.current_queues_source == codes "live Celery"

unfoldable pub annotation : Worker → Annotation
unfolding vpn_queue_set sorted_difference drift_status_of summary_of
annotation worker =
    let desired = vpn_queue_set worker.desired_queues false in
    let current = vpn_queue_set worker.current_queues false in
    let missing = sorted_difference desired current in
    let unexpected = sorted_difference current desired in
    let status = drift_status_of (has_live_current worker) missing unexpected desired in
    record {
      queue_drift_missing = missing;
      queue_drift_unexpected = unexpected;
      queue_drift = is_drift status;
      queue_drift_status = status;
      queue_drift_summary = summary_of status missing unexpected;
    }

unfoldable pub annotate_worker_drift : List Worker → List (Worker × Annotation)
unfolding annotation
annotate_worker_drift [] = []
annotate_worker_drift (worker ∷ workers) =
    (worker, annotation worker) ∷ annotate_worker_drift workers
