-- ===== src/Inventory/Tests.antt =====
-- Workers, brokers and filters at concrete inputs.
use nautobot_docker_compose.Base.{
  refl, any, list_beq, keep, contains, true, zero, false, [], ◌↔◌, suc, not, ◌∷◌, ◌≡◌, ℕ, nat_eq,
  list_eq,
}
use nautobot_docker_compose.Base.Text.{
  is_space, drop_while, strip_by, strip, starts_with, Text, codes,
}
use nautobot_docker_compose.Inventory.Filters.{
  filter_values, matches_datetime_window, matches_status_filter, matches_queue_filter,
  matches_name_filter, matches_filters, filter_remote_workers,
}
use nautobot_docker_compose.Base.Dict.{insert}
use nautobot_docker_compose.Inventory.Live.{
  nodes_of, ask_again, answered, celery_active_queues_by_node-error, some_answer, refused_with,
  Attempt, is_error, celery_active_queues_by_node,
}
use nautobot_docker_compose.Base.Sort.{text_le, insert_sorted, sort_by}
use nautobot_docker_compose.Inventory.Drift.InSync.{annotation-in_sync, is_tenant_queue}
use nautobot_docker_compose.Base.Dedupe.{dedupe_onto}
use nautobot_docker_compose.Inventory.Drift.{
  generic_queues, is_vpn_queue, join, summary_of, has_live_current, drift_status_of, in_sync,
  sorted_difference, vpn_queue_set, annotation, Worker,
}

abbrev worker : Worker
worker = record {
  worker_id = codes "w1";
  hostname = codes "h1";
  celery_node_name = codes "celery@h1";
  desired_queues = codes "vpn-acme" ∷ codes "default" ∷ [];
  current_queues = codes "vpn-acme" ∷ codes "vpn-generic" ∷ [];
  current_queues_source = codes "live Celery";
  is_online = false;
  stale = false;
  status = codes "Online";
  last_assignment = [];
  last_heartbeat = [];
}

abbrev moved : Worker
moved = record worker { current_queues = codes "vpn-beta" ∷ [] }

inventory_run :
    (annotation moved).queue_drift_summary ≡ codes "missing vpn-acme; unexpected vpn-beta"
unfolding annotation vpn_queue_set sorted_difference drift_status_of summary_of join is_vpn_queue
    generic_queues dedupe_onto keep contains list_beq starts_with sort_by insert_sorted text_le
    ask_again celery_active_queues_by_node nodes_of some_answer insert filter_remote_workers
    matches_filters matches_name_filter matches_queue_filter matches_status_filter
    matches_datetime_window filter_values strip strip_by drop_while is_space any
inventory_run = refl

annotation-in_sync_example : ((annotation worker).queue_drift_status ≡ in_sync) ↔ (
    (has_live_current worker ≡ true)
    × ((queue : Text)
        → is_tenant_queue queue ≡ true
        → contains worker.desired_queues queue ≡ contains worker.current_queues queue))
annotation-in_sync_example = annotation-in_sync worker

-- The second attempt answers.
abbrev flaky : ℕ → Attempt
flaky zero = refused_with (codes "timeout")
flaky (suc n) = answered ((codes "celery@h1", codes "vpn-acme" ∷ codes "vpn-acme" ∷ []) ∷ [])

flaky_answers :
    (celery_active_queues_by_node flaky 2).queues_by_node
    ≡ (codes "celery@h1", codes "vpn-acme" ∷ []) ∷ []
unfolding inventory_run
flaky_answers = refl

celery_active_queues_by_node-error_example :
    is_error (celery_active_queues_by_node flaky 0).error ≡ not (some_answer flaky 1 0)
celery_active_queues_by_node-error_example = celery_active_queues_by_node-error flaky 0
