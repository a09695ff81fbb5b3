-- ===== src/Inventory/Drift/InSync.antt =====
-- When a worker is reported in sync.
use nautobot_docker_compose.Base.{
  ◌∙◌, sym, refl, beq_refl, keep, not, list_eq, ◌==◌, [], contains-keep, nat_eq, true, ◌↔◌, ◌||◌,
  ◌&&◌, ◌∷◌, Bool, ◌≡◌, contains, false, List, arith,
}
use nautobot_docker_compose.Inventory.Drift.{
  has_live_current, Worker, generic_queues, in_sync, annotation, is_none, sorted_difference,
  is_vpn_queue, vpn_queue_set, drift_status_of,
}
use nautobot_docker_compose.Base.Dedupe.{contains-dedupe, dedupe_onto}
use nautobot_docker_compose.Base.Sort.{contains-sort_by, text_le}
use nautobot_docker_compose.Base.Text.{Text}

-- A queue of a tenant: of one of the two families, and not generic.
abbrev pub is_tenant_queue : Text → Bool
is_tenant_queue queue = is_vpn_queue queue && not (contains generic_queues queue)

contains-vpn_queue_set :
    (names : List Text) (queue : Text)
    → contains (vpn_queue_set names false) queue ≡ (contains names queue && is_tenant_queue queue)
unfolding vpn_queue_set
contains-vpn_queue_set names queue =
    rw
      (
        contains-keep (λ q. not (contains generic_queues q))
            (dedupe_onto [] (keep is_vpn_queue names)) queue,
        contains-dedupe (keep is_vpn_queue names) queue,
        contains-keep is_vpn_queue names queue,
      )
      (ground arith)

contains-difference :
    (a b : List Text) (queue : Text)
    → contains (sorted_difference a b) queue ≡ (contains a queue && not (contains b queue))
unfolding sorted_difference
contains-difference a b queue =
    rw
      (
        contains-sort_by text_le (keep (λ q. not (contains b q)) a) queue,
        contains-keep (λ q. not (contains b q)) a queue,
      )
      refl

-- A list has no member exactly if it contains none.
is_none_iff :
    (queues : List Text)
    → (is_none queues ≡ true) ↔ ((queue : Text) → contains queues queue ≡ false)
unfolding contains
is_none_iff [] = (λ h queue. refl, λ h. refl)
is_none_iff (q ∷ queues) = (
  λ h. cc,
  λ h. let no : (q == q || contains queues q) ≡ false = h q in ground (arith, beq_refl q),
)

drift_status_of-in_sync :
    (live : Bool) (missing unexpected desired : List Text)
    → (drift_status_of live missing unexpected desired ≡ in_sync)
      ↔ ((live ≡ true) × (is_none missing ≡ true) × (is_none unexpected ≡ true))
unfolding drift_status_of
drift_status_of-in_sync live missing unexpected desired = (λ h. ground arith, λ h. ground arith)

both_contain :
    (a b : List Text) (queue : Text)
    → contains (sorted_difference (vpn_queue_set a false) (vpn_queue_set b false)) queue
      ≡ (is_tenant_queue queue && (contains a queue && not (contains b queue)))
both_contain a b queue =
    rw
      (
        contains-difference (vpn_queue_set a false) (vpn_queue_set b false) queue,
        contains-vpn_queue_set a queue,
        contains-vpn_queue_set b queue,
      )
      (ground arith)

-- No queue of a tenant is in the first list only.
is_none_within :
    (a b : List Text)
    → (is_none (sorted_difference (vpn_queue_set a false) (vpn_queue_set b false)) ≡ true) ↔ (
        (queue : Text)
        → is_tenant_queue queue ≡ true
        → contains a queue ≡ true
        → contains b queue ≡ true)
is_none_within a b = (
  (λ h queue tenant held.
      let absent : (is_tenant_queue queue && (contains a queue && not (contains b queue))) ≡ false =
        sym (both_contain a b queue) ∙ (is_none_iff _).0 h queue in
      ground arith),
  (λ h. (is_none_iff _).1 (λ queue. rw (both_contain a b queue) (ground (arith, h queue)))),
)

-- A worker is reported in sync exactly if its queues are known live and it has, of the queues of
-- tenants, those that are assigned to it and no other.
pub annotation-in_sync :
    (worker : Worker)
    → ((annotation worker).queue_drift_status ≡ in_sync) ↔ (
        (has_live_current worker ≡ true)
        × ((queue : Text)
            → is_tenant_queue queue ≡ true
            → contains worker.desired_queues queue ≡ contains worker.current_queues queue))
unfolding annotation
annotation-in_sync worker = (
  (λ h.
      let (live, missing, unexpected) = (drift_status_of-in_sync _ _ _ _).0 h in
      (
        live,
        (λ queue tenant. ground (
          arith,
          (is_none_within worker.desired_queues worker.current_queues).0 missing queue tenant,
          (is_none_within worker.current_queues worker.desired_queues).0 unexpected queue tenant,
        )),
      )),
  (λ (live, agree). (drift_status_of-in_sync _ _ _ _).1 (
    live,
    (is_none_within worker.desired_queues worker.current_queues).1
        (λ queue tenant held. sym (agree queue tenant) ∙ held),
    (is_none_within worker.current_queues worker.desired_queues).1
        (λ queue tenant held. agree queue tenant ∙ held),
  )),
)
