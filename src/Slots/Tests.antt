-- ===== src/Slots/Tests.antt =====
-- Slots at concrete inputs. `lower` is the identity on them, and a digest stands in for SHA-1.
use nautobot_docker_compose.Secrets.Json.{Members}
use nautobot_docker_compose.Slots.Requests.{
  vpn_stop, vpn_start, container_queue, remove_workers, context_for, reply_of, scale_workers,
  Command, ensure_worker_scale, scale_context, QueueFile, scale, Node, handle_slot,
}
use nautobot_docker_compose.Slots.Host.{unreadable}
use nautobot_docker_compose.Base.{
  arith, true, All, List, ℕ, ◌≡◌, refl, ◌↔◌, false, some, [], ◌∷◌, ◌++◌, nat_eq, list_eq, list_beq,
}
use nautobot_docker_compose.Slots.Requests.Counts.{Scales, handle_slot-keeps}
use nautobot_docker_compose.Workers.Registry.{unreadable}
use nautobot_docker_compose.Slots.Context.{
  SlotContext, SlotSettings, slot_slug, slot_context, queue_of, slot_queue-agrees,
}
use nautobot_docker_compose.Slots.Profile.{
  VpnProfile, given, first_given, slot_state, down, slot_state-down,
}
use nautobot_docker_compose.Base.Text.{Text, codes, strip, strip_by, is_slug_char}
use nautobot_docker_compose.Base.Dict.{Dict, lookup}
use nautobot_docker_compose.Reconcile.Names.{
  Tenant, tenant_queue_name, tenant_queue_slug, dash_runs, squeeze_dashes,
}

abbrev same_case : Text → Text
same_case s = s

abbrev digest : Text → Text
digest s = codes "d0" ++ s

abbrev settings : SlotSettings
settings = record {
  project_prefix = codes "shms";
  worker_name_prefix = codes "w";
  node_name = codes "n";
}

abbrev acme_tenant : Tenant
acme_tenant = record { id = codes "0a1b2c3d"; name = codes " acme sa"; slug = [] }

abbrev secure : Dict Text
secure = (codes "vpn_client", codes "cisco-secure-client") ∷ []

slots_run : slot_slug same_case digest (codes "acme sa") ≡ codes "acme-sa"
unfolding slot_slug strip strip_by is_slug_char dash_runs squeeze_dashes list_beq lookup given
    first_given tenant_queue_slug
slots_run = refl

slot_queue-agrees_example :
    queue_of (slot_context same_case digest settings (codes " acme sa"))
    ≡ some (tenant_queue_name same_case acme_tenant)
unfolding slots_run
slot_queue-agrees_example = slot_queue-agrees same_case digest settings acme_tenant refl refl

-- Names without an ASCII letter or digit share one slot.
slugs_shared : slot_slug same_case digest (codes "??") ≡ slot_slug same_case digest (codes "!")
unfolding slots_run
slugs_shared = refl

slot_state-down_example :
    (slot_state false false 0 0 ≡ down)
    ↔ ((false ≡ false) × (false ≡ false) × (◌≡◌ {A = ℕ} 0 0) × (◌≡◌ {A = ℕ} 0 0))
slot_state-down_example = slot_state-down false false 0 0

-- A host slot and its file.
abbrev acme_slot : SlotContext
acme_slot = record {
  customer = codes "acme";
  slug = codes "acme";
  queue_name = codes "vpn-acme";
  project_name = codes "shms-acme";
  worker_name_prefix = codes "w-n-acme";
}

abbrev beta_slot : SlotContext
beta_slot = record acme_slot { customer = codes "beta"; slug = codes "beta" }

abbrev host_profile : VpnProfile
host_profile = record {
  vpn_type = codes "cisco-anyconnect";
  vpn_client = codes "cisco-secure-client";
  host = codes "vpn.acme";
  port = [];
  profile_name = [];
  usergroup = [];
  client_runtime = codes "host";
  worker_network_mode = codes "host";
}

abbrev no_text : Members → Text
no_text _ = []

-- A node that notes each scaling: the compose file of the queue, and the count.
abbrev noted : List (QueueFile × ℕ) → Command → List (QueueFile × ℕ)
noted log (scale_workers context queue_file n) = (queue_file, n) ∷ log
noted log (remove_workers context) = log
noted log (vpn_start arguments) = log
noted log (vpn_stop context) = log

abbrev node : Node (List (QueueFile × ℕ))
node = record {
  vpn_running = λ log context. true;
  desired_workers = λ log context. 1;
  metadata = λ log context. secure;
  is_connected = λ log context. true;
  host_contexts = λ log. acme_slot ∷ [];
  is_recorded = λ log context. true;
  running_contexts = λ log. acme_slot ∷ [];
  run_command = λ log command. (noted log command, true);
  start_host = λ log context profile. (log, true);
  stop_host = λ log context. (log, true);
}

-- A scaling of a slot whose profile puts its workers on the host's network starts them with the compose
-- file of workers in the container's network.
scaled_apart :
    (handle_slot node same_case digest settings [] (scale (codes "acme") 3)).0
    ≡ (container_queue, 3) ∷ []
unfolding slots_run handle_slot scale_context ensure_worker_scale reply_of slot_context context_for
scaled_apart = refl

-- Every note is of three workers.
abbrev AreThree : List (QueueFile × ℕ) → Type 0
AreThree log = All (λ note. note.1 ≡ 3) log

three_kept :
    (log : List (QueueFile × ℕ)) (command : Command)
    → Scales (some 3) command
    → AreThree log
    → AreThree ((node.run_command log command).0)
three_kept log (scale_workers context queue_file n) e h = (e, h)
three_kept log (remove_workers context) e h = h
three_kept log (vpn_start arguments) e h = h
three_kept log (vpn_stop context) e h = h

handle_slot-keeps_example :
    AreThree ((handle_slot node same_case digest settings [] (scale (codes "acme") 3)).0)
handle_slot-keeps_example =
    handle_slot-keeps node AreThree (λ log context profile h. h) (λ log context h. h) same_case
      digest settings [] (scale (codes "acme") 3) (omega arith) three_kept tt
