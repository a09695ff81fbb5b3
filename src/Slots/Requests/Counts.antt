-- ===== src/Slots/Requests/Counts.antt =====
-- How many workers a request scales to.
use nautobot_docker_compose.Slots.Requests.{
  stop_context, start_arguments, other_is_active, done, refused_by, after_stop, restart_context,
  start_context, perform_stop, container_queue, Text, start_profile, scale_context, SlotRequest,
  handle_slot, StartRequest, vpn_stop, vpn_start, scale, remove_workers, QueueFile, reply_of,
  count_or, stop, ensure_worker_scale, then_remove, stop_slot, then_scale, at_least, VpnProfile,
  restart, scale_workers, start, SlotContext, Command, Reply, Node,
}
use nautobot_docker_compose.Base.{
  not, ◌&&◌, ◌==◌, list_eq, nat_eq, refl, inl, inr, zero, suc, false, ◌⊎◌, ◌≡◌, true, if◌then◌else◌,
  ◌≤◌, some, ℕ, Bool, none, Option, arith,
}
use nautobot_docker_compose.Base.Text.{codes, Text}
use nautobot_docker_compose.Slots.Context.{SlotSettings, SlotContext}
use nautobot_docker_compose.Slots.Profile.{VpnProfile}

-- The count that a request asks for, if it asks for one.
abbrev pub count_of : SlotRequest → Option ℕ
count_of (start payload) = some payload.worker_count
count_of (restart payload) = some payload.worker_count
count_of (stop customer) = none
count_of (scale customer worker_count) = some worker_count

-- A command that scales workers scales to this count.
abbrev pub Scales : Option ℕ → Command → Type 0
Scales none (scale_workers context queue_file n) = ⊥
Scales (some count) (scale_workers context queue_file n) = n ≡ count
Scales count (remove_workers context) = Unit
Scales count (vpn_start arguments) = Unit
Scales count (vpn_stop context) = Unit

-- The count, where there is one, is positive: requests with another are refused before.
abbrev pub IsPositive : Option ℕ → Type 0
IsPositive none = Unit
IsPositive (some count) = 1 ≤ count

at_least-positive : (n : ℕ) → 1 ≤ n → at_least n ≡ n
at_least-positive zero h = omega (arith, h)
at_least-positive (suc n) h = refl

count_or-positive : (n other : ℕ) → 1 ≤ n → at_least (count_or n other) ≡ n
count_or-positive zero other h = omega (arith, h)
count_or-positive (suc n) other h = refl

if-reply :
    {S : Type 0} (P : S → Type 0) (test : Bool) (a b : S × Reply)
    → P (a.0)
    → P (b.0)
    → P ((if test then a else b).0)
if-reply P true a b f g = f
if-reply P false a b f g = g

module _ {S : Type 0} (node : Node S) (P : S → Type 0)
    (start_host_keeps : (s : S) (context : SlotContext) (profile : VpnProfile)
      → P s
      → P ((node.start_host s context profile).0))
    (stop_host_keeps : (s : S) (context : SlotContext)
      → P s
      → P ((node.stop_host s context).0)) where
  reply_of-keeps : (made : S × Bool) → P (made.0) → P ((reply_of node made).0)
  unfolding reply_of
  reply_of-keeps (s, true) h = h
  reply_of-keeps (s, false) h = h

  module _ (count : Option ℕ)
      (command_keeps : (s : S) (command : Command)
        → Scales count command
        → P s
        → P ((node.run_command s command).0)) where
    scale-keeps :
        (s : S) (context : SlotContext) (queue_file : QueueFile) (n : ℕ)
        → Scales count (scale_workers context queue_file (at_least n))
        → P s
        → P ((ensure_worker_scale node s context queue_file n).0)
    unfolding ensure_worker_scale
    scale-keeps s context queue_file n fits h =
        reply_of-keeps _ (command_keeps s (scale_workers context queue_file (at_least n)) fits h)

    then_scale-keeps :
        (context : SlotContext) (queue_file : QueueFile) (n : ℕ) (made : S × Bool)
        → Scales count (scale_workers context queue_file (at_least n))
        → P (made.0)
        → P ((then_scale node context queue_file n made).0)
    unfolding then_scale
    then_scale-keeps context queue_file n (s, true) fits h =
        scale-keeps s context queue_file n fits h
    then_scale-keeps context queue_file n (s, false) fits h = h

    then_remove-keeps :
        (context : SlotContext) (made : S × Bool)
        → P (made.0)
        → P ((then_remove node context made).0)
    unfolding then_remove
    then_remove-keeps context (s, true) h =
        reply_of-keeps _ (command_keeps s (remove_workers context) tt h)
    then_remove-keeps context (s, false) h = h

    stop_slot-keeps : (s : S) (found : SlotContext ⊎ ℕ) → P s → P ((stop_slot node s found).0)
    unfolding stop_slot
    stop_slot-keeps s (inr code) h = h
    stop_slot-keeps s (inl context) h =
        if-reply P (node.is_recorded s context) _ _
          (then_remove-keeps context _ (stop_host_keeps s context h))
          (reply_of-keeps _ (command_keeps s (vpn_stop context) tt h))

  -- From here on the count is that of a request to start.
  module _ (payload : StartRequest) (positive : 1 ≤ payload.worker_count)
      (command_keeps : (s : S) (command : Command)
        → Scales (some payload.worker_count) command
        → P s
        → P ((node.run_command s command).0)) where
    start_profile-keeps :
        (s : S) (context : SlotContext) (profile : VpnProfile)
        → P s
        → P ((start_profile node s context profile payload).0)
    unfolding start_profile
    start_profile-keeps s context profile h =
        if-reply P (node.vpn_running s context) _ _
          (scale-keeps (some payload.worker_count) command_keeps s context _ _
            (count_or-positive payload.worker_count _ positive) h)
          (if-reply P
            (profile.vpn_type == codes "cisco-anyconnect"
              && profile.vpn_client == codes "cisco-secure-client")
            _ _
            (if-reply P (not (profile.client_runtime == codes "host")) _ _ h (
              if-reply P (other_is_active node s context) _ _ h (
                then_scale-keeps (some payload.worker_count) command_keeps context _ _ _
                  (count_or-positive payload.worker_count 1 positive)
                  (start_host_keeps s context profile h))))
            (then_scale-keeps (some payload.worker_count) command_keeps context _ _ _
              (count_or-positive payload.worker_count 1 positive)
              (command_keeps s (vpn_start (start_arguments context profile payload)) tt h)))

    start_context-keeps :
        (s : S) (found : Option SlotContext) → P s → P ((start_context node s found payload).0)
    unfolding start_context
    start_context-keeps s none h = h
    start_context-keeps s (some context) h = start_profile-keeps s context _ h

    module _ (lower sha1_hex : Text → Text) (settings : SlotSettings) where
      after_stop-keeps :
          (stopped : S × Reply)
          → P (stopped.0)
          → P ((after_stop node lower sha1_hex settings payload stopped).0)
      unfolding after_stop
      after_stop-keeps (s, done) h = start_context-keeps s _ h
      after_stop-keeps (s, refused_by code) h =
          if-reply P (code == 404) _ _ (start_context-keeps s _ h) h

      restart_context-keeps :
          (s : S) (found : Option SlotContext)
          → P s
          → P ((restart_context node lower sha1_hex settings s found payload).0)
      unfolding restart_context perform_stop
      restart_context-keeps s none h = h
      restart_context-keeps s (some context) h =
          let found : SlotContext ⊎ ℕ =
            stop_context node lower sha1_hex settings s (some context.customer) in
          after_stop-keeps (stop_slot node s found)
            (stop_slot-keeps (some payload.worker_count) command_keeps s found h)

  scale_context-keeps :
      (s : S) (found : Option SlotContext) (n : ℕ)
      → 1 ≤ n
      → ((s : S) (command : Command)
          → Scales (some n) command
          → P s
          → P ((node.run_command s command).0))
      → P s
      → P ((scale_context node s found n).0)
  unfolding scale_context
  scale_context-keeps s none n positive command_keeps h = h
  scale_context-keeps s (some context) n positive command_keeps h =
      if-reply P (node.vpn_running s context) _ _
        (scale-keeps (some n) command_keeps s context container_queue n
          (at_least-positive n positive) h)
        h

  -- A property of the node's state is kept by a request, whose count, if it asks for one, is positive,
  -- if starting and stopping the host's client keep it, and every command that, if it scales workers,
  -- scales them to the count that the request asks for. For a stop, which asks for none,
  -- commands that scale need not keep it.
  pub handle_slot-keeps :
      (lower sha1_hex : Text → Text) (settings : SlotSettings) (s : S) (request : SlotRequest)
      → IsPositive (count_of request)
      → ((s : S) (command : Command)
          → Scales (count_of request) command
          → P s
          → P ((node.run_command s command).0))
      → P s
      → P ((handle_slot node lower sha1_hex settings s request).0)
  unfolding handle_slot perform_stop
  handle_slot-keeps lower sha1_hex settings s (start payload) positive command_keeps h =
      start_context-keeps payload positive command_keeps s _ h
  handle_slot-keeps lower sha1_hex settings s (restart payload) positive command_keeps h =
      restart_context-keeps payload positive command_keeps lower sha1_hex settings s _ h
  handle_slot-keeps lower sha1_hex settings s (stop customer) positive command_keeps h =
      stop_slot-keeps none command_keeps s (stop_context node lower sha1_hex settings s customer) h
  handle_slot-keeps lower sha1_hex settings s (scale customer worker_count) positive command_keeps
        h =
      scale_context-keeps s _ worker_count positive command_keeps h
