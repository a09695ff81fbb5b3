-- ===== src/Slots/Requests.antt =====
-- The endpoints of vpn/VPN_Control_API/app.py that start, stop, restart and scale a slot, over the
-- operations of the node: what docker and the VPN clients report, the commands that are run, and
-- start_host_secure_client and stop_host_secure_client. A command that fails is `false`.
pub mod Counts
use nautobot_docker_compose.Base.Text.{is_empty, codes, Text}
use nautobot_docker_compose.Base.{
  ◌&&◌, inl, zero, false, inr, ◌++◌, none, nat_eq, keep, list_eq, ◌==◌, not, ◌⊎◌, ◌∷◌,
  if◌then◌else◌, true, [], any, some, suc, List, Bool, Option, ℕ, arith,
}
use nautobot_docker_compose.Slots.Context.{slot_context, SlotSettings, SlotContext}
use nautobot_docker_compose.Slots.Profile.{resolve_vpn_profile, VpnProfile}
use nautobot_docker_compose.Base.Dict.{Dict}

-- The queue's compose file is that of workers on the host's network, or that in the VPN container's.
pub data QueueFile : Type 0 where
  host_queue container_queue : QueueFile

-- What `run_command` is called with: `docker compose up --scale`, `docker compose rm -sf`, and `vpn.sh`.
pub data Command : Type 0 where
  scale_workers : SlotContext → QueueFile → ℕ → Command
  remove_workers : SlotContext → Command
  vpn_start : List Text → Command
  vpn_stop : SlotContext → Command

-- What the endpoints read and do on a node.
pub record Node (S : Type 0) : Type 0 where
  pub vpn_running : S → SlotContext → Bool
  pub desired_workers : S → SlotContext → ℕ
  pub metadata : S → SlotContext → Dict Text
  pub is_connected : S → SlotContext → Bool
  pub host_contexts : S → List SlotContext
  pub is_recorded : S → SlotContext → Bool
  pub running_contexts : S → List SlotContext
  pub run_command : S → Command → S × Bool
  pub start_host : S → SlotContext → VpnProfile → S × Bool
  pub stop_host : S → SlotContext → S × Bool

pub record StartRequest : Type 0 where
  pub customer : Text
  pub worker_count : ℕ
  pub vpn_type : Option Text
  pub vpn_client : Option Text
  pub profile_name : Option Text
  pub usergroup : Option Text
  pub client_runtime : Option Text
  pub worker_network_mode : Option Text
  pub otp : Option Text
  pub authgroup : Option Text
  pub banner_response : Option Text
  pub extra_args : Option Text

pub data SlotRequest : Type 0 where
  start restart : StartRequest → SlotRequest
  stop : Option Text → SlotRequest
  scale : Text → ℕ → SlotRequest

-- Success, or the status code of an `HTTPException`.
pub data Reply : Type 0 where
  done : Reply
  refused_by : ℕ → Reply

unfoldable pub overrides_of : StartRequest → Dict (Option Text)
overrides_of payload =
    (codes "vpn_type", payload.vpn_type)
    ∷ (codes "vpn_client", payload.vpn_client)
    ∷ (codes "profile_name", payload.profile_name)
    ∷ (codes "usergroup", payload.usergroup)
    ∷ (codes "client_runtime", payload.client_runtime)
    ∷ (codes "worker_network_mode", payload.worker_network_mode)
    ∷ []

abbrev flag : Text → Option Text → List Text
flag name none = []
flag name (some []) = []
flag name (some (c ∷ cs)) = name ∷ (c ∷ cs) ∷ []

unfoldable pub start_arguments : SlotContext → VpnProfile → StartRequest → List Text
start_arguments context profile payload =
    context.customer
    ∷ (flag (codes "--otp") payload.otp
        ++ (flag (codes "--authgroup") payload.authgroup
            ++ (flag (codes "--profile-name") (some profile.profile_name)
                ++ (flag (codes "--usergroup") (some profile.usergroup)
                    ++ (flag (codes "--banner-response") payload.banner_response
                        ++ flag (codes "--extra-args") payload.extra_args)))))

-- `payload.worker_count or other`
abbrev pub count_or : ℕ → ℕ → ℕ
count_or zero other = other
count_or (suc n) other = suc n

abbrev pub at_least : ℕ → ℕ
at_least zero = 1
at_least (suc n) = suc n

unfoldable pub queue_file_of : VpnProfile → QueueFile
queue_file_of profile =
    if profile.worker_network_mode == codes "host" then host_queue else container_queue

module _ {S : Type 0} (node : Node S) where
  unfoldable pub reply_of : S × Bool → S × Reply
  reply_of (s, true) = (s, done)
  reply_of (s, false) = (s, refused_by 500)

  -- `ensure_worker_scale`
  unfoldable pub ensure_worker_scale : S → SlotContext → QueueFile → ℕ → S × Reply
  unfolding reply_of
  ensure_worker_scale s context queue_file desired_workers =
      reply_of (node.run_command s (scale_workers context queue_file (at_least desired_workers)))

  unfoldable pub then_scale : SlotContext → QueueFile → ℕ → S × Bool → S × Reply
  unfolding ensure_worker_scale
  then_scale context queue_file count (s, true) = ensure_worker_scale s context queue_file count
  then_scale context queue_file count (s, false) = (s, refused_by 500)

  -- `[c for c in host_slot_contexts() if c.slug != context.slug and connected(c)]` is not empty.
  unfoldable pub other_is_active : S → SlotContext → Bool
  other_is_active s context =
      any (λ c. not (c.slug == context.slug) && node.is_connected s c) (node.host_contexts s)

  -- The branches of `start_endpoint` once the profile is known.
  unfoldable pub start_profile : S → SlotContext → VpnProfile → StartRequest → S × Reply
  unfolding ensure_worker_scale then_scale other_is_active start_arguments queue_file_of
  start_profile s context profile payload =
      if node.vpn_running s context
      then ensure_worker_scale s context (queue_file_of profile)
          (count_or payload.worker_count (at_least (node.desired_workers s context)))
      else if profile.vpn_type == codes "cisco-anyconnect"
          && profile.vpn_client == codes "cisco-secure-client"
      then (if not (profile.client_runtime == codes "host")
          then (s, refused_by 400)
          else if other_is_active s context
          then (s, refused_by 409)
          else then_scale context (queue_file_of profile) (count_or payload.worker_count 1)
              (node.start_host s context profile))
      else then_scale context (queue_file_of profile) (count_or payload.worker_count 1)
          (node.run_command s (vpn_start (start_arguments context profile payload)))

  unfoldable pub start_context : S → Option SlotContext → StartRequest → S × Reply
  unfolding start_profile overrides_of
  start_context s none payload = (s, refused_by 400)
  start_context s (some context) payload =
      start_profile s context (resolve_vpn_profile (node.metadata s context) (overrides_of payload))
        payload

  -- `resolve_stop_context` where no customer is given
  unfoldable pub only_running : List SlotContext → SlotContext ⊎ ℕ
  only_running [] = inr 404
  only_running (context ∷ []) = inl context
  only_running (context ∷ other ∷ contexts) = inr 400

  unfoldable pub then_remove : SlotContext → S × Bool → S × Reply
  unfolding reply_of
  then_remove context (s, true) = reply_of (node.run_command s (remove_workers context))
  then_remove context (s, false) = (s, refused_by 500)

  -- `_perform_stop` of the slot that was found
  unfoldable pub stop_slot : S → SlotContext ⊎ ℕ → S × Reply
  unfolding then_remove reply_of
  stop_slot s (inr code) = (s, refused_by code)
  stop_slot s (inl context) =
      if node.is_recorded s context
      then then_remove context (node.stop_host s context)
      else reply_of (node.run_command s (vpn_stop context))

  context_or_400 : Option SlotContext → SlotContext ⊎ ℕ
  context_or_400 none = inr 400
  context_or_400 (some context) = inl context

  unfoldable pub scale_context : S → Option SlotContext → ℕ → S × Reply
  unfolding ensure_worker_scale
  scale_context s none worker_count = (s, refused_by 400)
  scale_context s (some context) worker_count =
      if node.vpn_running s context
      then ensure_worker_scale s context container_queue worker_count
      else (s, refused_by 400)

  module _ (lower sha1_hex : Text → Text) (settings : SlotSettings) where
    unfoldable pub context_for : Text → Option SlotContext
    context_for = slot_context lower sha1_hex settings

    -- `resolve_stop_context`
    unfoldable pub stop_context : S → Option Text → SlotContext ⊎ ℕ
    unfolding only_running context_or_400 context_for
    stop_context s (some (c ∷ cs)) = context_or_400 (context_for (c ∷ cs))
    stop_context s (some []) =
        only_running (keep (λ c. not (is_empty c.customer)) (node.running_contexts s))
    stop_context s none =
        only_running (keep (λ c. not (is_empty c.customer)) (node.running_contexts s))

    unfoldable pub perform_stop : S → Option Text → S × Reply
    unfolding stop_slot stop_context
    perform_stop s customer = stop_slot s (stop_context s customer)

    -- A restart goes on after a stop that succeeds or finds no slot.
    unfoldable pub after_stop : StartRequest → S × Reply → S × Reply
    unfolding start_context context_for
    after_stop payload (s, done) = start_context s (context_for payload.customer) payload
    after_stop payload (s, refused_by code) =
        if code == 404
        then start_context s (context_for payload.customer) payload
        else (s, refused_by code)

    unfoldable pub restart_context : S → Option SlotContext → StartRequest → S × Reply
    unfolding perform_stop after_stop
    restart_context s none payload = (s, refused_by 400)
    restart_context s (some context) payload =
        after_stop payload (perform_stop s (some context.customer))

    -- The endpoints `start`, `restart`, `stop` and `scale`.
    unfoldable pub handle_slot : S → SlotRequest → S × Reply
    unfolding restart_context scale_context
    handle_slot s (start payload) = start_context s (context_for payload.customer) payload
    handle_slot s (restart payload) = restart_context s (context_for payload.customer) payload
    handle_slot s (stop customer) = perform_stop s customer
    handle_slot s (scale customer worker_count) =
        scale_context s (context_for customer) worker_count
