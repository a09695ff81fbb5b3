-- ===== src/Slots/Host.antt =====
-- The file of the host slots of vpn/VPN_Control_API/app.py: load_host_slot_state,
-- save_host_slot_state, record_host_slot, delete_host_slot, host_slot_contexts and host_slot_profile. The
-- file holds decoded JSON; `repr` is `str` of a dictionary, and `now` the time of the write.
pub mod Roundtrip
use nautobot_docker_compose.Base.{
  ◌∷◌, false, ◌||◌, true, ◌==◌, nat_eq, none, list_eq, if◌then◌else◌, [], List, ◌++◌, some, Option,
  arith,
}
use nautobot_docker_compose.Base.Text.{is_empty, or_text, codes, Text}
use nautobot_docker_compose.Base.Sort.{text_le}
use nautobot_docker_compose.Slots.Context.{slot_slug, SlotSettings, SlotContext}
use nautobot_docker_compose.Secrets.Json.{
  raised, other, members_or_none, text, ◌>=>◌, object, member, returned, member_of, no_members,
  Outcome, Json, Members,
}
use nautobot_docker_compose.Slots.Profile.{VpnProfile}

-- There is no file, it cannot be read, or it holds a value.
pub data HostFile : Type 0 where
  absent unreadable : HostFile
  holds : Json → HostFile

slots_member : Option Json → Members
slots_member none = no_members
slots_member (some value) = members_or_none value

-- The slots: a payload that is no dictionary has no `get`.
unfoldable pub load_host_slot_state : HostFile → Outcome Members
unfolding slots_member
load_host_slot_state absent = returned no_members
load_host_slot_state unreadable = returned no_members
load_host_slot_state (holds (object payload)) =
    returned (slots_member (member_of (codes "slots") payload))
load_host_slot_state (holds (text payload)) = raised
load_host_slot_state (holds (other truth_value shown)) = raised

-- `sort_keys=True`, for the slots. No reader sees the order of the keys within one.
unfoldable pub insert_member : Text → Json → Members → Members
insert_member key value no_members = member key value no_members
insert_member key value (member k v rest) =
    let later = insert_member key value rest in
    if text_le key k then member key value (member k v rest) else member k v later

unfoldable pub sort_members : Members → Members
unfolding insert_member
sort_members no_members = no_members
sort_members (member k v rest) = insert_member k v (sort_members rest)

unfoldable pub save_host_slot_state : Members → HostFile
unfolding sort_members
save_host_slot_state slots =
    holds (object (member (codes "slots") (object (sort_members slots)) no_members))

-- `slots[key] = value` and `del slots[key]`
unfoldable pub set_member : Text → Json → Members → Members
set_member key value no_members = member key value no_members
set_member key value (member k v rest) =
    let later = set_member key value rest in
    if k == key then member k value rest else member k v later

unfoldable pub delete_member : Text → Members → Members
delete_member key no_members = no_members
delete_member key (member k v rest) =
    let later = delete_member key rest in if k == key then rest else member k v later

-- `asdict(profile)`
unfoldable pub profile_members : VpnProfile → Members
profile_members profile = member (codes "vpn_type") (text profile.vpn_type) (
    member (codes "vpn_client") (text profile.vpn_client) (
      member (codes "host") (text profile.host) (
        member (codes "port") (text profile.port) (
          member (codes "profile_name") (text profile.profile_name) (
            member (codes "usergroup") (text profile.usergroup) (
              member (codes "client_runtime") (text profile.client_runtime) (
                member (codes "worker_network_mode") (text profile.worker_network_mode)
                  no_members)))))))

unfoldable pub slot_record : Text → SlotContext → VpnProfile → Members
unfolding profile_members
slot_record now context profile = member (codes "customer") (text context.customer) (
    member (codes "slot") (text context.slug) (
      member (codes "queue_name") (text context.queue_name) (
        member (codes "project_name") (text context.project_name) (
          member (codes "worker_name_prefix") (text context.worker_name_prefix) (
            member (codes "profile") (object (profile_members profile))
              (member (codes "updated_at") (text now) no_members))))))

unfoldable pub record_host_slot : Text → SlotContext → VpnProfile → HostFile → Outcome HostFile
unfolding load_host_slot_state save_host_slot_state set_member slot_record
record_host_slot now context profile file = load_host_slot_state file >=> (λ slots. returned (
    save_host_slot_state
      (set_member context.slug (object (slot_record now context profile)) slots)))

-- The file after a deletion from these slots: it is written only if the slot is there.
unfoldable pub without_slot : Text → HostFile → Members → HostFile
unfolding delete_member save_host_slot_state
without_slot slug file slots = elim (member_of slug slots) [
  | none ↦ file
  | some value ↦ save_host_slot_state (delete_member slug slots)
]

unfoldable pub delete_host_slot : SlotContext → HostFile → Outcome HostFile
unfolding load_host_slot_state without_slot
delete_host_slot context file =
    load_host_slot_state file >=> (λ slots. returned (without_slot context.slug file slots))

module _ (repr : Members → Text) where
  -- `str(record.get(key) or default)`
  unfoldable pub shown_or : Option Json → Text → Text
  shown_or none default = default
  shown_or (some (text value)) default = or_text value default
  shown_or (some (object no_members)) default = default
  shown_or (some (object (member k v rest))) default = repr (member k v rest)
  shown_or (some (other true shown)) default = shown
  shown_or (some (other false shown)) default = default

  unfoldable pub field_or : Text → Members → Text → Text
  unfolding shown_or
  field_or key members default = shown_or (member_of key members) default

  -- `record.get("profile")` where it is a dictionary, else an empty one
  unfoldable pub raw_profile : Option Json → Members
  unfolding slots_member
  raw_profile none = no_members
  raw_profile (some value) = slots_member (member_of (codes "profile") (members_or_none value))

  unfoldable pub profile_of : Members → VpnProfile
  unfolding field_or
  profile_of members = record {
    vpn_type = field_or (codes "vpn_type") members (codes "cisco-anyconnect");
    vpn_client = field_or (codes "vpn_client") members (codes "cisco-secure-client");
    host = field_or (codes "host") members [];
    port = field_or (codes "port") members [];
    profile_name = field_or (codes "profile_name") members [];
    usergroup = field_or (codes "usergroup") members [];
    client_runtime = field_or (codes "client_runtime") members (codes "host");
    worker_network_mode = field_or (codes "worker_network_mode") members (codes "host");
  }

  unfoldable pub host_slot_profile : SlotContext → HostFile → Outcome VpnProfile
  unfolding load_host_slot_state raw_profile profile_of
  host_slot_profile context file =
      load_host_slot_state file
      >=> (λ slots. returned (profile_of (raw_profile (member_of context.slug slots))))

  module _ (lower sha1_hex : Text → Text) (settings : SlotSettings) where
    context_of : Members → Text → Text → SlotContext
    unfolding field_or
    context_of members customer slot = record {
      customer = customer;
      slug = slot;
      queue_name = field_or (codes "queue_name") members (codes "vpn-" ++ slot);
      project_name =
          field_or (codes "project_name") members (settings.project_prefix ++ (codes "-" ++ slot));
      worker_name_prefix = field_or (codes "worker_name_prefix") members (
          settings.worker_name_prefix
          ++ (codes "-" ++ (settings.node_name ++ (codes "-" ++ slot))));
    }

    add_context : Members → List SlotContext → List SlotContext
    unfolding field_or context_of
    add_context members contexts =
        let customer = field_or (codes "customer") members [] in
        let slot = field_or (codes "slot") members (slot_slug lower sha1_hex customer) in
        if is_empty customer || is_empty slot
        then contexts
        else context_of members customer slot ∷ contexts

    unfoldable pub contexts_of : Members → List SlotContext
    unfolding add_context
    contexts_of no_members = []
    contexts_of (member slug (object members) rest) = add_context members (contexts_of rest)
    contexts_of (member slug (text value) rest) = contexts_of rest
    contexts_of (member slug (other truth_value shown) rest) = contexts_of rest

    unfoldable pub host_slot_contexts : HostFile → Outcome (List SlotContext)
    unfolding load_host_slot_state contexts_of
    host_slot_contexts file = load_host_slot_state file >=> (λ slots. returned (contexts_of slots))
