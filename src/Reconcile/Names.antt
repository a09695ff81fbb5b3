-- ===== src/Reconcile/Names.antt =====
-- Queue names: jobs/vpn_queue_reconciliation.py, from `_tenant_queue_slug` to
-- `_is_shms_managed_queue_name`. `lower` is `str.lower`.
pub mod Accepted
use nautobot_docker_compose.Base.{
  ℕ, zero, suc, Bool, true, false, ◌&&◌, ◌||◌, List, [], ◌∷◌, ◌++◌, ◌==◌, nat_eq, list_eq,
  if◌then◌else◌, contains, take,
}
use nautobot_docker_compose.Base.Text.{
  Text, codes, is_slug_char, drop_while, strip, strip_by, starts_with, is_empty, or_text,
}

abbrev pub vpn_queue_prefix : Text
vpn_queue_prefix = codes "vpn-"

abbrev pub vpn_legacy_queue : Text
vpn_legacy_queue = codes "vpn"

abbrev pub vpn_generic_queue : Text
vpn_generic_queue = codes "vpn-generic"

abbrev pub remote_worker_queue_prefix : Text
remote_worker_queue_prefix = codes "remote-worker-"

abbrev pub remote_worker_generic_queue : Text
remote_worker_generic_queue = codes "remote-worker-generic"

abbrev pub central_writer_queue : Text
central_writer_queue = codes "central-writer"

-- `re.sub(r"[^a-z0-9]+", "-", value)`: each maximal run of other characters becomes one dash. The
-- flag says that the character before was in such a run.
unfoldable pub dash_runs : Bool → Text → Text
dash_runs in_run [] = []
dash_runs in_run (c ∷ cs) =
    let rest = dash_runs (if is_slug_char c then false else true) cs in
    if is_slug_char c then c ∷ rest else if in_run then rest else b'-' ∷ rest

-- `re.sub(r"-{2,}", "-", value)`
unfoldable pub squeeze_dashes : Bool → Text → Text
squeeze_dashes after_dash [] = []
squeeze_dashes after_dash (c ∷ cs) =
    let rest = squeeze_dashes (c == b'-') cs in if after_dash && c == b'-' then rest else c ∷ rest

unfoldable pub is_dash : ℕ → Bool
is_dash c = c == b'-'

pub record Tenant : Type 0 where
  pub id : Text
  pub name : Text
  -- empty where the model has no such field
  pub slug : Text

-- A prefix and a slug, or a part of the primary key where the name leaves no slug.
unfoldable pub named_or_id : Text → Tenant → Text → Text
named_or_id prefix tenant [] = prefix ++ (codes "tenant-" ++ take 8 tenant.id)
named_or_id prefix tenant (c ∷ cs) = prefix ++ (c ∷ cs)

module _ (lower : Text → Text) where
  unfoldable pub tenant_queue_slug : Text → Text
  unfolding dash_runs squeeze_dashes is_dash
  tenant_queue_slug value =
      strip_by is_dash (squeeze_dashes false (dash_runs false (lower (strip value))))

  unfoldable pub tenant_queue_name : Tenant → Text
  unfolding named_or_id tenant_queue_slug
  tenant_queue_name tenant = named_or_id vpn_queue_prefix tenant (tenant_queue_slug tenant.name)

  unfoldable pub remote_worker_queue_name : Tenant → Text
  unfolding named_or_id tenant_queue_slug
  remote_worker_queue_name tenant =
      named_or_id remote_worker_queue_prefix tenant
        (tenant_queue_slug (or_text tenant.slug tenant.name))

unfoldable pub is_shms_managed_queue_name : Text → Bool
is_shms_managed_queue_name queue_name =
    contains
      (vpn_legacy_queue ∷ vpn_generic_queue ∷ remote_worker_generic_queue ∷ central_writer_queue
        ∷ [])
      queue_name
    || starts_with queue_name vpn_queue_prefix
    || starts_with queue_name remote_worker_queue_prefix
