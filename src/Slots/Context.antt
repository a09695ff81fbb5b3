-- ===== src/Slots/Context.antt =====
-- `_slot_slug` and `slot_context` of vpn/VPN_Control_API/app.py. `lower` is `str.lower`, `sha1_hex`
-- the digest of `hashlib`; the prefixes and the node name are environment settings. No context
-- stands for the error 400.
use nautobot_docker_compose.Base.{
  ◌≡◌, refl, ap, false, Option, none, some, [], ◌∷◌, ◌++◌, if◌then◌else◌, take,
}
use nautobot_docker_compose.Base.Text.{Text, codes, strip, strip_by, is_empty, or_text}
use nautobot_docker_compose.Base.Text.Laws.{strip_idem}
use nautobot_docker_compose.Reconcile.Names.{
  Tenant, dash_runs, squeeze_dashes, is_dash, named_or_id, tenant_queue_slug, tenant_queue_name,
}

pub record SlotSettings : Type 0 where
  pub project_prefix : Text
  pub worker_name_prefix : Text
  pub node_name : Text

pub record SlotContext : Type 0 where
  pub customer : Text
  pub slug : Text
  pub queue_name : Text
  pub project_name : Text
  pub worker_name_prefix : Text

-- The queue of a context.
abbrev pub queue_of : Option SlotContext → Option Text
queue_of none = none
queue_of (some context) = some context.queue_name

module _ (lower sha1_hex : Text → Text) where
  slug_value : Text → Text
  slug_value value = strip_by is_dash (squeeze_dashes false (dash_runs false (lower (strip value))))

  -- The digest is taken of `value or "tenant"`, where `value` is empty.
  slug_or_digest : Text → Text
  slug_or_digest [] = codes "tenant-" ++ take 8 (sha1_hex (or_text [] (codes "tenant")))
  slug_or_digest (c ∷ value) = c ∷ value

  unfoldable pub slot_slug : Text → Text
  unfolding slug_value slug_or_digest
  slot_slug value = slug_or_digest (slug_value value)

  unfoldable pub slot_context : SlotSettings → Text → Option SlotContext
  slot_context settings customer =
      let name = strip customer in
      if is_empty name
      then none
      else some (record {
        customer = name;
        slug = slot_slug name;
        queue_name = codes "vpn-" ++ slot_slug name;
        project_name = settings.project_prefix ++ (codes "-" ++ slot_slug name);
        worker_name_prefix =
            settings.worker_name_prefix
            ++ (codes "-" ++ (settings.node_name ++ (codes "-" ++ slot_slug name)));
      })

  slug_value-strip : (value : Text) → slug_value (strip value) ≡ tenant_queue_slug lower value
  unfolding slug_value tenant_queue_slug
  slug_value-strip value = rw (strip_idem value)

  same_name :
      (slug : Text) (tenant : Tenant)
      → is_empty slug ≡ false
      → codes "vpn-" ++ slug_or_digest slug ≡ named_or_id (codes "vpn-") tenant slug
  unfolding slug_or_digest named_or_id
  same_name [] tenant h = cc
  same_name (c ∷ slug) tenant h = refl

  -- Where the tenant's name leaves a slug, the slot of a customer of that name, blanks around it
  -- or not, has the queue that the reconciliation job names for the tenant.
  pub slot_queue-agrees :
      (settings : SlotSettings) (tenant : Tenant)
      → is_empty (strip tenant.name) ≡ false
      → is_empty (tenant_queue_slug lower tenant.name) ≡ false
      → queue_of (slot_context settings tenant.name) ≡ some (tenant_queue_name lower tenant)
  unfolding slot_context slot_slug tenant_queue_name
  slot_queue-agrees settings tenant named slugged =
      rw (named, slug_value-strip tenant.name)
        (ap some (same_name (tenant_queue_slug lower tenant.name) tenant slugged))
