-- ===== src/Reconcile/Names/Accepted.antt =====
-- The names that the job gives to queues are names that the control API accepts
-- (vpn/VPN_Control_API/app.py, `_tenant_slug_from_queue_name`).
use nautobot_docker_compose.Workers.Queues.Names.{
  queue_name_of-alias, queue_name_of_self, name_char, is_tenant_queue_slug-intro,
}
use nautobot_docker_compose.Reconcile.Names.{
  vpn_queue_prefix, remote_worker_queue_prefix, remote_worker_queue_name, named_or_id,
  tenant_queue_name, Tenant, dash_runs, squeeze_dashes, is_dash, tenant_queue_slug,
}
use nautobot_docker_compose.Base.{
  inl, some, ◌++◌, take, ◌≡◌, refl, Bool, true, false, [], ◌∷◌, ◌==◌, nat_eq, list_eq, all, arith,
}
use nautobot_docker_compose.Base.Text.{
  or_text, codes, is_slug_char, Text, strip, strip_by, is_empty,
}
use nautobot_docker_compose.Workers.Errors.{ok}
use nautobot_docker_compose.Workers.Queues.{queue_name_of, is_tenant_queue_slug}
use nautobot_docker_compose.Base.Text.Laws.{strip_by-clean, strip_by-all, clean_head, clean_last}

dash_runs-all : (in_run : Bool) (s : Text) → all name_char (dash_runs in_run s) ≡ true
unfolding dash_runs all name_char
dash_runs-all in_run [] = refl
dash_runs-all in_run (c ∷ s) = ground (arith, dash_runs-all true s, dash_runs-all false s)

squeeze_dashes-all :
    (after_dash : Bool) (s : Text)
    → all name_char s ≡ true
    → all name_char (squeeze_dashes after_dash s) ≡ true
unfolding squeeze_dashes all
squeeze_dashes-all after_dash [] h = refl
squeeze_dashes-all after_dash (c ∷ s) h = ground (arith, squeeze_dashes-all (c == b'-') s)

slug_of_clean :
    (s : Text)
    → all name_char s ≡ true
    → clean_head is_dash s ≡ true
    → clean_last is_dash s ≡ true
    → is_empty s ≡ false
    → is_tenant_queue_slug s ≡ true
unfolding is_dash
slug_of_clean [] h k l e = cc
slug_of_clean (c ∷ s) h k l e = is_tenant_queue_slug-intro c s h k l

-- The primary key is a UUID: its first eight characters are lower-case hexadecimal digits.
abbrev pub HasUuid : Tenant → Type 0
HasUuid tenant =
    (all is_slug_char (take 8 tenant.id) ≡ true) × (is_empty (take 8 tenant.id) ≡ false)

all-name_char : (s : Text) → all is_slug_char s ≡ true → all name_char s ≡ true
unfolding all name_char
all-name_char [] h = refl
all-name_char (c ∷ s) h = ground (arith, all-name_char s)

clean_last_of_all : (s : Text) → all is_slug_char s ≡ true → clean_last is_dash s ≡ true
unfolding all is_dash is_slug_char
clean_last_of_all [] h = refl
clean_last_of_all (c ∷ []) h = ground arith
clean_last_of_all (c ∷ d ∷ s) h = ground (arith, clean_last_of_all (d ∷ s))

id_slug-valid :
    (s : Text)
    → all is_slug_char s ≡ true
    → is_empty s ≡ false
    → is_tenant_queue_slug (codes "tenant-" ++ s) ≡ true
id_slug-valid [] h e = cc
id_slug-valid (c ∷ s) h e =
    slug_of_clean (codes "tenant-" ++ (c ∷ s))
      (unfold all name_char is_slug_char in all-name_char (c ∷ s) h) (unfold is_dash in refl)
      (clean_last_of_all (c ∷ s) h) refl

abbrev slug_or_id : Tenant → Text → Text
slug_or_id tenant [] = codes "tenant-" ++ take 8 tenant.id
slug_or_id tenant (c ∷ cs) = c ∷ cs

module _ (lower : Text → Text) where
  -- Whatever the tenant's name, the slug is empty or one that the control API's pattern matches.
  tenant_queue_slug-valid :
      (value : Text)
      → is_empty (tenant_queue_slug lower value) ≡ false
      → is_tenant_queue_slug (tenant_queue_slug lower value) ≡ true
  unfolding tenant_queue_slug
  tenant_queue_slug-valid value e =
      let s : Text = squeeze_dashes false (dash_runs false (lower (strip value))) in
      let (head_clean, last_clean) = strip_by-clean is_dash s in
      slug_of_clean (strip_by is_dash s)
        (strip_by-all is_dash name_char s (squeeze_dashes-all false _ (dash_runs-all false _)))
        head_clean last_clean e

  named_or_id-slug :
      (prefix slug : Text) (tenant : Tenant)
      → named_or_id prefix tenant slug ≡ prefix ++ slug_or_id tenant slug
  unfolding named_or_id
  named_or_id-slug prefix [] tenant = refl
  named_or_id-slug prefix (c ∷ slug) tenant = refl

  slug_or_id-valid :
      (tenant : Tenant) (slug : Text)
      → HasUuid tenant
      → (is_empty slug ≡ false → is_tenant_queue_slug slug ≡ true)
      → is_tenant_queue_slug (slug_or_id tenant slug) ≡ true
  slug_or_id-valid tenant [] (h, e) v = id_slug-valid (take 8 tenant.id) h e
  slug_or_id-valid tenant (c ∷ slug) u v = v refl

  -- For a tenant whose key is a UUID, whatever its name and slug, the control API accepts the name
  -- of the tenant's remote-worker queue as it stands.
  pub remote_name-accepted :
      (tenant : Tenant)
      → HasUuid tenant
      → queue_name_of true (remote_worker_queue_name lower tenant)
        ≡ ok (some (remote_worker_queue_name lower tenant))
  unfolding remote_worker_queue_name
  remote_name-accepted tenant u =
      let value = or_text tenant.slug tenant.name in
      let slug = slug_or_id tenant (tenant_queue_slug lower value) in
      rw (named_or_id-slug remote_worker_queue_prefix (tenant_queue_slug lower value) tenant) (
        queue_name_of_self true (remote_worker_queue_prefix ++ slug)
          (slug, slug_or_id-valid tenant _ u (tenant_queue_slug-valid value), inl refl))

  -- For a tenant whose key is a UUID and that has no slug of its own, whatever its name, the
  -- control API reads the name of the tenant's VPN queue as an alias of the tenant's remote-worker
  -- queue.
  pub vpn_name-alias :
      (tenant : Tenant)
      → HasUuid tenant
      → tenant.slug ≡ []
      → queue_name_of true (tenant_queue_name lower tenant)
        ≡ ok (some (remote_worker_queue_name lower tenant))
  unfolding tenant_queue_name remote_worker_queue_name
  vpn_name-alias tenant u none_of_its_own =
      let by_name = tenant_queue_slug lower tenant.name in
      rw none_of_its_own (
        rw
          (
            named_or_id-slug vpn_queue_prefix by_name tenant,
            named_or_id-slug remote_worker_queue_prefix by_name tenant,
          )
          (queue_name_of-alias (slug_or_id tenant by_name)
            (slug_or_id-valid tenant by_name u (tenant_queue_slug-valid tenant.name))))
