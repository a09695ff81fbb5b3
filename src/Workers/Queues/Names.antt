-- ===== src/Workers/Queues/Names.antt =====
-- Valid queue names: what `queue_name_of` (a step of `normalize_remote_queue_names`) accepts.
use nautobot_docker_compose.Base.{
  ℕ, ◌≡◌, refl, ◌⊎◌, inl, inr, Bool, true, false, ◌&&◌, ◌||◌, none, some, [], ◌∷◌, ◌++◌, ◌==◌,
  nat_eq, list_eq, if◌then◌else◌, Bool-cases, Option-cases, all, arith, ap, sym, ◌∙◌,
  some-injective, none-ne-some, all-append,
}
use nautobot_docker_compose.Base.Text.{Text, is_slug_char, is_space, strip, strip_prefix?, is_empty}
use nautobot_docker_compose.Base.Text.Laws.{
  clean_head, clean_last, strip_by-eq_of_all, strip_prefix?-append, eq-append_of_strip_prefix?,
}
use nautobot_docker_compose.Workers.Errors.{Result, ok, err, ok-injective, ◌>>=◌}
use nautobot_docker_compose.Workers.Queues.{
  remote_worker_queue_prefix, legacy_vpn_queue_prefix, ends_in_slug_char, slug_run,
  is_tenant_queue_slug, tenant_slug_of, tenant_slug_from_queue_name, remote_worker_queue_name,
  queue_name_of,
}

-- A remote worker's queue, or, where aliases are kept, a legacy `vpn-` queue.
abbrev pub IsQueueName : Bool → Text → Type 0
IsQueueName canonicalize name =
    (slug : Text) × (is_tenant_queue_slug slug ≡ true)
    × ((name ≡ remote_worker_queue_prefix ++ slug)
        ⊎ ((canonicalize ≡ false) × (name ≡ legacy_vpn_queue_prefix ++ slug)))

unfoldable pub name_char : ℕ → Bool
name_char c = is_slug_char c || c == b'-'

name_char-not-space : (c : ℕ) → name_char c ≡ true → is_space c ≡ false
unfolding name_char is_slug_char is_space
name_char-not-space c h = ground arith

ends_in_slug_char-all : (s : Text) → ends_in_slug_char s ≡ true → all name_char s ≡ true
unfolding ends_in_slug_char all name_char
ends_in_slug_char-all [] h = refl
ends_in_slug_char-all (c ∷ []) h = ground arith
ends_in_slug_char-all (c ∷ d ∷ s) h = ground (arith, ends_in_slug_char-all (d ∷ s))

slug_run-all : (s : Text) → slug_run s ≡ true → all name_char s ≡ true
unfolding slug_run all name_char
slug_run-all [] h = refl
slug_run-all (c ∷ s) h = ground (arith, slug_run-all s, ends_in_slug_char-all s)

is_tenant_queue_slug-all : (s : Text) → is_tenant_queue_slug s ≡ true → all name_char s ≡ true
unfolding is_tenant_queue_slug all name_char
is_tenant_queue_slug-all [] h = refl
is_tenant_queue_slug-all (c ∷ s) h = ground (arith, slug_run-all s)

-- A valid name has no space to strip.
strip-prefixed :
    (p s : Text) → all name_char p ≡ true → is_tenant_queue_slug s ≡ true → strip (p ++ s) ≡ p ++ s
unfolding strip
strip-prefixed p s hp hs =
    strip_by-eq_of_all is_space name_char (p ++ s) name_char-not-space
      (rw (all-append name_char p s, hp, is_tenant_queue_slug-all s hs))

slug_of_remote :
    (s : Text)
    → is_tenant_queue_slug s ≡ true
    → tenant_slug_from_queue_name (remote_worker_queue_prefix ++ s) true ≡ ok (s, false)
unfolding tenant_slug_from_queue_name
slug_of_remote s h =
    rw (strip_prefix?-append remote_worker_queue_prefix s, tenant_slug_from_queue_name) (rw h)

remote_ne_legacy :
    (s : Text) → strip_prefix? remote_worker_queue_prefix (legacy_vpn_queue_prefix ++ s) ≡ none
unfolding strip_prefix?
remote_ne_legacy s = refl

slug_of_legacy :
    (s : Text)
    → is_tenant_queue_slug s ≡ true
    → tenant_slug_from_queue_name (legacy_vpn_queue_prefix ++ s) true ≡ ok (s, true)
unfolding tenant_slug_from_queue_name
slug_of_legacy s h =
    rw
      (
        remote_ne_legacy s,
        strip_prefix?-append legacy_vpn_queue_prefix s,
        tenant_slug_from_queue_name,
      )
      (rw h)

-- A valid name stands for itself.
pub queue_name_of_self :
    (canonicalize : Bool) (name : Text)
    → IsQueueName canonicalize name
    → queue_name_of canonicalize name ≡ ok (some name)
unfolding queue_name_of
queue_name_of_self canonicalize name (slug, h, inl e) = rw e (
    rw
      (strip-prefixed remote_worker_queue_prefix slug (unfold all name_char is_slug_char in refl) h)
      (rw (slug_of_remote slug h)))
queue_name_of_self canonicalize name (slug, h, inr (c, e)) =
    rw (e, c)
      (rw
        (strip-prefixed legacy_vpn_queue_prefix slug (unfold all name_char is_slug_char in refl) h)
        (rw (slug_of_legacy slug h)))

tenant_slug_of-inverse :
    (queue_name s : Text) (is_legacy : Bool) {slug : Text} {legacy : Bool}
    → tenant_slug_of queue_name s is_legacy ≡ ok (slug, legacy)
    → (is_tenant_queue_slug s ≡ true) × (s ≡ slug) × (is_legacy ≡ legacy)
unfolding tenant_slug_of
tenant_slug_of-inverse queue_name s is_legacy h = ground arith

-- The slug that is found is valid, and the name is a prefix and that slug.
pub tenant_slug_from_queue_name-inverse :
    (queue_name : Text) {slug : Text} {legacy : Bool}
    → tenant_slug_from_queue_name queue_name true ≡ ok (slug, legacy)
    → (is_tenant_queue_slug slug ≡ true)
      × (((legacy ≡ false) × (queue_name ≡ remote_worker_queue_prefix ++ slug))
          ⊎ ((legacy ≡ true) × (queue_name ≡ legacy_vpn_queue_prefix ++ slug)))
unfolding tenant_slug_from_queue_name
tenant_slug_from_queue_name-inverse queue_name {slug} {legacy} h =
    elim (Option-cases (strip_prefix? remote_worker_queue_prefix queue_name)) [
      | inl e ↦ elim (Option-cases (strip_prefix? legacy_vpn_queue_prefix queue_name)) [
        | inl f ↦ cc (rw (e, f, tenant_slug_from_queue_name) at h)
        | inr (r, f) ↦
            let (valid, same, kind) =
              tenant_slug_of-inverse queue_name r true
                (rw (e, f, tenant_slug_from_queue_name) at h) in
            let at_slug = eq-append_of_strip_prefix? legacy_vpn_queue_prefix queue_name f in
            (rw (← same) valid, inr (sym kind, at_slug ∙ ap (◌++◌ legacy_vpn_queue_prefix) same))
      ]
      | inr (r, e) ↦
          let (valid, same, kind) =
            tenant_slug_of-inverse queue_name r false (rw (e, tenant_slug_from_queue_name) at h) in
          let at_slug = eq-append_of_strip_prefix? remote_worker_queue_prefix queue_name e in
          (rw (← same) valid, inl (sym kind, at_slug ∙ ap (◌++◌ remote_worker_queue_prefix) same))
    ]

IsQueueName-of-found :
    (canonicalize legacy : Bool) (value slug : Text) {name : Text}
    → (if legacy && canonicalize then remote_worker_queue_name slug else value) ≡ name
    → (is_tenant_queue_slug slug ≡ true)
      × (((legacy ≡ false) × (value ≡ remote_worker_queue_prefix ++ slug))
          ⊎ ((legacy ≡ true) × (value ≡ legacy_vpn_queue_prefix ++ slug)))
    → IsQueueName canonicalize name
unfolding remote_worker_queue_name
IsQueueName-of-found canonicalize legacy value slug same (valid, inl (k, e)) =
    (slug, valid, inl (sym (rw k at same) ∙ e))
IsQueueName-of-found true legacy value slug same (valid, inr (k, e)) =
    (slug, valid, inl (sym (rw k at same)))
IsQueueName-of-found false legacy value slug same (valid, inr (k, e)) =
    (slug, valid, inr (refl, sym (rw k at same) ∙ e))

value_of-IsQueueName :
    (canonicalize : Bool) (value : Text) {name : Text} (r : Result (Text × Bool))
    → tenant_slug_from_queue_name value true ≡ r
    → (r >>= λ (slug, is_legacy).
        ok (some (if is_legacy && canonicalize then remote_worker_queue_name slug else value)))
      ≡ ok (some name)
    → IsQueueName canonicalize name
value_of-IsQueueName canonicalize value (ok (slug, legacy)) e h =
    IsQueueName-of-found canonicalize legacy value slug (some-injective _ _ (ok-injective h))
      (tenant_slug_from_queue_name-inverse value e)
value_of-IsQueueName canonicalize value (err x) e h = cc

-- Whatever is accepted is a valid name.
pub queue_name_of-IsQueueName :
    (canonicalize : Bool) (value : Text) {name : Text}
    → queue_name_of canonicalize value ≡ ok (some name)
    → IsQueueName canonicalize name
unfolding queue_name_of
queue_name_of-IsQueueName canonicalize value {name} h = elim (Bool-cases (is_empty (strip value))) [
  | inl e ↦ absurd (none-ne-some name (ok-injective (rw e at h)))
  | inr e ↦ value_of-IsQueueName canonicalize (strip value) _ refl (rw e at h)
]

-- A legacy alias stands for the remote worker's queue of the same slug, where aliases are replaced.
pub queue_name_of-alias :
    (s : Text)
    → is_tenant_queue_slug s ≡ true
    → queue_name_of true (legacy_vpn_queue_prefix ++ s)
      ≡ ok (some (remote_worker_queue_prefix ++ s))
unfolding queue_name_of remote_worker_queue_name
queue_name_of-alias s h =
    rw (strip-prefixed legacy_vpn_queue_prefix s (unfold all name_char is_slug_char in refl) h)
      (rw (slug_of_legacy s h))

-- What makes a slug: its characters, and that it neither begins nor ends with a dash.
first-slug :
    (c : ℕ) (s : Text)
    → all name_char (c ∷ s) ≡ true
    → clean_head (λ c. c == b'-') (c ∷ s) ≡ true
    → is_slug_char c ≡ true
unfolding all name_char
first-slug c s h k = ground arith

ends_in_slug_char-intro :
    (c : ℕ) (s : Text)
    → all name_char (c ∷ s) ≡ true
    → clean_last (λ c. c == b'-') (c ∷ s) ≡ true
    → ends_in_slug_char (c ∷ s) ≡ true
unfolding all name_char ends_in_slug_char
ends_in_slug_char-intro c [] h k = ground arith
ends_in_slug_char-intro c (d ∷ s) h k = ground (arith, ends_in_slug_char-intro d s)

slug_run-intro :
    (c : ℕ) (s : Text)
    → all name_char (c ∷ s) ≡ true
    → clean_last (λ c. c == b'-') (c ∷ s) ≡ true
    → slug_run s ≡ true
unfolding all name_char slug_run ends_in_slug_char
slug_run-intro c [] h k = refl
slug_run-intro c (d ∷ []) h k = ground arith
slug_run-intro c (d ∷ e ∷ s) h k =
    ground (arith, slug_run-intro d (e ∷ s), ends_in_slug_char-intro e s)

pub is_tenant_queue_slug-intro :
    (c : ℕ) (s : Text)
    → all name_char (c ∷ s) ≡ true
    → clean_head (λ c. c == b'-') (c ∷ s) ≡ true
    → clean_last (λ c. c == b'-') (c ∷ s) ≡ true
    → is_tenant_queue_slug (c ∷ s) ≡ true
unfolding is_tenant_queue_slug
is_tenant_queue_slug-intro c s h k l = ground (arith, slug_run-intro c s h l, first-slug c s h k)
