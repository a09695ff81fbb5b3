-- ===== src/Workers/Queues.antt =====
-- Queue names of remote workers: vpn/VPN_Control_API/app.py, `_tenant_slug_from_queue_name` and
-- `normalize_remote_queue_names`.
pub mod Names
pub mod Normal
use nautobot_docker_compose.Base.{
  Bool, true, false, ◌&&◌, ◌||◌, Option, none, some, List, [], ◌∷◌, ◌++◌, ◌==◌, nat_eq, list_eq,
  if◌then◌else◌, contains,
}
use nautobot_docker_compose.Base.Dedupe.{append_new}
use nautobot_docker_compose.Base.Text.{Text, codes, is_slug_char, strip, strip_prefix?, is_empty}
use nautobot_docker_compose.Workers.Errors.{Result, ok, err, invalid_queue_name, ◌>>=◌}

abbrev pub remote_worker_queue_prefix : Text
remote_worker_queue_prefix = codes "remote-worker-"

abbrev pub legacy_vpn_queue_prefix : Text
legacy_vpn_queue_prefix = codes "vpn-"

-- `TENANT_QUEUE_SLUG_RE.fullmatch`: `[a-z0-9]+`, then nothing or `-[a-z0-9-]*[a-z0-9]`. The first
-- run is greedy and a dash is not in its class, so the group begins at the first dash.
ends_in_slug_char : Text → Bool
ends_in_slug_char [] = false
ends_in_slug_char (c ∷ []) = is_slug_char c
ends_in_slug_char (c ∷ d ∷ cs) = (is_slug_char c || c == b'-') && ends_in_slug_char (d ∷ cs)

slug_run : Text → Bool
slug_run [] = true
slug_run (c ∷ cs) =
    let more = slug_run cs in if is_slug_char c then more else (c == b'-') && ends_in_slug_char cs

unfoldable pub is_tenant_queue_slug : Text → Bool
unfolding slug_run ends_in_slug_char is_slug_char
is_tenant_queue_slug [] = false
is_tenant_queue_slug (c ∷ cs) = is_slug_char c && slug_run cs

-- The slug of a queue name, and whether the name is a legacy `vpn-` alias.
tenant_slug_of : Text → Text → Bool → Result (Text × Bool)
tenant_slug_of queue_name slug is_legacy =
    if is_tenant_queue_slug slug then ok (slug, is_legacy) else err (invalid_queue_name queue_name)

unfoldable pub tenant_slug_from_queue_name : Text → Bool → Result (Text × Bool)
unfolding tenant_slug_of
tenant_slug_from_queue_name queue_name allow_legacy_vpn_alias =
    elim (strip_prefix? remote_worker_queue_prefix queue_name) [
      | some slug ↦ tenant_slug_of queue_name slug false
      | none ↦
          elim (if allow_legacy_vpn_alias
            then strip_prefix? legacy_vpn_queue_prefix queue_name
            else none) [
              | some slug ↦ tenant_slug_of queue_name slug true
              | none ↦ err (invalid_queue_name queue_name)
            ]
    ]

unfoldable pub remote_worker_queue_name : Text → Text
remote_worker_queue_name slug = remote_worker_queue_prefix ++ slug

-- The name that one value of a request stands for; `none` for a blank value, which is dropped.
unfoldable pub queue_name_of : Bool → Text → Result (Option Text)
queue_name_of canonicalize raw_value =
    let value = strip raw_value in
    if is_empty value then ok none else do
      (slug, is_legacy) ← tenant_slug_from_queue_name value true
      ok (some (if is_legacy && canonicalize then remote_worker_queue_name slug else value))

append_name : List Text → Option Text → List Text
append_name normalized none = normalized
append_name normalized (some value) = append_new normalized value

-- A name that was seen is skipped; `normalized` is also the set `seen`.
normalize_loop : Bool → List Text → List Text → Result (List Text)
normalize_loop canonicalize normalized [] = ok normalized
normalize_loop canonicalize normalized (raw_value ∷ values) = do
  name ← queue_name_of canonicalize raw_value
  normalize_loop canonicalize (append_name normalized name) values

unfoldable pub normalize_remote_queue_names : Bool → List Text → Result (List Text)
unfolding normalize_loop queue_name_of append_name
normalize_remote_queue_names canonicalize values = normalize_loop canonicalize [] values
