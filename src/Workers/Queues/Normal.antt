-- ===== src/Workers/Queues/Normal.antt =====
-- `normalize_remote_queue_names` against a definition by mapping and removal of duplicates.
use nautobot_docker_compose.Base.{
  ◌≡◌, refl, inl, inr, Bool, true, false, Option, none, some, List, [], ◌∷◌, nat_eq, list_eq,
  distinct, All, ap, sym, ◌∙◌, keep, Bool-cases,
}
use mathlib.Core.Path.{subst, fun_ext}
use nautobot_docker_compose.Base.Dedupe.{
  dedupe_onto, dedupe-firsts, firsts, firsts-eq_of_distinct, firsts-distinct,
}
use nautobot_docker_compose.Base.Text.{Text}
use nautobot_docker_compose.Workers.Errors.{
  Result, ok, err, ok-injective, ◌>>=◌, bind-eq-ok, bind-bind,
}
use nautobot_docker_compose.Workers.Queues.{
  queue_name_of, append_name, normalize_loop, normalize_remote_queue_names,
}
use nautobot_docker_compose.Workers.Queues.Names.{
  IsQueueName, queue_name_of_self, queue_name_of-IsQueueName,
}

abbrev add_name : Option Text → List Text → List Text
add_name none names = names
add_name (some name) names = name ∷ names

-- The names of all values, blank ones left out, repeated ones not.
unfoldable pub queue_names : Bool → List Text → Result (List Text)
queue_names canonicalize [] = ok []
queue_names canonicalize (value ∷ values) = do
  name ← queue_name_of canonicalize value
  names ← queue_names canonicalize values
  ok (add_name name names)

loop_step :
    (r : Result (List Text)) (seen : List Text) (name : Option Text)
    → (r >>= λ names. ok (dedupe_onto (append_name seen name) names))
      ≡ ((r >>= λ names. ok (add_name name names)) >>= λ names. ok (dedupe_onto seen names))
unfolding append_name dedupe_onto
loop_step (ok names) seen none = refl
loop_step (ok names) seen (some name) = refl
loop_step (err e) seen name = refl

normalize_loop-eq :
    (canonicalize : Bool) (seen values : List Text)
    → normalize_loop canonicalize seen values
      ≡ (queue_names canonicalize values >>= λ names. ok (dedupe_onto seen names))
unfolding normalize_loop queue_names dedupe_onto
normalize_loop-eq canonicalize seen [] = refl
normalize_loop-eq canonicalize seen (value ∷ values) =
    bind-bind (queue_name_of canonicalize value) _ _ _ λ name.
      normalize_loop-eq canonicalize (append_name seen name) values
      ∙ loop_step (queue_names canonicalize values) seen name

-- The loop with its `seen` set returns the first occurrence of each name, in order, and raises
-- what the first value that is no queue name raises.
pub normalize-firsts :
    (canonicalize : Bool) (values : List Text)
    → normalize_remote_queue_names canonicalize values
      ≡ (queue_names canonicalize values >>= λ names. ok (firsts names))
unfolding normalize_remote_queue_names
normalize-firsts canonicalize values =
    normalize_loop-eq canonicalize [] values
    ∙ ap (λ f. queue_names canonicalize values >>= f) (fun_ext λ names. ap ok (dedupe-firsts names))

-- A list of valid names without repetition.
pub record IsNormal (canonicalize : Bool) (names : List Text) : Type 0 where
  pub valid : All (IsQueueName canonicalize) names
  pub once : distinct names ≡ true

add_name-All :
    (canonicalize : Bool) (value : Text) (name : Option Text) (names : List Text)
    → queue_name_of canonicalize value ≡ ok name
    → All (IsQueueName canonicalize) names
    → All (IsQueueName canonicalize) (add_name name names)
add_name-All canonicalize value none names e h = h
add_name-All canonicalize value (some name) names e h =
    (queue_name_of-IsQueueName canonicalize value e, h)

queue_names-All :
    (canonicalize : Bool) (values : List Text) {names : List Text}
    → queue_names canonicalize values ≡ ok names
    → All (IsQueueName canonicalize) names
unfolding queue_names
queue_names-All canonicalize [] h = subst (All (IsQueueName canonicalize)) (ok-injective h) tt
queue_names-All canonicalize (value ∷ values) h =
    let (name, e, h') = bind-eq-ok (queue_name_of canonicalize value) _ h in
    let (names, e', h'') = bind-eq-ok (queue_names canonicalize values) _ h' in
    subst (All (IsQueueName canonicalize)) (ok-injective h'')
      (add_name-All canonicalize value name names e (queue_names-All canonicalize values e'))

keep-All :
    (P : Text → Type 0) (p : Text → Bool) (names : List Text) → All P names → All P (keep p names)
unfolding keep
keep-All P p [] h = tt
keep-All P p (name ∷ names) (h, hs) = elim (Bool-cases (p name)) [
  | inl e ↦ rw e (h, keep-All P p names hs)
  | inr e ↦ rw e (keep-All P p names hs)
]

firsts-All : (P : Text → Type 0) (names : List Text) → All P names → All P (firsts names)
unfolding firsts
firsts-All P [] h = tt
firsts-All P (name ∷ names) (h, hs) = (h, keep-All P _ (firsts names) (firsts-All P names hs))

-- What is returned is in normal form.
pub normalize-IsNormal :
    (canonicalize : Bool) (values : List Text) {names : List Text}
    → normalize_remote_queue_names canonicalize values ≡ ok names
    → IsNormal canonicalize names
normalize-IsNormal canonicalize values {names} h =
    let (all_names, e, h') =
      bind-eq-ok (queue_names canonicalize values) _
        (sym (normalize-firsts canonicalize values) ∙ h) in
    subst (IsNormal canonicalize) (ok-injective h') (record {
      valid = firsts-All _ all_names (queue_names-All canonicalize values e);
      once = firsts-distinct all_names;
    })

queue_names_self :
    (canonicalize : Bool) (names : List Text)
    → All (IsQueueName canonicalize) names
    → queue_names canonicalize names ≡ ok names
unfolding queue_names
queue_names_self canonicalize [] h = refl
queue_names_self canonicalize (name ∷ names) (h, hs) =
    rw (queue_name_of_self canonicalize name h) (rw (queue_names_self canonicalize names hs))

-- A list in normal form is returned as it is.
pub normalize_self :
    (canonicalize : Bool) (names : List Text)
    → IsNormal canonicalize names
    → normalize_remote_queue_names canonicalize names ≡ ok names
normalize_self canonicalize names h =
    rw (normalize-firsts canonicalize names)
      (rw (queue_names_self canonicalize names h.valid) (rw (firsts-eq_of_distinct names h.once)))

-- Canonical names are also names where aliases are kept.
pub IsNormal-weaken : (names : List Text) → IsNormal true names → IsNormal false names
IsNormal-weaken names h = record { valid = weaken names h.valid; once = h.once }
  where
    weaken : (names : List Text) → All (IsQueueName true) names → All (IsQueueName false) names
    weaken [] h = tt
    weaken (name ∷ names) ((slug, v, inl e), hs) = ((slug, v, inl e), weaken names hs)
    weaken (name ∷ names) ((slug, v, inr (k, e)), hs) = cc

-- What is returned is a list of valid names without repetition, and normalising it again returns
-- it unchanged.
pub normalize_idem :
    (canonicalize : Bool) (values : List Text) {names : List Text}
    → normalize_remote_queue_names canonicalize values ≡ ok names
    → IsNormal canonicalize names × (normalize_remote_queue_names canonicalize names ≡ ok names)
normalize_idem canonicalize values {names} h =
    let normal = normalize-IsNormal canonicalize values h in
    (normal, normalize_self canonicalize names normal)
