-- ===== src/Matrix/Validation/Laws.antt =====
-- When a row of services/validation.py is free of blockers, and what the exchange of its ends
-- changes.
use nautobot_docker_compose.Base.{
  sym, ◌∷◌, list_beq_iff, refl, inr, inl, Option-cases, contains, true, ◌≢◌, not, false, [], none,
  ◌&&◌, some, Bool, ◌≡◌, ◌↔◌, all, List, Option, arith, nat_eq, list_eq,
}
use nautobot_docker_compose.Matrix.Rows.{swap_plan_endpoints, Interface, Device, ConnectionPlan}
use nautobot_docker_compose.Matrix.Validation.{
  blocker_tests, validate_plan_row, device_id, interface_id, key_pair, is_reserved, endpoint_b,
  is_cabled, is_given, endpoint_a, is_same_endpoint, messages, endpoint_key,
}
use nautobot_docker_compose.Base.Text.{or_text, is_empty, Text}

-- An object of the database has a key that is not empty.
abbrev DeviceHasId : Option Device → Type 0
DeviceHasId none = Unit
DeviceHasId (some device) = is_empty device.id ≡ false

abbrev InterfaceHasId : Option Interface → Type 0
InterfaceHasId none = Unit
InterfaceHasId (some interface) = is_empty interface.id ≡ false

abbrev pub HasIds : ConnectionPlan → Type 0
HasIds plan =
    DeviceHasId plan.device_a
    × DeviceHasId plan.device_b
    × InterfaceHasId plan.interface_a
    × InterfaceHasId plan.interface_b

-- An interface, where the row refers to one, has no cable and is not reserved.
abbrev pub IsFree : List Text → Option Interface → Type 0
IsFree reserved none = Unit
IsFree reserved (some interface) =
    (interface.cable ≡ none) × (contains reserved interface.id ≡ false)

-- The row names two different ends, and both are free.
abbrev pub IsSound : List Text → ConnectionPlan → Type 0
IsSound reserved plan =
    (a : Text × Text) × (b : Text × Text) × (endpoint_a plan ≡ some a)
    × (endpoint_b plan ≡ some b)
    × (a ≢ b)
    × IsFree reserved plan.interface_a
    × IsFree reserved plan.interface_b

messages-none :
    (tests : List (Bool × Text)) → (messages tests ≡ []) ↔ (all (λ t. not t.0) tests ≡ true)
unfolding messages all
messages-none [] = (λ h. refl, λ h. refl)
messages-none ((test, message) ∷ rest) = ground (arith, messages-none rest)

is_free :
    (reserved : List Text) (interface : Option Interface)
    → IsFree reserved interface
      ↔ ((is_cabled interface ≡ false) × (is_reserved reserved interface ≡ false))
is_free reserved none = (λ h. (refl, refl), λ h. tt)
is_free reserved (some interface) = elim (Option-cases interface.cable) [
  | inl e ↦ rw e (λ h. (refl, h.1), λ h. (refl, h.1))
  | inr (cable, e) ↦ rw e (λ h. ground arith, λ h. ground arith)
]

or_text-is_empty : (s d : Text) → is_empty s ≡ false → is_empty (or_text s d) ≡ false
or_text-is_empty [] d h = cc
or_text-is_empty (c ∷ cs) d h = refl

device_key-is_given :
    (device : Option Device) (name : Text)
    → DeviceHasId device
    → is_given device name ≡ not (is_empty (or_text (device_id device) name))
device_key-is_given none name h = refl
device_key-is_given (some device) name h = rw (or_text-is_empty device.id name h)

interface_key-is_given :
    (interface : Option Interface) (name : Text)
    → InterfaceHasId interface
    → is_given interface name ≡ not (is_empty (or_text (interface_id interface) name))
interface_key-is_given none name h = refl
interface_key-is_given (some interface) name h = rw (or_text-is_empty interface.id name h)

key_pair-some :
    (x y : Text)
    → ((not (is_empty x) && not (is_empty y)) ≡ true)
      ↔ ((key : Text × Text) × (key_pair x y ≡ some key))
key_pair-some [] y = (λ h. cc, λ h. cc)
key_pair-some (c ∷ cs) [] = (λ h. cc, λ h. cc)
key_pair-some (c ∷ cs) (d ∷ ds) = (λ h. (((c ∷ cs), (d ∷ ds)), refl), λ h. refl)

-- An end with a device and an interface has a key, and only such an end.
endpoint_key-is_given :
    (device : Option Device) (device_name : Text) (interface : Option Interface)
    (interface_name : Text)
    → DeviceHasId device
    → InterfaceHasId interface
    → ((is_given device device_name && is_given interface interface_name) ≡ true) ↔ (
        (key : Text × Text) × (endpoint_key device device_name interface interface_name ≡ some key))
unfolding endpoint_key
endpoint_key-is_given device device_name interface interface_name hd hi =
    rw
      (
        device_key-is_given device device_name hd,
        interface_key-is_given interface interface_name hi,
      )
      (key_pair-some _ _)

is_same_endpoint_iff : (a b : Text × Text) → (is_same_endpoint (some a) (some b) ≡ false) ↔ (a ≢ b)
is_same_endpoint_iff a b = ground (arith, list_beq_iff (a.0) (b.0), list_beq_iff (a.1) (b.1))

blockers-tests :
    (reserved : List Text) (plan : ConnectionPlan)
    → ((validate_plan_row reserved plan).blockers ≡ []) ↔ (
        ((is_given plan.device_a plan.device_a_name
            && is_given plan.interface_a plan.interface_a_name)
          ≡ true)
        × ((is_given plan.device_b plan.device_b_name
              && is_given plan.interface_b plan.interface_b_name)
            ≡ true)
        × (is_same_endpoint (endpoint_a plan) (endpoint_b plan) ≡ false)
        × ((is_cabled plan.interface_a ≡ false) × (is_reserved reserved plan.interface_a ≡ false))
        × ((is_cabled plan.interface_b ≡ false) × (is_reserved reserved plan.interface_b ≡ false)))
unfolding validate_plan_row blocker_tests all
blockers-tests reserved plan = ground (arith, messages-none (blocker_tests reserved plan))

keys-same :
    (a b : Text × Text) {x y : Option (Text × Text)}
    → x ≡ some a
    → y ≡ some b
    → (is_same_endpoint x y ≡ false) ↔ (a ≢ b)
keys-same a b ha hb = rw (ha, hb) (is_same_endpoint_iff a b)

key_a :
    (plan : ConnectionPlan)
    → HasIds plan
    → ((is_given plan.device_a plan.device_a_name
          && is_given plan.interface_a plan.interface_a_name)
        ≡ true)
      ↔ ((key : Text × Text) × (endpoint_a plan ≡ some key))
unfolding endpoint_a
key_a plan ids =
    endpoint_key-is_given plan.device_a plan.device_a_name plan.interface_a plan.interface_a_name
      (ids.0) (ids.2)

key_b :
    (plan : ConnectionPlan)
    → HasIds plan
    → ((is_given plan.device_b plan.device_b_name
          && is_given plan.interface_b plan.interface_b_name)
        ≡ true)
      ↔ ((key : Text × Text) × (endpoint_b plan ≡ some key))
unfolding endpoint_b
key_b plan ids =
    endpoint_key-is_given plan.device_b plan.device_b_name plan.interface_b plan.interface_b_name
      (ids.1) (ids.3)

-- Where every device and interface that a row refers to has an identifier that is not empty, the row
-- has no blocker exactly if both ends name a device and an interface, the ends differ, and each
-- interface that the row refers to has no cable and is not reserved.
pub blockers-IsSound :
    (reserved : List Text) (plan : ConnectionPlan)
    → HasIds plan
    → ((validate_plan_row reserved plan).blockers ≡ []) ↔ IsSound reserved plan
blockers-IsSound reserved plan ids = (
  (λ h.
      let (given_a, given_b, differ, free_a, free_b) = (blockers-tests reserved plan).0 h in
      let (a, ha) = (key_a plan ids).0 given_a in
      let (b, hb) = (key_b plan ids).0 given_b in
      (
        a,
        b,
        ha,
        hb,
        (keys-same a b ha hb).0 differ,
        (is_free reserved plan.interface_a).1 free_a,
        (is_free reserved plan.interface_b).1 free_b,
      )),
  (λ (a, b, ha, hb, differ, free_a, free_b). (blockers-tests reserved plan).1 (
    (key_a plan ids).1 (a, ha),
    (key_b plan ids).1 (b, hb),
    (keys-same a b ha hb).1 differ,
    (is_free reserved plan.interface_a).0 free_a,
    (is_free reserved plan.interface_b).0 free_b,
  )),
)

IsSound-swap :
    (reserved : List Text) (plan : ConnectionPlan)
    → IsSound reserved plan
    → IsSound reserved (swap_plan_endpoints plan)
unfolding swap_plan_endpoints endpoint_a endpoint_b
IsSound-swap reserved plan (a, b, ha, hb, differ, free_a, free_b) =
    (b, a, hb, ha, (λ e. differ (sym e)), free_b, free_a)

swap_involutive : (plan : ConnectionPlan) → swap_plan_endpoints (swap_plan_endpoints plan) ≡ plan
unfolding swap_plan_endpoints
swap_involutive plan = refl

HasIds-swap : (plan : ConnectionPlan) → HasIds plan → HasIds (swap_plan_endpoints plan)
unfolding swap_plan_endpoints
HasIds-swap plan ids = (ids.1, ids.0, ids.3, ids.2)

swap-unblocked :
    (reserved : List Text) (plan : ConnectionPlan)
    → HasIds plan
    → (validate_plan_row reserved plan).blockers ≡ []
    → (validate_plan_row reserved (swap_plan_endpoints plan)).blockers ≡ []
swap-unblocked reserved plan ids h =
    (blockers-IsSound reserved (swap_plan_endpoints plan) (HasIds-swap plan ids)).1
      (IsSound-swap reserved plan ((blockers-IsSound reserved plan ids).0 h))

-- Where every device and interface that a row refers to has an identifier that is not empty, the
-- exchange of its ends neither blocks nor unblocks it, and a second exchange gives the row back.
pub swap-blockers :
    (reserved : List Text) (plan : ConnectionPlan)
    → HasIds plan
    → (((validate_plan_row reserved (swap_plan_endpoints plan)).blockers ≡ [])
        ↔ ((validate_plan_row reserved plan).blockers ≡ []))
      × (swap_plan_endpoints (swap_plan_endpoints plan) ≡ plan)
swap-blockers reserved plan ids = (
  (
    (λ h.
        rw (sym (swap_involutive plan))
          (swap-unblocked reserved (swap_plan_endpoints plan) (HasIds-swap plan ids) h)),
    swap-unblocked reserved plan ids,
  ),
  swap_involutive plan,
)
