-- ===== src/Secrets/Json.antt =====
-- Decoded JSON, as plugins/shms-secret-resolver/shms_secret_resolver/resolver.py reads it: texts and
-- dictionaries, and of any other value its truth value and its `str`.
use nautobot_docker_compose.Base.{
  Bool, true, false, not, Option, none, some, ◌==◌, nat_eq, list_eq, if◌then◌else◌,
}
use nautobot_docker_compose.Base.Text.{Text, is_empty}

mutual
  pub data Json : Type 0 where
    text : Text → Json
    object : Members → Json
    other : Bool → Text → Json

  pub data Members : Type 0 where
    no_members : Members
    member : Text → Json → Members → Members

-- What a call returns, or that it raises.
pub data Outcome {ℓ} (A : Type ℓ) : Type ℓ where
  returned : A → Outcome A
  raised : Outcome A

infixl 5 ◌>=>◌
abbrev pub ◌>=>◌ {ℓ κ} : {A : Type ℓ} {B : Type κ} → Outcome A → (A → Outcome B) → Outcome B
returned a >=> f = f a
raised >=> f = raised

-- `bool(value)`
abbrev pub truth : Json → Bool
truth (text s) = not (is_empty s)
truth (object no_members) = false
truth (object (member key value rest)) = true
truth (other b shown) = b

-- `data.get(key)`
unfoldable pub member_of : Text → Members → Option Json
member_of key no_members = none
member_of key (member k value rest) = if k == key then some value else member_of key rest

or_default : Json → Option Json → Json
or_default default none = default
or_default default (some value) = value

-- `value.get(key, default)`: only a dictionary has `get`.
unfoldable pub get : Text → Json → Json → Outcome Json
unfolding or_default
get key default (object members) = returned (or_default default (member_of key members))
get key default _ = raised

-- `value if isinstance(value, dict) else {}`
abbrev pub members_or_none : Json → Members
members_or_none (object members) = members
members_or_none _ = no_members
