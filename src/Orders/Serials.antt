-- ===== src/Orders/Serials.antt =====
-- Serial-number attributes: nbcot/cisco/serials.py of plugins/nautobot-app-nbcot. A payload is decoded
-- JSON with lists; `shown` is `str` on a value that is no text, and `digits` on a number.
use nautobot_docker_compose.Base.{
  none, ◌-◌, ◌++◌, take, length, some, ltb, if◌then◌else◌, Option, [], ◌∷◌, List, ℕ, nat_eq,
  list_eq,
}
use nautobot_docker_compose.Base.Dict.{lookup, Dict}
use nautobot_docker_compose.Base.Dedupe.{dedupe_onto}
use nautobot_docker_compose.Base.Text.{is_empty, codes, strip, Text}
use nautobot_docker_compose.Inventory.Drift.{join}

-- A value of an attribute, or an item of one: nothing, a text, or another value with its `str`.
pub data Item : Type 0 where
  nothing : Item
  text_item : Text → Item
  other_item : Text → Item

-- What `_ensure_list` distinguishes: a list, or one value.
pub data Values : Type 0 where
  single : Item → Values
  many : List Item → Values

-- `_ensure_list`: None and the empty text give no item.
unfoldable pub ensure_list : Values → List Item
ensure_list (many items) = items
ensure_list (single nothing) = []
ensure_list (single (text_item [])) = []
ensure_list (single (text_item (c ∷ cs))) = text_item (c ∷ cs) ∷ []
ensure_list (single (other_item shown)) = other_item shown ∷ []

item_text : Item → Text
item_text nothing = []
item_text (text_item value) = strip value
item_text (other_item shown) = strip shown

-- The stripped texts that are not empty.
non_empty_texts : List Item → List Text
unfolding item_text
non_empty_texts [] = []
non_empty_texts (item ∷ items) =
    let rest = non_empty_texts items in
    if is_empty (item_text item) then rest else item_text item ∷ rest

-- `_text_values`
unfoldable pub text_values : Values → List Text
unfolding ensure_list non_empty_texts
text_values values = non_empty_texts (ensure_list values)

values_or_none : Option Values → List Text
unfolding text_values
values_or_none none = []
values_or_none (some values) = text_values values

-- The values of a field in each dictionary of `serialNumberAttributes`; what is no dictionary is left
-- out, and a missing field is nothing.
field_values : Text → List (Option (Dict Values)) → List Text
unfolding values_or_none
field_values field_name [] = []
field_values field_name (none ∷ attributes) = field_values field_name attributes
field_values field_name (some attribute ∷ attributes) =
    values_or_none (lookup field_name attribute) ++ field_values field_name attributes

or_fallback : List Text → List Text → List Text
or_fallback [] fallback = fallback
or_fallback (value ∷ values) fallback = value ∷ values

-- `serial_attribute_values`
unfoldable pub serial_attribute_values : List (Option (Dict Values)) → Text → Text → List Text
unfolding field_values or_fallback text_values
serial_attribute_values attributes field_name fallback =
    dedupe_onto []
      (or_fallback (field_values field_name attributes) (text_values (single (text_item fallback))))

-- `joined_attribute_values`
unfoldable pub joined_attribute_values : List (Option (Dict Values)) → Text → Text → Text
unfolding serial_attribute_values
joined_attribute_values attributes field_name fallback =
    join (codes "\n") (serial_attribute_values attributes field_name fallback)

-- `serial_values_display`
unfoldable pub serial_values_display : (ℕ → Text) → List Text → ℕ → Text
serial_values_display digits values limit = join (codes "\n") (
    if ltb limit (length values)
    then take limit values
      ++ ((codes "+" ++ (digits (length values - limit) ++ codes " more")) ∷ [])
    else take limit values)

-- `serial_attribute_display`, with the limit of the pages
unfoldable pub serial_attribute_display :
    (ℕ → Text) → List (Option (Dict Values)) → Text → Text → Text
unfolding serial_attribute_values serial_values_display
serial_attribute_display digits attributes field_name fallback =
    serial_values_display digits (serial_attribute_values attributes field_name fallback) 10
