-- ===== src/Orders/Numbers.antt =====
-- Dotted line numbers: nbcot/cisco/line_items.py of plugins/nautobot-app-nbcot. A line is its number;
-- `int_of` is `int` on a part, without a sign, or none for the ValueError.
pub mod Parents
use nautobot_docker_compose.Base.{
  none, some, not, ◌&&◌, ◌++◌, ltb, false, map, list_eq, true, [], ◌==◌, nat_eq, ◌||◌, Option, Bool,
  ◌∷◌, List, if◌then◌else◌, ℕ, arith,
}
use mathlib.Core.List.{reverse}
use nautobot_docker_compose.Base.Sort.{text_le, sort_by}
use nautobot_docker_compose.Base.Text.{codes, is_empty, starts_with, Text}

-- `s.split(".")`: the first part, and the others.
unfoldable pub split_dots : Text → Text × List Text
split_dots [] = ([], [])
split_dots (c ∷ cs) =
    let (part, parts) = split_dots cs in if c == b'.' then ([], part ∷ parts) else (c ∷ part, parts)

abbrev parent_of_parts : Text × List Text → Text
parent_of_parts (root, []) = []
parent_of_parts (root, second ∷ []) = if second == codes "0" then [] else root ++ codes ".0"
parent_of_parts (root, second ∷ third ∷ parts) =
    if second == codes "0" then root ++ codes ".0" else root ++ (codes "." ++ second)

-- `parent_line_number_for`
unfoldable pub parent_line_number_for : Text → Text
unfolding split_dots
parent_line_number_for [] = []
parent_line_number_for (c ∷ cs) = parent_of_parts (split_dots (c ∷ cs))

-- `line_number.endswith(".0")`
unfoldable pub is_major_line : Text → Bool
is_major_line line_number = starts_with (reverse line_number) (codes "0.")

-- `major_line_number_for`
unfoldable pub major_line_number_for : Text → Text
unfolding split_dots is_major_line
major_line_number_for line_number =
    let first_part = (split_dots line_number).0 in
    if is_major_line line_number || is_empty first_part
    then line_number
    else first_part ++ codes ".0"

-- A part of a sort key: `(0, number)` or `(1, text)`.
pub data KeyPart : Type 0 where
  number : ℕ → KeyPart
  word : Text → KeyPart

module _ (int_of : Text → Option ℕ) where
  number_or : Option ℕ → Text → KeyPart
  number_or none part = word part
  number_or (some n) part = number n

  key_part : Text → KeyPart
  unfolding number_or
  key_part part = number_or (int_of part) part

  -- `line_number_sort_key`
  unfoldable pub line_number_sort_key : Text → List KeyPart
  unfolding split_dots key_part
  line_number_sort_key [] = word [] ∷ []
  line_number_sort_key (c ∷ cs) =
      let (part, parts) = split_dots (c ∷ cs) in key_part part ∷ map key_part parts

  -- `a <= b` on sort keys
  unfoldable pub key_le : List KeyPart → List KeyPart → Bool
  key_le [] b = true
  key_le (x ∷ a) [] = false
  key_le (number m ∷ a) (number n ∷ b) = ltb m n || (m == n && key_le a b)
  key_le (number m ∷ a) (word t ∷ b) = true
  key_le (word s ∷ a) (number n ∷ b) = false
  key_le (word s ∷ a) (word t ∷ b) = (text_le s t && not (s == t)) || (s == t && key_le a b)

  -- `sorted(lines, key=...)`
  unfoldable pub sorted_lines : List Text → List Text
  unfolding line_number_sort_key key_le
  sorted_lines = sort_by (λ a b. key_le (line_number_sort_key a) (line_number_sort_key b))
