-- ===== src/Orders/Numbers/Parents.antt =====
-- How deep the hierarchy of line numbers is.
use nautobot_docker_compose.Base.{
  ◌∙◌, ℕ, ap, inr, inl, Bool-cases, list_beq, List, if◌then◌else◌, false, refl, ◌++◌, [], ◌∷◌,
  list_eq, true, nat_eq, ◌==◌, not, ◌≡◌, Bool, all, arith,
}
use nautobot_docker_compose.Orders.Numbers.{parent_of_parts, parent_line_number_for, split_dots}
use nautobot_docker_compose.Base.Text.{codes, Text}

-- No dot in a text, or in any of several.
abbrev no_dot : Text → Bool
no_dot s = all (λ c. not (c == b'.')) s

split_dots-no_dot :
    (s : Text) → (no_dot (split_dots s).0 ≡ true) × (all no_dot (split_dots s).1 ≡ true)
unfolding split_dots all
split_dots-no_dot [] = (refl, refl)
split_dots-no_dot (c ∷ cs) = ground (arith, split_dots-no_dot cs)

split_dots-plain : (s : Text) → no_dot s ≡ true → split_dots s ≡ (s, [])
unfolding split_dots all
split_dots-plain [] h = refl
split_dots-plain (c ∷ cs) h =
    let e : (c == b'.') ≡ false = ground arith in
    rw e (rw (split_dots-plain cs (ground arith)) refl)

split_dots-pair :
    (root second : Text)
    → no_dot root ≡ true
    → no_dot second ≡ true
    → split_dots (root ++ (codes "." ++ second)) ≡ (root, second ∷ [])
unfolding split_dots all
split_dots-pair [] second h k = rw (split_dots-plain second k) refl
split_dots-pair (c ∷ root) second h k =
    let e : (c == b'.') ≡ false = ground arith in
    rw e (rw (split_dots-pair root second (ground arith) k) refl)

-- A number whose second part is `0`, and that has no third, has no parent.
parent-root : (root : Text) → no_dot root ≡ true → parent_line_number_for (root ++ codes ".0") ≡ []
unfolding parent_line_number_for all
parent-root [] h = unfold split_dots list_beq in refl
parent-root (c ∷ root) h =
    rw (split_dots-pair (c ∷ root) (codes "0") h refl) (unfold list_beq in refl)

abbrev root_or_none : Text → Text → Text
root_or_none second root = if second == codes "0" then [] else root ++ codes ".0"

parent-parts :
    (c : ℕ) (cs : Text) → parent_line_number_for (c ∷ cs) ≡ parent_of_parts (split_dots (c ∷ cs))
unfolding parent_line_number_for
parent-parts c cs = refl

parent-pair :
    (root second : Text)
    → no_dot root ≡ true
    → no_dot second ≡ true
    → parent_line_number_for (root ++ (codes "." ++ second)) ≡ root_or_none second root
parent-pair [] second h k =
    parent-parts b'.' second
    ∙ ap (λ (parts : Text × List Text). parent_of_parts parts) (split_dots-pair [] second h k)
parent-pair (c ∷ root) second h k =
    parent-parts c (root ++ (codes "." ++ second))
    ∙ ap (λ (parts : Text × List Text). parent_of_parts parts)
        (split_dots-pair (c ∷ root) second h k)

-- Two steps up from the parent that the parts give, nothing is left.
grandparent-parts :
    (parts : Text × List Text)
    → no_dot parts.0 ≡ true
    → all no_dot parts.1 ≡ true
    → parent_line_number_for (parent_line_number_for (parent_of_parts parts)) ≡ []
unfolding all
grandparent-parts (root, []) h k = unfold parent_line_number_for in refl
grandparent-parts (root, second ∷ []) h k = elim (Bool-cases (second == codes "0")) [
  | inl e ↦ rw e (unfold parent_line_number_for in refl)
  | inr e ↦ rw e (rw (parent-root root h) (unfold parent_line_number_for in refl))
]
grandparent-parts (root, second ∷ third ∷ parts) h k = elim (Bool-cases (second == codes "0")) [
  | inl e ↦ rw e (rw (parent-root root h) (unfold parent_line_number_for in refl))
  | inr e ↦ rw e (rw (parent-pair root second h (ground arith)) (rw e (parent-root root h)))
]

-- Three steps up from any line number nothing is left.
pub parent_line_number_for-ends :
    (line_number : Text)
    → parent_line_number_for (parent_line_number_for (parent_line_number_for line_number)) ≡ []
parent_line_number_for-ends [] = unfold parent_line_number_for in refl
parent_line_number_for-ends (c ∷ cs) =
    ap (λ (n : Text). parent_line_number_for (parent_line_number_for n)) (parent-parts c cs)
    ∙ (let (root_clean, parts_clean) = split_dots-no_dot (c ∷ cs) in
        grandparent-parts (split_dots (c ∷ cs)) root_clean parts_clean)
