-- ===== src/Matrix/Colors.antt =====
-- normalize_row_color of services/row_actions.py. No value stands for the ValueError. The pattern
-- admits ASCII letters only, so `lower` is that of ASCII.
use nautobot_docker_compose.Base.{
  nat_beq_iff, ◌∙◌, inr, some-injective, ◌≤◌, sym, ◌&&◌, ◌+◌, ◌||◌, inl, false, ◌⊎◌, refl,
  Bool-cases, ◌==◌, true, none, list_eq, [], nat_eq, length, if◌then◌else◌, map, Bool, some, ◌≡◌,
  ◌∷◌, all, Option, ℕ, arith,
}
use nautobot_docker_compose.Base.Text.Laws.{strip_by-eq_of_all}
use nautobot_docker_compose.Base.Text.{strip, within, Text, is_space}

-- `[0-9a-fA-F]`
unfoldable pub is_hex : ℕ → Bool
is_hex c = within b'0' b'9' c || within b'a' b'f' c || within b'A' b'F' c

unfoldable pub lower_char : ℕ → ℕ
lower_char c = if within b'A' b'Z' c then c + 32 else c

-- `^[0-9a-fA-F]{6}$`
unfoldable pub is_six_hex : Text → Bool
unfolding is_hex
is_six_hex digits = length digits == 6 && all is_hex digits

-- The text after an optional `#`
unfoldable pub without_mark : Text → Text
without_mark [] = []
without_mark (c ∷ cs) = if c == b'#' then cs else c ∷ cs

-- `f"#{color}"` where the colour has no mark, then `lower`.
unfoldable pub color_of : Text → Option Text
unfolding is_six_hex lower_char
color_of digits = if is_six_hex digits then some (b'#' ∷ map lower_char digits) else none

-- `row_color`, absent or empty, or to be normalised
unfoldable pub normalize_row_color : Option Text → Option Text
unfolding without_mark color_of
normalize_row_color none = some []
normalize_row_color (some []) = some []
normalize_row_color (some (c ∷ cs)) = color_of (without_mark (strip (c ∷ cs)))

lower_char-is_hex : (c : ℕ) → is_hex c ≡ true → is_hex (lower_char c) ≡ true
unfolding is_hex lower_char
lower_char-is_hex c h = ground arith

lower_char_idem : (c : ℕ) → lower_char (lower_char c) ≡ lower_char c
unfolding lower_char
lower_char_idem c = ground arith

lower-is_hex : (s : Text) → all is_hex s ≡ true → all is_hex (map lower_char s) ≡ true
unfolding all
lower-is_hex [] h = refl
lower-is_hex (c ∷ s) h = ground (arith, lower-is_hex s, lower_char-is_hex c)

lower_idem : (s : Text) → map lower_char (map lower_char s) ≡ map lower_char s
lower_idem [] = refl
lower_idem (c ∷ s) = rw (lower_char_idem c, lower_idem s)

length-lower : (s : Text) → length (map lower_char s) ≡ length s
length-lower [] = refl
length-lower (c ∷ s) = rw (length-lower s)

is_color_char : ℕ → Bool
unfolding is_hex
is_color_char c = c == b'#' || is_hex c

is_color_char-of_hex : (s : Text) → all is_hex s ≡ true → all is_color_char s ≡ true
unfolding all is_color_char
is_color_char-of_hex [] h = refl
is_color_char-of_hex (c ∷ s) h = ground (arith, is_color_char-of_hex s)

is_color_char-not_space : (c : ℕ) → is_color_char c ≡ true → is_space c ≡ false
unfolding is_hex is_color_char is_space
is_color_char-not_space c h = ground arith

-- A mark and six hexadecimal digits, none of them a capital.
abbrev pub IsColor : Text → Type 0
IsColor color =
    (digits : Text) × (color ≡ b'#' ∷ digits)
    × (length digits ≡ 6)
    × (all is_hex digits ≡ true)
    × (map lower_char digits ≡ digits)

color_of-IsColor : (digits color : Text) → color_of digits ≡ some color → IsColor color
unfolding color_of is_six_hex
color_of-IsColor digits color h = elim (Bool-cases (is_six_hex digits)) [
  | inl e ↦ (
    map lower_char digits,
    sym (some-injective _ _ (rw e at h)),
    length-lower digits ∙ (ground (arith, nat_beq_iff (length digits) 6)),
    lower-is_hex digits (ground arith),
    lower_idem digits,
  )
  | inr e ↦ let no : ◌≡◌ {A = Option Text} none (some color) = rw e at h in cc
]

strip-color : (digits : Text) → all is_hex digits ≡ true → strip (b'#' ∷ digits) ≡ b'#' ∷ digits
unfolding strip
strip-color digits hex =
    strip_by-eq_of_all is_space is_color_char (b'#' ∷ digits) is_color_char-not_space
      (unfold all is_color_char in is_color_char-of_hex digits hex)

color_of-normal :
    (digits : Text)
    → length digits ≡ 6
    → all is_hex digits ≡ true
    → map lower_char digits ≡ digits
    → color_of digits ≡ some (b'#' ∷ digits)
unfolding color_of is_six_hex
color_of-normal digits six hex low = rw (hex, six, low) refl

IsColor-normal : (color : Text) → IsColor color → normalize_row_color (some color) ≡ some color
unfolding normalize_row_color without_mark
IsColor-normal color (digits, e, six, hex, low) =
    rw (e) (rw (strip-color digits hex) (color_of-normal digits six hex low))

IsColor-facts :
    (color : Text)
    → IsColor color
    → ((color ≡ []) ⊎ IsColor color)
      × (length color ≤ 7)
      × (normalize_row_color (some color) ≡ some color)
IsColor-facts color (digits, e, six, hex, low) = (
  inr (digits, e, six, hex, low),
  rw e (omega (arith, six)),
  IsColor-normal color (digits, e, six, hex, low),
)

empty-facts :
    (color : Text)
    → color ≡ []
    → ((color ≡ []) ⊎ IsColor color)
      × (length color ≤ 7)
      × (normalize_row_color (some color) ≡ some color)
unfolding normalize_row_color
empty-facts color e = (inl e, rw e (omega arith), rw e refl)

-- A row colour that is accepted is empty, or a mark and six lower-case hexadecimal digits, so it fits
-- the seven characters of the column, and accepting it again gives the same colour.
pub normalize_row_color-IsColor :
    (value : Option Text) (color : Text)
    → normalize_row_color value ≡ some color
    → ((color ≡ []) ⊎ IsColor color)
      × (length color ≤ 7)
      × (normalize_row_color (some color) ≡ some color)
unfolding normalize_row_color
normalize_row_color-IsColor none color h = empty-facts color (sym (some-injective [] color h))
normalize_row_color-IsColor (some []) color h = empty-facts color (sym (some-injective [] color h))
normalize_row_color-IsColor (some (c ∷ cs)) color h =
    IsColor-facts color (color_of-IsColor (without_mark (strip (c ∷ cs))) color h)
