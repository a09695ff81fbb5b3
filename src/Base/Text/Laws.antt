-- ===== src/Base/Text/Laws.antt =====
-- Laws of `strip` and of prefixes.
use mathlib.Core.Path.{◌∙◌, ◌≡◌, refl}
use Prim.Native.Nat.{ℕ}
use mathlib.Core.Bool.{Bool, true, false, not}
use mathlib.Core.List.{[], ◌∷◌, ◌++◌, reverse, reverse-reverse, reverse-append, reverse-cons}
use mathlib.Core.Option.{some}
use native.Mathlib.Omega.{arith}
use nautobot_docker_compose.Base.Tests.{nat_eq, nat_beq_iff}
use nautobot_docker_compose.Base.Lists.{all, all-append}
use nautobot_docker_compose.Base.Text.{
  Text, is_space, drop_while, strip_by, strip, strip_prefix?, starts_with,
}

-- The text does not begin with a character of `p`.
abbrev pub clean_head : (ℕ → Bool) → Text → Bool
clean_head p [] = true
clean_head p (c ∷ cs) = not (p c)

clean_head-drop_while : (p : ℕ → Bool) (s : Text) → clean_head p (drop_while p s) ≡ true
unfolding drop_while
clean_head-drop_while p [] = refl
clean_head-drop_while p (c ∷ cs) = ground (arith, clean_head-drop_while p cs)

pub drop_while-eq_of_clean : (p : ℕ → Bool) (s : Text) → clean_head p s ≡ true → drop_while p s ≡ s
unfolding drop_while
drop_while-eq_of_clean p [] h = refl
drop_while-eq_of_clean p (c ∷ cs) h = ground arith

drop_while-snoc :
    (p : ℕ → Bool) (s : Text) (c : ℕ)
    → p c ≡ false
    → drop_while p (s ++ c ∷ []) ≡ drop_while p s ++ c ∷ []
unfolding drop_while
drop_while-snoc p [] c h = ground arith
drop_while-snoc p (d ∷ s) c h = ground (arith, drop_while-snoc p s c)

clean_head-strip :
    (p : ℕ → Bool) (u : Text)
    → clean_head p u ≡ true
    → clean_head p (reverse (drop_while p (reverse u))) ≡ true
clean_head-strip p [] h = unfold drop_while in refl
clean_head-strip p (c ∷ u) h =
    rw (reverse-cons c u, drop_while-snoc p (reverse u) c (ground arith))
      (rw (reverse-append (drop_while p (reverse u)) (c ∷ [])) h)

-- `s.strip().strip()` is `s.strip()`.
pub strip_by_idem : (p : ℕ → Bool) (s : Text) → strip_by p (strip_by p s) ≡ strip_by p s
unfolding strip_by
strip_by_idem p s =
    let u : Text = drop_while p s in
    let v : Text = drop_while p (reverse u) in
    rw (drop_while-eq_of_clean p (reverse v) (clean_head-strip p u (clean_head-drop_while p s))) (
      rw (reverse-reverse v)
        (rw (drop_while-eq_of_clean p v (clean_head-drop_while p (reverse u)))))

pub strip_idem : (s : Text) → strip (strip s) ≡ strip s
unfolding strip
strip_idem s = strip_by_idem is_space s

all-reverse : (p : ℕ → Bool) (s : Text) → all p s ≡ true → all p (reverse s) ≡ true
unfolding all
all-reverse p [] h = h
all-reverse p (c ∷ s) h =
    rw (reverse-cons c s, all-append p (reverse s) (c ∷ [])) (ground (arith, all-reverse p s))

drop_while-eq_of_all :
    (p q : ℕ → Bool) (s : Text)
    → ((c : ℕ) → q c ≡ true → p c ≡ false)
    → all q s ≡ true
    → drop_while p s ≡ s
unfolding drop_while all
drop_while-eq_of_all p q [] f h = refl
drop_while-eq_of_all p q (c ∷ s) f h = ground (arith, f c)

-- A text of characters that are none of `p` keeps its ends.
pub strip_by-eq_of_all :
    (p q : ℕ → Bool) (s : Text)
    → ((c : ℕ) → q c ≡ true → p c ≡ false)
    → all q s ≡ true
    → strip_by p s ≡ s
unfolding strip_by
strip_by-eq_of_all p q s f h =
    rw (drop_while-eq_of_all p q s f h)
      (rw (drop_while-eq_of_all p q (reverse s) f (all-reverse q s h)) (reverse-reverse s))

-- The text does not end with a character of `p`.
abbrev pub clean_last : (ℕ → Bool) → Text → Bool
clean_last p [] = true
clean_last p (c ∷ []) = not (p c)
clean_last p (c ∷ d ∷ cs) = clean_last p (d ∷ cs)

clean_last-snoc : (p : ℕ → Bool) (s : Text) (c : ℕ) → clean_last p (s ++ c ∷ []) ≡ not (p c)
clean_last-snoc p [] c = refl
clean_last-snoc p (d ∷ []) c = refl
clean_last-snoc p (d ∷ e ∷ s) c = clean_last-snoc p (e ∷ s) c

pub clean_last-reverse : (p : ℕ → Bool) (s : Text) → clean_last p (reverse s) ≡ clean_head p s
clean_last-reverse p [] = refl
clean_last-reverse p (c ∷ s) = rw (reverse-cons c s) (clean_last-snoc p (reverse s) c)

-- A stripped text begins and ends with no stripped character.
pub strip_by-clean :
    (p : ℕ → Bool) (s : Text)
    → (clean_head p (strip_by p s) ≡ true) × (clean_last p (strip_by p s) ≡ true)
unfolding strip_by
strip_by-clean p s = (
  clean_head-strip p (drop_while p s) (clean_head-drop_while p s),
  clean_last-reverse p (drop_while p (reverse (drop_while p s)))
      ∙ clean_head-drop_while p (reverse (drop_while p s)),
)

drop_while-all : (p q : ℕ → Bool) (s : Text) → all q s ≡ true → all q (drop_while p s) ≡ true
unfolding drop_while all
drop_while-all p q [] h = refl
drop_while-all p q (c ∷ s) h = ground (arith, drop_while-all p q s)

pub strip_by-all : (p q : ℕ → Bool) (s : Text) → all q s ≡ true → all q (strip_by p s) ≡ true
unfolding strip_by
strip_by-all p q s h =
    all-reverse q _ (drop_while-all p q _ (all-reverse q _ (drop_while-all p q s h)))

-- What is left of a text after a prefix, and the test for the prefix.
pub strip_prefix?-append : (p s : Text) → strip_prefix? p (p ++ s) ≡ some s
unfolding strip_prefix?
strip_prefix?-append [] s = refl
strip_prefix?-append (c ∷ p) s = ground (arith, strip_prefix?-append p s, nat_beq_iff c c)

pub eq-append_of_strip_prefix? : (p s : Text) {r : Text} → strip_prefix? p s ≡ some r → s ≡ p ++ r
unfolding strip_prefix?
eq-append_of_strip_prefix? [] s h = ground arith
eq-append_of_strip_prefix? (c ∷ p) [] h = ground arith
eq-append_of_strip_prefix? (c ∷ p) (d ∷ s) {r} h =
    ground (arith, eq-append_of_strip_prefix? p s {r = r}, nat_beq_iff c d)

pub starts_with-append : (p s : Text) → starts_with (p ++ s) p ≡ true
unfolding starts_with
starts_with-append [] s = refl
starts_with-append (c ∷ p) s = ground (arith, starts_with-append p s, nat_beq_iff c c)
