-- ===== src/Base/Dedupe.antt =====
-- Removal of duplicates with a list of what was seen, against a recursive definition without one.
use mathlib.Core.Path.{◌≡◌, refl, sym, ap, ◌∙◌}
use mathlib.Core.Logic.{inl, inr}
use mathlib.Core.Bool.{Bool, true, false, not}
use mathlib.Core.List.{List, [], ◌∷◌, ◌++◌, append_assoc, append-nil}
use native.Mathlib.Omega.{arith}
use nautobot_docker_compose.Base.Tests.{Eq, ◌==◌, Bool-cases, if◌then◌else◌}
use nautobot_docker_compose.Base.Lists.{keep, contains, distinct, contains-append, contains-keep}

module _ {ℓ} {A : Type ℓ} ⦃e : Eq A⦄ where
  abbrev pub append_new : List A → A → List A
  append_new seen x = if contains seen x then seen else seen ++ (x ∷ [])

  -- `for x in xs: if x in seen: continue; seen.append(x)`
  unfoldable pub dedupe_onto : List A → List A → List A
  dedupe_onto seen [] = seen
  dedupe_onto seen (x ∷ xs) = dedupe_onto (append_new seen x) xs

  -- The first occurrence of each item, in order.
  unfoldable pub firsts : List A → List A
  firsts [] = []
  firsts (x ∷ xs) = x ∷ keep (λ y. not (y == x)) (firsts xs)

  keep-seen :
      (seen : List A) (x : A) (ys : List A)
      → contains seen x ≡ true
      → keep (λ y. not (contains seen y)) (keep (λ y. not (y == x)) ys)
        ≡ keep (λ y. not (contains seen y)) ys
  unfolding keep
  keep-seen seen x [] h = refl
  keep-seen seen x (y ∷ ys) h = ground (arith, keep-seen seen x ys h, e.decides y x)

  keep-new :
      (seen : List A) (x : A) (ys : List A)
      → keep (λ y. not (contains (seen ++ (x ∷ [])) y)) ys
        ≡ keep (λ y. not (contains seen y)) (keep (λ y. not (y == x)) ys)
  unfolding keep contains
  keep-new seen x [] = refl
  keep-new seen x (y ∷ ys) =
      ground
        (arith, keep-new seen x ys, contains-append seen (x ∷ []) y, e.decides y x, e.decides x y)

  keep-cons_false : (p : A → Bool) (x : A) (xs : List A) → p x ≡ false → keep p (x ∷ xs) ≡ keep p xs
  unfolding keep
  keep-cons_false p x xs h = ground arith

  keep-cons_true :
      (p : A → Bool) (x : A) (xs : List A) → p x ≡ true → keep p (x ∷ xs) ≡ x ∷ keep p xs
  unfolding keep
  keep-cons_true p x xs h = ground arith

  -- The loop with `seen` computes the first occurrences.
  pub dedupe_onto-firsts :
      (seen xs : List A)
      → dedupe_onto seen xs ≡ seen ++ keep (λ y. not (contains seen y)) (firsts xs)
  unfolding dedupe_onto firsts
  dedupe_onto-firsts seen [] = unfold keep in sym (append-nil seen)
  dedupe_onto-firsts seen (x ∷ xs) = elim (Bool-cases (contains seen x)) [
    | inl old ↦ rw old (
        dedupe_onto-firsts seen xs
        ∙ ap (◌++◌ seen) (
            sym (
              keep-cons_false (λ y. not (contains seen y)) x _ (ap not old)
              ∙ keep-seen seen x (firsts xs) old)))
    | inr new ↦ rw new (
        dedupe_onto-firsts (seen ++ (x ∷ [])) xs
        ∙ append_assoc seen (x ∷ []) _
        ∙ ap (◌++◌ seen) (
            ap (◌∷◌ x) (keep-new seen x (firsts xs))
            ∙ sym (keep-cons_true (λ y. not (contains seen y)) x _ (ap not new))))
  ]

  contains-firsts : (xs : List A) (a : A) → contains (firsts xs) a ≡ contains xs a
  unfolding contains firsts
  contains-firsts [] a = refl
  contains-firsts (x ∷ xs) a =
      rw (contains-keep (λ y. not (y == x)) (firsts xs) a, contains-firsts xs a)
        (ground (arith, e.decides a x, e.decides x a))

  distinct-keep : (p : A → Bool) (xs : List A) → distinct xs ≡ true → distinct (keep p xs) ≡ true
  unfolding distinct keep
  distinct-keep p [] h = refl
  distinct-keep p (x ∷ xs) h = ground (arith, distinct-keep p xs, contains-keep p xs x)

  pub firsts-distinct : (xs : List A) → distinct (firsts xs) ≡ true
  unfolding firsts distinct
  firsts-distinct [] = refl
  firsts-distinct (x ∷ xs) = ground (
    arith,
    distinct-keep (λ y. not (y == x)) (firsts xs) (firsts-distinct xs),
    contains-keep (λ y. not (y == x)) (firsts xs) x,
    e.decides x x,
  )

  keep-eq_of_absent :
      (x : A) (xs : List A) → contains xs x ≡ false → keep (λ y. not (y == x)) xs ≡ xs
  unfolding keep contains
  keep-eq_of_absent x [] h = refl
  keep-eq_of_absent x (y ∷ ys) h = ground (arith, keep-eq_of_absent x ys)

  pub firsts-eq_of_distinct : (xs : List A) → distinct xs ≡ true → firsts xs ≡ xs
  unfolding firsts distinct
  firsts-eq_of_distinct [] h = refl
  firsts-eq_of_distinct (x ∷ xs) h =
      ground (arith, firsts-eq_of_distinct xs, keep-eq_of_absent x xs)

  keep_all : (xs : List A) → keep (λ y. not (contains [] y)) xs ≡ xs
  unfolding keep contains
  keep_all [] = refl
  keep_all (x ∷ xs) = rw (keep_all xs)

  pub dedupe-firsts : (xs : List A) → dedupe_onto [] xs ≡ firsts xs
  dedupe-firsts xs = dedupe_onto-firsts [] xs ∙ keep_all (firsts xs)

  pub dedupe-distinct : (xs : List A) → distinct (dedupe_onto [] xs) ≡ true
  dedupe-distinct xs = rw (dedupe-firsts xs) (firsts-distinct xs)

  pub contains-dedupe : (xs : List A) (a : A) → contains (dedupe_onto [] xs) a ≡ contains xs a
  contains-dedupe xs a = rw (dedupe-firsts xs) (contains-firsts xs a)
