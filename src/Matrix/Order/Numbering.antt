-- ===== src/Matrix/Order/Numbering.antt =====
-- The order numbers of the action reorder, against the places in a list.
use nautobot_docker_compose.Base.{
  ap, beq_refl, ◌∙◌, all-contains, length-append, inr, not, inl, contains-append, Bool-cases, all,
  some, refl, if◌then◌else◌, list_eq, nat_eq, suc, ◌==◌, true, [], ◌+◌, list_beq_iff, none, ◌∷◌,
  false, ◌++◌, distinct, ◌≡◌, Option, length, List, contains, ℕ, arith,
}
use mathlib.Core.List.{append-nil, append_assoc}
use nautobot_docker_compose.Matrix.Order.{ids_of, Text, number_ids, number_remaining}
use nautobot_docker_compose.Base.Dict.{Dict, lookup, keys, insert}
use nautobot_docker_compose.Base.Text.{Text}
use nautobot_docker_compose.Base.Dedupe.{dedupe_onto}
use nautobot_docker_compose.Matrix.Rows.{ConnectionPlan}

-- The place of an identifier in a list, from `n` on.
unfoldable pub place : ℕ → Text → List Text → Option ℕ
place n id [] = none
place n id (k ∷ ks) = if k == id then some n else place (suc n) id ks

-- The numbering of a list from `n` on.
unfoldable pub numbered : ℕ → List Text → Dict ℕ
numbered n [] = []
numbered n (k ∷ ks) = (k, n) ∷ numbered (suc n) ks

pub lookup-numbered :
    (n : ℕ) (id : Text) (ks : List Text) → lookup id (numbered n ks) ≡ place n id ks
unfolding numbered lookup place
lookup-numbered n id [] = refl
lookup-numbered n id (k ∷ ks) = rw (lookup-numbered (suc n) id ks) refl

pub keys-numbered : (n : ℕ) (ks : List Text) → keys (numbered n ks) ≡ ks
unfolding keys numbered
keys-numbered n [] = refl
keys-numbered n (k ∷ ks) = rw (keys-numbered (suc n) ks) refl

pub length-numbered : (n : ℕ) (ks : List Text) → length (numbered n ks) ≡ length ks
unfolding numbered
length-numbered n [] = refl
length-numbered n (k ∷ ks) = rw (length-numbered (suc n) ks) refl

insert-numbered :
    (n v : ℕ) (id : Text) (ks : List Text)
    → contains ks id ≡ false
    → v ≡ n + length ks
    → insert id v (numbered n ks) ≡ numbered n (ks ++ (id ∷ []))
unfolding insert numbered contains
insert-numbered n v id [] absent e = rw (e) (ground arith)
insert-numbered n v id (k ∷ ks) absent e = ground (arith, insert-numbered (suc n) v id ks)

pub number_ids-numbered :
    (seen ids : List Text) → number_ids (numbered 1 seen) ids ≡ numbered 1 (dedupe_onto seen ids)
unfolding number_ids dedupe_onto
number_ids-numbered seen [] = refl
number_ids-numbered seen (id ∷ ids) =
    rw (keys-numbered 1 seen, length-numbered 1 seen)
      (elim (Bool-cases (contains seen id)) [
        | inl e ↦ rw e (number_ids-numbered seen ids)
        | inr e ↦ rw e (
            rw (insert-numbered 1 (suc (length seen)) id seen e (omega arith))
              (number_ids-numbered (seen ++ (id ∷ [])) ids))
      ])

absent_of_distinct :
    (seen : List Text) (x : Text) (ys : List Text)
    → distinct (seen ++ (x ∷ ys)) ≡ true
    → contains seen x ≡ false
unfolding distinct contains
absent_of_distinct [] x ys h = refl
absent_of_distinct (k ∷ seen) x ys h =
    ground (arith, absent_of_distinct seen x ys, contains-append seen (x ∷ ys) k, list_beq_iff k x)

apart-tail :
    (x : Text) (xs ys : List Text)
    → all (λ y. not (contains (x ∷ xs) y)) ys ≡ true
    → all (λ y. not (contains xs y)) ys ≡ true
unfolding all contains
apart-tail x xs [] h = refl
apart-tail x xs (y ∷ ys) h = ground (arith, apart-tail x xs ys)

pub distinct-append :
    (xs ys : List Text)
    → distinct xs ≡ true
    → distinct ys ≡ true
    → all (λ y. not (contains xs y)) ys ≡ true
    → distinct (xs ++ ys) ≡ true
unfolding distinct contains
distinct-append [] ys hx hy apart = hy
distinct-append (x ∷ xs) ys hx hy apart = ground (
  arith,
  distinct-append xs ys,
  apart-tail x xs ys apart,
  contains-append xs ys x,
  all-contains (λ y. not (contains (x ∷ xs) y)) ys x apart,
  beq_refl x,
)

pub number_remaining-numbered :
    (seen : List Text) (next : ℕ) (plans : List ConnectionPlan)
    → distinct (seen ++ ids_of plans) ≡ true
    → next ≡ suc (length seen)
    → number_remaining (numbered 1 seen) next plans ≡ numbered 1 (seen ++ ids_of plans)
unfolding number_remaining
number_remaining-numbered seen next [] h e = rw (append-nil seen) refl
number_remaining-numbered seen next (plan ∷ plans) h e =
    let absent : contains seen plan.id ≡ false = absent_of_distinct seen plan.id (ids_of plans) h in
    rw (insert-numbered 1 next plan.id seen absent (omega (arith, e))) (
      number_remaining-numbered (seen ++ (plan.id ∷ [])) (suc next) plans
        (rw (append_assoc seen (plan.id ∷ []) (ids_of plans)) h)
        (omega (arith, e, length-append seen (plan.id ∷ [])))
      ∙ ap (numbered 1) (append_assoc seen (plan.id ∷ []) (ids_of plans)))
