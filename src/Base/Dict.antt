-- ===== src/Base/Dict.antt =====
-- Python's `dict` with text keys, in insertion order. Proofs go by the laws.
pub mod Sorted
use mathlib.Core.Path.{◌≡◌, refl, subst}
use mathlib.Core.List.{List, [], ◌∷◌}
use mathlib.Core.Option.{Option, none, some, some-injective}
use mathlib.Core.Logic.{inl, inr}
use native.Mathlib.Omega.{arith}
use nautobot_docker_compose.Base.Tests.{
  ◌==◌, nat_eq, list_eq, list_beq_iff, Bool-cases, if◌then◌else◌,
}
use nautobot_docker_compose.Base.Text.{Text}

abbrev pub Dict {ℓ} : Type ℓ → Type ℓ
Dict V = List (Text × V)

module _ {ℓ} {V : Type ℓ} where
  -- `d.get(k)`
  unfoldable pub lookup : Text → Dict V → Option V
  lookup k [] = none
  lookup k ((j, v) ∷ d) = if j == k then some v else lookup k d

  -- `d[k] = v`
  unfoldable pub insert : Text → V → Dict V → Dict V
  insert k v [] = (k, v) ∷ []
  insert k v ((j, w) ∷ d) = if j == k then (j, v) ∷ d else (j, w) ∷ insert k v d

  -- the keys, in order
  unfoldable pub keys : Dict V → List Text
  keys [] = []
  keys ((k, v) ∷ d) = k ∷ keys d

  -- Every value satisfies `P`.
  abbrev pub AllValues {κ} : (V → Type κ) → Dict V → Type κ
  AllValues P [] = Unit
  AllValues P ((k, v) ∷ d) = P v × AllValues P d

  pub lookup-insert :
      (k j : Text) (v : V) (d : Dict V)
      → lookup j (insert k v d) ≡ (if k == j then some v else lookup j d)
  unfolding lookup insert
  lookup-insert k j v [] = refl
  lookup-insert k j v ((i, w) ∷ d) =
      ground (arith, list_beq_iff k j, list_beq_iff i k, list_beq_iff i j, lookup-insert k j v d)

  pub AllValues-insert {κ} :
      (P : V → Type κ) (k : Text) (v : V) (d : Dict V)
      → P v
      → AllValues P d
      → AllValues P (insert k v d)
  unfolding insert
  AllValues-insert P k v [] h a = (h, tt)
  AllValues-insert P k v ((j, w) ∷ d) h a = ground (arith, AllValues-insert P k v d h)

  pub AllValues-lookup {κ} :
      (P : V → Type κ) (k : Text) (d : Dict V) {v : V} → AllValues P d → lookup k d ≡ some v → P v
  unfolding lookup
  AllValues-lookup P k [] a h = cc
  AllValues-lookup P k ((j, w) ∷ d) {v} a h = elim (Bool-cases (j == k)) [
    | inl e ↦ subst P (some-injective w v (rw e at h)) a.0
    | inr e ↦ AllValues-lookup P k d a.1 (rw e at h)
  ]
