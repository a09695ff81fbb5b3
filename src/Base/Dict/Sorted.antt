-- ===== src/Base/Dict/Sorted.antt =====
-- `json.dumps(d, sort_keys=True)`: the keys of a dictionary in order.
use mathlib.Core.Path.{◌≡◌, refl, ◌∙◌}
use mathlib.Core.Bool.{Bool}
use mathlib.Core.List.{[], ◌∷◌}
use mathlib.Core.Option.{some}
use mathlib.Core.Logic.{inl, inr}
use native.Mathlib.Omega.{arith}
use nautobot_docker_compose.Base.Tests.{
  ◌==◌, nat_eq, list_eq, list_beq_iff, Bool-cases, if◌then◌else◌,
}
use nautobot_docker_compose.Base.Text.{Text}
use nautobot_docker_compose.Base.Dict.{Dict, lookup, AllValues}
use nautobot_docker_compose.Base.Sort.{text_le, text_le_refl, insert_sorted, sort_by}

abbrev pub key_le {ℓ} : {V : Type ℓ} → Text × V → Text × V → Bool
key_le (k, v) (j, w) = text_le k j

unfoldable pub sort_keys {ℓ} : {V : Type ℓ} → Dict V → Dict V
sort_keys d = sort_by key_le d

module _ {ℓ} {V : Type ℓ} where
  lookup-insert_sorted :
      (k j : Text) (v : V) (d : Dict V)
      → lookup j (insert_sorted key_le (k, v) d) ≡ (if k == j then some v else lookup j d)
  unfolding insert_sorted lookup
  lookup-insert_sorted k j v [] = refl
  lookup-insert_sorted k j v ((i, w) ∷ d) =
      ground
        (arith, lookup-insert_sorted k j v d, list_beq_iff k j, list_beq_iff i j, text_le_refl j)

  pub lookup-sort_keys : (j : Text) (d : Dict V) → lookup j (sort_keys d) ≡ lookup j d
  unfolding sort_keys sort_by lookup
  lookup-sort_keys j [] = refl
  lookup-sort_keys j ((k, v) ∷ d) =
      lookup-insert_sorted k j v (sort_by key_le d) ∙ rw (lookup-sort_keys j d) refl

  module _ {κ} (P : V → Type κ) where
    AllValues-insert_sorted :
        (k : Text) (v : V) (d : Dict V)
        → P v
        → AllValues P d
        → AllValues P (insert_sorted key_le (k, v) d)
    unfolding insert_sorted
    AllValues-insert_sorted k v [] h held = (h, tt)
    AllValues-insert_sorted k v ((j, w) ∷ d) h held = elim (Bool-cases (text_le k j)) [
      | inl e ↦ rw e (h, held)
      | inr e ↦ rw e (held.0, AllValues-insert_sorted k v d h (held.1))
    ]

    pub AllValues-sort_keys : (d : Dict V) → AllValues P d → AllValues P (sort_keys d)
    unfolding sort_keys sort_by
    AllValues-sort_keys [] held = tt
    AllValues-sort_keys ((k, v) ∷ d) held =
        AllValues-insert_sorted k v (sort_by key_le d) (held.0) (AllValues-sort_keys d (held.1))
