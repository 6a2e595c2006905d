-- ===== src/Common/Dict.antt =====
-- Go's `map[string]V`. Its order of iteration is not modelled, and the code here never uses it.
use Prim.Native.String.{String}
use mathlib.Core.Path.{◌≡◌, refl, subst}
use mathlib.Core.Option.{Option, none, some}
use mathlib.Core.List.{List, [], ◌∷◌}
use native.Mathlib.Omega.{arith}
use text.Mathlib.Text.{◌==◌}
use text.Mathlib.TextEquality.{eq_iff}
use mathlib.Core.Logic.{inl, inr}
use courtknights.Common.Tests.{if◌then◌else◌, Bool-cases}
use courtknights.Common.Lists.{All}

abbrev pub Dict {ℓ} : Type ℓ → Type ℓ
Dict V = List (String × V)

module _ {ℓ} {V : Type ℓ} where
  -- `v, ok := m[k]`
  unfoldable pub lookup : String → Dict V → Option V
  lookup k [] = none
  lookup k ((j, v) ∷ m) = if j == k then some v else lookup k m

  -- `delete(m, k)`
  unfoldable pub delete : String → Dict V → Dict V
  delete k [] = []
  delete k ((j, v) ∷ m) = let rest = delete k m in if j == k then rest else (j, v) ∷ rest

  -- `m[k] = v`
  unfoldable pub store : String → V → Dict V → Dict V
  unfolding delete
  store k v m = (k, v) ∷ delete k m

  pub lookup-delete :
      (k j : String) (m : Dict V) → lookup j (delete k m) ≡ (if k == j then none else lookup j m)
  unfolding lookup delete
  lookup-delete k j [] = ground arith
  lookup-delete k j ((i, v) ∷ m) =
      ground (arith, lookup-delete k j m, eq_iff i k, eq_iff i j, eq_iff k j)

  pub lookup-store :
      (k j : String) (v : V) (m : Dict V)
      → lookup j (store k v m) ≡ (if k == j then some v else lookup j m)
  unfolding lookup store
  lookup-store k j v m = simp lookup-delete (ground arith)

-- What holds of every entry of a map holds of the one that is found.
pub lookup-All :
    {V : Type 0} (P : String → V → Type 0) (k : String) (v : V) (m : Dict V)
    → All (λ entry. P entry.0 entry.1) m
    → lookup k m ≡ some v
    → P k v
unfolding lookup
lookup-All P k v [] _ h = absurd (cc h)
lookup-All P k v ((j, w) ∷ m) (p, rest) h = elim (Bool-cases (j == k)) [
  | inl e ↦ subst (λ x. P k x) (cc (rw e at h)) (subst (λ x. P x w) ((eq_iff j k).0 e) p)
  | inr e ↦ lookup-All P k v m rest (rw e at h)
]

pub lookup-nil {ℓ} : {V : Type ℓ} (k : String) → lookup {V = V} k [] ≡ none
unfolding lookup
lookup-nil k = refl

pub ruleset dict_laws = (lookup-nil, lookup-delete, lookup-store)
