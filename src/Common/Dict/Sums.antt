-- ===== src/Common/Dict/Sums.antt =====
-- Maps whose keys are distinct: totals over the values, and what holds of every value.
use Prim.Native.Nat.{ℕ, ◌+◌}
use mathlib.Core.Path.{◌≡◌, refl, subst}
use mathlib.Core.Option.{none, some}
use mathlib.Core.List.{[], ◌∷◌}
use native.Mathlib.Omega.{arith}
use intranet_penetration_clo.Common.Tests.{Bool-cases}
use intranet_penetration_clo.Common.Key.{Key}
use intranet_penetration_clo.Common.Dict.{
  Dict, lookup, insert, delete, lookup-insert, lookup-delete,
}
use mathlib.Core.Logic.{inl, inr}

module _ {ℓ κ} {K : Type ℓ} {V : Type κ} ⦃e : Key K⦄ where
  abbrev pub IsDistinct : Dict K V → Type κ
  IsDistinct [] = Unit
  IsDistinct ((k, v) ∷ m) = (lookup k m ≡ none) × IsDistinct m

  pub insert-IsDistinct : (k : K) (v : V) (m : Dict K V) → IsDistinct m → IsDistinct (insert k v m)
  unfolding insert lookup
  insert-IsDistinct k v [] h = (refl, tt)
  insert-IsDistinct k v ((j, w) ∷ m) h = elim (Bool-cases (e.same j k)) [
    | inl same ↦ rw same h
    | inr other ↦ rw other (
      ground (arith, lookup-insert k j v m, h.0, e.same_iff j k, e.same_iff k j),
      insert-IsDistinct k v m h.1,
    )
  ]

  pub delete-IsDistinct : (k : K) (m : Dict K V) → IsDistinct m → IsDistinct (delete k m)
  unfolding delete
  delete-IsDistinct k [] h = tt
  delete-IsDistinct k ((j, w) ∷ m) h = elim (Bool-cases (e.same j k)) [
    | inl same ↦ rw same (delete-IsDistinct k m h.1)
    | inr other ↦ rw other (ground (arith, lookup-delete k j m, h.0), delete-IsDistinct k m h.1)
  ]

  module _ (f : V → ℕ) where
    abbrev pub total : Dict K V → ℕ
    total [] = 0
    total ((k, v) ∷ m) = f v + total m

    pub total-delete-none :
        (k : K) (m : Dict K V) → lookup k m ≡ none → total (delete k m) ≡ total m
    unfolding lookup delete
    total-delete-none k [] h = refl
    total-delete-none k ((j, w) ∷ m) h = ground (arith, total-delete-none k m)

    pub total-delete :
        (k : K) (v : V) (m : Dict K V)
        → IsDistinct m
        → lookup k m ≡ some v
        → total (delete k m) + f v ≡ total m
    unfolding lookup delete
    total-delete k v [] d h = ground arith
    total-delete k v ((j, w) ∷ m) d h =
        ground (arith, total-delete k v m d.1, total-delete-none k m, e.same_iff j k, d.0)

    pub total-insert-none :
        (k : K) (v : V) (m : Dict K V) → lookup k m ≡ none → total (insert k v m) ≡ total m + f v
    unfolding lookup insert
    total-insert-none k v [] h = omega arith
    total-insert-none k v ((j, w) ∷ m) h = ground (arith, total-insert-none k v m)

    pub total-insert :
        (k : K) (v w : V) (m : Dict K V)
        → lookup k m ≡ some w
        → total (insert k v m) + f w ≡ total m + f v
    unfolding lookup insert
    total-insert k v w [] h = ground arith
    total-insert k v w ((j, u) ∷ m) h = ground (arith, total-insert k v w m)

  module _ {μ} (P : V → Type μ) where
    abbrev pub Every : Dict K V → Type μ
    Every [] = Unit
    Every ((k, v) ∷ m) = P v × Every m

    pub Every-lookup : (k : K) (v : V) (m : Dict K V) → Every m → lookup k m ≡ some v → P v
    unfolding lookup
    Every-lookup k v [] h q = ground arith
    Every-lookup k v ((j, w) ∷ m) h q = elim (Bool-cases (e.same j k)) [
      | inl same ↦ subst P (ground arith) h.0
      | inr other ↦ Every-lookup k v m h.1 (ground arith)
    ]

    pub insert-Every : (k : K) (v : V) (m : Dict K V) → Every m → P v → Every (insert k v m)
    unfolding insert
    insert-Every k v [] h q = (q, tt)
    insert-Every k v ((j, w) ∷ m) h q = elim (Bool-cases (e.same j k)) [
      | inl same ↦ rw same (q, h.1)
      | inr other ↦ rw other (h.0, insert-Every k v m h.1 q)
    ]

    pub delete-Every : (k : K) (m : Dict K V) → Every m → Every (delete k m)
    unfolding delete
    delete-Every k [] h = tt
    delete-Every k ((j, w) ∷ m) h = elim (Bool-cases (e.same j k)) [
      | inl same ↦ rw same (delete-Every k m h.1)
      | inr other ↦ rw other (h.0, delete-Every k m h.1)
    ]
