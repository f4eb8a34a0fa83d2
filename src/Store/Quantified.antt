-- ===== src/Store/Quantified.antt =====
-- What holds of every account of a store at its key, under a write and a removal.
use mathlib.Core.Path.{subst}
use credmesh_solana.Prelude.{◌≡◌, ◌≢◌, sym, arith, some, inl, inr, Bool-cases}
use credmesh_solana.Store.Defs.{Eq, Store, find, put, remove}
use credmesh_solana.Store.Laws.{IsMap, find-put, find-remove_ne, find-remove_self}

module _ {ℓ κ μ} {K : Type ℓ} {V : Type κ} ⦃e : Eq K⦄ (P : K → V → Type μ) where
  abbrev pub Every : Store K V → Type (ℓ ⊔ κ ⊔ μ)
  Every s = (k : K) (v : V) → find k s ≡ some v → P k v

  pub put-Every : (k : K) (v : V) (s : Store K V) → P k v → Every s → Every (put k v s)
  put-Every k v s new all j w h = elim (Bool-cases (e.beq j k)) [
    | inl same ↦
        let value : v ≡ w = ground (arith, find-put j k v s, same, h) in
        let key : k ≡ j = sym ((e.beq_iff j k).0 same) in
        subst (P j) value (subst (λ x. P x v) key new)
    | inr other ↦ all j w (ground (arith, find-put j k v s, other, h))
  ]

  pub remove-Every : (k : K) (s : Store K V) → IsMap s → Every s → Every (remove k s)
  remove-Every k s one all j w h = elim (Bool-cases (e.beq j k)) [
    | inl same ↦
        let it = (e.beq_iff j k).0 same in absurd (ground (arith, it, find-remove_self k s one, h))
    | inr other ↦
        let apart : j ≢ k = λ it. ground (arith, other, (e.beq_iff j k).1 it) in
        all j w (ground (arith, find-remove_ne j k s apart, h))
  ]
