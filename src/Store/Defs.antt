-- ===== src/Store/Defs.antt =====
-- The operations: the account at some seeds, a write (`init` or a later store), and `close`.
use credmesh_solana.Prelude.{
  ℕ, ◌≡◌, ◌↔◌, Bool, true, ◌&&◌, Option, none, some, List, [], ◌∷◌, arith, ◌==◌, ==_iff,
  if◌then◌else◌,
}

pub record Eq {ℓ} (K : Type ℓ) : Type ℓ where
  pub beq : K → K → Bool
  pub beq_iff : (a b : K) → (beq a b ≡ true) ↔ (a ≡ b)

abbrev pub key_eq {ℓ} : {K : Type ℓ} ⦃e : Eq K⦄ → K → K → Bool
key_eq ⦃e⦄ = e.beq

instance abbrev pub nat_eq : Eq ℕ
nat_eq = record { beq = ◌==◌; beq_iff = ==_iff }

abbrev pub pair_beq : ℕ × ℕ → ℕ × ℕ → Bool
pair_beq (a, b) (c, d) = a == c && b == d

pub pair_beq_iff : (p q : ℕ × ℕ) → (pair_beq p q ≡ true) ↔ (p ≡ q)
pair_beq_iff (a, b) (c, d) = ground arith

instance abbrev pub pair_eq : Eq (ℕ × ℕ)
pair_eq = record { beq = pair_beq; beq_iff = pair_beq_iff }

abbrev pub Store {ℓ κ} : Type ℓ → Type κ → Type (ℓ ⊔ κ)
Store K V = List (K × V)

module _ {ℓ κ} {K : Type ℓ} {V : Type κ} ⦃e : Eq K⦄ where
  unfoldable pub find : K → Store K V → Option V
  find k [] = none
  find k ((j, v) ∷ s) = if e.beq k j then some v else find k s

  unfoldable pub put : K → V → Store K V → Store K V
  put k v [] = (k, v) ∷ []
  put k v ((j, w) ∷ s) = if e.beq k j then (k, v) ∷ s else (j, w) ∷ put k v s

  unfoldable pub remove : K → Store K V → Store K V
  remove k [] = []
  remove k ((j, w) ∷ s) = if e.beq k j then s else (j, w) ∷ remove k s
