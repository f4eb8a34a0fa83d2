-- ===== src/Store/Laws.antt =====
-- Laws of the store: what is found after a write or a removal, and sums over the accounts.
use credmesh_solana.Prelude.{ℕ, ◌+◌, ◌≡◌, ◌≢◌, refl, none, some, [], ◌∷◌, arith, if◌then◌else◌}
use credmesh_solana.Store.Defs.{Eq, Store, find, put, remove}

module _ {ℓ κ} {K : Type ℓ} {V : Type κ} ⦃e : Eq K⦄ where
  -- No key stands twice.
  abbrev pub IsMap : Store K V → Type κ
  IsMap [] = Unit
  IsMap ((k, v) ∷ s) = (find k s ≡ none) × IsMap s

  pub find-put :
      (j k : K) (v : V) (s : Store K V)
      → find j (put k v s) ≡ (if e.beq j k then some v else find j s)
  unfolding find put
  find-put j k v [] = refl
  find-put j k v ((i, w) ∷ s) =
      ground (arith, e.beq_iff k i, e.beq_iff j i, e.beq_iff j k, find-put j k v s)

  pub find-remove_ne : (j k : K) (s : Store K V) → j ≢ k → find j (remove k s) ≡ find j s
  unfolding find remove
  find-remove_ne j k [] h = refl
  find-remove_ne j k ((i, w) ∷ s) h =
      ground (arith, e.beq_iff k i, e.beq_iff j i, find-remove_ne j k s h)

  pub find-remove_self : (k : K) (s : Store K V) → IsMap s → find k (remove k s) ≡ none
  unfolding find remove
  find-remove_self k [] h = refl
  find-remove_self k ((i, w) ∷ s) h = ground (arith, e.beq_iff k i, find-remove_self k s h.1)

  pub put-IsMap : (k : K) (v : V) (s : Store K V) → IsMap s → IsMap (put k v s)
  unfolding find put
  put-IsMap k v [] h = (refl, tt)
  put-IsMap k v ((i, w) ∷ s) h =
      ground (arith, e.beq_iff k i, e.beq_iff i k, find-put i k v s, put-IsMap k v s h.1)

  pub remove-IsMap : (k : K) (s : Store K V) → IsMap s → IsMap (remove k s)
  unfolding find remove
  remove-IsMap k [] h = tt
  remove-IsMap k ((i, w) ∷ s) h =
      ground (arith, e.beq_iff k i, e.beq_iff i k, find-remove_ne i k s, remove-IsMap k s h.1)

  -- The sum of a number over all accounts, which may depend on the key.
  abbrev pub sum : (K → V → ℕ) → Store K V → ℕ
  sum f [] = 0
  sum f ((k, v) ∷ s) = f k v + sum f s

  pub sum-put_new :
      (f : K → V → ℕ) (k : K) (v : V) (s : Store K V)
      → find k s ≡ none
      → sum f (put k v s) ≡ sum f s + f k v
  unfolding find put
  sum-put_new f k v [] h = omega arith
  sum-put_new f k v ((i, w) ∷ s) h = ground (arith, sum-put_new f k v s)

  pub sum-remove :
      (f : K → V → ℕ) (k : K) {v : V} (s : Store K V)
      → find k s ≡ some v
      → sum f (remove k s) + f k v ≡ sum f s
  unfolding find remove
  sum-remove f k {v} [] h = cc
  sum-remove f k {v} ((i, w) ∷ s) h = ground (arith, e.beq_iff k i, sum-remove f k {v = v} s)
