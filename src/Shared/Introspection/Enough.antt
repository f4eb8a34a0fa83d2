-- ===== src/Shared/Introspection/Enough.antt =====
-- The 64 rounds of the two loops, against the whole transaction.
use credmesh_solana.Prelude.{
  ℕ, zero, suc, ◌+◌, ◌≤◌, ◌≡◌, ◌↔◌, ◌∙◌, ap, Option, none, some, arith, ok, List, [], ◌∷◌, length,
}
use credmesh_solana.Shared.Bytes.{Pubkey, Bytes}
use credmesh_solana.Shared.Instructions.{Instruction, Sysvar}
use credmesh_solana.Shared.Introspection.{
  require_memo_nonce, require_squads_governance_cpi, max_ix_scan,
}
use credmesh_solana.Shared.Introspection.Scan.{
  Finds, here, later, IsMemoOf, IsGovernanceOf, require_memo_nonce_iff,
  require_squads_governance_cpi_iff,
}

-- The instruction at an index of the transaction.
abbrev pub get_elem? : List Instruction → ℕ → Option Instruction
get_elem? [] i = none
get_elem? (ix ∷ rest) zero = some ix
get_elem? (ix ∷ rest) (suc i) = get_elem? rest i

-- Some instruction of the transaction has the property.
pub data Among (P : Instruction → Type 0) : List Instruction → Type 0 where
  first : {ix : Instruction} {rest : List Instruction} → P ix → Among P (ix ∷ rest)
  next : {ix : Instruction} {rest : List Instruction} → Among P rest → Among P (ix ∷ rest)

module _ (sysvar : Sysvar) where
  -- From idx on, the sysvar holds the instructions of the list.
  abbrev Holds : ℕ → List Instruction → Type 0
  Holds idx txs = (i : ℕ) → sysvar.instruction_at (idx + i) ≡ get_elem? txs i

  rest_held :
      (idx : ℕ) (ix : Instruction) (rest : List Instruction)
      → Holds idx (ix ∷ rest)
      → Holds (idx + 1) rest
  rest_held idx ix rest holds i =
      let shift : ◌≡◌ {A = ℕ} (idx + 1 + i) (idx + suc i) = omega arith in
      ap (sysvar.instruction_at) shift ∙ holds (suc i)

  head_held :
      (idx : ℕ) (txs : List Instruction)
      → Holds idx txs
      → sysvar.instruction_at idx ≡ get_elem? txs zero
  head_held idx txs holds =
      let same : ◌≡◌ {A = ℕ} idx (idx + 0) = omega arith in
      ap (sysvar.instruction_at) same ∙ holds zero

module _ (P : Instruction → Type 0) (sysvar : Sysvar) where
  Finds-Among :
      (idx : ℕ) (txs : List Instruction)
      → Holds sysvar idx txs
      → {rounds : ℕ} → Finds P sysvar rounds idx
      → Among P txs
  Finds-Among idx [] holds (here ix at p) = ground (arith, head_held sysvar idx [] holds)
  Finds-Among idx [] holds (later ix at more) = ground (arith, head_held sysvar idx [] holds)
  Finds-Among idx (x ∷ rest) holds (here ix at p) =
      let same : x ≡ ix = ground (arith, head_held sysvar idx (x ∷ rest) holds) in first (rw same p)
  Finds-Among idx (x ∷ rest) holds (later ix at more) =
      next (Finds-Among (idx + 1) rest (rest_held sysvar idx x rest holds) more)

  Among-Finds :
      (rounds idx : ℕ) {txs : List Instruction}
      → Holds sysvar idx txs
      → length txs ≤ rounds
      → Among P txs
      → Finds P sysvar rounds idx
  Among-Finds zero idx holds short (first p) = absurd (omega (arith, short))
  Among-Finds zero idx holds short (next more) = absurd (omega (arith, short))
  Among-Finds (suc rounds) idx holds short (first {ix = ix} {rest = rest} p) =
      here ix (head_held sysvar idx (ix ∷ rest) holds) p
  Among-Finds (suc rounds) idx holds short (next {ix = ix} {rest = rest} more) =
      later ix (head_held sysvar idx (ix ∷ rest) holds) (
        Among-Finds rounds (idx + 1) (rest_held sysvar idx ix rest holds) (omega (arith, short))
          more)

from_zero : (i : ℕ) → 0 + i ≡ i
from_zero i = omega arith

-- 64 rounds are enough for a transaction of at most 64 instructions: then the memo check passes exactly
-- when some instruction of the transaction is a memo that carries the nonce, and the governance check
-- exactly when some instruction is a Squads instruction in which the vault is writable, wherever they
-- stand.
pub scans_suffice :
    (sysvar : Sysvar) (txs : List Instruction) (nonce : Bytes) (vault : Pubkey)
    → ((i : ℕ) → sysvar.instruction_at i ≡ get_elem? txs i)
    → length txs ≤ max_ix_scan
    → ((require_memo_nonce sysvar nonce ≡ ok tt) ↔ Among (IsMemoOf nonce) txs)
      × ((require_squads_governance_cpi sysvar vault ≡ ok tt) ↔ Among (IsGovernanceOf vault) txs)
scans_suffice sysvar txs nonce vault holds short =
    let at_start : Holds sysvar 0 txs = λ i. ap (sysvar.instruction_at) (from_zero i) ∙ holds i in
    let memo = require_memo_nonce_iff sysvar nonce in
    let squads = require_squads_governance_cpi_iff sysvar vault in
    (
      (
        λ h. Finds-Among (IsMemoOf nonce) sysvar 0 txs at_start (memo.0 h),
        λ m. memo.1 (Among-Finds (IsMemoOf nonce) sysvar max_ix_scan 0 at_start short m),
      ),
      (
        λ h. Finds-Among (IsGovernanceOf vault) sysvar 0 txs at_start (squads.0 h),
        λ m. squads.1 (Among-Finds (IsGovernanceOf vault) sysvar max_ix_scan 0 at_start short m),
      ),
    )
