-- ===== src/Shared/Introspection/Scan.antt =====
-- The loops of `require_memo_nonce` and `require_squads_governance_cpi` find exactly what stands in
-- the first 64 instructions.
use credmesh_solana.Prelude.{
  ℕ, zero, suc, ◌+◌, ◌≡◌, ◌↔◌, Bool, true, some, arith, ok, inl, inr, Option-cases, Bool-cases,
  ◌&&◌, ◌==◌, List, [], ◌∷◌,
}
use credmesh_solana.Shared.Bytes.{Pubkey, Bytes, bytes_eq_iff}
use credmesh_solana.Shared.Layout.{memo, squads_v4}
use credmesh_solana.Shared.Instructions.{AccountMeta, Instruction, Sysvar}
use credmesh_solana.Shared.Introspection.{
  scan, is_memo, writes_vault, is_governance, require_memo_nonce, require_squads_governance_cpi,
  max_ix_scan,
}

-- Some instruction among the next `rounds` has the property, and all up to it can be loaded.
pub data Finds (P : Instruction → Type 0) (sysvar : Sysvar) : (rounds idx : ℕ) → Type 0 where
  here :
      {rounds idx : ℕ} (ix : Instruction)
      → sysvar.instruction_at idx ≡ some ix
      → P ix
      → Finds P sysvar (suc rounds) idx
  later :
      {rounds idx : ℕ} (ix : Instruction)
      → sysvar.instruction_at idx ≡ some ix
      → Finds P sysvar rounds (idx + 1)
      → Finds P sysvar (suc rounds) idx

module _ (test : Instruction → Bool) (P : Instruction → Type 0)
    (reflects : (ix : Instruction) → (test ix ≡ true) ↔ P ix) (sysvar : Sysvar) where
  scan-Finds : (rounds idx : ℕ) → scan test sysvar rounds idx ≡ true → Finds P sysvar rounds idx
  unfolding scan
  scan-Finds zero idx h = cc
  scan-Finds (suc rounds) idx h = elim (Option-cases (sysvar.instruction_at idx)) [
    | inl e ↦ ground arith
    | inr (ix, e) ↦ elim (Bool-cases (test ix)) [
      | inl t ↦ here ix e ((reflects ix).0 t)
      | inr f ↦ later ix e (scan-Finds rounds (idx + 1) (ground arith))
    ]
  ]

  Finds-scan : {rounds idx : ℕ} → Finds P sysvar rounds idx → scan test sysvar rounds idx ≡ true
  unfolding scan
  Finds-scan (here ix e t) = ground (arith, (reflects ix).1 t)
  Finds-scan (later ix e rest) = ground (arith, Finds-scan rest)

-- The memo instruction that carries the nonce.
pub record IsMemoOf (nonce : Bytes) (ix : Instruction) : Type 0 where
  pub program : ix.program_id ≡ memo
  pub carries : ix.payload ≡ nonce

-- An account list in which the vault is writable.
pub data Writes (vault : Pubkey) : List AccountMeta → Type 0 where
  first :
      {a : AccountMeta} {rest : List AccountMeta}
      → a.pubkey ≡ vault
      → a.is_writable ≡ true
      → Writes vault (a ∷ rest)
  next : {a : AccountMeta} {rest : List AccountMeta} → Writes vault rest → Writes vault (a ∷ rest)

-- A Squads instruction in which the vault is writable.
pub record IsGovernanceOf (vault : Pubkey) (ix : Instruction) : Type 0 where
  pub program : ix.program_id ≡ squads_v4
  pub writes : Writes vault ix.accounts

is_memo_iff : (nonce : Bytes) (ix : Instruction) → (is_memo nonce ix ≡ true) ↔ IsMemoOf nonce ix
is_memo_iff nonce ix = ground (arith, bytes_eq_iff ix.payload nonce)

writes_vault-Writes :
    (vault : Pubkey) (accounts : List AccountMeta)
    → writes_vault vault accounts ≡ true
    → Writes vault accounts
unfolding writes_vault
writes_vault-Writes vault [] h = cc
writes_vault-Writes vault (a ∷ rest) h = elim (Bool-cases (a.pubkey == vault && a.is_writable)) [
  | inl e ↦ first (ground arith) (ground arith)
  | inr e ↦ next (writes_vault-Writes vault rest (ground arith))
]

Writes-writes_vault :
    {vault : Pubkey} {accounts : List AccountMeta}
    → Writes vault accounts
    → writes_vault vault accounts ≡ true
unfolding writes_vault
Writes-writes_vault (first e w) = ground arith
Writes-writes_vault (next rest) = ground (arith, Writes-writes_vault rest)

is_governance_iff :
    (vault : Pubkey) (ix : Instruction) → (is_governance vault ix ≡ true) ↔ IsGovernanceOf vault ix
is_governance_iff vault ix = (
  λ h. record {
    program = ground arith;
    writes = writes_vault-Writes vault ix.accounts (ground arith);
  },
  λ g. ground (arith, g.program, Writes-writes_vault g.writes),
)

-- The memo check passes exactly when one of the first 64 instructions is a memo that carries the
-- nonce, with every instruction before it loadable.
pub require_memo_nonce_iff :
    (sysvar : Sysvar) (nonce : Bytes)
    → (require_memo_nonce sysvar nonce ≡ ok tt) ↔ Finds (IsMemoOf nonce) sysvar max_ix_scan 0
unfolding require_memo_nonce
require_memo_nonce_iff sysvar nonce =
    let reflects = is_memo_iff nonce in
    (
      λ h. scan-Finds (is_memo nonce) (IsMemoOf nonce) reflects sysvar max_ix_scan 0 (ground arith),
      λ f. rw (Finds-scan (is_memo nonce) (IsMemoOf nonce) reflects sysvar f),
    )

-- The governance check passes exactly when one of the first 64 instructions is a Squads instruction
-- in which the vault is writable, with every instruction before it loadable.
pub require_squads_governance_cpi_iff :
    (sysvar : Sysvar) (vault : Pubkey)
    → (require_squads_governance_cpi sysvar vault ≡ ok tt)
      ↔ Finds (IsGovernanceOf vault) sysvar max_ix_scan 0
unfolding require_squads_governance_cpi
require_squads_governance_cpi_iff sysvar vault =
    let reflects = is_governance_iff vault in
    (
      λ h.
          scan-Finds (is_governance vault) (IsGovernanceOf vault) reflects sysvar max_ix_scan 0
            (ground arith),
      λ f. rw (Finds-scan (is_governance vault) (IsGovernanceOf vault) reflects sysvar f),
    )
