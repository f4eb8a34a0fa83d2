-- ===== src/Protocol/Vault.antt =====
-- The vault against the books: what it means that they stay balanced, and what each instruction of
-- the escrow does to them.
pub mod Books
use mathlib.Core.Option.{some-injective}
use credmesh_solana.Prelude.{
  ℕ, zero, ◌+◌, ◌-◌, ◌*◌, ◌≤◌, ◌<◌, ◌≡◌, ◌≢◌, ◌∙◌, sym, refl, ap, some, arith, ok, inl, inr, ltb,
  Bool-cases,
}
use credmesh_solana.Prelude.Int.{ℤ}
use credmesh_solana.Token.{
  TokenProgram, IsTokenProgram, Transferred, Minted, Burnt, Associated, balance, owner,
}
use credmesh_solana.Shared.Bytes.{Pubkey, Bytes}
use credmesh_solana.Shared.Instructions.{Sysvar}
use credmesh_solana.Escrow.World.{World, AdvanceKey}
use credmesh_solana.Escrow.Liquidity.{LpAccounts}
use credmesh_solana.Escrow.Liquidity.Effects.{Deposited, Withdrawn}

module _ (t : TokenProgram) where
  -- The vault belongs to the pool, and the treasury is another account.
  pub record Custody (w : World t) : Type 0 where
    pub vault_owned : owner t w.bank w.pool.usdc_vault ≡ some w.pool_key
    pub treasury_apart : w.pool.treasury_ata ≢ w.pool.usdc_vault

  abbrev pub vault_balance : World t → ℕ
  vault_balance w = balance t w.bank w.pool.usdc_vault

  -- From w to w' the vault and the deployed principal have gained what the assets have gained and
  -- what was received, less what was skimmed.
  pub record Balanced (skimmed received : ℕ) (w w' : World t) : Type 0 where
    pub books :
        vault_balance w' + w'.pool.deployed_amount + skimmed + w.pool.total_assets
        ≡ vault_balance w + w.pool.deployed_amount + received + w'.pool.total_assets
    pub custody : Custody w'

  -- Accounts of different owners are different.
  pub apart_of_owner :
      (bank : t.Bank) (a b : Pubkey) {o p : Pubkey}
      → owner t bank a ≡ some o
      → owner t bank b ≡ some p
      → o ≢ p
      → a ≢ b
  apart_of_owner bank a b ha hb ne e = ne (some-injective _ _ (sym ha ∙ ap (owner t bank) e ∙ hb))

  -- The addresses of the pool, its vault and its treasury stay.
  pub record Fixed (w w' : World t) : Type 0 where
    pub key : w'.pool_key ≡ w.pool_key
    pub vault : w'.pool.usdc_vault ≡ w.pool.usdc_vault
    pub treasury : w'.pool.treasury_ata ≡ w.pool.treasury_ata

  pub fix_after :
      {w w' v : World t}
      → w' ≡ v
      → v.pool_key ≡ w.pool_key
      → v.pool.usdc_vault ≡ w.pool.usdc_vault
      → v.pool.treasury_ata ≡ w.pool.treasury_ata
      → Fixed w w'
  fix_after after k u r = rw after (record { key = k; vault = u; treasury = r })

  pub balance_books :
      (skimmed received : ℕ) (w w' : World t)
      → Custody w
      → Fixed w w'
      → owner t w'.bank w.pool.usdc_vault ≡ some w.pool_key
      → balance t w'.bank w.pool.usdc_vault
          + w'.pool.deployed_amount
          + skimmed
          + w.pool.total_assets
        ≡ vault_balance w + w.pool.deployed_amount + received + w'.pool.total_assets
      → Balanced skimmed received w w'
  balance_books s r w w' c f o b = record {
    books = rw f.vault b;
    custody = record {
      vault_owned = rw (f.vault, f.key) o;
      treasury_apart = rw (f.vault, f.treasury) (c.treasury_apart);
    };
  }
