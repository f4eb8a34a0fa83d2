-- ===== src/Protocol.antt =====
-- The instructions of the two programs as steps between the accounts of one pool, and their runs. A
-- transaction that fails changes nothing and is no step. No program-derived address signs a
-- transaction, so a signer is not the pool's address.
pub mod Vault
pub mod Advances
pub mod Solvency
pub mod Replay
pub mod Limits
pub mod Timelock
pub mod Price
pub mod Shares
pub mod Genesis
pub mod Whitelisted
pub mod Effects
pub mod Process
pub mod Ranges
pub mod Kept
pub mod Book
use credmesh_solana.Prelude.{ℕ, ◌+◌, ◌≤◌, ◌≡◌, ◌≢◌, some, ok}
use credmesh_solana.Prelude.Int.{ℤ}
use credmesh_solana.Token.{TokenProgram, balance, owner, supply}
use credmesh_solana.Shared.Bytes.{Pubkey, Bytes}
use credmesh_solana.Shared.Instructions.{Sysvar}
use credmesh_solana.Registry.{Registry}
use credmesh_solana.Registry.Steps.{RegistryStep}
use credmesh_solana.Escrow.Events.{Event}
use credmesh_solana.Escrow.State.{PendingParams}
use credmesh_solana.Escrow.World.{World, AdvanceKey}
use credmesh_solana.Escrow.Liquidity.{LpAccounts, deposit, withdraw}
use credmesh_solana.Escrow.Params.{
  SkimProtocolFees, propose_params, execute_params, skim_protocol_fees,
}
use credmesh_solana.Escrow.RequestAdvance.{RequestAdvance, request_advance}
use credmesh_solana.Escrow.Settlement.{ClaimAndSettle, claim_and_settle, liquidate}

module _ (t : TokenProgram) where
  pub data Step (w w' : World t) : Type 0 where
    deposits :
        (ctx : LpAccounts) (amount : ℕ) (e : Event)
        → ctx.lp ≢ w.pool_key
        → deposit t ctx amount w ≡ ok (w', e)
        → Step w w'
    withdraws :
        (ctx : LpAccounts) (shares : ℕ) (e : Event)
        → ctx.lp ≢ w.pool_key
        → withdraw t ctx shares w ≡ ok (w', e)
        → Step w w'
    requests :
        (sysvar : Sysvar) (now : ℤ) (ctx : RequestAdvance) (receivable_id amount : ℕ)
        (nonce : Bytes) (e : Event)
        → ctx.agent ≢ w.pool_key
        → request_advance t sysvar now ctx receivable_id amount nonce w ≡ ok (w', e)
        → Step w w'
    settles :
        (sysvar : Sysvar) (now : ℤ) (ctx : ClaimAndSettle) (payment : ℕ) (e : Event)
        → ctx.agent ≢ w.pool_key
        → claim_and_settle t sysvar now ctx payment w ≡ ok (w', e)
        → Step w w'
    liquidates :
        (now : ℤ) (key : AdvanceKey) (bump : ℕ) (e : Event)
        → liquidate t now key bump w ≡ ok (w', e)
        → Step w w'
    proposes :
        (sysvar : Sysvar) (now : ℤ) (governance : Pubkey) (params : PendingParams) (e : Event)
        → propose_params t sysvar now governance params w ≡ ok (w', e)
        → Step w w'
    executes : (now : ℤ) (e : Event) → execute_params t now w ≡ ok (w', e) → Step w w'
    skims :
        (sysvar : Sysvar) (ctx : SkimProtocolFees) (amount : ℕ) (e : Event)
        → skim_protocol_fees t sysvar ctx amount w ≡ ok (w', e)
        → Step w w'
    -- An instruction of the registry program.
    governs :
        (registry : Registry)
        → RegistryStep w.registry registry
        → w' ≡ record w { registry = registry }
        → Step w w'
    -- Token instructions of others: they cannot take from the vault nor change its owner, and cannot mint
    -- shares, but can burn them, and do what they like with accounts of their own.
    outside :
        (bank : t.Bank) (received : ℕ)
        → balance t bank w.pool.usdc_vault ≡ balance t w.bank w.pool.usdc_vault + received
        → ((o : Pubkey)
            → owner t w.bank w.pool.usdc_vault ≡ some o
            → owner t bank w.pool.usdc_vault ≡ some o)
        → supply t bank w.pool.share_mint ≤ supply t w.bank w.pool.share_mint
        → w' ≡ record w { bank = bank }
        → Step w w'

  pub data Run (w : World t) : World t → Type 0 where
    start : Run w w
    then_step : {v w' : World t} → Run w v → Step v w' → Run w w'
