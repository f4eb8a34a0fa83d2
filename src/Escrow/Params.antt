-- ===== src/Escrow/Params.antt =====
-- Governance: programs/credmesh-escrow/src/instructions/propose_params.rs, execute_params.rs and
-- skim_protocol_fees.rs.
pub mod Effects
use credmesh_solana.Prelude.{ℕ, none, some, ltb, leb, ◌==◌, ok, require, ◌>>=◌, ◌>>◌}
use credmesh_solana.Prelude.Int.{ℤ, leb_ℤ}
use credmesh_solana.Machine.{checked_add_i64, checked_sub_u64}
use credmesh_solana.Runtime.{custom, or_fail, or_cpi, map_failure, Outcome}
use credmesh_solana.Token.{TokenProgram}
use credmesh_solana.Shared.Bytes.{Pubkey}
use credmesh_solana.Shared.Instructions.{Sysvar}
use credmesh_solana.Shared.Introspection.{require_squads_governance_cpi}
use credmesh_solana.Escrow.Errors.{
  CredmeshError, math_overflow, governance_required, no_pending_params, pending_params_not_ready,
}
use credmesh_solana.Escrow.Events.{Event, params_proposed, params_executed, protocol_fees_skimmed}
use credmesh_solana.Escrow.State.{Pool, PendingParams, validate}
use credmesh_solana.Escrow.World.{World, Handled, token_account, mint_account, require_address}

-- The address that `governance` must have, and the check of the Squads instruction.
abbrev pub require_governance :
    Sysvar → (given expected : Pubkey) → Outcome CredmeshError (Unit {0})
require_governance sysvar given expected = do
  require (given == expected) (custom governance_required)
  map_failure (λ e. governance_required) (require_squads_governance_cpi sysvar expected)

pub record SkimProtocolFees : Type 0 where
  pub governance : Pubkey
  pub pool_usdc_vault : Pubkey
  pub recipient_ata : Pubkey
  pub usdc_mint : Pubkey

module _ (t : TokenProgram) where
  unfoldable pub propose_params :
      (sysvar : Sysvar) (now : ℤ) (governance : Pubkey) (params : PendingParams)
      → World t
      → Handled t
  propose_params sysvar now governance params w = do
    let pool = w.pool
    require_governance sysvar governance pool.governance
    validate params.fee_curve
    execute_after ← or_fail (checked_add_i64 now pool.timelock_seconds) math_overflow
    let staged = record params { execute_after = execute_after }
    ok (
      record w { pool = record pool { pending_params = some staged } },
      params_proposed w.pool_key execute_after,
    )

  unfoldable pub execute_params : (now : ℤ) → World t → Handled t
  execute_params now w = do
    let pool = w.pool
    pending ← or_fail pool.pending_params no_pending_params
    require (leb_ℤ pending.execute_after now) (custom pending_params_not_ready)
    ok (
      record w {
        pool = record pool {
          fee_curve = pending.fee_curve;
          max_advance_pct_bps = pending.max_advance_pct_bps;
          max_advance_abs = pending.max_advance_abs;
          agent_window_cap = pending.agent_window_cap;
          pending_params = none;
        };
      },
      params_executed w.pool_key pending.max_advance_pct_bps pending.max_advance_abs
          pending.agent_window_cap,
    )

  unfoldable pub skim_protocol_fees :
      (sysvar : Sysvar) → SkimProtocolFees → (amount : ℕ) → World t → Handled t
  skim_protocol_fees sysvar ctx amount w = do
    let pool = w.pool
    require (ctx.governance == pool.governance) (custom governance_required)
    require_address ctx.pool_usdc_vault pool.usdc_vault
    vault ← token_account t w.bank ctx.pool_usdc_vault
    require_address ctx.recipient_ata pool.treasury_ata
    recipient ← token_account t w.bank ctx.recipient_ata
    require_address ctx.usdc_mint pool.asset_mint
    usdc_mint ← mint_account t w.bank ctx.usdc_mint
    map_failure (λ e. governance_required) (require_squads_governance_cpi sysvar pool.governance)
    require (ltb 0 amount) (custom math_overflow)
    require (leb amount pool.accrued_protocol_fees) (custom math_overflow)
    paid ← or_cpi (
        t.transfer_checked ctx.pool_usdc_vault ctx.usdc_mint ctx.recipient_ata w.pool_key amount
          usdc_mint.decimals w.bank)
    accrued ← or_fail (checked_sub_u64 pool.accrued_protocol_fees amount) math_overflow
    ok (
      record w { pool = record pool { accrued_protocol_fees = accrued }; bank = paid },
      protocol_fees_skimmed w.pool_key amount ctx.recipient_ata,
    )
