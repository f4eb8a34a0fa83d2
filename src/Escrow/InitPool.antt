-- ===== src/Escrow/InitPool.antt =====
-- programs/credmesh-escrow/src/instructions/init_pool.rs
use credmesh_solana.Prelude.{ℕ, none, Option, ◌||◌, leb, ◌==◌, ok, require, ◌>>◌}
use credmesh_solana.Prelude.Int.{ℤ, pos, leb_ℤ}
use credmesh_solana.Runtime.{Outcome, custom, constraint, is_free}
use credmesh_solana.Shared.Bytes.{Pubkey}
use credmesh_solana.Shared.Layout.{chain_id_mainnet, chain_id_devnet}
use credmesh_solana.Escrow.Errors.{
  CredmeshError, advance_exceeds_cap, math_overflow, invalid_chain_id,
}
use credmesh_solana.Escrow.Events.{Event, pool_initialized}
use credmesh_solana.Escrow.State.{FeeCurve, Pool, validate, bps_denominator}

pub record InitPoolParams : Type 0 where
  pub fee_curve : FeeCurve
  pub max_advance_pct_bps : ℕ
  pub max_advance_abs : ℕ
  pub timelock_seconds : ℤ
  pub governance : Pubkey
  pub treasury_ata : Pubkey
  pub chain_id : ℕ
  pub agent_window_cap : ℕ

-- The addresses of the accounts, with the bump of the pool's. The share mint and the vault are new
-- accounts, owned by the pool.
pub record InitPool : Type 0 where
  pub pool_key : Pubkey
  pub pool_bump : ℕ
  pub asset_mint : Pubkey
  pub share_mint : Pubkey
  pub usdc_vault : Pubkey

-- `existing` is the account at the pool's address, which `init` requires to be free.
unfoldable pub init_pool :
    InitPool → InitPoolParams → (existing : Option Pool) → Outcome CredmeshError (Pool × Event)
init_pool ctx params existing = do
  require (is_free existing) constraint
  require (leb params.max_advance_pct_bps bps_denominator) (custom advance_exceeds_cap)
  require (leb_ℤ (pos 0) params.timelock_seconds) (custom math_overflow)
  require (params.chain_id == chain_id_mainnet || params.chain_id == chain_id_devnet)
      (custom invalid_chain_id)
  validate params.fee_curve
  ok (
    record {
      bump = ctx.pool_bump;
      asset_mint = ctx.asset_mint;
      usdc_vault = ctx.usdc_vault;
      share_mint = ctx.share_mint;
      treasury_ata = params.treasury_ata;
      governance = params.governance;
      total_assets = 0;
      total_shares = 0;
      deployed_amount = 0;
      accrued_protocol_fees = 0;
      fee_curve = params.fee_curve;
      max_advance_pct_bps = params.max_advance_pct_bps;
      max_advance_abs = params.max_advance_abs;
      agent_window_cap = params.agent_window_cap;
      timelock_seconds = params.timelock_seconds;
      chain_id = params.chain_id;
      pending_params = none;
    },
    pool_initialized ctx.pool_key ctx.asset_mint ctx.share_mint params.governance,
  )
