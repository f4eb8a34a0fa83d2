-- ===== src/Escrow/Events.antt =====
-- programs/credmesh-escrow/src/events.rs
use credmesh_solana.Prelude.{ℕ}
use credmesh_solana.Prelude.Int.{ℤ}
use credmesh_solana.Shared.Bytes.{Pubkey}

pub data Event : Type 0 where
  pool_initialized : (pool asset_mint share_mint governance : Pubkey) → Event
  deposited : (pool lp : Pubkey) (amount shares_minted : ℕ) → Event
  withdrew : (pool lp : Pubkey) (shares_burned assets_returned : ℕ) → Event
  advance_issued :
      (pool agent : Pubkey) (receivable_id principal fee_owed : ℕ) (expires_at : ℤ)
      (attestor : Pubkey)
      → Event
  advance_settled :
      (pool agent : Pubkey) (receivable_id principal lp_cut protocol_cut agent_net late_days : ℕ)
      → Event
  advance_liquidated : (pool agent : Pubkey) (receivable_id loss : ℕ) → Event
  params_proposed : (pool : Pubkey) (execute_after : ℤ) → Event
  params_executed :
      (pool : Pubkey) (max_advance_pct_bps max_advance_abs agent_window_cap : ℕ) → Event
  protocol_fees_skimmed : (pool : Pubkey) (amount : ℕ) (recipient : Pubkey) → Event
