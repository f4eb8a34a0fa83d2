-- ===== src/Escrow/Settlement.antt =====
-- How an advance ends: programs/credmesh-escrow/src/instructions/claim_and_settle.rs and
-- liquidate.rs.
pub mod Effects
pub mod Settle
pub mod Tranches
pub mod Liquidates
pub mod Settles
pub mod Exactly
pub mod Windows
mod Split
pub use Split.{Waterfall, sums_to}
unfoldable pub use Split.{late_days_at, waterfall}
use credmesh_solana.Prelude.{
  ℕ, ◌+◌, ◌/◌, ◌≡◌, none, some, Option, ltb, leb, min, ◌&&◌, ◌==◌, Bool, true, false, ok, require,
  ◌>>=◌, ◌>>◌, if◌then◌else◌,
}
use credmesh_solana.Prelude.Int.{ℤ, pos, leb_ℤ, ltb_ℤ}
use credmesh_solana.Machine.{
  checked_add_u64, checked_sub_u64, checked_mul_u64, checked_mul_u128, checked_div, try_u64,
  checked_add_i64, checked_sub_i64, clamp_to_u64,
}
use credmesh_solana.Runtime.{
  Outcome, custom, constraint, or_fail, or_cpi, or_constraint, or_panic, is_free, map_failure,
}
use credmesh_solana.Store.{find, put, remove, nat_eq, pair_eq}
use credmesh_solana.Token.{TokenProgram}
use credmesh_solana.Shared.Bytes.{Pubkey}
use credmesh_solana.Shared.Instructions.{Sysvar}
use credmesh_solana.Shared.Introspection.{require_memo_nonce}
use credmesh_solana.Escrow.Errors.{
  CredmeshError, math_overflow, invalid_payer, invalid_advance_state, replay_detected,
  not_settleable, memo_nonce_mismatch, waterfall_sum_mismatch, not_liquidatable,
}
use credmesh_solana.Escrow.Events.{Event, advance_settled, advance_liquidated}
use credmesh_solana.Escrow.State.{
  Pool, Advance, AdvanceState, ConsumedPayment, LiquidationTombstone, AgentIssuanceLedger,
  liquidation_grace_seconds, max_late_days, protocol_fee_bps, bps_denominator,
}
use credmesh_solana.Escrow.World.{
  World, Handled, AdvanceKey, token_account, mint_account, require_address, require_token,
}

abbrev pub is_issued : AdvanceState → Bool
is_issued AdvanceState.issued = true
is_issued _ = false

-- `expires_at.checked_add(LIQUIDATION_GRACE_SECONDS)`
abbrev pub grace_end : ℤ → Outcome CredmeshError ℤ
grace_end expires_at =
    or_fail (checked_add_i64 expires_at (pos liquidation_grace_seconds)) math_overflow

pub record ClaimAndSettle : Type 0 where
  pub agent : Pubkey
  pub advance : AdvanceKey
  pub pool_usdc_vault : Pubkey
  pub agent_usdc_ata : Pubkey
  pub protocol_treasury_ata : Pubkey
  pub usdc_mint : Pubkey

-- What the constraints have loaded.
pub record Loaded : Type 0 where
  pub advance : Advance
  pub consumed : ConsumedPayment
  pub ledger : AgentIssuanceLedger
  pub decimals : ℕ

module _ (t : TokenProgram) where
  abbrev pub advance_account : World t → AdvanceKey → Outcome CredmeshError Advance
  advance_account w key = or_constraint (find key w.advances)

  -- The stored seeds are those of the address, and the advance is still open.
  abbrev pub require_issued : AdvanceKey → Advance → Outcome CredmeshError (Unit {0})
  require_issued key a = do
    require (a.agent == key.0 && a.receivable_id == key.1) constraint
    require (is_issued a.state) (custom invalid_advance_state)

  -- The consumed marker and the ledger that belong to it.
  abbrev pub consumed_of : World t → AdvanceKey → Advance → Outcome CredmeshError ConsumedPayment
  consumed_of w key a = do
    c ← or_constraint (find key w.consumed)
    require (c.agent == a.agent) (custom replay_detected)
    ok c

  abbrev pub ledger_of : World t → Advance → Outcome CredmeshError AgentIssuanceLedger
  ledger_of w a = do
    l ← or_constraint (find a.agent w.ledgers)
    require (l.agent == a.agent) (custom replay_detected)
    require (l.pool == w.pool_key) (custom replay_detected)
    ok l

  -- A transfer that is skipped at 0.
  abbrev pub transfer_positive :
      (from mint to authority : Pubkey) (amount decimals : ℕ)
      → t.Bank
      → Outcome CredmeshError t.Bank
  transfer_positive from mint to authority amount decimals bank =
      if ltb 0 amount
      then or_cpi (t.transfer_checked from mint to authority amount decimals bank)
      else ok bank

  -- The accounts of `ClaimAndSettle` under their constraints.
  unfoldable pub settle_accounts : ClaimAndSettle → World t → Outcome CredmeshError Loaded
  settle_accounts ctx w = do
    let pool = w.pool
    a ← advance_account w ctx.advance
    require (ctx.agent == a.agent) (custom invalid_payer)
    require_issued ctx.advance a
    consumed ← consumed_of w ctx.advance a
    l ← ledger_of w a
    require_address ctx.pool_usdc_vault pool.usdc_vault
    vault ← token_account t w.bank ctx.pool_usdc_vault
    agent_usdc ← token_account t w.bank ctx.agent_usdc_ata
    require_token agent_usdc pool.asset_mint ctx.agent
    require_address ctx.protocol_treasury_ata pool.treasury_ata
    treasury ← token_account t w.bank ctx.protocol_treasury_ata
    require_address ctx.usdc_mint pool.asset_mint
    usdc_mint ← mint_account t w.bank ctx.usdc_mint
    ok (record { advance = a; consumed = consumed; ledger = l; decimals = usdc_mint.decimals })

  unfoldable pub settle_handler :
      (sysvar : Sysvar) (now : ℤ)
      → ClaimAndSettle
      → Loaded
      → (payment_amount : ℕ) → World t
      → Handled t
  settle_handler sysvar now ctx loaded payment_amount w = do
    let pool = w.pool
    let a = loaded.advance
    let l = loaded.ledger
    claim_window_end ← grace_end a.expires_at
    require (ltb_ℤ now claim_window_end) (custom not_settleable)
    map_failure (λ e. memo_nonce_mismatch) (require_memo_nonce sysvar loaded.consumed.nonce)
    late_days ← late_days_at now a.expires_at
    cuts ← waterfall a.principal a.fee_owed a.late_penalty_per_day late_days payment_amount
    taxed ←
        transfer_positive ctx.agent_usdc_ata ctx.usdc_mint ctx.protocol_treasury_ata ctx.agent
          cuts.protocol_cut loaded.decimals w.bank
    repaid ←
        transfer_positive ctx.agent_usdc_ata ctx.usdc_mint ctx.pool_usdc_vault ctx.agent cuts.lp_cut
          loaded.decimals taxed
    live_principal ← or_fail (checked_sub_u64 l.live_principal a.principal) math_overflow
    deployed_amount ← or_fail (checked_sub_u64 pool.deployed_amount a.principal) math_overflow
    total_assets ← or_fail (checked_add_u64 pool.total_assets cuts.lp_fee) math_overflow
    accrued ← or_fail (checked_add_u64 pool.accrued_protocol_fees cuts.protocol_cut) math_overflow
    ok (
      record w {
        pool = record pool {
          deployed_amount = deployed_amount;
          total_assets = total_assets;
          accrued_protocol_fees = accrued;
        };
        advances = remove ctx.advance w.advances;
        ledgers = put a.agent (record l { live_principal = live_principal }) w.ledgers;
        bank = repaid;
      },
      advance_settled w.pool_key a.agent a.receivable_id a.principal cuts.lp_cut cuts.protocol_cut
          cuts.agent_net late_days,
    )

  unfoldable pub claim_and_settle :
      (sysvar : Sysvar) (now : ℤ) → ClaimAndSettle → (payment_amount : ℕ) → World t → Handled t
  claim_and_settle sysvar now ctx payment_amount w = do
    loaded ← settle_accounts ctx w
    settle_handler sysvar now ctx loaded payment_amount w

  unfoldable pub liquidate :
      (now : ℤ) (advance : AdvanceKey) (tombstone_bump : ℕ) → World t → Handled t
  liquidate now key tombstone_bump w = do
    let pool = w.pool
    a ← advance_account w key
    require_issued key a
    consumed ← consumed_of w key a
    l ← ledger_of w a
    require (is_free (find key w.tombstones)) constraint
    liquidation_window_start ← grace_end a.expires_at
    require (leb_ℤ liquidation_window_start now) (custom not_liquidatable)
    live_principal ← or_fail (checked_sub_u64 l.live_principal a.principal) math_overflow
    deployed_amount ← or_fail (checked_sub_u64 pool.deployed_amount a.principal) math_overflow
    total_assets ← or_fail (checked_sub_u64 pool.total_assets a.principal) math_overflow
    let tombstone : LiquidationTombstone = record {
      bump = tombstone_bump;
      agent = a.agent;
      principal = a.principal;
      expires_at = a.expires_at;
      liquidated_at = now;
    }
    ok (
      record w {
        pool = record pool { deployed_amount = deployed_amount; total_assets = total_assets };
        advances = remove key w.advances;
        tombstones = put key tombstone w.tombstones;
        ledgers = put a.agent (record l { live_principal = live_principal }) w.ledgers;
      },
      advance_liquidated w.pool_key a.agent a.receivable_id a.principal,
    )
