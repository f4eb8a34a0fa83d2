-- ===== src/Escrow/State.antt =====
-- programs/credmesh-escrow/src/state.rs. A `Pubkey`, and the 32 bytes of a receivable id, stand as
-- the number that their bytes spell; a 16-byte nonce stays a list of bytes.
use credmesh_solana.Prelude.{ℕ, ◌≤◌, ◌<◌, ◌≡◌, ◌↔◌, Option, arith, leb, ok, require, ◌>>◌}
use credmesh_solana.Prelude.Int.{ℤ}
use credmesh_solana.Machine.{u16_mod}
use credmesh_solana.Shared.Bytes.{Pubkey, Bytes}
use credmesh_solana.Runtime.{Outcome, custom}
use credmesh_solana.Escrow.Errors.{CredmeshError, invalid_fee_curve}

abbrev pub protocol_fee_bps : ℕ
protocol_fee_bps = 1500

abbrev pub bps_denominator : ℕ
bps_denominator = 10_000

-- 14 days.
abbrev pub liquidation_grace_seconds : ℕ
liquidation_grace_seconds = 1_209_600

abbrev pub virtual_assets_offset : ℕ
virtual_assets_offset = 1_000_000

abbrev pub virtual_shares_offset : ℕ
virtual_shares_offset = 1_000_000_000

abbrev pub max_late_days : ℕ
max_late_days = 365

abbrev pub min_advance_atoms : ℕ
min_advance_atoms = 1_000_000

-- 24 hours.
abbrev pub agent_window_seconds : ℕ
agent_window_seconds = 86_400

pub record FeeCurve : Type 0 where
  pub utilization_kink_bps : ℕ
  pub base_rate_bps : ℕ
  pub kink_rate_bps : ℕ
  pub max_rate_bps : ℕ
  pub duration_per_day_bps : ℕ
  pub risk_premium_bps : ℕ
  pub pool_loss_surcharge_bps : ℕ

pub record PendingParams : Type 0 where
  pub fee_curve : FeeCurve
  pub max_advance_pct_bps : ℕ
  pub max_advance_abs : ℕ
  pub agent_window_cap : ℕ
  pub execute_after : ℤ

pub record Pool : Type 0 where
  pub bump : ℕ
  pub asset_mint : Pubkey
  pub usdc_vault : Pubkey
  pub share_mint : Pubkey
  pub treasury_ata : Pubkey
  pub governance : Pubkey
  pub total_assets : ℕ
  pub total_shares : ℕ
  pub deployed_amount : ℕ
  pub accrued_protocol_fees : ℕ
  pub fee_curve : FeeCurve
  pub max_advance_pct_bps : ℕ
  pub max_advance_abs : ℕ
  pub agent_window_cap : ℕ
  pub timelock_seconds : ℤ
  pub chain_id : ℕ
  pub pending_params : Option PendingParams

pub data AdvanceState : Type 0 where
  issued settled liquidated : AdvanceState

pub record Advance : Type 0 where
  pub bump : ℕ
  pub agent : Pubkey
  pub receivable_id : ℕ
  pub principal : ℕ
  pub fee_owed : ℕ
  pub late_penalty_per_day : ℕ
  pub issued_at : ℤ
  pub expires_at : ℤ
  pub attestor : Pubkey
  pub state : AdvanceState

pub record ConsumedPayment : Type 0 where
  pub bump : ℕ
  pub nonce : Bytes
  pub agent : Pubkey
  pub created_at : ℤ

pub record LiquidationTombstone : Type 0 where
  pub bump : ℕ
  pub agent : Pubkey
  pub principal : ℕ
  pub expires_at : ℤ
  pub liquidated_at : ℤ

pub record AgentIssuanceLedger : Type 0 where
  pub bump : ℕ
  pub agent : Pubkey
  pub pool : Pubkey
  pub window_start : ℤ
  pub issued_in_window : ℕ
  pub live_principal : ℕ

-- `FeeCurve::validate`
unfoldable pub validate : FeeCurve → Outcome CredmeshError (Unit {0})
validate c = do
  require (leb c.utilization_kink_bps bps_denominator) (custom invalid_fee_curve)
  require (leb c.base_rate_bps c.kink_rate_bps) (custom invalid_fee_curve)
  require (leb c.kink_rate_bps c.max_rate_bps) (custom invalid_fee_curve)
  require (leb c.max_rate_bps bps_denominator) (custom invalid_fee_curve)
  ok tt

-- The order of the rates and the bounds in basis points that the pricing relies on.
pub record IsValidCurve (c : FeeCurve) : Type 0 where
  pub kink_le : c.utilization_kink_bps ≤ bps_denominator
  pub base_le_kink : c.base_rate_bps ≤ c.kink_rate_bps
  pub kink_le_max : c.kink_rate_bps ≤ c.max_rate_bps
  pub max_le : c.max_rate_bps ≤ bps_denominator

-- Each field of the curve is a `u16`.
pub record IsU16Curve (c : FeeCurve) : Type 0 where
  pub utilization_kink_lt : c.utilization_kink_bps < u16_mod
  pub base_rate_lt : c.base_rate_bps < u16_mod
  pub kink_rate_lt : c.kink_rate_bps < u16_mod
  pub max_rate_lt : c.max_rate_bps < u16_mod
  pub duration_lt : c.duration_per_day_bps < u16_mod
  pub risk_lt : c.risk_premium_bps < u16_mod
  pub surcharge_lt : c.pool_loss_surcharge_bps < u16_mod

-- `validate` accepts exactly the curves whose rates are ordered and bounded.
pub validate_iff : (c : FeeCurve) → (validate c ≡ ok tt) ↔ IsValidCurve c
unfolding validate
validate_iff c = ground arith
