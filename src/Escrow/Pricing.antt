-- ===== src/Escrow/Pricing.antt =====
-- programs/credmesh-escrow/src/pricing.rs: share conversion, the issuance fee, the late penalty and
-- the utilization. `?` on an overflow is the error math_overflow; a plain `+` aborts.
pub mod Shares
pub mod Fee
pub mod FeeOrder
pub mod Penalty
pub mod UnitTests
pub mod Rounding
use credmesh_solana.Prelude.{
  ℕ, ◌+◌, ◌-◌, ◌/◌, ◌&&◌, Option, none, some, ltb, ◌==◌, min, if◌then◌else◌, ok, ◌>>=◌,
}
use credmesh_solana.Machine.{
  checked_add_u64, checked_mul_u64, saturating_sub_u64, saturating_mul_u64, checked_add_u128,
  checked_mul_u128, checked_div, try_u64,
}
use credmesh_solana.Runtime.{Outcome, or_fail, or_panic}
use credmesh_solana.Escrow.Errors.{CredmeshError, math_overflow}
use credmesh_solana.Escrow.State.{
  FeeCurve, Pool, bps_denominator, virtual_assets_offset, virtual_shares_offset,
}

abbrev Amount : Type 0
Amount = Outcome CredmeshError ℕ

-- `….ok_or(CredmeshError::MathOverflow)?`
abbrev or_overflow : Option ℕ → Amount
or_overflow o = or_fail o math_overflow

unfoldable pub preview_deposit : (amount total_assets total_shares : ℕ) → Outcome CredmeshError ℕ
preview_deposit amount total_assets total_shares = do
  shares_off ← or_overflow (checked_add_u128 total_shares virtual_shares_offset)
  assets_off ← or_overflow (checked_add_u128 total_assets virtual_assets_offset)
  numerator ← or_overflow (checked_mul_u128 amount shares_off)
  shares ← or_overflow (checked_div numerator assets_off)
  or_overflow (try_u64 shares)

unfoldable pub preview_redeem : (shares total_assets total_shares : ℕ) → Outcome CredmeshError ℕ
preview_redeem shares total_assets total_shares = do
  assets_off ← or_overflow (checked_add_u128 total_assets virtual_assets_offset)
  shares_off ← or_overflow (checked_add_u128 total_shares virtual_shares_offset)
  numerator ← or_overflow (checked_mul_u128 shares assets_off)
  assets ← or_overflow (checked_div numerator shares_off)
  or_overflow (try_u64 assets)

-- The two branches of the kink: the rate before the premiums.
unfoldable pub kink_rate : ℕ → FeeCurve → Outcome CredmeshError ℕ
kink_rate utilization_bps curve =
    let kink = curve.utilization_kink_bps in
    if ltb kink utilization_bps && ltb 0 (saturating_sub_u64 bps_denominator kink)
    then (do
      let extra = utilization_bps - kink
      let span = bps_denominator - kink
      let kink_to_max = saturating_sub_u64 curve.max_rate_bps curve.kink_rate_bps
      product ← or_overflow (checked_mul_u64 extra kink_to_max)
      or_panic (checked_add_u64 curve.kink_rate_bps (product / span)))
    else (do
      let kink_minus_base = saturating_sub_u64 curve.kink_rate_bps curve.base_rate_bps
      scaled ← or_overflow (checked_mul_u64 utilization_bps kink_minus_base)
      or_panic (checked_add_u64 curve.base_rate_bps (if ltb 0 kink then scaled / kink else 0)))

-- The whole rate, capped by the curve's maximum.
unfoldable pub fee_rate :
    (duration_seconds utilization_bps default_count : ℕ) → FeeCurve → Outcome CredmeshError ℕ
fee_rate duration_seconds utilization_bps default_count curve = do
  base ← kink_rate utilization_bps curve
  let duration_days = duration_seconds / 86_400
  aged ←
      or_overflow
        (checked_add_u64 base (saturating_mul_u64 duration_days curve.duration_per_day_bps))
  let risk_factor = min default_count 5
  risked ←
      or_overflow (checked_add_u64 aged (saturating_mul_u64 risk_factor curve.risk_premium_bps))
  ok (min risked curve.max_rate_bps)

unfoldable pub compute_fee_amount :
    (principal duration_seconds utilization_bps default_count : ℕ)
    → FeeCurve
    → Outcome CredmeshError ℕ
compute_fee_amount principal duration_seconds utilization_bps default_count curve = do
  rate_bps ← fee_rate duration_seconds utilization_bps default_count curve
  product ← or_overflow (checked_mul_u128 principal rate_bps)
  fee ← or_overflow (checked_div product bps_denominator)
  or_overflow (try_u64 fee)

unfoldable pub compute_late_penalty_per_day : ℕ → FeeCurve → Outcome CredmeshError ℕ
compute_late_penalty_per_day principal curve = do
  product ← or_overflow (checked_mul_u128 principal 10)
  base ← or_overflow (checked_div product bps_denominator)
  let surcharge = curve.pool_loss_surcharge_bps
  total ←
      if ltb 0 surcharge
      then (do
        raised ← or_overflow (checked_mul_u128 base (bps_denominator + surcharge))
        or_overflow (checked_div raised bps_denominator))
      else ok base
  or_overflow (try_u64 total)

unfoldable pub compute_utilization_bps : Pool → Outcome CredmeshError ℕ
compute_utilization_bps pool = if pool.total_assets == 0 then ok bps_denominator else (do
  product ← or_overflow (checked_mul_u128 pool.deployed_amount bps_denominator)
  utilization ← or_overflow (checked_div product pool.total_assets)
  ok (elim (try_u64 utilization) [ some u ↦ u | none ↦ bps_denominator ]))
