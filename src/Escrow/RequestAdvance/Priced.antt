-- ===== src/Escrow/RequestAdvance/Priced.antt =====
-- The price of an advance: on a valid curve, and while no more is deployed than the pool owns, it is
-- computed with no error.
use credmesh_solana.Prelude.{ℕ, ◌+◌, ◌*◌, ◌/◌, ◌≤◌, ◌<◌, ◌≡◌, arith, ok, refl}
use credmesh_solana.Prelude.Int.{ℤ, -ℤ_parts}
use credmesh_solana.Machine.{u64_mod, saturating_sub_i64, clamp_to_u64}
use credmesh_solana.Escrow.State.{Pool, IsValidCurve, IsU16Curve, bps_denominator}
use credmesh_solana.Escrow.Pricing.Fee.{full_rate, compute_fee_amount-exact}
use credmesh_solana.Escrow.Pricing.Penalty.{
  utilization, compute_late_penalty_per_day-exact, compute_utilization_bps-exact,
}
use credmesh_solana.Escrow.Attestation.{Attestation}
use credmesh_solana.Escrow.RequestAdvance.{price_advance}

-- The seconds that `expires_at` lies ahead, in the range of an `i64`.
abbrev pub tenor : (now expires_at : ℤ) → ℕ
tenor now expires_at = clamp_to_u64 (saturating_sub_i64 expires_at now)

-- What the pricing relies on.
pub record IsPriceable (pool : Pool) : Type 0 where
  pub valid : IsValidCurve pool.fee_curve
  pub typed : IsU16Curve pool.fee_curve
  pub assets_fit : pool.total_assets < u64_mod
  pub covered : pool.deployed_amount ≤ pool.total_assets

abbrev pub fee_of : (now : ℤ) (amount : ℕ) → Attestation → Pool → ℕ
fee_of now amount m pool =
    amount
    * full_rate (tenor now m.expires_at) (utilization pool.total_assets pool.deployed_amount) 0
        pool.fee_curve
    / bps_denominator

abbrev pub penalty_of : (amount : ℕ) → Pool → ℕ
penalty_of amount pool =
    amount
    * 10
    / bps_denominator
    * (bps_denominator + pool.fee_curve.pool_loss_surcharge_bps)
    / bps_denominator

-- The fee is the amount times the rate of the curve at the pool's utilization and the tenor, capped and
-- rounded down, and neither it nor the daily penalty is more than the amount.
pub price_advance-exact :
    (now : ℤ) (amount : ℕ) (m : Attestation) (pool : Pool)
    → IsPriceable pool
    → amount < u64_mod
    → (price_advance now amount m pool ≡ ok (fee_of now amount m pool, penalty_of amount pool))
      × (fee_of now amount m pool ≤ amount)
      × (penalty_of amount pool ≤ amount)
unfolding price_advance
price_advance-exact now amount m pool p fits =
    let d = tenor now m.expires_at in
    let short : d < u64_mod = ground (arith, -ℤ_parts m.expires_at now) in
    let u = compute_utilization_bps-exact pool p.assets_fit p.covered in
    let fee =
      compute_fee_amount-exact pool.fee_curve amount d
        (utilization pool.total_assets pool.deployed_amount) 0 p.valid p.typed fits short u.1 in
    let penalty = compute_late_penalty_per_day-exact amount pool.fee_curve p.typed fits in
    (rw (u.0, fee.0, penalty.0) refl, fee.1, penalty.1)
