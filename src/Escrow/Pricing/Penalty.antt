-- ===== src/Escrow/Pricing/Penalty.antt =====
-- The late penalty (`compute_late_penalty_per_day`) and the utilization (`compute_utilization_bps`).
use native.Mathlib.Nat.{mul-le-mul_left, mul-le-mul_right, div-le_of_le-mul}
use credmesh_solana.Prelude.{ℕ, ◌+◌, ◌*◌, ◌/◌, ◌≤◌, ◌<◌, ◌≡◌, arith, if◌then◌else◌, ok, ◌==◌}
use credmesh_solana.Machine.{u16_mod, u64_mod}
use credmesh_solana.Escrow.State.{FeeCurve, IsU16Curve, bps_denominator, Pool}
use credmesh_solana.Escrow.Pricing.{compute_late_penalty_per_day, compute_utilization_bps}

-- The penalty is 10 basis points of the principal a day, rounded down, raised by the surcharge; for
-- `u64` principals and `u16` surcharges it is computed with no error and is at most the principal.
pub compute_late_penalty_per_day-exact :
    (p : ℕ) (c : FeeCurve)
    → IsU16Curve c
    → p < u64_mod
    → let penalty =
        p
        * 10
        / bps_denominator
        * (bps_denominator + c.pool_loss_surcharge_bps)
        / bps_denominator in
      (compute_late_penalty_per_day p c ≡ ok penalty) × (penalty ≤ p)
unfolding compute_late_penalty_per_day
compute_late_penalty_per_day-exact p c typed hp =
    let s = c.pool_loss_surcharge_bps in
    let base = p * 10 / bps_denominator in
    let raised : base * (bps_denominator + s) ≤ base * (bps_denominator + u16_mod) =
      mul-le-mul_left base (omega arith) in
    ground arith

-- The share of the assets that is deployed, in basis points, rounded down; 100 % of an empty pool.
unfoldable pub utilization : (assets deployed : ℕ) → ℕ
utilization assets deployed =
    if assets == 0 then bps_denominator else deployed * bps_denominator / assets

-- While no more is deployed than the pool owns, the utilization is computed with no error and is at
-- most 100 %.
pub compute_utilization_bps-exact :
    (pool : Pool)
    → pool.total_assets < u64_mod
    → pool.deployed_amount ≤ pool.total_assets
    → let u = utilization pool.total_assets pool.deployed_amount in
      (compute_utilization_bps pool ≡ ok u) × (u ≤ bps_denominator)
unfolding compute_utilization_bps utilization
compute_utilization_bps-exact pool ha hd =
    let a = pool.total_assets in
    let d = pool.deployed_amount in
    let small : d * bps_denominator / a ≤ bps_denominator =
      div-le_of_le-mul a {m = d * bps_denominator} (mul-le-mul_right bps_denominator hd) in
    ground arith
