-- ===== src/Tests/Pricing.antt =====
-- Share conversion, fees and penalties on concrete pools.
use credmesh_solana.Prelude.{◌+◌, ◌*◌, ◌/◌, ◌≤◌, ◌<◌, ◌≡◌, refl, arith, ok}
use credmesh_solana.Escrow.State.{
  IsValidCurve, IsU16Curve, bps_denominator, virtual_assets_offset, virtual_shares_offset,
}
use credmesh_solana.Escrow.Pricing.{
  preview_deposit, preview_redeem, kink_rate, fee_rate, compute_fee_amount,
}
use credmesh_solana.Escrow.Pricing.Rounding.{deposit-redeem-near, split-deposit-le}
use credmesh_solana.Escrow.Pricing.Fee.{full_rate, compute_fee_amount-exact}
use credmesh_solana.Escrow.Pricing.FeeOrder.{compute_fee_amount_mono}
use credmesh_solana.Tests.Worlds.{curve}

pub curve-IsValidCurve : IsValidCurve curve
curve-IsValidCurve = record {
  kink_le = omega arith;
  base_le_kink = omega arith;
  kink_le_max = omega arith;
  max_le = omega arith;
}

pub curve-IsU16Curve : IsU16Curve curve
curve-IsU16Curve = record {
  utilization_kink_lt = omega arith;
  base_rate_lt = omega arith;
  kink_rate_lt = omega arith;
  max_rate_lt = omega arith;
  duration_lt = omega arith;
  risk_lt = omega arith;
  surcharge_lt = omega arith;
}

-- A million atoms into a hundred million, and the shares back.
deposit_ok : preview_deposit 1_000_000 100_000_000 100_000_000_000 ≡ ok 1_000_000_000
unfolding preview_deposit
deposit_ok = refl

redeem_ok :
    preview_redeem 1_000_000_000 (100_000_000 + 1_000_000) (100_000_000_000 + 1_000_000_000)
    ≡ ok 1_000_000
unfolding preview_redeem
redeem_ok = refl

compute_fee_amount-exact_example :
    (compute_fee_amount 10_000_000 864_000 9000 2 curve
      ≡ ok (10_000_000 * full_rate 864_000 9000 2 curve / bps_denominator))
    × (10_000_000 * full_rate 864_000 9000 2 curve / bps_denominator ≤ 10_000_000)
compute_fee_amount-exact_example =
    compute_fee_amount-exact curve 10_000_000 864_000 9000 2 curve-IsValidCurve curve-IsU16Curve
      (omega arith) (omega arith) (omega arith)

low_fee : compute_fee_amount 10_000_000 864_000 4000 0 curve ≡ ok 450_000
unfolding compute_fee_amount fee_rate kink_rate
low_fee = refl

high_fee : compute_fee_amount 20_000_000 864_000 9000 2 curve ≡ ok 2_900_000
unfolding compute_fee_amount fee_rate kink_rate
high_fee = refl

compute_fee_amount_mono_example : ◌≤◌ 450_000 2_900_000
compute_fee_amount_mono_example =
    compute_fee_amount_mono curve 10_000_000 20_000_000 864_000 864_000 4000 9000 0 2
      curve-IsValidCurve curve-IsU16Curve (omega arith) (omega arith) (omega arith) (omega arith)
      (omega arith) (omega arith) (omega arith) low_fee high_fee

deposit-redeem-near_example :
    (◌≤◌ 1_000_000 1_000_000)
    × (1_000_000 * (100_000_000_000 + 1_000_000_000 + virtual_shares_offset)
        < (1_000_000 + 1) * (100_000_000_000 + 1_000_000_000 + virtual_shares_offset)
          + (100_000_000 + virtual_assets_offset))
deposit-redeem-near_example =
    deposit-redeem-near 1_000_000 100_000_000 100_000_000_000 deposit_ok redeem_ok

second_ok :
    preview_deposit 2_000_000 (100_000_000 + 1_000_000) (100_000_000_000 + 1_000_000_000)
    ≡ ok 2_000_000_000
unfolding preview_deposit
second_ok = refl

whole_ok : preview_deposit (1_000_000 + 2_000_000) 100_000_000 100_000_000_000 ≡ ok 3_000_000_000
unfolding preview_deposit
whole_ok = refl

split-deposit-le_example : 1_000_000_000 + 2_000_000_000 ≤ 3_000_000_000
split-deposit-le_example =
    split-deposit-le 1_000_000 2_000_000 100_000_000 100_000_000_000 deposit_ok second_ok whole_ok
