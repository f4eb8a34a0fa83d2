-- ===== src/Escrow/Pricing/FeeOrder.antt =====
-- The issuance fee grows with the principal, the tenor, the utilization and the defaults.
use native.Mathlib.Nat.{mul-le-mul, mul-le-mul_right}
use credmesh_solana.Prelude.{ℕ, ◌-◌, ◌*◌, ◌/◌, ◌≤◌, ◌<◌, ◌≡◌, arith, min, ok}
use credmesh_solana.Machine.{u64_mod}
use credmesh_solana.Escrow.State.{FeeCurve, IsValidCurve, IsU16Curve, bps_denominator}
use credmesh_solana.Escrow.Pricing.{compute_fee_amount, fee_rate}
use credmesh_solana.Escrow.Pricing.Fee.{
  base_line, kink_line, curve_rate, full_rate, div_mono, base_line-le, compute_fee_amount-exact,
}

module _ (c : FeeCurve) where
  base_line_mono : (u v : ℕ) → u ≤ v → base_line u c ≤ base_line v c
  unfolding base_line
  base_line_mono u v h =
      let r = c.kink_rate_bps - c.base_rate_bps in
      let k = c.utilization_kink_bps in
      let part : u * r / k ≤ v * r / k = div_mono (u * r) (v * r) k (mul-le-mul_right r h) in
      omega arith

  kink_line_mono : (u v : ℕ) → u ≤ v → kink_line u c ≤ kink_line v c
  unfolding kink_line
  kink_line_mono u v h =
      let r = c.max_rate_bps - c.kink_rate_bps in
      let k = c.utilization_kink_bps in
      let d = bps_denominator - k in
      let part : (u - k) * r / d ≤ (v - k) * r / d =
        div_mono ((u - k) * r) ((v - k) * r) d (mul-le-mul_right r (omega arith)) in
      omega arith

  -- The kink is no step down: the first line ends where the second begins.
  kink_rate-le : (u : ℕ) → c.kink_rate_bps ≤ kink_line u c
  unfolding kink_line
  kink_rate-le u = omega arith

  curve_rate_mono :
      (u v : ℕ) → IsValidCurve c → IsU16Curve c → u ≤ v → curve_rate u c ≤ curve_rate v c
  unfolding curve_rate
  curve_rate_mono u v valid typed h = ground (
    arith,
    base_line_mono u v h,
    kink_line_mono u v h,
    base_line-le c valid typed u,
    kink_rate-le v,
  )

  full_rate_mono :
      (d d' u u' n n' : ℕ)
      → IsValidCurve c
      → IsU16Curve c
      → d ≤ d'
      → u ≤ u'
      → n ≤ n'
      → full_rate d u n c ≤ full_rate d' u' n' c
  unfolding full_rate
  full_rate_mono d d' u u' n n' valid typed hd hu hn =
      let days : d / 86_400 * c.duration_per_day_bps ≤ d' / 86_400 * c.duration_per_day_bps =
        mul-le-mul_right c.duration_per_day_bps (omega arith) in
      let risk : min n 5 * c.risk_premium_bps ≤ min n' 5 * c.risk_premium_bps =
        mul-le-mul_right c.risk_premium_bps (omega arith) in
      omega (arith, curve_rate_mono u u' valid typed hu)

  -- On a valid curve, a larger principal, a longer tenor, a higher utilization (up to 100 %, the
  -- kink included) and more defaults never lower the fee.
  pub compute_fee_amount_mono :
      (p p' d d' u u' n n' : ℕ) {f f' : ℕ}
      → IsValidCurve c
      → IsU16Curve c
      → p ≤ p'
      → p' < u64_mod
      → d ≤ d'
      → d' < u64_mod
      → u ≤ u'
      → u' ≤ bps_denominator
      → n ≤ n'
      → compute_fee_amount p d u n c ≡ ok f
      → compute_fee_amount p' d' u' n' c ≡ ok f'
      → f ≤ f'
  compute_fee_amount_mono p p' d d' u u' n n' {f} {f'} valid typed hp hp' hd hd' hu hu' hn e e' =
      let low =
        compute_fee_amount-exact c p d u n valid typed (omega arith) (omega arith) (omega arith) in
      let high = compute_fee_amount-exact c p' d' u' n' valid typed hp' hd' hu' in
      let product : p * full_rate d u n c ≤ p' * full_rate d' u' n' c =
        mul-le-mul hp (full_rate_mono d d' u u' n n' valid typed hd hu hn) in
      ground (arith, low.0, high.0)

  -- Five defaults and any larger number of them cost the same, whatever the curve.
  pub compute_fee_amount-clamp :
      (p d u n : ℕ) → 5 ≤ n → compute_fee_amount p d u n c ≡ compute_fee_amount p d u 5 c
  unfolding compute_fee_amount fee_rate
  compute_fee_amount-clamp p d u n h = let e : min n 5 ≡ 5 = omega arith in rw e
