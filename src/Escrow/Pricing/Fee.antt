-- ===== src/Escrow/Pricing/Fee.antt =====
-- The issuance fee (`compute_fee_amount`): on the values that its types and a valid curve allow the
-- code does not fail, and it gives the rate written below.
use native.Mathlib.Nat.{mul-le-mul, mul-le-mul_left, div-le_of_le-mul, le_trans}
use credmesh_solana.Prelude.{
  ℕ, ◌+◌, ◌-◌, ◌*◌, ◌/◌, ◌≤◌, ◌<◌, ◌≡◌, arith, ltb, min, if◌then◌else◌, ok,
}
use credmesh_solana.Machine.{u16_mod, u32_mod, u64_mod}
use credmesh_solana.Escrow.State.{FeeCurve, IsValidCurve, IsU16Curve, bps_denominator}
use credmesh_solana.Escrow.Pricing.{kink_rate, fee_rate, compute_fee_amount}

-- The rate at a utilization: a line from the base rate at 0 to the kink rate at the kink, and one
-- from there to the maximum at full utilization.
unfoldable pub base_line : ℕ → FeeCurve → ℕ
base_line u c = c.base_rate_bps + u * (c.kink_rate_bps - c.base_rate_bps) / c.utilization_kink_bps

unfoldable pub kink_line : ℕ → FeeCurve → ℕ
kink_line u c =
    c.kink_rate_bps
    + (u - c.utilization_kink_bps)
      * (c.max_rate_bps - c.kink_rate_bps)
      / (bps_denominator - c.utilization_kink_bps)

unfoldable pub curve_rate : ℕ → FeeCurve → ℕ
curve_rate u c = if ltb c.utilization_kink_bps u then kink_line u c else base_line u c

module _ (c : FeeCurve) (valid : IsValidCurve c) (typed : IsU16Curve c) where
  product-le : (u r : ℕ) → u ≤ bps_denominator → r < u16_mod → u * r < 2_000_000_000
  product-le u r hu hr =
      let large : u * r ≤ bps_denominator * u16_mod = mul-le-mul {m₂ = u16_mod} hu (omega arith) in
      omega arith

  kink_rate_lem : (u : ℕ) → u ≤ bps_denominator → kink_rate u c ≡ ok (curve_rate u c)
  unfolding kink_rate curve_rate base_line kink_line
  kink_rate_lem u hu = ground (
    arith,
    product-le u (c.kink_rate_bps - c.base_rate_bps) hu,
    product-le (u - c.utilization_kink_bps) (c.max_rate_bps - c.kink_rate_bps),
  )

-- The whole rate, as one formula.
unfoldable pub full_rate : (duration_seconds u defaults : ℕ) → FeeCurve → ℕ
full_rate d u n c =
    min (curve_rate u c + d / 86_400 * c.duration_per_day_bps + min n 5 * c.risk_premium_bps)
      c.max_rate_bps

pub full_rate-le : (d u n : ℕ) (c : FeeCurve) → full_rate d u n c ≤ c.max_rate_bps
unfolding full_rate
full_rate-le d u n c = omega arith

pub div_mono : (a b d : ℕ) → a ≤ b → a / d ≤ b / d
div_mono a b d h = grind arith

-- The fee is at most the principal, since no valid curve charges more than 100 %.
pub fee-le :
    (c : FeeCurve) (p d u n : ℕ)
    → IsValidCurve c
    → (p * full_rate d u n c ≤ p * bps_denominator) × (p * full_rate d u n c / bps_denominator ≤ p)
fee-le c p d u n valid =
    let product : p * full_rate d u n c ≤ p * bps_denominator =
      mul-le-mul_left p (le_trans (full_rate-le d u n c) valid.max_le) in
    (product, omega arith)

module _ (c : FeeCurve) (valid : IsValidCurve c) (typed : IsU16Curve c) where
  pub base_line-le : (u : ℕ) → u ≤ c.utilization_kink_bps → base_line u c ≤ c.kink_rate_bps
  unfolding base_line
  base_line-le u h =
      let part : u * (c.kink_rate_bps - c.base_rate_bps) / c.utilization_kink_bps
          ≤ c.kink_rate_bps - c.base_rate_bps =
        div-le_of_le-mul c.utilization_kink_bps (mul-le-mul h (omega arith)) in
      omega arith

  pub kink_line-le : (u : ℕ) → u ≤ bps_denominator → kink_line u c ≤ c.max_rate_bps
  unfolding kink_line
  kink_line-le u h =
      let part : (u - c.utilization_kink_bps)
            * (c.max_rate_bps - c.kink_rate_bps)
            / (bps_denominator - c.utilization_kink_bps)
          ≤ c.max_rate_bps - c.kink_rate_bps =
        div-le_of_le-mul (bps_denominator - c.utilization_kink_bps)
          (mul-le-mul (omega arith) (omega arith)) in
      omega arith

  -- With a valid curve the rate never passes the maximum.
  pub curve_rate-le : (u : ℕ) → u ≤ bps_denominator → curve_rate u c ≤ c.max_rate_bps
  unfolding curve_rate
  curve_rate-le u h = ground (arith, base_line-le u, kink_line-le u h)

  aged-lt : (d : ℕ) → d < u64_mod → d / 86_400 * c.duration_per_day_bps < u64_mod - u32_mod
  aged-lt d h =
      let large : d / 86_400 * c.duration_per_day_bps ≤ u64_mod / 86_400 * u16_mod =
        mul-le-mul {n₂ = u64_mod / 86_400} {m₂ = u16_mod} (omega arith) (omega arith) in
      omega arith

  risk-le : (n : ℕ) → min n 5 * c.risk_premium_bps ≤ 5 * u16_mod
  risk-le n = mul-le-mul {n₂ = 5} {m₂ = u16_mod} (omega arith) (omega arith)

  fee_rate_lem :
      (d u n : ℕ) → d < u64_mod → u ≤ bps_denominator → fee_rate d u n c ≡ ok (full_rate d u n c)
  unfolding fee_rate full_rate
  fee_rate_lem d u n hd hu =
      rw (kink_rate_lem c valid typed u hu)
        (ground (arith, curve_rate-le u hu, aged-lt d hd, risk-le n))

-- On a valid curve and values of their types, at a utilization of at most 100 %, the fee is computed
-- with no error; it is the principal times the capped rate, rounded down, and at most the principal.
pub compute_fee_amount-exact :
    (c : FeeCurve) (p d u n : ℕ)
    → IsValidCurve c
    → IsU16Curve c
    → p < u64_mod
    → d < u64_mod
    → u ≤ bps_denominator
    → let fee = p * full_rate d u n c / bps_denominator in
      (compute_fee_amount p d u n c ≡ ok fee) × (fee ≤ p)
unfolding compute_fee_amount
compute_fee_amount-exact c p d u n valid typed hp hd hu =
    let (product, small) = fee-le c p d u n valid in
    (rw (fee_rate_lem c valid typed d u n hd hu) (ground (arith, product)), small)
