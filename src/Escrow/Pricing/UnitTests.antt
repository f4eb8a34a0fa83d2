-- ===== src/Escrow/Pricing/UnitTests.antt =====
-- The unit tests of programs/credmesh-escrow/src/pricing.rs, each a function into `Bool` of the test's
-- name, on the curve and the pools of the test module.
use credmesh_solana.Prelude.{
  ℕ, ◌+◌, ◌*◌, ◌/◌, ◌≡◌, refl, none, Bool, true, false, ◌&&◌, ok, err, ltb, leb, ◌==◌, ◌>>=◌,
}
use credmesh_solana.Prelude.Int.{pos}
use credmesh_solana.Machine.{saturating_sub_u64}
use credmesh_solana.Runtime.{Outcome}
use credmesh_solana.Escrow.Errors.{CredmeshError}
use credmesh_solana.Escrow.State.{FeeCurve, Pool, bps_denominator}
use credmesh_solana.Escrow.Pricing.{
  preview_deposit, preview_redeem, kink_rate, fee_rate, compute_fee_amount,
  compute_late_penalty_per_day, compute_utilization_bps,
}

abbrev curve : FeeCurve
curve = record {
  utilization_kink_bps = 8_000;
  base_rate_bps = 200;
  kink_rate_bps = 800;
  max_rate_bps = 5_000;
  duration_per_day_bps = 50;
  risk_premium_bps = 100;
  pool_loss_surcharge_bps = 0;
}

-- A test whose `unwrap` fails fails.
abbrev passes : Outcome CredmeshError Bool → Bool
passes (ok b) = b
passes (err e) = false

fee_zero_principal_is_zero : Bool
fee_zero_principal_is_zero = passes (do f ← compute_fee_amount 0 86_400 5_000 0 curve; ok (f == 0))

fee_capped_by_max_rate_bps : Bool
fee_capped_by_max_rate_bps =
    let principal : ℕ = 1_000_000_000 in
    passes (do
      f ← compute_fee_amount principal (86_400 * 365) 10_000 99 curve
      ok (leb f (principal * curve.max_rate_bps / bps_denominator)))

fee_monotonic_in_principal : Bool
fee_monotonic_in_principal = passes (do
  a ← compute_fee_amount 10_000_000 86_400 5_000 0 curve
  b ← compute_fee_amount 20_000_000 86_400 5_000 0 curve
  cv ← compute_fee_amount 50_000_000 86_400 5_000 0 curve
  ok (leb a b && leb b cv))

fee_monotonic_in_duration : Bool
fee_monotonic_in_duration =
    let p : ℕ = 100_000_000 in
    passes (do
      one_day ← compute_fee_amount p 86_400 5_000 0 curve
      seven_day ← compute_fee_amount p (7 * 86_400) 5_000 0 curve
      thirty_day ← compute_fee_amount p (30 * 86_400) 5_000 0 curve
      ok (leb one_day seven_day && leb seven_day thirty_day))

fee_monotonic_in_utilization_above_kink : Bool
fee_monotonic_in_utilization_above_kink =
    let p : ℕ = 100_000_000 in
    passes (do
      at_kink ← compute_fee_amount p 86_400 curve.utilization_kink_bps 0 curve
      above ← compute_fee_amount p 86_400 9_500 0 curve
      max_util ← compute_fee_amount p 86_400 10_000 0 curve
      ok (leb at_kink above && leb above max_util))

fee_risk_premium_clamps_at_five_defaults : Bool
fee_risk_premium_clamps_at_five_defaults =
    let p : ℕ = 100_000_000 in
    passes (do
      five ← compute_fee_amount p 86_400 5_000 5 curve
      twenty ← compute_fee_amount p 86_400 5_000 20 curve
      ok (five == twenty))

late_penalty_zero_principal_zero : Bool
late_penalty_zero_principal_zero =
    passes (do penalty ← compute_late_penalty_per_day 0 curve; ok (penalty == 0))

late_penalty_baseline_is_ten_bps : Bool
late_penalty_baseline_is_ten_bps =
    let p : ℕ = 1_000_000_000 in
    passes (do pen ← compute_late_penalty_per_day p curve; ok (pen == p * 10 / 10_000))

late_penalty_surcharge_increases : Bool
late_penalty_surcharge_increases =
    let p : ℕ = 100_000_000 in
    passes (do
      no_surcharge ← compute_late_penalty_per_day p curve
      let c2 = record curve { pool_loss_surcharge_bps = 5_000 }
      with_surcharge ← compute_late_penalty_per_day p c2
      ok (ltb no_surcharge with_surcharge && with_surcharge == no_surcharge * 3 / 2))

first_depositor_inflation_attack_is_costly : Bool
first_depositor_inflation_attack_is_costly =
    let total_assets : ℕ = 1_000_000_000_000 in
    passes (do
      attacker_shares ← preview_deposit 1 0 0
      attacker_redeem ← preview_redeem attacker_shares total_assets attacker_shares
      ok (ltb attacker_redeem (total_assets / 100)))

share_price_monotonic_under_yield_addition : Bool
share_price_monotonic_under_yield_addition = passes (do
  s1 ← preview_deposit 100_000_000 0 0
  s2 ← preview_deposit 100_000_000 (100_000_000 + 50_000_000) s1
  ok (ltb s2 s1))

redeem_round_trips_with_no_yield : Bool
redeem_round_trips_with_no_yield =
    let dep : ℕ = 1_000_000_000 in
    passes (do
      shares ← preview_deposit dep 0 0
      redeemed ← preview_redeem shares dep shares
      ok (leb (saturating_sub_u64 dep redeemed) (dep / 1_000_000)))

abbrev pool_with : (total_assets deployed : ℕ) → Pool
pool_with total_assets deployed = record {
  bump = 0;
  asset_mint = 0;
  usdc_vault = 0;
  share_mint = 0;
  treasury_ata = 0;
  governance = 0;
  total_assets = total_assets;
  total_shares = 0;
  deployed_amount = deployed;
  accrued_protocol_fees = 0;
  fee_curve = curve;
  max_advance_pct_bps = 3000;
  max_advance_abs = 100_000_000;
  agent_window_cap = 0;
  timelock_seconds = pos 86_400;
  chain_id = 2;
  pending_params = none;
}

utilization_zero_assets_is_max : Bool
utilization_zero_assets_is_max =
    passes (do u ← compute_utilization_bps (pool_with 0 0); ok (u == bps_denominator))

utilization_half_deployed_is_5000_bps : Bool
utilization_half_deployed_is_5000_bps =
    passes (do u ← compute_utilization_bps (pool_with 1_000_000_000 500_000_000); ok (u == 5_000))

utilization_fully_deployed_is_max : Bool
utilization_fully_deployed_is_max = passes (do
  u ← compute_utilization_bps (pool_with 1_000_000_000 1_000_000_000)
  ok (u == bps_denominator))

fee_tests_pass :
    fee_zero_principal_is_zero && fee_capped_by_max_rate_bps && fee_monotonic_in_principal
      && fee_monotonic_in_duration && fee_monotonic_in_utilization_above_kink
      && fee_risk_premium_clamps_at_five_defaults
    ≡ true
unfolding fee_zero_principal_is_zero fee_capped_by_max_rate_bps fee_monotonic_in_principal
    fee_monotonic_in_duration fee_monotonic_in_utilization_above_kink
    fee_risk_premium_clamps_at_five_defaults compute_fee_amount fee_rate kink_rate
fee_tests_pass = refl

late_penalty_tests_pass :
    late_penalty_zero_principal_zero && late_penalty_baseline_is_ten_bps
      && late_penalty_surcharge_increases
    ≡ true
unfolding late_penalty_zero_principal_zero late_penalty_baseline_is_ten_bps
    late_penalty_surcharge_increases compute_late_penalty_per_day
late_penalty_tests_pass = refl

share_tests_pass :
    first_depositor_inflation_attack_is_costly && share_price_monotonic_under_yield_addition
      && redeem_round_trips_with_no_yield
    ≡ true
unfolding first_depositor_inflation_attack_is_costly share_price_monotonic_under_yield_addition
    redeem_round_trips_with_no_yield preview_deposit preview_redeem
share_tests_pass = refl

utilization_tests_pass :
    utilization_zero_assets_is_max && utilization_half_deployed_is_5000_bps
      && utilization_fully_deployed_is_max
    ≡ true
unfolding utilization_zero_assets_is_max utilization_half_deployed_is_5000_bps
    utilization_fully_deployed_is_max compute_utilization_bps
utilization_tests_pass = refl
