-- ===== src/Escrow/Settlement/Tranches.antt =====
-- The three tranches of a payment, and the days that a settlement is late.
use credmesh_solana.Prelude.{ℕ, ◌+◌, ◌-◌, ◌*◌, ◌/◌, ◌≤◌, ◌<◌, ◌≡◌, arith, ok, err, min}
use credmesh_solana.Prelude.Int.{ℤ, pos_part, ◌-ℤ◌}
use credmesh_solana.Machine.{u64_mod, IsI64}
use credmesh_solana.Runtime.{custom}
use credmesh_solana.Escrow.Errors.{waterfall_sum_mismatch}
use credmesh_solana.Escrow.State.{max_late_days, bps_denominator, protocol_fee_bps}
use credmesh_solana.Escrow.Settlement.{Waterfall, waterfall, late_days_at}

-- The protocol's part of the fees, 15 % rounded down.
abbrev pub protocol_share : ℕ → ℕ
protocol_share fees = fees * protocol_fee_bps / bps_denominator

module _ (principal fee rate days payment : ℕ) where
  abbrev fees : ℕ
  fees = fee + days * rate

  -- If the debt fits a `u64` and the payment covers it, the payment is split: 15 % of fee and late
  -- penalty, rounded down, to the protocol, the rest of them with the principal to the pool, and what
  -- is left to the agent.
  pub waterfall_covers :
      principal + (fee + days * rate) < u64_mod
      → payment < u64_mod
      → principal + (fee + days * rate) ≤ payment
      → waterfall principal fee rate days payment
        ≡ ok (record {
          protocol_cut = protocol_share (fee + days * rate);
          lp_fee = fee + days * rate - protocol_share (fee + days * rate);
          lp_cut = principal + (fee + days * rate - protocol_share (fee + days * rate));
          agent_net = payment - (principal + (fee + days * rate));
        })
  unfolding waterfall
  waterfall_covers owed paid covers = ground arith

  -- If the debt fits a `u64` and the payment does not cover it, the payment is refused.
  pub waterfall_short :
      principal + (fee + days * rate) < u64_mod
      → payment < principal + (fee + days * rate)
      → waterfall principal fee rate days payment ≡ err (custom waterfall_sum_mismatch)
  unfolding waterfall
  waterfall_short owed short = ground arith

  -- A split that succeeds has a debt and a payment that fit a `u64`, and a payment that covers the debt.
  pub waterfall_needs :
      {cuts : Waterfall}
      → waterfall principal fee rate days payment ≡ ok cuts
      → (principal + (fee + days * rate) < u64_mod)
        × (payment < u64_mod)
        × (principal + (fee + days * rate) ≤ payment)
  unfolding waterfall
  waterfall_needs {cuts} h = ground arith

  -- Whatever the inputs, a split that succeeds loses and makes no atom: the three tranches add up to
  -- the payment, the principal goes to the pool whole, and the protocol and the pool share exactly the
  -- fee and the late penalty, the protocol getting 15 % of them rounded down.
  pub waterfall_conserves :
      {cuts : Waterfall}
      → waterfall principal fee rate days payment ≡ ok cuts
      → (cuts.protocol_cut + cuts.lp_cut + cuts.agent_net ≡ payment)
        × (cuts.lp_cut ≡ principal + cuts.lp_fee)
        × (cuts.protocol_cut + cuts.lp_fee ≡ fee + days * rate)
        × (cuts.protocol_cut ≡ protocol_share (fee + days * rate))
  unfolding waterfall
  waterfall_conserves {cuts} h = ground arith

-- Late days are only computed if the time since the expiry fits an `i64`.
pub late_days_at-IsI64 :
    (now expires_at : ℤ) {days : ℕ}
    → late_days_at now expires_at ≡ ok days
    → IsI64 (now -ℤ expires_at)
unfolding late_days_at
late_days_at-IsI64 now expires_at h = ground arith

-- If the time since the expiry fits an `i64`, the late days are its full days, none before the expiry,
-- and never more than 365.
pub late_days_at_lem :
    (now expires_at : ℤ)
    → IsI64 (now -ℤ expires_at)
    → late_days_at now expires_at ≡ ok (min (pos_part (now -ℤ expires_at) / 86_400) max_late_days)
unfolding late_days_at
late_days_at_lem now expires_at h = ground arith
