-- ===== src/Escrow/Settlement/Split.antt =====
-- The late days of a settlement and the three tranches of its payment, of
-- programs/credmesh-escrow/src/instructions/claim_and_settle.rs.
use credmesh_solana.Prelude.{
  ℕ, ◌/◌, none, some, ltb, leb, ◌==◌, Bool, false, ok, require, ◌>>=◌, ◌>>◌, if◌then◌else◌,
}
use credmesh_solana.Prelude.Int.{ℤ}
use credmesh_solana.Machine.{
  checked_add_u64, checked_sub_u64, checked_mul_u64, checked_mul_u128, checked_div, try_u64,
  checked_sub_i64, clamp_to_u64,
}
use credmesh_solana.Runtime.{Outcome, custom, or_fail, or_panic}
use credmesh_solana.Store.{nat_eq, pair_eq}
use credmesh_solana.Escrow.Errors.{CredmeshError, math_overflow, waterfall_sum_mismatch}
use credmesh_solana.Escrow.State.{max_late_days, protocol_fee_bps, bps_denominator}

-- Full days past the expiry, at most `MAX_LATE_DAYS`. The plain subtraction aborts on overflow.
unfoldable pub late_days_at : (now expires_at : ℤ) → Outcome CredmeshError ℕ
late_days_at now expires_at = do
  overdue ← or_panic (checked_sub_i64 now expires_at)
  let late_days = clamp_to_u64 overdue / 86_400
  ok (if ltb max_late_days late_days then max_late_days else late_days)

pub record Waterfall : Type 0 where
  pub protocol_cut : ℕ
  pub lp_fee : ℕ
  pub lp_cut : ℕ
  pub agent_net : ℕ

-- `protocol_cut.checked_add(lp_cut).and_then(|x| x.checked_add(agent_net)) == Some(payment_amount)`
abbrev pub sums_to : (protocol_cut lp_cut agent_net payment_amount : ℕ) → Bool
sums_to protocol_cut lp_cut agent_net payment_amount = elim (checked_add_u64 protocol_cut lp_cut) [
  | none ↦ false
  | some x ↦ elim (checked_add_u64 x agent_net) [ none ↦ false | some s ↦ s == payment_amount ]
]

-- The three tranches of a payment.
unfoldable pub waterfall :
    (principal fee_owed late_penalty_per_day late_days payment_amount : ℕ)
    → Outcome CredmeshError Waterfall
waterfall principal fee_owed late_penalty_per_day late_days payment_amount = do
  late_penalty ← or_fail (checked_mul_u64 late_days late_penalty_per_day) math_overflow
  with_fee ← or_fail (checked_add_u64 principal fee_owed) math_overflow
  total_owed ← or_fail (checked_add_u64 with_fee late_penalty) math_overflow
  require (leb total_owed payment_amount) (custom waterfall_sum_mismatch)
  total_fee ← or_fail (checked_add_u64 fee_owed late_penalty) math_overflow
  scaled ← or_fail (checked_mul_u128 total_fee protocol_fee_bps) math_overflow
  protocol_cut_u128 ← or_fail (checked_div scaled bps_denominator) math_overflow
  protocol_cut ← or_fail (try_u64 protocol_cut_u128) math_overflow
  lp_fee ← or_fail (checked_sub_u64 total_fee protocol_cut) math_overflow
  lp_cut ← or_fail (checked_add_u64 principal lp_fee) math_overflow
  less_protocol ← or_fail (checked_sub_u64 payment_amount protocol_cut) math_overflow
  agent_net ← or_fail (checked_sub_u64 less_protocol lp_cut) math_overflow
  require (sums_to protocol_cut lp_cut agent_net payment_amount) (custom waterfall_sum_mismatch)
  ok (record {
    protocol_cut = protocol_cut;
    lp_fee = lp_fee;
    lp_cut = lp_cut;
    agent_net = agent_net;
  })
