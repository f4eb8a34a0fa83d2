-- ===== src/Escrow/RequestAdvance/Terms.antt =====
-- The terms of an advance in programs/credmesh-escrow/src/instructions/request_advance.rs: steps (4) and
-- (4b), the issuance ledger and the credit, and step (5), the fee.
use credmesh_solana.Prelude.{
  ℕ, none, some, Option, ltb, leb, ◌==◌, ok, require, ◌>>=◌, ◌>>◌, if◌then◌else◌,
}
use credmesh_solana.Prelude.Int.{ℤ, pos, leb_ℤ}
use credmesh_solana.Machine.{checked_add_u64, saturating_sub_u64, saturating_sub_i64, clamp_to_u64}
use credmesh_solana.Runtime.{Outcome, custom, or_fail}
use credmesh_solana.Store.{nat_eq, pair_eq}
use credmesh_solana.Shared.Bytes.{Pubkey}
use credmesh_solana.Escrow.Errors.{
  CredmeshError, math_overflow, advance_exceeds_cap, advance_exceeds_credit,
  agent_window_cap_exceeded,
}
use credmesh_solana.Escrow.State.{Pool, AgentIssuanceLedger, agent_window_seconds}
use credmesh_solana.Escrow.Pricing.{
  compute_fee_amount, compute_late_penalty_per_day, compute_utilization_bps,
}
use credmesh_solana.Escrow.Attestation.{Attestation}

-- What `init_if_needed` finds or makes: an account of zeros.
abbrev pub zeroed_ledger : AgentIssuanceLedger
zeroed_ledger = record {
  bump = 0;
  agent = 0;
  pool = 0;
  window_start = pos 0;
  issued_in_window = 0;
  live_principal = 0;
}

abbrev pub ledger_or_zero : Option AgentIssuanceLedger → AgentIssuanceLedger
ledger_or_zero none = zeroed_ledger
ledger_or_zero (some l) = l

-- Step (4): a fresh ledger is pinned to its agent and pool.
unfoldable pub pin_ledger :
    (now : ℤ) (bump : ℕ) (agent pool_key : Pubkey) → AgentIssuanceLedger → AgentIssuanceLedger
pin_ledger now bump agent pool_key l =
    if l.bump == 0
    then record l {
      bump = bump;
      agent = agent;
      pool = pool_key;
      window_start = now;
      issued_in_window = 0;
    }
    else l

-- A window that is 24 hours old starts anew.
unfoldable pub roll_window : (now : ℤ) → AgentIssuanceLedger → AgentIssuanceLedger
roll_window now l =
    if leb_ℤ (pos agent_window_seconds) (saturating_sub_i64 now l.window_start)
    then record l { window_start = now; issued_in_window = 0 }
    else l

-- The cap on what the window may hold; 0 turns it off.
unfoldable pub charge_window :
    (amount agent_window_cap : ℕ) → AgentIssuanceLedger → Outcome CredmeshError AgentIssuanceLedger
charge_window amount agent_window_cap l = do
  new_issued ← or_fail (checked_add_u64 l.issued_in_window amount) math_overflow
  if ltb 0 agent_window_cap
      then require (leb new_issued agent_window_cap) (custom agent_window_cap_exceeded)
      else ok tt
  ok (record l { issued_in_window = new_issued })

-- Step (4b): the attested limit, less the attested outstanding balance and the live principal here.
unfoldable pub underwrite :
    (amount max_advance_abs : ℕ)
    → Attestation
    → AgentIssuanceLedger
    → Outcome CredmeshError AgentIssuanceLedger
underwrite amount max_advance_abs m l = do
  combined_outstanding ← or_fail (checked_add_u64 m.outstanding l.live_principal) math_overflow
  let available_credit = saturating_sub_u64 m.credit_limit combined_outstanding
  require (leb amount available_credit) (custom advance_exceeds_credit)
  require (leb amount max_advance_abs) (custom advance_exceeds_cap)
  live_principal ← or_fail (checked_add_u64 l.live_principal amount) math_overflow
  ok (record l { live_principal = live_principal })

-- Step (5): the fee and the daily late penalty.
unfoldable pub price_advance :
    (now : ℤ) (amount : ℕ) → Attestation → Pool → Outcome CredmeshError (ℕ × ℕ)
price_advance now amount m pool = do
  let duration_seconds = clamp_to_u64 (saturating_sub_i64 m.expires_at now)
  utilization ← compute_utilization_bps pool
  fee_owed ← compute_fee_amount amount duration_seconds utilization 0 pool.fee_curve
  late_penalty_per_day ← compute_late_penalty_per_day amount pool.fee_curve
  ok (fee_owed, late_penalty_per_day)
