-- ===== src/Protocol/Ranges/Fields.antt =====
-- The Rust types of a pool, an advance and a ledger, and what the handlers write into them.
use credmesh_solana.Prelude.{ℕ, ◌+◌, ◌<◌, ◌≡◌, arith, ok, inl, inr, Result-cases, >>=-eq-ok}
use credmesh_solana.Prelude.Int.{ℤ}
use credmesh_solana.Machine.{u64_mod, IsI64}
use credmesh_solana.Runtime.{or_panic}
use credmesh_solana.Shared.Layout.{expires_at_offset}
use credmesh_solana.Store.{nat_eq, pair_eq}
use credmesh_solana.Shared.Bytes.{Bytes, as_i64, from_le_bytes, index_range}
use credmesh_solana.Escrow.State.{Pool, Advance, AgentIssuanceLedger}
use credmesh_solana.Escrow.Attestation.{Attestation, decode, i64_le}
use credmesh_solana.Escrow.Pricing.{compute_fee_amount, compute_late_penalty_per_day}
use credmesh_solana.Escrow.RequestAdvance.{price_advance, charge_window, underwrite}

pub record IsTypedPool (p : Pool) : Type 0 where
  pub assets_lt : p.total_assets < u64_mod
  pub shares_lt : p.total_shares < u64_mod
  pub deployed_lt : p.deployed_amount < u64_mod
  pub fees_lt : p.accrued_protocol_fees < u64_mod

pub record IsTypedAdvance (a : Advance) : Type 0 where
  pub principal_lt : a.principal < u64_mod
  pub fee_lt : a.fee_owed < u64_mod
  pub penalty_lt : a.late_penalty_per_day < u64_mod
  pub expires_range : IsI64 a.expires_at

pub record IsTypedLedger (l : AgentIssuanceLedger) : Type 0 where
  pub issued_lt : l.issued_in_window < u64_mod
  pub live_lt : l.live_principal < u64_mod

-- Eight bytes read as an `i64` are one, whatever they are.
as_i64-IsI64 : (n : ℕ) → IsI64 (as_i64 n)
as_i64-IsI64 n = ground arith

i64_le-IsI64 : (msg : Bytes) (o : ℕ) {z : ℤ} → i64_le msg o ≡ ok z → IsI64 z
unfolding i64_le
i64_le-IsI64 msg o {z} h =
    let (buf, e, f) =
      >>=-eq-ok (or_panic (index_range msg o (o + 8))) (λ buf. ok (as_i64 (from_le_bytes buf))) h in
    ground (arith, as_i64-IsI64 (from_le_bytes buf))

pub decode-IsI64 : (msg : Bytes) {m : Attestation} → decode msg ≡ ok m → IsI64 m.expires_at
unfolding decode
decode-IsI64 msg {m} h = elim (Result-cases (i64_le msg expires_at_offset)) [
  | inl (e, f) ↦ ground arith
  | inr (z, f) ↦
      let range = i64_le-IsI64 msg expires_at_offset f in
      let same : z ≡ m.expires_at = ground arith in rw (← same) range
]

pub price_advance-lt :
    (now : ℤ) (amount : ℕ) (m : Attestation) (pool : Pool) {fee penalty : ℕ}
    → price_advance now amount m pool ≡ ok (fee, penalty)
    → (fee < u64_mod) × (penalty < u64_mod)
unfolding price_advance compute_fee_amount compute_late_penalty_per_day
price_advance-lt now amount m pool {fee} {penalty} h = ground arith

pub charged-lt :
    (amount cap max_advance_abs : ℕ) (m : Attestation) (l : AgentIssuanceLedger)
    {charged ledger : AgentIssuanceLedger}
    → charge_window amount cap l ≡ ok charged
    → underwrite amount max_advance_abs m charged ≡ ok ledger
    → (amount < u64_mod) × (ledger.issued_in_window < u64_mod) × (ledger.live_principal < u64_mod)
unfolding charge_window underwrite
charged-lt amount cap max_advance_abs m l {charged} {ledger} h k = ground arith
