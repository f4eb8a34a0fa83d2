-- ===== src/Escrow/Settlement/Settles.antt =====
-- When `claim_and_settle` succeeds.
use credmesh_solana.Prelude.{ℕ, ◌+◌, ◌-◌, ◌*◌, ◌/◌, ◌≤◌, ◌<◌, ◌≡◌, arith, ok, min}
use credmesh_solana.Prelude.Int.{ℤ, pos, pos_part, ◌+ℤ◌, ◌-ℤ◌, ◌<ℤ◌}
use credmesh_solana.Machine.{IsI64, u64_mod}
use credmesh_solana.Store.{put, remove, nat_eq, pair_eq}
use credmesh_solana.Token.{TokenProgram}
use credmesh_solana.Shared.Instructions.{Sysvar}
use credmesh_solana.Shared.Introspection.{require_memo_nonce}
use credmesh_solana.Escrow.Events.{advance_settled}
use credmesh_solana.Escrow.State.{liquidation_grace_seconds, max_late_days}
use credmesh_solana.Escrow.World.{World}
use credmesh_solana.Escrow.Settlement.{
  ClaimAndSettle, Loaded, transfer_positive, settle_accounts, settle_handler, claim_and_settle,
}
use credmesh_solana.Escrow.Settlement.Tranches.{protocol_share, waterfall_covers, late_days_at_lem}

-- The fee and the late penalty that a settlement owes.
abbrev pub fees_at : ℤ → Loaded → ℕ
fees_at now s =
    let a = s.advance in
    a.fee_owed
    + min (pos_part (now -ℤ a.expires_at) / 86_400) max_late_days * a.late_penalty_per_day

abbrev pub lp_part : ℕ → ℕ
lp_part fees = fees - protocol_share fees

module _ (t : TokenProgram) where
  -- What lets a settlement through: its time, the memo, the payment, the two transfers, and room in
  -- the counters.
  pub record Payable (sysvar : Sysvar) (now : ℤ) (ctx : ClaimAndSettle) (s : Loaded) (payment : ℕ)
      (w : World t) (taxed repaid : t.Bank) : Type 0 where
    pub grace_range : IsI64 (s.advance.expires_at +ℤ pos liquidation_grace_seconds)
    pub in_window : now <ℤ s.advance.expires_at +ℤ pos liquidation_grace_seconds
    pub late_range : IsI64 (now -ℤ s.advance.expires_at)
    pub memo : require_memo_nonce sysvar s.consumed.nonce ≡ ok tt
    pub debt_fits : s.advance.principal + fees_at now s < u64_mod
    pub payment_fits : payment < u64_mod
    pub pays_debt : s.advance.principal + fees_at now s ≤ payment
    pub taxes :
        transfer_positive t ctx.agent_usdc_ata ctx.usdc_mint ctx.protocol_treasury_ata ctx.agent
          (protocol_share (fees_at now s))
          s.decimals
          w.bank
        ≡ ok taxed
    pub repays :
        transfer_positive t ctx.agent_usdc_ata ctx.usdc_mint ctx.pool_usdc_vault ctx.agent
          (s.advance.principal + lp_part (fees_at now s))
          s.decimals
          taxed
        ≡ ok repaid
    pub live_covers : s.advance.principal ≤ s.ledger.live_principal
    pub deployed_covers : s.advance.principal ≤ w.pool.deployed_amount
    pub assets_fit : w.pool.total_assets + lp_part (fees_at now s) < u64_mod
    pub fees_fit : w.pool.accrued_protocol_fees + protocol_share (fees_at now s) < u64_mod

  -- A settlement whose accounts load and that is payable succeeds, at any time before 14 days after the
  -- expiry: payable means that the times and the sums are in range, the transaction has the memo of the
  -- advance's nonce, the payment covers the debt, the token program makes the two transfers, and the
  -- counters cover the principal. 15 % of the fee and the late penalty, rounded down, go to the protocol, the rest with
  -- the principal to the pool, and the advance ends.
  pub settle-succeeds :
      (sysvar : Sysvar) (now : ℤ) (ctx : ClaimAndSettle) (s : Loaded) (payment : ℕ) (w : World t)
      (taxed repaid : t.Bank)
      → settle_accounts t ctx w ≡ ok s
      → Payable sysvar now ctx s payment w taxed repaid
      → claim_and_settle t sysvar now ctx payment w
        ≡ ok (
          record w {
            pool = record (w.pool) {
              deployed_amount = w.pool.deployed_amount - s.advance.principal;
              total_assets = w.pool.total_assets + lp_part (fees_at now s);
              accrued_protocol_fees = w.pool.accrued_protocol_fees + protocol_share (fees_at now s);
            };
            advances = remove ctx.advance w.advances;
            ledgers =
                put s.advance.agent
                  (record (s.ledger) {
                    live_principal = s.ledger.live_principal - s.advance.principal;
                  })
                  w.ledgers;
            bank = repaid;
          },
          advance_settled w.pool_key s.advance.agent s.advance.receivable_id s.advance.principal
              (s.advance.principal + lp_part (fees_at now s))
              (protocol_share (fees_at now s))
              (payment - (s.advance.principal + fees_at now s))
              (min (pos_part (now -ℤ s.advance.expires_at) / 86_400) max_late_days),
        )
  unfolding claim_and_settle settle_handler
  settle-succeeds sysvar now ctx s payment w taxed repaid loads p =
      let a = s.advance in
      let days = min (pos_part (now -ℤ a.expires_at) / 86_400) max_late_days in
      let split =
        waterfall_covers a.principal a.fee_owed a.late_penalty_per_day days payment p.debt_fits
          p.payment_fits p.pays_debt in
      rw (loads, p.memo, late_days_at_lem now a.expires_at p.late_range, split, p.taxes, p.repays)
        (ground arith)
