-- ===== src/Escrow/Panics/Settlement.antt =====
-- The one plain operator of `claim_and_settle`, `now - advance.expires_at`.
use credmesh_solana.Prelude.{ℕ, ◌≡◌, ◌≢◌, arith, some, err, inl, inr, Result-cases}
use credmesh_solana.Prelude.Int.{ℤ, pos, ◌≤ℤ◌, ◌<ℤ◌, ◌+ℤ◌, +ℤ_parts, -ℤ_parts}
use credmesh_solana.Machine.{i64_max}
use credmesh_solana.Runtime.{panicked}
use credmesh_solana.Store.{find, nat_eq, pair_eq}
use credmesh_solana.Token.{TokenProgram}
use credmesh_solana.Shared.Instructions.{Sysvar}
use credmesh_solana.Shared.Introspection.{require_memo_nonce}
use credmesh_solana.Escrow.State.{Advance, liquidation_grace_seconds}
use credmesh_solana.Escrow.World.{World}
use credmesh_solana.Escrow.Settlement.{
  ClaimAndSettle, Loaded, waterfall, late_days_at, transfer_positive, settle_accounts,
  settle_handler, claim_and_settle,
}
use credmesh_solana.Escrow.Settlement.Settle.{settle_accounts-Presented}
use credmesh_solana.Escrow.Panics.{>>=-ne-panicked}

late_days_at-ne-panicked :
    (now expires_at : ℤ)
    → pos 0 ≤ℤ now
    → expires_at ≤ℤ i64_max
    → now <ℤ expires_at +ℤ pos liquidation_grace_seconds
    → late_days_at now expires_at ≢ err panicked
unfolding late_days_at
late_days_at-ne-panicked now expires_at after small window =
    ground (arith, -ℤ_parts now expires_at, +ℤ_parts expires_at (pos liquidation_grace_seconds))

waterfall-ne-panicked :
    (principal fee_owed rate days payment : ℕ)
    → waterfall principal fee_owed rate days payment ≢ err panicked
unfolding waterfall
waterfall-ne-panicked principal fee_owed rate days payment = ground arith

module _ (t : TokenProgram) where
  settle_accounts-ne-panicked :
      (ctx : ClaimAndSettle) (w : World t) → settle_accounts t ctx w ≢ err panicked
  unfolding settle_accounts
  settle_accounts-ne-panicked ctx w = ground arith

  settle_handler-ne-panicked :
      (sysvar : Sysvar) (now : ℤ) (ctx : ClaimAndSettle) (s : Loaded) (payment : ℕ) (w : World t)
      → pos 0 ≤ℤ now
      → s.advance.expires_at ≤ℤ i64_max
      → settle_handler t sysvar now ctx s payment w ≢ err panicked
  unfolding settle_handler require_memo_nonce
  settle_handler-ne-panicked sysvar now ctx s payment w after small =
      let a = s.advance in
      let days = late_days_at-ne-panicked now a.expires_at after small in
      elim (Result-cases (late_days_at now a.expires_at)) [
        | inl (f, ef) ↦ ground (arith, days)
        | inr (d, ed) ↦
            let split =
              waterfall-ne-panicked a.principal a.fee_owed a.late_penalty_per_day d payment in
            elim (Result-cases
              (waterfall a.principal a.fee_owed a.late_penalty_per_day d payment)) [
                | inl (f, ef) ↦ ground (arith, split)
                | inr (cuts, ec) ↦
                    elim (Result-cases (
                      transfer_positive t ctx.agent_usdc_ata ctx.usdc_mint ctx.protocol_treasury_ata
                        ctx.agent cuts.protocol_cut s.decimals w.bank)) [
                          | inl (f, et) ↦ ground arith
                          | inr (taxed, et) ↦ ground arith
                        ]
              ]
      ]

  pub claim_and_settle-ne-panicked :
      (sysvar : Sysvar) (now : ℤ) (ctx : ClaimAndSettle) (payment : ℕ) (w : World t)
      → pos 0 ≤ℤ now
      → ((a : Advance) → find ctx.advance w.advances ≡ some a → a.expires_at ≤ℤ i64_max)
      → claim_and_settle t sysvar now ctx payment w ≢ err panicked
  unfolding claim_and_settle
  claim_and_settle-ne-panicked sysvar now ctx payment w after small =
      >>=-ne-panicked (settle_accounts t ctx w) (λ s. settle_handler t sysvar now ctx s payment w)
        (settle_accounts-ne-panicked ctx w)
        (λ s loads.
          settle_handler-ne-panicked sysvar now ctx s payment w after
            (small s.advance (settle_accounts-Presented t ctx w loads).advance_found))
