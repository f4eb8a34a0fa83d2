-- ===== src/Escrow/Settlement/Settle.antt =====
-- `claim_and_settle`: what a call that succeeds has done.
use credmesh_solana.Prelude.{ok, ◌≡◌, ℕ, arith, inl, inr, Option-cases, Result-cases, >>=-eq-ok}
use credmesh_solana.Prelude.Int.{ℤ}
use credmesh_solana.Store.{find, nat_eq, pair_eq}
use credmesh_solana.Token.{TokenProgram}
use credmesh_solana.Shared.Instructions.{Sysvar}
use credmesh_solana.Escrow.Events.{Event}
use credmesh_solana.Escrow.World.{World}
use credmesh_solana.Escrow.Settlement.{
  ClaimAndSettle, Loaded, waterfall, late_days_at, transfer_positive, claim_and_settle,
  settle_accounts, settle_handler,
}
use credmesh_solana.Escrow.Settlement.Effects.{Settled, Presented}

module _ (t : TokenProgram) where
  pub settle_accounts-Presented :
      (ctx : ClaimAndSettle) (w : World t) {s : Loaded}
      → settle_accounts t ctx w ≡ ok s
      → Presented t ctx w s
  unfolding settle_accounts
  settle_accounts-Presented ctx w {s} h = elim (Option-cases (find ctx.advance w.advances)) [
    | inl n ↦ ground arith
    | inr (a, ea) ↦ elim (Option-cases (find ctx.advance w.consumed)) [
      | inl n ↦ ground arith
      | inr (c, ec) ↦ elim (Option-cases (find a.agent w.ledgers)) [
        | inl n ↦ ground arith
        | inr (l, el) ↦ ground arith
      ]
    ]
  ]

  pub settle_handler-Settled :
      (sysvar : Sysvar) (now : ℤ) (ctx : ClaimAndSettle) (s : Loaded) (payment : ℕ) (w : World t)
      {w' : World t} {e : Event}
      → settle_handler t sysvar now ctx s payment w ≡ ok (w', e)
      → Settled t sysvar now ctx s payment w w'
  unfolding settle_handler
  settle_handler-Settled sysvar now ctx s payment w {w'} {e} h =
      let a = s.advance in
      elim (Result-cases (late_days_at now a.expires_at)) [
        | inl (f, ef) ↦ ground arith
        | inr (d, ed) ↦
            elim (Result-cases
              (waterfall a.principal a.fee_owed a.late_penalty_per_day d payment)) [
                | inl (f, ef) ↦ ground arith
                | inr (cuts, ecut) ↦
                    elim (Result-cases (
                      transfer_positive t ctx.agent_usdc_ata ctx.usdc_mint ctx.protocol_treasury_ata
                        ctx.agent cuts.protocol_cut s.decimals w.bank)) [
                          | inl (f, ef) ↦ ground arith
                          | inr (taxed, et) ↦ record {
                            late_days = d;
                            cuts = cuts;
                            taxed = taxed;
                            grace_range = ground arith;
                            in_window = ground arith;
                            memo = ground arith;
                            days = ed;
                            split = ecut;
                            taxes = et;
                            repays = ground arith;
                            live_covers = ground arith;
                            deployed_covers = ground arith;
                            assets_fit = ground arith;
                            fees_fit = ground arith;
                            after = ground arith;
                          }
                        ]
              ]
      ]

  -- A settlement that succeeds is made by the agent of an open advance, with its marker and ledger,
  -- less than 14 days after the expiry and with the memo of its nonce; it has paid the protocol's cut to
  -- the treasury and the pool's cut to the vault, ends the advance, and lowers the deployed amount and
  -- the agent's live principal by the principal and raises the assets by the pool's part of the fees.
  pub claim_and_settle-Settled :
      (sysvar : Sysvar) (now : ℤ) (ctx : ClaimAndSettle) (payment : ℕ) (w : World t) {w' : World t}
      {e : Event}
      → claim_and_settle t sysvar now ctx payment w ≡ ok (w', e)
      → (s : Loaded) × Presented t ctx w s × Settled t sysvar now ctx s payment w w'
  unfolding claim_and_settle
  claim_and_settle-Settled sysvar now ctx payment w {w'} {e} h =
      let (s, loads, handles) =
        >>=-eq-ok (settle_accounts t ctx w) (λ s. settle_handler t sysvar now ctx s payment w) h in
      (
        s,
        settle_accounts-Presented ctx w loads,
        settle_handler-Settled sysvar now ctx s payment w handles,
      )
