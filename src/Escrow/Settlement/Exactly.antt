-- ===== src/Escrow/Settlement/Exactly.antt =====
-- `claim_and_settle`: exactly when a settlement goes through.
use credmesh_solana.Prelude.{ℕ, ◌/◌, ◌≡◌, ◌↔◌, arith, ok, min, >>=-eq-ok}
use credmesh_solana.Prelude.Int.{ℤ, pos_part, ◌-ℤ◌}
use credmesh_solana.Escrow.State.{max_late_days}
use credmesh_solana.Token.{TokenProgram}
use credmesh_solana.Shared.Instructions.{Sysvar}
use credmesh_solana.Escrow.Events.{Event}
use credmesh_solana.Escrow.World.{World}
use credmesh_solana.Escrow.Settlement.{
  ClaimAndSettle, Loaded, settle_accounts, settle_handler, claim_and_settle,
}
use credmesh_solana.Escrow.Settlement.Settle.{settle_accounts-Presented, settle_handler-Settled}
use credmesh_solana.Escrow.Settlement.Effects.{Settled, Presented}
use credmesh_solana.Escrow.Settlement.Settles.{Payable, fees_at, lp_part, settle-succeeds}
use credmesh_solana.Escrow.Settlement.Tranches.{
  protocol_share, waterfall_needs, waterfall_conserves, late_days_at_lem, late_days_at-IsI64,
}

-- The days by which the settlement is late.
abbrev late_days_of : ℤ → Loaded → ℕ
late_days_of now s = min (pos_part (now -ℤ s.advance.expires_at) / 86_400) max_late_days

module _ (t : TokenProgram) where
  -- The accounts load, and the settlement can be paid.
  pub record Settleable (sysvar : Sysvar) (now : ℤ) (ctx : ClaimAndSettle) (payment : ℕ)
      (w : World t) : Type 0 where
    pub s : Loaded
    pub taxed : t.Bank
    pub repaid : t.Bank
    pub loads : settle_accounts t ctx w ≡ ok s
    pub presented : Presented t ctx w s
    pub payable : Payable t sysvar now ctx s payment w taxed repaid

  Settled-Payable :
      (sysvar : Sysvar) (now : ℤ) (ctx : ClaimAndSettle) (s : Loaded) (payment : ℕ) (w w' : World t)
      (d : Settled t sysvar now ctx s payment w w')
      → Payable t sysvar now ctx s payment w d.taxed w'.bank
  Settled-Payable sysvar now ctx s payment w w' d =
      let a = s.advance in
      let range = late_days_at-IsI64 now a.expires_at d.days in
      let days : d.late_days ≡ late_days_of now s =
        ground (arith, d.days, late_days_at_lem now a.expires_at range) in
      let (debt_fits, payment_fits, pays_debt) = waterfall_needs _ _ _ _ _ d.split in
      let (sum, lps, whole, cut) = waterfall_conserves _ _ _ _ _ d.split in
      let protocol : d.cuts.protocol_cut ≡ protocol_share (fees_at now s) = rw (← days) cut in
      let gain : d.cuts.lp_fee ≡ lp_part (fees_at now s) =
        rw (← days) (omega (arith, whole, cut)) in
      record {
        grace_range = d.grace_range;
        in_window = d.in_window;
        late_range = range;
        memo = d.memo;
        debt_fits = rw (← days) debt_fits;
        payment_fits = payment_fits;
        pays_debt = rw (← days) pays_debt;
        taxes = rw (← protocol) d.taxes;
        repays = rw (← gain, ← lps) d.repays;
        live_covers = d.live_covers;
        deployed_covers = d.deployed_covers;
        assets_fit = rw (← gain) d.assets_fit;
        fees_fit = rw (← protocol) d.fees_fit;
      }

  -- A settlement succeeds exactly when its accounts load, those of an open advance presented by its agent
  -- with its marker and ledger, and it is payable: at any time less than 14 days after
  -- the expiry, with the memo of the advance's nonce, with a payment of at least the principal, the fee and
  -- the penalty of the full late days (at most 365), with 15 % of the fee and the penalty, rounded down,
  -- going to the treasury and all else that is owed to the vault by transfers that the token program makes,
  -- with a ledger and a pool that cover the principal, and with no number out of its range.
  pub claim_and_settle_iff :
      (sysvar : Sysvar) (now : ℤ) (ctx : ClaimAndSettle) (payment : ℕ) (w : World t)
      → ((r : World t × Event) × (claim_and_settle t sysvar now ctx payment w ≡ ok r))
        ↔ Settleable sysvar now ctx payment w
  unfolding claim_and_settle
  claim_and_settle_iff sysvar now ctx payment w = (
    λ success.
        let ((w', e), h) = success in
        let (s, loads, handles) =
          >>=-eq-ok (settle_accounts t ctx w) (λ s. settle_handler t sysvar now ctx s payment w)
            h in
        let d = settle_handler-Settled t sysvar now ctx s payment w handles in
        record {
          s = s;
          taxed = d.taxed;
          repaid = w'.bank;
          loads = loads;
          presented = settle_accounts-Presented t ctx w loads;
          payable = Settled-Payable sysvar now ctx s payment w w' d;
        },
    λ c. (_, settle-succeeds t sysvar now ctx c.s payment w c.taxed c.repaid c.loads c.payable),
  )
