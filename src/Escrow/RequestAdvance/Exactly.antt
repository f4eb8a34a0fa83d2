-- ===== src/Escrow/RequestAdvance/Exactly.antt =====
-- `request_advance`: exactly when a request goes through.
use credmesh_solana.Prelude.{ℕ, ◌+◌, ◌≤◌, ◌≡◌, ◌↔◌, some, arith, ok, >>=-eq-ok}
use credmesh_solana.Prelude.Int.{ℤ}
use credmesh_solana.Token.{TokenProgram}
use credmesh_solana.Store.{nat_eq}
use credmesh_solana.Shared.Bytes.{Pubkey, Bytes}
use credmesh_solana.Shared.Instructions.{Sysvar}
use credmesh_solana.Escrow.Events.{Event}
use credmesh_solana.Escrow.State.{AgentIssuanceLedger, Pool, min_advance_atoms}
use credmesh_solana.Escrow.Attestation.{Attestation}
use credmesh_solana.Escrow.Attestation.Accepted.{Accepted, verify_attestation_iff}
use credmesh_solana.Escrow.World.{World}
use credmesh_solana.Escrow.RequestAdvance.{
  RequestAdvance, Loaded, charge_window, underwrite, request_accounts, request_handler,
  request_advance,
}
use credmesh_solana.Escrow.RequestAdvance.Effects.{
  Presented, request_accounts-Presented, request_handler-Issued,
}
use credmesh_solana.Escrow.RequestAdvance.Priced.{IsPriceable}
use credmesh_solana.Escrow.RequestAdvance.Succeeds.{IsCreditable, ledger_at, request-succeeds}

-- What passes the window and the underwriting is creditable.
charged-IsCreditable :
    (amount : ℕ) (pool : Pool) (m : Attestation) (l : AgentIssuanceLedger)
    {charged ledger : AgentIssuanceLedger}
    → min_advance_atoms ≤ amount
    → charge_window amount pool.agent_window_cap l ≡ ok charged
    → underwrite amount pool.max_advance_abs m charged ≡ ok ledger
    → IsCreditable amount pool m l
unfolding charge_window underwrite
charged-IsCreditable amount pool m l large charges underwrites = record {
  amount_fits = ground arith;
  window_fits = ground arith;
  window_covers = ground arith;
  credit_covers = ground arith;
  combined_fits = ground arith;
  live_fits = ground arith;
  within_cap = ground arith;
}

module _ (t : TokenProgram) where
  -- The accounts load, a message is accepted, the amount is at least the minimum and within the window,
  -- the credit, the pool's cap and the assets not deployed, and the token program pays.
  pub record IsGrantable (sysvar : Sysvar) (now : ℤ) (ctx : RequestAdvance)
      (receivable_id amount : ℕ) (nonce : Bytes) (w : World t) : Type 0 where
    pub s : Loaded t
    pub key : Pubkey
    pub m : Attestation
    pub paid : t.Bank
    pub loads : request_accounts t ctx receivable_id w ≡ ok s
    pub presented : Presented t ctx receivable_id w s
    pub accepted : Accepted sysvar now s.allowed ctx.agent w.pool_key w.pool.chain_id nonce key m
    pub large_enough : min_advance_atoms ≤ amount
    pub creditable : IsCreditable amount w.pool m (ledger_at t now ctx w)
    pub idle : w.pool.deployed_amount + amount ≤ w.pool.total_assets
    pub pays :
        t.transfer_checked ctx.pool_usdc_vault ctx.usdc_mint ctx.agent_usdc_ata w.pool_key amount
          s.decimals s.opened
        ≡ some paid

  -- On a pool that can be priced, a request succeeds exactly when its accounts load with no advance and
  -- no marker at its key, an attestation is accepted, the amount is at least the minimum and at most the
  -- pool's absolute cap, fits the window cap (unless that is off), the attested limit less what is
  -- outstanding there and live here, and the assets that are not deployed, the sums fit a `u64`, and the
  -- token program makes the payment.
  pub request_advance_iff :
      (sysvar : Sysvar) (now : ℤ) (ctx : RequestAdvance) (receivable_id amount : ℕ) (nonce : Bytes)
      (w : World t)
      → IsPriceable w.pool
      → ((r : World t × Event) × (request_advance t sysvar now ctx receivable_id amount nonce w
            ≡ ok r))
        ↔ IsGrantable sysvar now ctx receivable_id amount nonce w
  unfolding request_advance
  request_advance_iff sysvar now ctx receivable_id amount nonce w priced = (
    λ success.
        let ((w', e), h) = success in
        let (s, loads, handles) =
          >>=-eq-ok (request_accounts t ctx receivable_id w)
            (λ s. request_handler t sysvar now ctx s receivable_id amount nonce w) h in
        let d = request_handler-Issued t sysvar now ctx s receivable_id amount nonce w handles in
        record {
          s = s;
          key = d.key;
          m = d.m;
          paid = w'.bank;
          loads = loads;
          presented = request_accounts-Presented t ctx receivable_id w loads;
          accepted =
              (verify_attestation_iff sysvar now s.allowed ctx.agent w.pool_key w.pool.chain_id
                  nonce d.key d.m).0
                d.attested;
          large_enough = d.large_enough;
          creditable =
              charged-IsCreditable amount w.pool d.m (ledger_at t now ctx w) d.large_enough
                d.charges d.underwrites;
          idle = d.deployed_le;
          pays = d.pays;
        },
    λ g. (
      _,
      request-succeeds t sysvar now ctx g.s receivable_id amount nonce w g.key g.m g.paid g.loads
          g.accepted g.large_enough g.creditable priced g.idle g.pays,
    ),
  )
