-- ===== src/Escrow/RequestAdvance/Succeeds.antt =====
-- When a request for an advance succeeds.
use credmesh_solana.Prelude.{ℕ, ◌+◌, ◌≤◌, ◌<◌, ◌≡◌, ◌⊎◌, some, arith, ok, inl, inr}
use credmesh_solana.Prelude.Int.{ℤ}
use credmesh_solana.Machine.{u64_mod}
use credmesh_solana.Store.{find, put, nat_eq, pair_eq}
use credmesh_solana.Token.{TokenProgram}
use credmesh_solana.Shared.Bytes.{Pubkey, Bytes}
use credmesh_solana.Shared.Instructions.{Sysvar}
use credmesh_solana.Escrow.Events.{advance_issued}
use credmesh_solana.Escrow.State.{Pool, AgentIssuanceLedger, min_advance_atoms}
use credmesh_solana.Escrow.Attestation.{Attestation}
use credmesh_solana.Escrow.Attestation.Accepted.{Accepted, verify_attestation_iff}
use credmesh_solana.Escrow.World.{World}
use credmesh_solana.Escrow.RequestAdvance.{
  RequestAdvance, Loaded, ledger_or_zero, pin_ledger, roll_window, charge_window, underwrite,
  request_accounts, request_handler, request_advance, new_advance, new_marker,
}
use credmesh_solana.Escrow.RequestAdvance.Priced.{
  IsPriceable, fee_of, penalty_of, price_advance-exact,
}

-- The ledger has room for the amount in its window, the attested limit, less all that is outstanding
-- there and live here, has room for it too, it is within the pool's absolute cap, and the sums fit.
pub record IsCreditable (amount : ℕ) (pool : Pool) (m : Attestation) (l : AgentIssuanceLedger)
    : Type 0 where
  pub amount_fits : amount < u64_mod
  pub window_fits : l.issued_in_window + amount < u64_mod
  pub window_covers :
      (pool.agent_window_cap ≡ 0) ⊎ (l.issued_in_window + amount ≤ pool.agent_window_cap)
  pub credit_covers : m.outstanding + l.live_principal + amount ≤ m.credit_limit
  pub combined_fits : m.outstanding + l.live_principal < u64_mod
  pub live_fits : l.live_principal + amount < u64_mod
  pub within_cap : amount ≤ pool.max_advance_abs

abbrev pub charged_ledger : ℕ → AgentIssuanceLedger → AgentIssuanceLedger
charged_ledger amount l = record l {
  issued_in_window = l.issued_in_window + amount;
  live_principal = l.live_principal + amount;
}

charge_window-covers :
    (amount : ℕ) (pool : Pool) (m : Attestation) (l : AgentIssuanceLedger)
    → IsCreditable amount pool m l
    → charge_window amount pool.agent_window_cap l
      ≡ ok (record l { issued_in_window = l.issued_in_window + amount })
unfolding charge_window
charge_window-covers amount pool m l c = elim c.window_covers [
  | inl off ↦ ground (arith, c.window_fits, off)
  | inr covers ↦ ground (arith, c.window_fits, covers)
]

underwrite-covers :
    (amount : ℕ) (pool : Pool) (m : Attestation) (l : AgentIssuanceLedger)
    → IsCreditable amount pool m l
    → underwrite amount pool.max_advance_abs m
        (record l { issued_in_window = l.issued_in_window + amount })
      ≡ ok (charged_ledger amount l)
unfolding underwrite
underwrite-covers amount pool m l c =
    ground (arith, c.credit_covers, c.combined_fits, c.live_fits, c.within_cap)

module _ (t : TokenProgram) where
  -- The agent's ledger as the request finds it: made if it is missing, its window started anew if old.
  abbrev pub ledger_at : (now : ℤ) → RequestAdvance → World t → AgentIssuanceLedger
  ledger_at now ctx w = roll_window now (
      pin_ledger now ctx.issuance_ledger_bump ctx.agent w.pool_key
        (ledger_or_zero (find ctx.agent w.ledgers)))

  -- A request whose accounts load, with an accepted attestation, for at least the minimum and at most the
  -- pool's absolute cap, within the window cap (unless that is off) and the attested credit less what is
  -- outstanding there and live here, with sums that fit a `u64`, out of assets that are not deployed, from
  -- a pool that can be priced, succeeds if the token program pays: the advance stands at the exact price with the expiry of the
  -- attestation, its marker with the nonce, and the ledger and the pool are charged.
  pub request-succeeds :
      (sysvar : Sysvar) (now : ℤ) (ctx : RequestAdvance) (s : Loaded t) (receivable_id amount : ℕ)
      (nonce : Bytes) (w : World t) (key : Pubkey) (m : Attestation) (paid : t.Bank)
      → request_accounts t ctx receivable_id w ≡ ok s
      → Accepted sysvar now s.allowed ctx.agent w.pool_key w.pool.chain_id nonce key m
      → min_advance_atoms ≤ amount
      → IsCreditable amount w.pool m (ledger_at now ctx w)
      → IsPriceable w.pool
      → w.pool.deployed_amount + amount ≤ w.pool.total_assets
      → t.transfer_checked ctx.pool_usdc_vault ctx.usdc_mint ctx.agent_usdc_ata w.pool_key amount
          s.decimals s.opened
        ≡ some paid
      → request_advance t sysvar now ctx receivable_id amount nonce w
        ≡ ok (
          record w {
            pool = record (w.pool) { deployed_amount = w.pool.deployed_amount + amount };
            advances =
                put
                  (ctx.agent, receivable_id)
                  (new_advance now ctx receivable_id amount
                    (fee_of now amount m w.pool)
                    (penalty_of amount w.pool)
                    m
                    key)
                  w.advances;
            consumed = put (ctx.agent, receivable_id) (new_marker now ctx nonce) w.consumed;
            ledgers = put ctx.agent (charged_ledger amount (ledger_at now ctx w)) w.ledgers;
            bank = paid;
          },
          advance_issued w.pool_key ctx.agent receivable_id amount
              (fee_of now amount m w.pool)
              m.expires_at
              key,
        )
  unfolding request_advance request_handler
  request-succeeds sysvar now ctx s receivable_id amount nonce w key m paid loads accepted large
        credit priced idle pays =
      let l = ledger_at now ctx w in
      let checked =
        (verify_attestation_iff sysvar now s.allowed ctx.agent w.pool_key w.pool.chain_id nonce key
            m).1
          accepted in
      let price = (price_advance-exact now amount m w.pool priced credit.amount_fits).0 in
      let charges = charge_window-covers amount w.pool m l credit in
      let underwrites = underwrite-covers amount w.pool m l credit in
      rw (loads, checked, charges, underwrites, price, pays) (ground arith)
