-- ===== src/Escrow/RequestAdvance/Effects.antt =====
-- What a request for an advance that succeeds has done.
use credmesh_solana.Prelude.{
  ℕ, ◌+◌, ◌≤◌, ◌<◌, ◌≡◌, some, none, arith, ok, inl, inr, Option-cases, Result-cases, >>=-eq-ok,
}
use credmesh_solana.Prelude.Int.{ℤ}
use credmesh_solana.Machine.{u64_mod}
use credmesh_solana.Store.{find, put, nat_eq, pair_eq}
use credmesh_solana.Token.{TokenProgram, owner}
use credmesh_solana.Shared.Bytes.{Pubkey, Bytes}
use credmesh_solana.Shared.Instructions.{Sysvar}
use credmesh_solana.Escrow.Events.{Event}
use credmesh_solana.Escrow.State.{AgentIssuanceLedger, min_advance_atoms}
use credmesh_solana.Escrow.Attestation.{Attestation, verify_attestation}
use credmesh_solana.Escrow.World.{World}
use credmesh_solana.Escrow.RequestAdvance.{
  RequestAdvance, Loaded, request_accounts, request_handler, request_advance, new_advance,
  new_marker, ledger_or_zero, pin_ledger, roll_window, charge_window, underwrite, price_advance,
}

module _ (t : TokenProgram) where
  -- The accounts of a request: the key is new, and the agent's token account is made.
  pub record Presented (ctx : RequestAdvance) (receivable_id : ℕ) (w : World t) (s : Loaded t)
      : Type 0 where
    pub signer_found : find ctx.allowed_signer w.registry.allowed_signers ≡ some s.allowed
    pub signer_seed : s.allowed.signer ≡ ctx.allowed_signer
    pub new_advance : find (ctx.agent, receivable_id) w.advances ≡ none
    pub new_marker : find (ctx.agent, receivable_id) w.consumed ≡ none
    pub from_vault : ctx.pool_usdc_vault ≡ w.pool.usdc_vault
    pub in_asset : ctx.usdc_mint ≡ w.pool.asset_mint
    pub opens : t.init_associated ctx.usdc_mint ctx.agent w.bank ≡ some s.opened
    pub receiver_owned : owner t s.opened ctx.agent_usdc_ata ≡ some ctx.agent

  pub record Issued (sysvar : Sysvar) (now : ℤ) (ctx : RequestAdvance) (s : Loaded t)
      (receivable_id amount : ℕ) (nonce : Bytes) (w w' : World t) : Type 0 where
    pub key : Pubkey
    pub m : Attestation
    pub charged : AgentIssuanceLedger
    pub ledger : AgentIssuanceLedger
    pub fee_owed : ℕ
    pub late_penalty_per_day : ℕ
    pub large_enough : min_advance_atoms ≤ amount
    pub attested :
        verify_attestation sysvar now s.allowed ctx.agent w.pool_key w.pool.chain_id nonce
        ≡ ok (key, m)
    pub charges :
        charge_window amount w.pool.agent_window_cap (
          roll_window now (
            pin_ledger now ctx.issuance_ledger_bump ctx.agent w.pool_key
              (ledger_or_zero (find ctx.agent w.ledgers))))
        ≡ ok charged
    pub underwrites : underwrite amount w.pool.max_advance_abs m charged ≡ ok ledger
    pub prices : price_advance now amount m w.pool ≡ ok (fee_owed, late_penalty_per_day)
    pub pays :
        t.transfer_checked ctx.pool_usdc_vault ctx.usdc_mint ctx.agent_usdc_ata w.pool_key amount
          s.decimals s.opened
        ≡ some w'.bank
    pub deployed_le : w.pool.deployed_amount + amount ≤ w.pool.total_assets
    pub deployed_fits : w.pool.deployed_amount + amount < u64_mod
    pub after : w' ≡ record w {
      pool = record (w.pool) { deployed_amount = w.pool.deployed_amount + amount };
      advances =
          put
            (ctx.agent, receivable_id)
            (new_advance now ctx receivable_id amount fee_owed late_penalty_per_day m key)
            w.advances;
      consumed = put (ctx.agent, receivable_id) (new_marker now ctx nonce) w.consumed;
      ledgers = put ctx.agent ledger w.ledgers;
      bank = w'.bank;
    }

  pub request_accounts-Presented :
      (ctx : RequestAdvance) (receivable_id : ℕ) (w : World t) {s : Loaded t}
      → request_accounts t ctx receivable_id w ≡ ok s
      → Presented ctx receivable_id w s
  unfolding request_accounts
  request_accounts-Presented ctx receivable_id w {s} h =
      elim (Option-cases (find ctx.allowed_signer w.registry.allowed_signers)) [
        | inl n ↦ ground arith
        | inr (allowed, ea) ↦
            elim (Option-cases (t.init_associated ctx.usdc_mint ctx.agent w.bank)) [
              | inl n ↦ ground arith
              | inr (opened, eo) ↦ ground arith
            ]
      ]

  pub request_handler-Issued :
      (sysvar : Sysvar) (now : ℤ) (ctx : RequestAdvance) (s : Loaded t) (receivable_id amount : ℕ)
      (nonce : Bytes) (w : World t) {w' : World t} {e : Event}
      → request_handler t sysvar now ctx s receivable_id amount nonce w ≡ ok (w', e)
      → Issued sysvar now ctx s receivable_id amount nonce w w'
  unfolding request_handler
  request_handler-Issued sysvar now ctx s receivable_id amount nonce w {w'} {e} h =
      let found = ledger_or_zero (find ctx.agent w.ledgers) in
      let pinned = pin_ledger now ctx.issuance_ledger_bump ctx.agent w.pool_key found in
      elim (Result-cases
        (verify_attestation sysvar now s.allowed ctx.agent w.pool_key w.pool.chain_id nonce)) [
          | inl (f, ef) ↦ ground arith
          | inr ((key, m), em) ↦
              elim (Result-cases
                (charge_window amount w.pool.agent_window_cap (roll_window now pinned))) [
                  | inl (f, ef) ↦ ground arith
                  | inr (charged, ec) ↦
                      elim (Result-cases (underwrite amount w.pool.max_advance_abs m charged)) [
                        | inl (f, ef) ↦ ground arith
                        | inr (ledger, el) ↦
                            elim (Result-cases (price_advance now amount m w.pool)) [
                              | inl (f, ef) ↦ ground arith
                              | inr ((fee, penalty), ep) ↦ record {
                                key = key;
                                m = m;
                                charged = charged;
                                ledger = ledger;
                                fee_owed = fee;
                                late_penalty_per_day = penalty;
                                large_enough = ground arith;
                                attested = em;
                                charges = ec;
                                underwrites = el;
                                prices = ep;
                                pays = ground arith;
                                deployed_le = ground arith;
                                deployed_fits = ground arith;
                                after = ground arith;
                              }
                            ]
                      ]
                ]
        ]

  -- A request that succeeds names a whitelisted signer and a key with neither advance nor marker; its
  -- message was accepted, window and credit were charged and the fee was priced as `Issued` says, the
  -- amount went from the vault to an account of the agent, and the advance, the marker and the ledger
  -- were written and the deployed amount raised, within the assets.
  pub request_advance-Issued :
      (sysvar : Sysvar) (now : ℤ) (ctx : RequestAdvance) (receivable_id amount : ℕ) (nonce : Bytes)
      (w : World t) {w' : World t} {e : Event}
      → request_advance t sysvar now ctx receivable_id amount nonce w ≡ ok (w', e)
      → (s : Loaded t) × Presented ctx receivable_id w s
        × Issued sysvar now ctx s receivable_id amount nonce w w'
  unfolding request_advance
  request_advance-Issued sysvar now ctx receivable_id amount nonce w {w'} {e} h =
      let (s, loads, handles) =
        >>=-eq-ok (request_accounts t ctx receivable_id w)
          (λ s. request_handler t sysvar now ctx s receivable_id amount nonce w) h in
      (
        s,
        request_accounts-Presented ctx receivable_id w loads,
        request_handler-Issued sysvar now ctx s receivable_id amount nonce w handles,
      )
