-- ===== src/Protocol/Limits.antt =====
-- What a request for an advance is limited by, with all the agent's other advances counted in.
use credmesh_solana.Prelude.{ℕ, ◌+◌, ◌≤◌, ◌≡◌, ◌⊎◌, ap, arith, some, ok, ==_iff}
use credmesh_solana.Prelude.Int.{ℤ}
use credmesh_solana.Store.{Store, find, put, find-put, sum, nat_eq, pair_eq}
use credmesh_solana.Token.{TokenProgram}
use credmesh_solana.Shared.Bytes.{Pubkey, Bytes}
use credmesh_solana.Shared.Instructions.{Sysvar}
use credmesh_solana.Registry.{AllowedSigner}
use credmesh_solana.Escrow.State.{min_advance_atoms, AgentIssuanceLedger}
use credmesh_solana.Escrow.Events.{Event}
use credmesh_solana.Escrow.Attestation.{Attestation}
use credmesh_solana.Escrow.Attestation.Accepted.{Accepted, verify_attestation_iff}
use credmesh_solana.Escrow.World.{World}
use credmesh_solana.Escrow.RequestAdvance.{RequestAdvance, request_advance, ledger_or_zero}
use credmesh_solana.Escrow.RequestAdvance.Effects.{request_advance-Issued}
use credmesh_solana.Escrow.RequestAdvance.Ledger.{underwritten_lem}
use credmesh_solana.Protocol.Advances.{Sound, principal_at, principal_of, live_principal_of}
use credmesh_solana.Protocol.Advances.Preserved.{request-Sound}

own-find :
    (k : ℕ) (l : AgentIssuanceLedger) (s : Store ℕ AgentIssuanceLedger)
    → find k (put k l s) ≡ some l
own-find k l s = ground (arith, find-put k k l s, ==_iff k k)

module _ (t : TokenProgram) where
  -- An accepted message of a whitelisted signer stands behind the request, and its limit covers the
  -- agent's open advances, the new one among them, with the balance outstanding elsewhere.
  pub record Limited (sysvar : Sysvar) (now : ℤ) (ctx : RequestAdvance) (amount : ℕ) (nonce : Bytes)
      (w w' : World t) : Type 0 where
    pub allowed : AllowedSigner
    pub key : Pubkey
    pub m : Attestation
    pub whitelisted : find ctx.allowed_signer w.registry.allowed_signers ≡ some allowed
    pub accepted : Accepted sysvar now allowed ctx.agent w.pool_key w.pool.chain_id nonce key m
    pub within_credit : m.outstanding + sum (principal_of ctx.agent) w'.advances ≤ m.credit_limit
    pub within_assets : sum principal_at w'.advances ≤ w'.pool.total_assets
    pub at_least : min_advance_atoms ≤ amount
    pub at_most : amount ≤ w.pool.max_advance_abs
    pub within_window :
        (w.pool.agent_window_cap ≡ 0)
        ⊎ ((ledger_or_zero (find ctx.agent w'.ledgers)).issued_in_window ≤ w.pool.agent_window_cap)

  -- From sound accounts, a request that succeeds rests on an accepted message of a whitelisted signer;
  -- the balance outstanding elsewhere and the principals of all the agent's open advances, the new one
  -- among them, are together within the attested limit, all open principals are within the assets, the
  -- amount is at least the minimum and at most the pool's absolute cap, and the window's total is within
  -- the window cap unless that is off.
  pub request_advance-Limited :
      (sysvar : Sysvar) (now : ℤ) (ctx : RequestAdvance) (receivable_id amount : ℕ) (nonce : Bytes)
      (w : World t) {w' : World t} {e : Event}
      → Sound t w
      → request_advance t sysvar now ctx receivable_id amount nonce w ≡ ok (w', e)
      → Limited sysvar now ctx amount nonce w w'
  request_advance-Limited sysvar now ctx receivable_id amount nonce w {w'} {e} sound h =
      let (s, p, d) = request_advance-Issued t sysvar now ctx receivable_id amount nonce w h in
      let after = request-Sound t sysvar now ctx s receivable_id amount nonce w w' p d sound in
      let found : find ctx.agent w'.ledgers ≡ some d.ledger =
        rw (ap (λ x. x.ledgers) d.after) (own-find ctx.agent d.ledger w.ledgers) in
      let live : live_principal_of t ctx.agent w' ≡ d.ledger.live_principal =
        ap (λ l. (ledger_or_zero l).live_principal) found in
      let limits =
        underwritten_lem now ctx.issuance_ledger_bump amount w.pool.agent_window_cap
          w.pool.max_advance_abs ctx.agent w.pool_key d.m
          (ledger_or_zero (find ctx.agent w.ledgers)) (omega (arith, d.large_enough)) d.charges
          d.underwrites in
      record {
        allowed = s.allowed;
        key = d.key;
        m = d.m;
        whitelisted = p.signer_found;
        accepted =
            (verify_attestation_iff sysvar now s.allowed ctx.agent w.pool_key w.pool.chain_id nonce
                d.key d.m).0
              d.attested;
        within_credit = omega (arith, live, after.live ctx.agent, limits.1);
        within_assets = omega (
          arith,
          after.deployed,
          d.deployed_le,
          ap (λ x. x.pool.deployed_amount) d.after,
          ap (λ x. x.pool.total_assets) d.after,
        );
        at_least = d.large_enough;
        at_most = limits.2;
        within_window = ground (arith, found, limits.3);
      }
