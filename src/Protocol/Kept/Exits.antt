-- ===== src/Protocol/Kept/Exits.antt =====
-- The way out of an advance: from its grace period's end on anyone can liquidate it.
use credmesh_solana.Prelude.{
  ℕ, ◌+◌, ◌≤◌, ◌≡◌, refl, arith, none, some, ok, inl, inr, Option-cases, ==_iff,
}
use credmesh_solana.Prelude.Int.{ℤ, pos, ◌+ℤ◌, ◌≤ℤ◌}
use credmesh_solana.Machine.{IsI64}
use credmesh_solana.Store.{find, nat_eq, pair_eq, sum-remove, find-remove_self}
use credmesh_solana.Token.{TokenProgram}
use credmesh_solana.Registry.{Registry}
use credmesh_solana.Escrow.State.{
  Pool, Advance, ConsumedPayment, AgentIssuanceLedger, liquidation_grace_seconds,
}
use credmesh_solana.Escrow.Events.{Event}
use credmesh_solana.Escrow.World.{World, AdvanceKey}
use credmesh_solana.Escrow.InitPool.{InitPool, InitPoolParams, init_pool}
use credmesh_solana.Escrow.Settlement.{liquidate}
use credmesh_solana.Escrow.Settlement.Effects.{Open}
use credmesh_solana.Escrow.Settlement.Liquidates.{liquidate-succeeds}
use credmesh_solana.Protocol.{Run}
use credmesh_solana.Protocol.Genesis.{genesis, init_pool-Sound}
use credmesh_solana.Protocol.Advances.{Sound, principal_at, principal_of, live_principal_of}
use credmesh_solana.Protocol.Advances.Preserved.{run-Sound}
use credmesh_solana.Protocol.Kept.{Kept}
use credmesh_solana.Protocol.Kept.Preserved.{run-Kept}

module _ (t : TokenProgram) where
  genesis-Kept :
      (ctx : InitPool) (pool : Pool) (registry : Registry) (bank : t.Bank)
      → Kept t (genesis t ctx pool registry bank)
  unfolding find
  genesis-Kept ctx pool registry bank = record {
    advances = λ k a h. ground (arith, h);
    markers = λ k a h. ground (arith, h);
    ledgers = λ k a h. ground (arith, h);
    buried = λ k h. ground (arith, h);
  }

  -- The agent's live principal covers each of its open advances.
  live_covers_lem :
      (w : World t) (key : AdvanceKey) (a : Advance)
      → Sound t w
      → find key w.advances ≡ some a
      → a.principal ≤ live_principal_of t key.0 w
  live_covers_lem w key a s found =
      let whole = sum-remove (principal_of key.0) key {v = a} w.advances found in
      ground (arith, ==_iff key.0 key.0, whole, s.live key.0)

  -- An open advance has its marker and its ledger.
  open_lem :
      (w : World t) (key : AdvanceKey) (a : Advance)
      → Sound t w
      → Kept t w
      → find key w.advances ≡ some a
      → (l : AgentIssuanceLedger) × (c : ConsumedPayment) × Open t key w a l c
  open_lem w key a s k found =
      let own = k.advances key a found in
      let covers = live_covers_lem w key a s found in
      elim (Option-cases (find key w.consumed)) [
        | inl e ↦ absurd (ground (arith, s.marked key, found, e))
        | inr (c, ec) ↦ elim (Option-cases (find key.0 w.ledgers)) [
          | inl e ↦ absurd (ground (arith, covers, own.positive, e))
          | inr (l, el) ↦
              let its = k.ledgers key.0 l el in
              (
                l,
                c,
                record {
                  advance_found = found;
                  agent_seed = own.agent_seed;
                  receivable_seed = own.receivable_seed;
                  open_state = own.open_state;
                  consumed_found = ec;
                  consumed_agent = ground (arith, k.markers key c ec, own.agent_seed);
                  ledger_found = rw (own.agent_seed) el;
                  ledger_agent = ground (arith, its, own.agent_seed);
                  ledger_pool = its.1;
                  live_covers = ground (arith, covers, el);
                  deployed_covers =
                      omega
                        (arith, s.deployed, sum-remove principal_at key {v = a} w.advances found);
                },
              )
        ]
      ]

  -- An advance that is open has no tombstone.
  unburied :
      (w : World t) (key : AdvanceKey) (a : Advance)
      → Kept t w
      → find key w.advances ≡ some a
      → find key w.tombstones ≡ none
  unburied w key a k found = elim (Option-cases (find key w.tombstones)) [
    | inl e ↦ e
    | inr (b, e) ↦ let g = k.buried key (rw e refl) in absurd (ground (arith, g.closed, found))
  ]

  -- After any run of a new pool, every open advance can be liquidated by anyone
  -- from 14 days after its expiry on, whatever happened before, provided that moment is a time of `i64`
  -- and the assets on the books cover the principal: the call succeeds, the advance's account is
  -- closed, and the principal is taken off the assets.
  pub run-liquidates :
      (ctx : InitPool) (params : InitPoolParams) (registry : Registry) (bank : t.Bank) {pool : Pool}
      {e : Event} {w : World t}
      → init_pool ctx params none ≡ ok (pool, e)
      → Run t (genesis t ctx pool registry bank) w
      → (key : AdvanceKey) (a : Advance) → find key w.advances ≡ some a
      → a.principal ≤ w.pool.total_assets
      → (now : ℤ) (bump : ℕ) → IsI64 (a.expires_at +ℤ pos liquidation_grace_seconds)
      → a.expires_at +ℤ pos liquidation_grace_seconds ≤ℤ now
      → (w' : World t) × (event : Event) × (liquidate t now key bump w ≡ ok (w', event))
        × (find key w'.advances ≡ none)
        × (w'.pool.total_assets + a.principal ≡ w.pool.total_assets)
  run-liquidates ctx params registry bank {pool} {e} {w} made r key a found assets now bump range
        past =
      let fresh = (init_pool-Sound t ctx params registry bank made).0 in
      let sound = run-Sound t r fresh in
      let kept = run-Kept t r fresh (genesis-Kept ctx pool registry bank) in
      let (l, c, opened) = open_lem w key a sound kept found in
      (
        _,
        _,
        liquidate-succeeds t now key bump w a l c opened (unburied w key a kept found) range past
            assets,
        find-remove_self key w.advances sound.one_each,
        omega (arith, assets),
      )
