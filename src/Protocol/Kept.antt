-- ===== src/Protocol/Kept.antt =====
-- What every account says of itself: an open advance stands at the seeds of its own agent and
-- receivable, is open, and has no tombstone; a marker and a ledger name the agent in their seeds.
pub mod Preserved
pub mod Exits
use mathlib.Core.Path.{subst}
use credmesh_solana.Prelude.{
  ℕ, ◌<◌, ◌≡◌, ◌≢◌, ◌∙◌, refl, ap, sym, arith, false, some, none, ok, inl, inr, Bool-cases,
  Option-cases, ◌-◌, ◌==◌, ==_iff,
}
use credmesh_solana.Prelude.Int.{ℤ}
use credmesh_solana.Store.{
  Store, find, put, remove, nat_eq, pair_eq, find-put, find-remove_ne, find-remove_self, Every,
  put-Every, remove-Every,
}
use credmesh_solana.Runtime.{is_free}
use credmesh_solana.Token.{TokenProgram}
use credmesh_solana.Shared.Bytes.{Pubkey, Bytes}
use credmesh_solana.Shared.Instructions.{Sysvar}
use credmesh_solana.Escrow.State.{
  Advance, AdvanceState, ConsumedPayment, LiquidationTombstone, AgentIssuanceLedger,
}
use credmesh_solana.Escrow.World.{World, AdvanceKey}
use credmesh_solana.Escrow.RequestAdvance.{
  RequestAdvance, Loaded, ledger_or_zero, pin_ledger, roll_window, charge_window, underwrite,
}
use credmesh_solana.Escrow.Attestation.{Attestation}
use credmesh_solana.Escrow.RequestAdvance.Effects.{Issued, Presented}
use credmesh_solana.Escrow.Settlement.Effects.{Liquidated}
use credmesh_solana.Protocol.{Run, start, then_step}
use credmesh_solana.Protocol.Replay.{Gone, Change, result-Change, stays-Gone}
use credmesh_solana.Protocol.Advances.{Sound}
use credmesh_solana.Protocol.Advances.Preserved.{run-Sound}
use credmesh_solana.Protocol.Effects.{
  Effect, of_deposit, of_withdrawal, of_request, of_settlement, of_liquidation, of_proposal,
  of_execution, of_skim, of_registry, of_others, step-Effect,
}

pub record OpenAt (key : AdvanceKey) (a : Advance) : Type 0 where
  pub agent_seed : a.agent ≡ key.0
  pub receivable_seed : a.receivable_id ≡ key.1
  pub open_state : a.state ≡ AdvanceState.issued
  pub positive : 0 < a.principal

abbrev pub MarkerAt : AdvanceKey → ConsumedPayment → Type 0
MarkerAt key c = c.agent ≡ key.0

abbrev pub LedgerAt : Pubkey → Pubkey → AgentIssuanceLedger → Type 0
LedgerAt pool agent l = (l.agent ≡ agent) × (l.pool ≡ pool)

-- A ledger that is pinned or as found, rolled, charged and underwritten is still the agent's.
pinned-LedgerAt :
    (now : ℤ) (bump amount cap max_advance_abs : ℕ) (agent pool_key : Pubkey) (m : Attestation)
    (found : AgentIssuanceLedger) {charged ledger : AgentIssuanceLedger}
    → (found.bump ≢ 0 → LedgerAt pool_key agent found)
    → charge_window amount cap (roll_window now (pin_ledger now bump agent pool_key found))
      ≡ ok charged
    → underwrite amount max_advance_abs m charged ≡ ok ledger
    → LedgerAt pool_key agent ledger
unfolding charge_window roll_window pin_ledger underwrite
pinned-LedgerAt now bump amount cap max_advance_abs agent pool_key m found {charged} {ledger} own h
      k =
    elim (Bool-cases (found.bump == 0)) [
      | inl fresh ↦ ground (arith, fresh)
      | inr made ↦ let its = own (λ zero. ground (arith, made, zero)) in ground (arith, made, its)
    ]

found-LedgerAt :
    (pool agent : Pubkey) (s : Store Pubkey AgentIssuanceLedger)
    → Every (LedgerAt pool) s
    → (ledger_or_zero (find agent s)).bump ≢ 0
    → LedgerAt pool agent (ledger_or_zero (find agent s))
found-LedgerAt pool agent s all made = elim (Option-cases (find agent s)) [
  | inl e ↦ absurd (made (ap (λ o. (ledger_or_zero o).bump) e))
  | inr (l, e) ↦ let its = all agent l e in ground (arith, e, its)
]

module _ (t : TokenProgram) where
  pub record Kept (w : World t) : Type 0 where
    pub advances : Every OpenAt w.advances
    pub markers : Every MarkerAt w.consumed
    pub ledgers : Every (LedgerAt w.pool_key) w.ledgers
    -- Where a tombstone stands an advance has stood and stands no more.
    pub buried : (k : AdvanceKey) → is_free (find k w.tombstones) ≡ false → Gone t k w

  -- Accounts that change nothing of this.
  pub quiet-Kept :
      {w w' v : World t}
      → w' ≡ v
      → v.pool_key ≡ w.pool_key
      → v.advances ≡ w.advances
      → v.consumed ≡ w.consumed
      → v.tombstones ≡ w.tombstones
      → v.ledgers ≡ w.ledgers
      → Kept w
      → Kept w'
  quiet-Kept after key a c b l s = rw after (record {
    advances = rw a s.advances;
    markers = rw c s.markers;
    ledgers = rw (l, key) s.ledgers;
    buried = λ k h.
        let g = s.buried k (rw (sym b) h) in
        record { closed = rw a g.closed; marked = rw c g.marked };
  })

  -- The ledger of an agent with less live principal is still the agent's.
  pub pay-LedgerAt :
      (pool agent : Pubkey) (l : AgentIssuanceLedger) (x : ℕ) (s : Store Pubkey AgentIssuanceLedger)
      → find agent s ≡ some l
      → Every (LedgerAt pool) s
      → Every (LedgerAt pool) (put agent (record l { live_principal = l.live_principal - x }) s)
  pay-LedgerAt pool agent l x s found all =
      put-Every (LedgerAt pool) agent (record l { live_principal = l.live_principal - x }) s
        (all agent l found) all

  pub request-Kept :
      (sysvar : Sysvar) (now : ℤ) (ctx : RequestAdvance) (l : Loaded t) (receivable_id amount : ℕ)
      (nonce : Bytes) {w w' : World t}
      → Change t w w'
      → Issued t sysvar now ctx l receivable_id amount nonce w w'
      → Kept w
      → Kept w'
  request-Kept sysvar now ctx l rid amount nonce {w} {w'} change d s = record {
    advances = rw (ap (λ x. x.advances) d.after) (
        put-Every OpenAt (ctx.agent, rid) _ w.advances
          (record {
            agent_seed = refl;
            receivable_seed = refl;
            open_state = refl;
            positive = omega (arith, d.large_enough);
          })
          s.advances);
    markers =
        rw (ap (λ x. x.consumed) d.after)
          (put-Every MarkerAt (ctx.agent, rid) _ w.consumed refl s.markers);
    ledgers =
        rw (ap (λ x. x.ledgers) d.after, ap (λ x. x.pool_key) d.after)
          (put-Every (LedgerAt w.pool_key) ctx.agent d.ledger w.ledgers
            (pinned-LedgerAt now ctx.issuance_ledger_bump amount w.pool.agent_window_cap
              w.pool.max_advance_abs ctx.agent w.pool_key d.m
              (ledger_or_zero (find ctx.agent w.ledgers))
              (found-LedgerAt w.pool_key ctx.agent w.ledgers s.ledgers) d.charges d.underwrites)
            s.ledgers);
    buried = λ k h. stays-Gone t k change (s.buried k (rw (ap (λ x. x.tombstones) d.after) at h));
  }

  pub liquidation-Kept :
      (now : ℤ) (key : AdvanceKey) {w w' : World t}
      → Sound t w
      → Change t w w'
      → Liquidated t now key w w'
      → Kept w
      → Kept w'
  liquidation-Kept now key {w} {w'} sound change d s = record {
    advances =
        rw (ap (λ x. x.advances) d.after)
          (remove-Every OpenAt key w.advances sound.one_each s.advances);
    markers = rw (ap (λ x. x.consumed) d.after) s.markers;
    ledgers =
        rw (ap (λ x. x.ledgers) d.after, ap (λ x. x.pool_key) d.after)
          (pay-LedgerAt w.pool_key d.a.agent d.l d.a.principal w.ledgers d.opened.ledger_found
            s.ledgers);
    buried = λ k h. elim (Bool-cases (pair_eq.beq k key)) [
      | inl same ↦ rw ((pair_eq.beq_iff k key).0 same) (record {
        closed = rw (ap (λ x. x.advances) d.after) (find-remove_self key w.advances sound.one_each);
        marked = rw (ap (λ x. x.consumed) d.after, d.opened.consumed_found) refl;
      })
      | inr other ↦
          let before : is_free (find k w.tombstones) ≡ false = ground (
            arith,
            ap (λ x. x.tombstones) d.after,
            find-put k key d.tombstone w.tombstones,
            other,
            h,
          ) in
          stays-Gone t k change (s.buried k before)
    ];
  }
