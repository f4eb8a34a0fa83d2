-- ===== src/Protocol/Ranges.antt =====
-- The Rust types of what the accounts hold: every counter of the pool, every term of an open advance
-- and every counter of a ledger stays within its machine integer.
mod Fields
pub use Fields.{
  IsTypedPool, IsTypedAdvance, IsTypedLedger, decode-IsI64, price_advance-lt, charged-lt,
}
use credmesh_solana.Prelude.{
  ℕ, ◌+◌, ◌-◌, ◌<◌, ◌≤◌, ◌≡◌, refl, ap, arith, some, ok, inl, inr, Result-cases, Bool-cases,
  >>=-eq-ok,
}
use credmesh_solana.Prelude.Int.{ℤ}
use credmesh_solana.Machine.{u64_mod, IsI64}
use credmesh_solana.Runtime.{or_panic}
use credmesh_solana.Shared.Layout.{expires_at_offset}
use credmesh_solana.Store.{
  Store, find, put, remove, nat_eq, pair_eq, Every, put-Every, remove-Every,
}
use credmesh_solana.Token.{TokenProgram}
use credmesh_solana.Shared.Bytes.{Bytes, as_i64, from_le_bytes, index_range}
use credmesh_solana.Escrow.State.{Pool, Advance, AgentIssuanceLedger}
use credmesh_solana.Escrow.Attestation.{Attestation, decode, i64_le}
use credmesh_solana.Escrow.Attestation.Accepted.{verify_attestation_iff}
use credmesh_solana.Escrow.Pricing.{compute_fee_amount, compute_late_penalty_per_day}
use credmesh_solana.Escrow.World.{World, AdvanceKey}
use credmesh_solana.Shared.Instructions.{Sysvar}
use credmesh_solana.Escrow.RequestAdvance.Effects.{Issued}
use credmesh_solana.Escrow.RequestAdvance.{
  RequestAdvance, Loaded, price_advance, charge_window, underwrite,
}
use credmesh_solana.Protocol.{Step, Run, start, then_step}
use credmesh_solana.Protocol.Advances.{Sound}
use credmesh_solana.Protocol.Advances.Preserved.{run-Sound}
use credmesh_solana.Protocol.Effects.{
  Effect, of_deposit, of_withdrawal, of_request, of_settlement, of_liquidation, of_proposal,
  of_execution, of_skim, of_registry, of_others, step-Effect,
}

module _ (t : TokenProgram) where
  pub record Typed (w : World t) : Type 0 where
    pub pool : IsTypedPool w.pool
    pub advances : Every (λ (k : AdvanceKey). IsTypedAdvance) w.advances
    pub ledgers : Every (λ (k : ℕ). IsTypedLedger) w.ledgers

  -- An instruction that keeps advances and ledgers.
  quiet-Typed :
      {w w' v : World t}
      → w' ≡ v
      → v.advances ≡ w.advances
      → v.ledgers ≡ w.ledgers
      → IsTypedPool v.pool
      → Typed w
      → Typed w'
  quiet-Typed after a l p s =
      rw after (record { pool = p; advances = rw a s.advances; ledgers = rw l s.ledgers })

  -- An advance that ends.
  close-Typed :
      {w w' : World t} (key : AdvanceKey) (agent : ℕ) (l : AgentIssuanceLedger) (x : ℕ)
      → Sound t w
      → find agent w.ledgers ≡ some l
      → w'.advances ≡ remove key w.advances
      → w'.ledgers ≡ put agent (record l { live_principal = l.live_principal - x }) w.ledgers
      → IsTypedPool w'.pool
      → Typed w
      → Typed w'
  close-Typed {w} key agent l x sound found ea el p s =
      let before = s.ledgers agent l found in
      record {
        pool = p;
        advances = rw ea (
            remove-Every (λ (k : AdvanceKey). IsTypedAdvance) key w.advances sound.one_each
              s.advances);
        ledgers = rw el (
            put-Every (λ (k : ℕ). IsTypedLedger) agent
              (record l { live_principal = l.live_principal - x }) w.ledgers
              (record { issued_lt = before.issued_lt; live_lt = omega (arith, before.live_lt) })
              s.ledgers);
      }

  request-Typed :
      (sysvar : Sysvar) (now : ℤ) (ctx : RequestAdvance) (l : Loaded t) (receivable_id amount : ℕ)
      (nonce : Bytes) {w w' : World t}
      → Issued t sysvar now ctx l receivable_id amount nonce w w'
      → Typed w
      → Typed w'
  request-Typed sysvar now ctx l rid amount nonce {w} {w'} d s =
      let accepted =
        (verify_attestation_iff sysvar now l.allowed ctx.agent w.pool_key w.pool.chain_id nonce
            d.key d.m).0
          d.attested in
      let price = price_advance-lt now amount d.m w.pool d.prices in
      let counts = charged-lt amount _ _ d.m _ d.charges d.underwrites in
      record {
        pool = rw (ap (λ x. x.pool) d.after) (ground (arith, s.pool, d.deployed_fits));
        advances = rw (ap (λ x. x.advances) d.after) (
            put-Every (λ (k : AdvanceKey). IsTypedAdvance) (ctx.agent, rid) _ w.advances
              (record {
                principal_lt = counts.0;
                fee_lt = price.0;
                penalty_lt = price.1;
                expires_range = decode-IsI64 accepted.message accepted.decoded;
              })
              s.advances);
        ledgers = rw (ap (λ x. x.ledgers) d.after) (
            put-Every (λ (k : ℕ). IsTypedLedger) ctx.agent d.ledger w.ledgers
              (record { issued_lt = counts.1; live_lt = counts.2 }) s.ledgers);
      }

  result-Typed : {w w' : World t} → Sound t w → Effect t w w' → Typed w → Typed w'
  result-Typed sound (of_deposit ctx amount ne d) s =
      quiet-Typed d.after refl refl (ground (arith, s.pool, d.assets_fit, d.shares_fit)) s
  result-Typed sound (of_withdrawal ctx shares ne d) s =
      quiet-Typed d.after refl refl (ground (arith, s.pool)) s
  result-Typed sound (of_request sysvar now ctx l rid amount nonce ne p d) s =
      request-Typed sysvar now ctx l rid amount nonce d s
  result-Typed sound (of_settlement sysvar now ctx l payment ne p d) s =
      close-Typed ctx.advance l.advance.agent l.ledger l.advance.principal sound p.ledger_found
        (ap (λ x. x.advances) d.after) (ap (λ x. x.ledgers) d.after)
        (rw (ap (λ x. x.pool) d.after) (ground (arith, s.pool, d.assets_fit, d.fees_fit))) s
  result-Typed sound (of_liquidation now key d) s =
      close-Typed key d.a.agent d.l d.a.principal sound d.opened.ledger_found
        (ap (λ x. x.advances) d.after) (ap (λ x. x.ledgers) d.after)
        (rw (ap (λ x. x.pool) d.after) (ground (arith, s.pool))) s
  result-Typed sound (of_proposal sysvar now params d) s =
      quiet-Typed d.after refl refl (ground (arith, s.pool)) s
  result-Typed sound (of_execution now d) s =
      quiet-Typed d.after refl refl (ground (arith, s.pool)) s
  result-Typed sound (of_skim sysvar ctx amount d) s =
      quiet-Typed d.after refl refl (ground (arith, s.pool)) s
  result-Typed sound (of_registry registry change h) s = quiet-Typed h refl refl s.pool s
  result-Typed sound (of_others bank received b o u h) s = quiet-Typed h refl refl s.pool s

  -- Along every run from sound accounts the accounts keep their Rust types: assets, shares, deployed
  -- amount and accrued fees of the pool, principal, fee and daily penalty of every open advance, and
  -- both counters of every ledger stay below 2 ^ 64, and every expiry within `i64`, whatever bytes were
  -- signed.
  pub run-Typed : {w w' : World t} → Run t w w' → Sound t w → Typed w → Typed w'
  run-Typed start sound s = s
  run-Typed (then_step r h) sound s =
      result-Typed (run-Sound t r sound) (step-Effect t h) (run-Typed r sound s)
