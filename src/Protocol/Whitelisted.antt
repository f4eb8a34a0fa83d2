-- ===== src/Protocol/Whitelisted.antt =====
-- Whose attestations count: the key behind a request that succeeds was added under the governance check.
use mathlib.Core.Path.{subst}
use credmesh_solana.Prelude.{
  ℕ, ◌≡◌, ◌⊎◌, ap, sym, ◌∙◌, some, none, arith, ok, inl, inr, Option-cases,
}
use credmesh_solana.Prelude.Int.{ℤ}
use credmesh_solana.Store.{find, nat_eq}
use credmesh_solana.Token.{TokenProgram}
use credmesh_solana.Shared.Bytes.{Pubkey, Bytes}
use credmesh_solana.Shared.Instructions.{Sysvar}
use credmesh_solana.Registry.{Registry, AllowedSigner}
use credmesh_solana.Registry.Steps.{RegistryStep, Whitelist, step-Whitelist, AddedBy, step-AddedBy}
use credmesh_solana.Escrow.Events.{Event}
use credmesh_solana.Escrow.Attestation.{Attestation}
use credmesh_solana.Escrow.Attestation.Accepted.{Accepted, verify_attestation_iff}
use credmesh_solana.Escrow.World.{World}
use credmesh_solana.Escrow.RequestAdvance.{RequestAdvance, request_advance}
use credmesh_solana.Escrow.RequestAdvance.Effects.{request_advance-Issued}
use credmesh_solana.Escrow.Liquidity.Effects.{deposit-Deposited, withdraw-Withdrawn}
use credmesh_solana.Escrow.Settlement.Effects.{liquidate-Liquidated}
use credmesh_solana.Escrow.Settlement.Settle.{claim_and_settle-Settled}
use credmesh_solana.Escrow.Params.Effects.{
  propose_params-Proposed, execute_params-Executed, skim_protocol_fees-Skimmed,
}
use credmesh_solana.Protocol.{
  Step, deposits, withdraws, requests, settles, liquidates, proposes, executes, skims, governs,
  outside, Run, start, then_step,
}

module _ (t : TokenProgram) where
  -- The step is the registry's, and adds the key.
  abbrev pub AddsSigner : Pubkey → {w w' : World t} → Step t w w' → Type 0
  AddsSigner k (governs registry change h) = AddedBy k change
  AddsSigner k _ = ⊥

  -- Somewhere in the run the key was not whitelisted, and a call under the governance check added it.
  abbrev pub WasAdded : (k : Pubkey) {w w' : World t} → Run t w w' → Type 0
  WasAdded k start = ⊥
  WasAdded k (then_step {v = v} r s) =
      ((find k v.registry.allowed_signers ≡ none) × AddsSigner k s) ⊎ WasAdded k r

  -- A step of the pool leaves the registry alone.
  data Change {w w' : World t} : Step t w w' → Type 0 where
    same : {s : Step t w w'} → w'.registry ≡ w.registry → Change s
    registry_step :
        (registry : Registry) (change : RegistryStep w.registry registry)
        (h : w' ≡ record w { registry = registry })
        → Change (governs registry change h)

  step-Change : (w w' : World t) (s : Step t w w') → Change s
  step-Change w w' (deposits ctx amount e ne h) =
      same (ap (λ x. x.registry) (deposit-Deposited t ctx amount w h).after)
  step-Change w w' (withdraws ctx shares e ne h) =
      same (ap (λ x. x.registry) (withdraw-Withdrawn t ctx shares w h).after)
  step-Change w w' (requests sysvar now ctx rid amount nonce e ne h) =
      let (l, p, d) = request_advance-Issued t sysvar now ctx rid amount nonce w h in
      same (ap (λ x. x.registry) d.after)
  step-Change w w' (settles sysvar now ctx payment e ne h) =
      let (l, p, d) = claim_and_settle-Settled t sysvar now ctx payment w h in
      same (ap (λ x. x.registry) d.after)
  step-Change w w' (liquidates now key bump e h) =
      same (ap (λ x. x.registry) (liquidate-Liquidated t now key bump w h).after)
  step-Change w w' (proposes sysvar now governance params e h) =
      same (ap (λ x. x.registry) (propose_params-Proposed t sysvar now governance params w h).after)
  step-Change w w' (executes now e h) =
      same (ap (λ x. x.registry) (execute_params-Executed t now w h).after)
  step-Change w w' (skims sysvar ctx amount e h) =
      same (ap (λ x. x.registry) (skim_protocol_fees-Skimmed t sysvar ctx amount w h).after)
  step-Change w w' (governs registry change h) = registry_step registry change h
  step-Change w w' (outside bank amount b o u h) = same (ap (λ x. x.registry) h)

  keep-Whitelist :
      (w w' : World t) (s : Step t w w') → Change s → Whitelist w.registry → Whitelist w'.registry
  keep-Whitelist w w' s (same e) v = rw e v
  keep-Whitelist w w' _ (registry_step registry change h) v =
      rw (ap (λ x. x.registry) h) (step-Whitelist change v)

  run-Whitelist : {w w' : World t} → Run t w w' → Whitelist w.registry → Whitelist w'.registry
  run-Whitelist start v = v
  run-Whitelist (then_step {v = v} {w' = w'} r s) c =
      keep-Whitelist v w' s (step-Change v w' s) (run-Whitelist r c)

  find-AddsSigner :
      (v w' : World t) (k : Pubkey) (a : AllowedSigner) (s : Step t v w')
      → Change s
      → Whitelist v.registry
      → find k v.registry.allowed_signers ≡ none
      → find k w'.registry.allowed_signers ≡ some a
      → AddsSigner k s
  find-AddsSigner v w' k a s (same e) whitelist free found = absurd (ground (arith, e, free, found))
  find-AddsSigner v w' k a _ (registry_step registry change h) whitelist free found =
      step-AddedBy k a change whitelist free (rw (← ap (λ x. x.registry) h) found)

  run-WasAdded :
      {w w' : World t} (k : Pubkey) (a : AllowedSigner) (r : Run t w w')
      → Whitelist w.registry
      → find k w.registry.allowed_signers ≡ none
      → find k w'.registry.allowed_signers ≡ some a
      → WasAdded k r
  run-WasAdded k a start whitelist free found = absurd (ground (arith, free, found))
  run-WasAdded k a (then_step {v = v} {w' = w'} r s) whitelist free found =
      elim (Option-cases (find k v.registry.allowed_signers)) [
        | inl absent ↦ inl (
          absent,
          find-AddsSigner v w' k a s (step-Change v w' s) (run-Whitelist r whitelist) absent found,
        )
        | inr (b, there) ↦ inr (run-WasAdded k b r whitelist free there)
      ]

  -- In a run from a registry without signers whose governance, if it is initialized, is not the default
  -- key, the key that has signed the accepted message of a request was added during the run by a call
  -- whose transaction has a Squads instruction with the registry's governance vault writable among its
  -- accounts, which is the check that the code makes, and it is whitelisted as a credit bridge when the
  -- request is made.
  pub request-WasAdded :
      {w v : World t} (r : Run t w v)
      → Whitelist w.registry
      → ((k : Pubkey) → find k w.registry.allowed_signers ≡ none)
      → (sysvar : Sysvar) (now : ℤ) (ctx : RequestAdvance) (receivable_id amount : ℕ)
        (nonce : Bytes) {v' : World t} {e : Event}
      → request_advance t sysvar now ctx receivable_id amount nonce v ≡ ok (v', e)
      → (allowed : AllowedSigner) × (m : Attestation) × (find ctx.allowed_signer
            v.registry.allowed_signers
          ≡ some allowed)
        × Accepted sysvar now allowed ctx.agent v.pool_key v.pool.chain_id nonce ctx.allowed_signer
            m
        × WasAdded ctx.allowed_signer r
  request-WasAdded {w} {v} r whitelist no_signers sysvar now ctx receivable_id amount nonce h =
      let (s, p, d) = request_advance-Issued t sysvar now ctx receivable_id amount nonce v h in
      let accepted =
        (verify_attestation_iff sysvar now s.allowed ctx.agent v.pool_key v.pool.chain_id nonce
            d.key d.m).0
          d.attested in
      let same_key : ctx.allowed_signer ≡ d.key = sym (accepted.whitelisted ∙ p.signer_seed) in
      (
        s.allowed,
        d.m,
        p.signer_found,
        subst (λ k. Accepted sysvar now s.allowed ctx.agent v.pool_key v.pool.chain_id nonce k d.m)
            (sym same_key) accepted,
        run-WasAdded ctx.allowed_signer s.allowed r whitelist (no_signers ctx.allowed_signer)
            p.signer_found,
      )
