-- ===== src/Protocol/Advances.antt =====
-- The open advances against the pool's deployed principal and the agents' ledgers.
pub mod Changes
pub mod Preserved
use credmesh_solana.Prelude.{ℕ, ◌≡◌, Bool, false, none, some, Option, ◌==◌, if◌then◌else◌}
use credmesh_solana.Store.{find, sum, IsMap, nat_eq, pair_eq}
use credmesh_solana.Token.{TokenProgram}
use credmesh_solana.Runtime.{is_free}
use credmesh_solana.Shared.Bytes.{Pubkey}
use credmesh_solana.Escrow.State.{Advance}
use credmesh_solana.Escrow.World.{World, AdvanceKey}
use credmesh_solana.Escrow.RequestAdvance.{ledger_or_zero}

abbrev pub principal_at : AdvanceKey → Advance → ℕ
principal_at key a = a.principal

-- The principal, if the advance is the agent's.
abbrev pub principal_of : Pubkey → AdvanceKey → Advance → ℕ
principal_of agent key a = if key.0 == agent then a.principal else 0

module _ (t : TokenProgram) where
  abbrev pub live_principal_of : Pubkey → World t → ℕ
  live_principal_of agent w = (ledger_or_zero (find agent w.ledgers)).live_principal

  -- The deployed principal is that of all open advances, an agent's live principal that of the
  -- agent's, and every open advance has its consumed marker.
  pub record Sound (w : World t) : Type 0 where
    pub one_each : IsMap w.advances
    pub deployed : w.pool.deployed_amount ≡ sum principal_at w.advances
    pub live : (agent : Pubkey) → live_principal_of agent w ≡ sum (principal_of agent) w.advances
    pub marked :
        (key : AdvanceKey)
        → is_free (find key w.advances) ≡ false
        → is_free (find key w.consumed) ≡ false
