-- ===== src/Escrow/RequestAdvance/Ledger.antt =====
-- The issuance ledger of an agent: the window and its cap, and the live principal against the limit.
use credmesh_solana.Prelude.{ℕ, ◌+◌, ◌≤◌, ◌<◌, ◌≡◌, ◌⊎◌, arith, ok}
use credmesh_solana.Prelude.Int.{ℤ, pos, ◌+ℤ◌, ◌-ℤ◌, ◌≤ℤ◌, ◌<ℤ◌, +ℤ_parts, -ℤ_parts}
use credmesh_solana.Machine.{IsI64}
use credmesh_solana.Shared.Bytes.{Pubkey}
use credmesh_solana.Escrow.State.{AgentIssuanceLedger, agent_window_seconds}
use credmesh_solana.Escrow.Attestation.{Attestation}
use credmesh_solana.Escrow.RequestAdvance.{pin_ledger, roll_window, charge_window, underwrite}

-- Charging a window adds the amount to it, within the cap unless the cap is off, and touches no other
-- field.
pub charge_window_lem :
    (amount cap : ℕ) (l : AgentIssuanceLedger) {l' : AgentIssuanceLedger}
    → charge_window amount cap l ≡ ok l'
    → (l' ≡ record l { issued_in_window = l.issued_in_window + amount })
      × ((cap ≡ 0) ⊎ (l.issued_in_window + amount ≤ cap))
unfolding charge_window
charge_window_lem amount cap l {l'} h = ground arith

-- Underwriting adds the amount to the live principal, and keeps it with the attested outstanding
-- balance within the attested limit, and the amount within the pool's absolute cap.
pub underwrite_lem :
    (amount max_advance_abs : ℕ) (m : Attestation) (l : AgentIssuanceLedger)
    {l' : AgentIssuanceLedger}
    → 0 < amount
    → underwrite amount max_advance_abs m l ≡ ok l'
    → (l' ≡ record l { live_principal = l.live_principal + amount })
      × (m.outstanding + (l.live_principal + amount) ≤ m.credit_limit)
      × (amount ≤ max_advance_abs)
unfolding underwrite
underwrite_lem amount max_advance_abs m l {l'} positive h = ground arith

-- Rolling the window keeps what it holds for less than 24 hours after its start, and empties it from
-- then on; neither way the live principal changes.
pub roll_window_lem :
    (now : ℤ) (l : AgentIssuanceLedger)
    → IsI64 (now -ℤ l.window_start)
    → ((now <ℤ l.window_start +ℤ pos agent_window_seconds) × (roll_window now l ≡ l))
      ⊎ ((l.window_start +ℤ pos agent_window_seconds ≤ℤ now)
          × (roll_window now l ≡ record l { window_start = now; issued_in_window = 0 }))
unfolding roll_window
roll_window_lem now l h =
    ground (arith, +ℤ_parts l.window_start (pos agent_window_seconds), -ℤ_parts now l.window_start)

-- Through the whole of a request the ledger's live principal grows by the amount, and stays with the
-- attested outstanding balance within the attested limit.
pub underwritten_lem :
    (now : ℤ) (bump amount cap max_advance_abs : ℕ) (agent pool_key : Pubkey) (m : Attestation)
    (found : AgentIssuanceLedger) {charged ledger : AgentIssuanceLedger}
    → 0 < amount
    → charge_window amount cap (roll_window now (pin_ledger now bump agent pool_key found))
      ≡ ok charged
    → underwrite amount max_advance_abs m charged ≡ ok ledger
    → (ledger.live_principal ≡ found.live_principal + amount)
      × (m.outstanding + ledger.live_principal ≤ m.credit_limit)
      × (amount ≤ max_advance_abs)
      × ((cap ≡ 0) ⊎ (ledger.issued_in_window ≤ cap))
unfolding charge_window roll_window pin_ledger underwrite
underwritten_lem now bump amount cap max_advance_abs agent pool_key m found {charged} {ledger}
      positive h k =
    ground arith
