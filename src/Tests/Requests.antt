-- ===== src/Tests/Requests.antt =====
-- A request that must succeed, on the concrete world.
use credmesh_solana.Prelude.{◌≡◌, ◌↔◌, ◌+◌, ◌*◌, ◌≤◌, refl, arith, ok, inr}
use credmesh_solana.Prelude.Int.{pos, ◌+ℤ◌, ◌-ℤ◌}
use credmesh_solana.Store.{find, put, nat_eq, pair_eq}
use credmesh_solana.Shared.Bytes.{from_le_bytes, to_le_bytes, bytes_eq}
use credmesh_solana.Shared.Layout.{as_u8}
use credmesh_solana.Shared.Introspection.{parse_offsets, verify_prev_ed25519}
use credmesh_solana.Escrow.Events.{Event, advance_issued}
use credmesh_solana.Escrow.World.{World}
use credmesh_solana.Escrow.RequestAdvance.Exactly.{IsGrantable, request_advance_iff}
use credmesh_solana.Escrow.RequestAdvance.Window.{
  Charges, window_cap_twice_reached, window_cap_twice_at_most,
}
use credmesh_solana.Escrow.State.{AdvanceState, AgentIssuanceLedger, agent_window_seconds}
use credmesh_solana.Escrow.Attestation.{
  pubkey_at, u64_le, i64_le, decode, is_fresh, verify_attestation,
}
use credmesh_solana.Escrow.Attestation.Accepted.{verify_attestation_iff}
use credmesh_solana.Escrow.Attestation.RoundTrip.{encode}
use credmesh_solana.Escrow.RequestAdvance.{
  Loaded, pin_ledger, roll_window, request_accounts, request_advance,
}
use credmesh_solana.Escrow.RequestAdvance.Priced.{fee_of, penalty_of}
use credmesh_solana.Escrow.RequestAdvance.Succeeds.{IsCreditable, ledger_at, request-succeeds}
use credmesh_solana.Tests.Bank.{tokens, set_amount, transfer, init_associated}
use credmesh_solana.Tests.Worlds.{world, request, pool, bank, bridge, ledger, set_balances}
use credmesh_solana.Tests.Messages.{sysvar, nonce, message}
use credmesh_solana.Tests.Runs.{priceable}

abbrev loaded : Loaded tokens
loaded = record { allowed = bridge; decimals = 6; opened = bank }

loads : request_accounts tokens request 12 world ≡ ok loaded
unfolding request_accounts find init_associated
loads = refl

checked : verify_attestation sysvar (pos 90_000) bridge 7 1 2 nonce ≡ ok (9, message)
unfolding verify_attestation verify_prev_ed25519 parse_offsets decode pubkey_at u64_le i64_le
    is_fresh from_le_bytes to_le_bytes encode bytes_eq as_u8 ◌-ℤ◌
checked = refl

creditable : IsCreditable 10_000_000 pool message (ledger_at tokens (pos 90_000) request world)
unfolding roll_window pin_ledger find ◌-ℤ◌
creditable = record {
  amount_fits = omega arith;
  window_fits = omega arith;
  window_covers = inr (omega arith);
  credit_covers = omega arith;
  combined_fits = omega arith;
  live_fits = omega arith;
  within_cap = omega arith;
}

request-succeeds_example :
    request_advance tokens sysvar (pos 90_000) request 12 10_000_000 nonce world
    ≡ ok (
      record world {
        pool = record pool { deployed_amount = 30_000_000 };
        advances =
            put
              (7, 12)
              (record {
                bump = 249;
                agent = 7;
                receivable_id = 12;
                principal = 10_000_000;
                fee_owed = fee_of (pos 90_000) 10_000_000 message pool;
                late_penalty_per_day = penalty_of 10_000_000 pool;
                issued_at = pos 90_000;
                expires_at = pos 950_000;
                attestor = 9;
                state = AdvanceState.issued;
              })
              (world.advances);
        consumed =
            put
              (7, 12)
              (record { bump = 248; nonce = nonce; agent = 7; created_at = pos 90_000 })
              (world.consumed);
        ledgers =
            put 7
              (record ledger {
                window_start = pos 90_000;
                issued_in_window = 10_000_000;
                live_principal = 30_000_000;
              })
              (world.ledgers);
        bank = set_balances 70_000_000 300_000 40_000_000;
      },
      advance_issued 1 7 12 10_000_000
          (fee_of (pos 90_000) 10_000_000 message pool)
          (pos 950_000)
          9,
    )
unfolding roll_window pin_ledger find put set_amount transfer ◌-ℤ◌
request-succeeds_example =
    request-succeeds tokens sysvar (pos 90_000) request loaded 12 10_000_000 nonce world 9 message
      (set_balances 70_000_000 300_000 40_000_000) loads
      ((verify_attestation_iff sysvar (pos 90_000) bridge 7 1 2 nonce 9 message).0 checked)
      (omega arith) creditable priceable (omega arith) refl

request_advance_iff_example :
    ((r : World tokens × Event) × (request_advance tokens sysvar
          (pos 90_000)
          request
          12
          10_000_000
          nonce
          world
        ≡ ok r))
    ↔ IsGrantable tokens sysvar (pos 90_000) request 12 10_000_000 nonce world
request_advance_iff_example =
    request_advance_iff tokens sysvar (pos 90_000) request 12 10_000_000 nonce world priceable

-- Nothing is in the window that begins at 1000; the cap is 40 and is charged at 2000.
abbrev idle_ledger : AgentIssuanceLedger
idle_ledger = record ledger { issued_in_window = 0 }

abbrev next_ledger : AgentIssuanceLedger
next_ledger = record ledger {
  window_start = pos 1000 +ℤ pos agent_window_seconds;
  issued_in_window = 40_000_000;
}

window_cap_twice_reached_example :
    Charges 40_000_000 (pos 2000) idle_ledger next_ledger (0 + 40_000_000 + 40_000_000)
unfolding ◌+ℤ◌
window_cap_twice_reached_example =
    window_cap_twice_reached 40_000_000 (pos 2000) idle_ledger (omega arith) (omega arith) refl
      (omega arith) (omega arith)

window_cap_twice_at_most_example : 0 + 40_000_000 + 40_000_000 ≤ 2 * 40_000_000
unfolding ◌+ℤ◌
window_cap_twice_at_most_example =
    window_cap_twice_at_most 40_000_000 (pos 2000) idle_ledger (omega arith) (
      window_cap_twice_reached 40_000_000 (pos 2000) idle_ledger (omega arith) (omega arith) refl
        (omega arith) (omega arith))
