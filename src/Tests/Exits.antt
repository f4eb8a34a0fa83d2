-- ===== src/Tests/Exits.antt =====
-- How advances of the concrete pool end when nobody settles them.
use credmesh_solana.Prelude.{◌+◌, ◌≡◌, [], ◌∷◌, refl, arith, ok, err, none, some}
use credmesh_solana.Prelude.Int.{pos, ◌+ℤ◌, ◌-ℤ◌}
use credmesh_solana.Runtime.{custom}
use credmesh_solana.Store.{find, put, nat_eq, pair_eq}
use credmesh_solana.Shared.Bytes.{from_le_bytes, to_le_bytes, bytes_eq}
use credmesh_solana.Shared.Layout.{as_u8}
use credmesh_solana.Shared.Introspection.{parse_offsets, verify_prev_ed25519}
use credmesh_solana.Escrow.Errors.{math_overflow}
use credmesh_solana.Escrow.Events.{Event}
use credmesh_solana.Escrow.State.{Advance}
use credmesh_solana.Escrow.World.{World}
use credmesh_solana.Escrow.Pricing.{
  preview_deposit, kink_rate, fee_rate, compute_fee_amount, compute_late_penalty_per_day,
  compute_utilization_bps,
}
use credmesh_solana.Escrow.Liquidity.{deposit}
use credmesh_solana.Escrow.Attestation.{
  pubkey_at, u64_le, i64_le, decode, is_fresh, verify_attestation,
}
use credmesh_solana.Escrow.Attestation.RoundTrip.{encode}
use credmesh_solana.Escrow.RequestAdvance.{
  pin_ledger, roll_window, charge_window, underwrite, price_advance, request_accounts,
  request_handler, request_advance,
}
use credmesh_solana.Escrow.Settlement.{Loaded, settle_accounts, claim_and_settle, liquidate}
use credmesh_solana.Escrow.Settlement.Windows.{late_expiry_sticks}
use credmesh_solana.Protocol.{Run, deposits, requests, start, then_step}
use credmesh_solana.Protocol.Kept.Exits.{run-liquidates}
use credmesh_solana.Tests.Bank.{tokens, set_amount, transfer, mint_to, init_associated}
use credmesh_solana.Tests.Worlds.{
  world, lp_accounts, request, claim, registry, returned, open_key, open_advance, marker, ledger,
}
use credmesh_solana.Tests.Messages.{sysvar, nonce}
use credmesh_solana.Tests.Protocol.{new_accounts, new_params, new_bank, new_world, init_ok}

-- A new pool after a deposit and a request.
abbrev funded : World tokens
funded = (returned (deposit tokens lp_accounts 9_000_000 new_world)).0

funded_ok :
    deposit tokens lp_accounts 9_000_000 new_world
    ≡ ok (returned (deposit tokens lp_accounts 9_000_000 new_world))
unfolding deposit preview_deposit find put set_amount transfer mint_to
funded_ok = refl

abbrev lent : World tokens
lent = (returned (request_advance tokens sysvar (pos 90_000) request 12 2_000_000 nonce funded)).0

abbrev lent_advance : Advance
lent_advance = record open_advance {
  bump = 249;
  receivable_id = 12;
  principal = 2_000_000;
  fee_owed = 49_000;
  late_penalty_per_day = 2_020;
  issued_at = pos 90_000;
  expires_at = pos 950_000;
}

-- The request succeeds, its advance is on the books, and the assets are those of the deposit.
lent_ok :
    (request_advance tokens sysvar (pos 90_000) request 12 2_000_000 nonce funded
      ≡ ok
          (returned (request_advance tokens sysvar (pos 90_000) request 12 2_000_000 nonce funded)))
    × (find (7, 12) (lent.advances) ≡ some lent_advance)
    × (lent.pool.total_assets ≡ 9_000_000)
unfolding request_advance request_accounts request_handler verify_attestation verify_prev_ed25519
    parse_offsets decode pubkey_at u64_le i64_le is_fresh from_le_bytes to_le_bytes encode bytes_eq
    as_u8 pin_ledger roll_window charge_window underwrite price_advance compute_utilization_bps
    compute_fee_amount fee_rate kink_rate compute_late_penalty_per_day deposit preview_deposit find
    put set_amount transfer mint_to init_associated ◌+ℤ◌ ◌-ℤ◌
lent_ok = (refl, refl, refl)

-- The pool is still the pool 1.
same_pool : funded.pool_key ≡ 1
unfolding deposit preview_deposit find put set_amount transfer mint_to
same_pool = refl

abbrev lent_run : Run tokens new_world lent
lent_run = then_step (then_step start (deposits lp_accounts 9_000_000 _ (omega arith) funded_ok)) (
    requests sysvar (pos 90_000) request 12 2_000_000 nonce _ (omega (arith, same_pool))
      (lent_ok.0))

run-liquidates_example :
    (w' : World tokens) × (event : Event) × (liquidate tokens (pos 2_159_600) (7, 12) 247 lent
      ≡ ok (w', event))
    × (find (7, 12) w'.advances ≡ none)
    × (w'.pool.total_assets + 2_000_000 ≡ lent.pool.total_assets)
unfolding ◌+ℤ◌
run-liquidates_example =
    run-liquidates tokens new_accounts new_params registry new_bank init_ok lent_run (7, 12)
      lent_advance (lent_ok.1) (omega (arith, lent_ok.2)) (pos 2_159_600) 247 (omega arith)
      (omega arith)

-- The open advance with an expiry near the end of `i64`.
abbrev late_advance : Advance
late_advance = record open_advance { expires_at = pos 9_223_372_036_854_775_807 }

abbrev late_world : World tokens
late_world = record world { advances = (open_key, late_advance) ∷ [] }

abbrev late_loaded : Loaded
late_loaded = record { advance = late_advance; consumed = marker; ledger = ledger; decimals = 6 }

late_loads : settle_accounts tokens claim late_world ≡ ok late_loaded
unfolding settle_accounts find
late_loads = refl

late_expiry_sticks_example :
    (claim_and_settle tokens sysvar (pos 900_000) claim 21_020_000 late_world
      ≡ err (custom math_overflow))
    × (liquidate tokens (pos 900_000) open_key 247 late_world ≡ err (custom math_overflow))
unfolding find ◌+ℤ◌
late_expiry_sticks_example =
    late_expiry_sticks tokens sysvar (pos 900_000) claim 21_020_000 247 late_world late_loaded
      late_loads refl (omega arith)
