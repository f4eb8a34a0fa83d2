-- ===== src/Tests/Settles.antt =====
-- A settlement of the open advance within a day of its expiry.
use credmesh_solana.Prelude.{◌≡◌, refl, ok, arith}
use credmesh_solana.Prelude.Int.{pos, ◌+ℤ◌, ◌-ℤ◌}
use credmesh_solana.Store.{find, put, remove, nat_eq, pair_eq}
use credmesh_solana.Shared.Bytes.{to_le_bytes, bytes_eq}
use credmesh_solana.Shared.Introspection.{scan, require_memo_nonce}
use credmesh_solana.Escrow.Events.{advance_settled}
use credmesh_solana.Escrow.Settlement.{Loaded, settle_accounts, claim_and_settle}
use credmesh_solana.Escrow.Settlement.Settles.{Payable, settle-succeeds}
use credmesh_solana.Tests.Bank.{Ledger, tokens, set_amount, transfer}
use credmesh_solana.Tests.Worlds.{world, claim, open_advance, marker, ledger, set_balances}
use credmesh_solana.Tests.Messages.{sysvar}

abbrev pub loaded : Loaded
loaded = record { advance = open_advance; consumed = marker; ledger = ledger; decimals = 6 }

abbrev taxed : Ledger
taxed = set_balances 80_000_000 450_000 29_850_000

abbrev repaid : Ledger
repaid = set_balances 100_850_000 450_000 9_000_000

pub loads : settle_accounts tokens claim world ≡ ok loaded
unfolding settle_accounts find
loads = refl

payable : Payable tokens sysvar (pos 900_000) claim loaded 21_020_000 world taxed repaid
unfolding require_memo_nonce scan bytes_eq to_le_bytes find put set_amount transfer ◌+ℤ◌ ◌-ℤ◌
payable = record {
  grace_range = omega arith;
  in_window = omega arith;
  late_range = omega arith;
  memo = refl;
  debt_fits = omega arith;
  payment_fits = omega arith;
  pays_debt = omega arith;
  taxes = refl;
  repays = refl;
  live_covers = omega arith;
  deployed_covers = omega arith;
  assets_fit = omega arith;
  fees_fit = omega arith;
}

settle-succeeds_example :
    claim_and_settle tokens sysvar (pos 900_000) claim 21_020_000 world
    ≡ ok (
      record world {
        pool = record (world.pool) {
          deployed_amount = 0;
          total_assets = 100_850_000;
          accrued_protocol_fees = 450_000;
        };
        advances = remove (7, 11) (world.advances);
        ledgers = put 7 (record ledger { live_principal = 0 }) (world.ledgers);
        bank = repaid;
      },
      advance_settled 1 7 11 20_000_000 20_850_000 150_000 20_000 0,
    )
unfolding ◌+ℤ◌ ◌-ℤ◌
settle-succeeds_example =
    settle-succeeds tokens sysvar (pos 900_000) claim loaded 21_020_000 world taxed repaid loads
      payable
