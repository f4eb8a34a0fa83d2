-- ===== src/Tests/Escrow.antt =====
-- The instructions of the escrow on the concrete world.
use credmesh_solana.Prelude.{◌+◌, ◌≡◌, ◌↔◌, ◌*◌, refl, arith, ok}
use credmesh_solana.Prelude.Int.{pos, ◌+ℤ◌, +ℤ_parts}
use credmesh_solana.Machine.{IsI64}
use credmesh_solana.Shared.Bytes.{to_le_bytes}
use credmesh_solana.Escrow.State.{liquidation_grace_seconds}
use credmesh_solana.Escrow.Attestation.{decode, verify_attestation}
use credmesh_solana.Escrow.Attestation.RoundTrip.{encode, IsTyped, decode-encode}
use credmesh_solana.Escrow.Attestation.Accepted.{Accepted, verify_attestation_iff}
use credmesh_solana.Escrow.World.{World}
use credmesh_solana.Escrow.Events.{Event}
use credmesh_solana.Escrow.Settlement.Exactly.{Settleable, claim_and_settle_iff}
use credmesh_solana.Escrow.Settlement.{waterfall, liquidate, claim_and_settle}
use credmesh_solana.Escrow.Settlement.Effects.{Liquidated, liquidate-Liquidated}
use credmesh_solana.Escrow.Settlement.Liquidates.{IsLiquidatable, liquidate_iff}
use credmesh_solana.Store.{nat_eq, pair_eq}
use credmesh_solana.Escrow.Settlement.Tranches.{
  protocol_share, waterfall_covers, waterfall_conserves,
}
use credmesh_solana.Tests.Bank.{tokens}
use credmesh_solana.Tests.Worlds.{world, claim, bridge}
use credmesh_solana.Tests.Messages.{sysvar, nonce, message}
use credmesh_solana.Tests.Calls.{after_settles, after_liquidates, liquidates_ok}

liquidate-Liquidated_example :
    Liquidated tokens (pos 2_200_000) (7, 12) after_settles after_liquidates
liquidate-Liquidated_example =
    liquidate-Liquidated tokens (pos 2_200_000) (7, 12) 247 after_settles liquidates_ok

verify_attestation_iff_example :
    (verify_attestation sysvar (pos 90_000) bridge 7 1 2 nonce ≡ ok (9, message))
    ↔ Accepted sysvar (pos 90_000) bridge 7 1 2 nonce 9 message
verify_attestation_iff_example =
    verify_attestation_iff sysvar (pos 90_000) bridge 7 1 2 nonce 9 message

pub message-IsTyped : IsTyped message
unfolding to_le_bytes
message-IsTyped = record {
  agent_lt = omega arith;
  pool_lt = omega arith;
  credit_limit_lt = omega arith;
  outstanding_lt = omega arith;
  expires_at_fits = ground arith;
  attested_at_fits = ground arith;
  nonce_len = refl;
  chain_id_lt = omega arith;
  version_lt = omega arith;
}

decode-encode_example : decode (encode message) ≡ ok message
decode-encode_example = decode-encode message message-IsTyped

split_ok :
    waterfall 20_000_000 1_000_000 20_000 1 22_000_000
    ≡ ok (record {
      protocol_cut = 153_000;
      lp_fee = 867_000;
      lp_cut = 20_867_000;
      agent_net = 980_000;
    })
split_ok =
    waterfall_covers 20_000_000 1_000_000 20_000 1 22_000_000 (omega arith) (omega arith)
      (omega arith)

waterfall_conserves_example :
    (153_000 + 20_867_000 + 980_000 ≡ 22_000_000)
    × (20_867_000 ≡ 20_000_000 + 867_000)
    × (153_000 + 867_000 ≡ 1_000_000 + 1 * 20_000)
    × (153_000 ≡ protocol_share (1_000_000 + 1 * 20_000))
waterfall_conserves_example = waterfall_conserves 20_000_000 1_000_000 20_000 1 22_000_000 split_ok

pub grace_range : IsI64 (pos 865_000 +ℤ pos liquidation_grace_seconds)
grace_range = ground (arith, +ℤ_parts (pos 865_000) (pos liquidation_grace_seconds))

liquidate_iff_example :
    ((r : World tokens × Event) × (liquidate tokens (pos 2_200_000) (7, 12) 247 after_settles
        ≡ ok r))
    ↔ IsLiquidatable tokens (pos 2_200_000) (7, 12) after_settles
liquidate_iff_example = liquidate_iff tokens (pos 2_200_000) (7, 12) 247 after_settles

claim_and_settle_iff_example :
    ((r : World tokens × Event) × (claim_and_settle tokens sysvar
          (pos 900_000)
          claim
          21_020_000
          world
        ≡ ok r))
    ↔ Settleable tokens sysvar (pos 900_000) claim 21_020_000 world
claim_and_settle_iff_example =
    claim_and_settle_iff tokens sysvar (pos 900_000) claim 21_020_000 world
