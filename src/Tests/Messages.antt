-- ===== src/Tests/Messages.antt =====
-- The message that the bridge signs, and the transaction that presents it.
use credmesh_solana.Prelude.{ℕ, zero, suc, true, Option, none, some, List, [], ◌∷◌, ◌++◌}
use credmesh_solana.Prelude.Int.{pos}
use credmesh_solana.Shared.Bytes.{Bytes, to_le_bytes}
use credmesh_solana.Shared.Layout.{squads_v4, memo, ed25519}
use credmesh_solana.Shared.Instructions.{Instruction, Sysvar}
use credmesh_solana.Escrow.Attestation.{Attestation}
use credmesh_solana.Escrow.Attestation.RoundTrip.{encode}

abbrev pub nonce : Bytes
nonce = to_le_bytes 16 77

-- The message that the bridge signs, and the transaction: the signature, the request, the memo and
-- a Squads instruction in which governance is writable.
abbrev pub message : Attestation
message = record {
  agent = 7;
  pool = 1;
  credit_limit = 45_000_000;
  outstanding = 5_000_000;
  expires_at = pos 950_000;
  attested_at = pos 89_900;
  nonce = nonce;
  chain_id = 2;
  version = 1;
}

abbrev pub offsets : Bytes
offsets =
    to_le_bytes 2 176
    ++ to_le_bytes 2 0
    ++ to_le_bytes 2 16
    ++ to_le_bytes 2 0
    ++ to_le_bytes 2 48
    ++ to_le_bytes 2 128
    ++ to_le_bytes 2 0

abbrev pub signature_payload : Bytes
signature_payload = 1 ∷ 0 ∷ offsets ++ to_le_bytes 32 9 ++ encode message

abbrev pub instructions : List Instruction
instructions =
    record { program_id = ed25519; accounts = []; payload = signature_payload }
    ∷ record { program_id = 100; accounts = []; payload = [] }
    ∷ record { program_id = memo; accounts = []; payload = nonce }
    ∷ record {
      program_id = squads_v4;
      accounts = record { pubkey = 6; is_writable = true } ∷ [];
      payload = [];
    }
    ∷ []

abbrev pub instruction_in : List Instruction → ℕ → Option Instruction
instruction_in [] i = none
instruction_in (ix ∷ rest) zero = some ix
instruction_in (ix ∷ rest) (suc i) = instruction_in rest i

abbrev pub sysvar : Sysvar
sysvar = record { current_index = some 1; instruction_at = instruction_in instructions }
