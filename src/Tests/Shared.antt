-- ===== src/Tests/Shared.antt =====
-- The introspection of the concrete transaction, and a read of another program's account.
use credmesh_solana.Prelude.{ℕ, zero, suc, arith, refl, ◌≡◌, ◌↔◌, some, ok, [], ◌∷◌}
use credmesh_solana.Shared.Introspection.{
  verify_prev_ed25519, require_memo_nonce, require_squads_governance_cpi,
}
use credmesh_solana.Shared.Introspection.Scan.{IsMemoOf, IsGovernanceOf}
use credmesh_solana.Shared.Introspection.Enough.{get_elem?, Among, scans_suffice}
use credmesh_solana.Shared.Introspection.Ed25519.{Verified, verify_prev_ed25519_iff}
use credmesh_solana.Shared.Bytes.{Bytes}
use credmesh_solana.Shared.CrossProgram.{
  AccountInfo, AccountType, Genuine, read_cross_program_account, read_cross_program_account_iff,
}
use credmesh_solana.Escrow.Attestation.RoundTrip.{encode}
use credmesh_solana.Escrow.Seeds.{ledger_account, seeds_injective}
use credmesh_solana.Tests.Messages.{sysvar, nonce, message, instructions}

verify_prev_ed25519_iff_example :
    (verify_prev_ed25519 sysvar ≡ ok (9, encode message)) ↔ Verified sysvar 9 (encode message)
verify_prev_ed25519_iff_example = verify_prev_ed25519_iff sysvar 9 (encode message)

-- An account type whose contents are its bytes.
abbrev raw_type : AccountType Bytes
raw_type = record {
  discriminator = 1 ∷ 2 ∷ 3 ∷ 4 ∷ 5 ∷ 6 ∷ 7 ∷ 8 ∷ [];
  try_deserialize = λ bytes. some bytes;
}

abbrev raw_account : AccountInfo
raw_account = record {
  owner = 70;
  key = 71;
  borrowed = some (1 ∷ 2 ∷ 3 ∷ 4 ∷ 5 ∷ 6 ∷ 7 ∷ 8 ∷ 9 ∷ []);
}

read_cross_program_account_iff_example :
    (read_cross_program_account raw_type raw_account 70 71
      ≡ ok (1 ∷ 2 ∷ 3 ∷ 4 ∷ 5 ∷ 6 ∷ 7 ∷ 8 ∷ 9 ∷ []))
    ↔ Genuine raw_type raw_account 70 71 (1 ∷ 2 ∷ 3 ∷ 4 ∷ 5 ∷ 6 ∷ 7 ∷ 8 ∷ 9 ∷ [])
read_cross_program_account_iff_example =
    read_cross_program_account_iff raw_type raw_account 70 71
      (1 ∷ 2 ∷ 3 ∷ 4 ∷ 5 ∷ 6 ∷ 7 ∷ 8 ∷ 9 ∷ [])

-- The transaction, indexed as the loops index it.
held : (i : ℕ) → sysvar.instruction_at i ≡ get_elem? instructions i
held zero = refl
held (suc zero) = refl
held (suc (suc zero)) = refl
held (suc (suc (suc zero))) = refl
held (suc (suc (suc (suc i)))) = refl

scans_suffice_example :
    ((require_memo_nonce sysvar nonce ≡ ok tt) ↔ Among (IsMemoOf nonce) instructions)
    × ((require_squads_governance_cpi sysvar 6 ≡ ok tt) ↔ Among (IsGovernanceOf 6) instructions)
scans_suffice_example = scans_suffice sysvar instructions nonce 6 held (omega arith)

-- Agent 7's ledger in pool 1.
seeds_injective_example : ledger_account 1 7 ≡ ledger_account 1 7
seeds_injective_example =
    seeds_injective (ledger_account 1 7) (ledger_account 1 7) (omega arith, (omega arith, tt))
      (omega arith, (omega arith, tt)) refl
