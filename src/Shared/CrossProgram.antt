-- ===== src/Shared/CrossProgram.antt =====
-- crates/credmesh-shared/src/cross_program.rs. The account's type, its discriminator and its
-- deserializer are generated by the framework: they are the parameter `AccountType`; the search for an
-- address off the curve is the SDK's, a parameter of `derive_pda`.
use credmesh_solana.Prelude.{
  ℕ, List, ◌≤◌, ◌≡◌, ◌↔◌, not, Option, some, arith, inl, inr, Option-cases, ltb, ◌==◌, length, take,
  Result, ok, require, ok_or, ◌>>=◌, ◌>>◌,
}
use credmesh_solana.Shared.Bytes.{Pubkey, Bytes, bytes_eq, bytes_eq_iff}

pub data CrossProgramReadError : Type 0 where
  owner_mismatch address_mismatch discriminator_mismatch deserialize : CrossProgramReadError

-- The account as the runtime hands it over; its bytes are none while they are mutably borrowed.
pub record AccountInfo : Type 0 where
  pub owner : Pubkey
  pub key : Pubkey
  pub borrowed : Option Bytes

pub record AccountType {ℓ} (T : Type ℓ) : Type ℓ where
  pub discriminator : Bytes
  pub try_deserialize : Bytes → Option T

module _ {ℓ} {T : Type ℓ} (type : AccountType T) where
  pub read_cross_program_account :
      AccountInfo → (expected_owner expected_address : Pubkey) → Result CrossProgramReadError T
  read_cross_program_account info expected_owner expected_address = do
    require (info.owner == expected_owner) owner_mismatch
    require (info.key == expected_address) address_mismatch
    bytes ← ok_or info.borrowed deserialize
    require (not (ltb (length bytes) 8)) discriminator_mismatch
    require (bytes_eq (take 8 bytes) type.discriminator) discriminator_mismatch
    ok_or (type.try_deserialize bytes) deserialize

  -- The four steps of the check: owner, address, discriminator, contents.
  pub record Genuine (info : AccountInfo) (owner address : Pubkey) (value : T) : Type ℓ where
    pub bytes : Bytes
    pub owned : info.owner ≡ owner
    pub addressed : info.key ≡ address
    pub readable : info.borrowed ≡ some bytes
    pub long_enough : 8 ≤ length bytes
    pub tagged : take 8 bytes ≡ type.discriminator
    pub decoded : type.try_deserialize bytes ≡ some value

  -- An account is read exactly when all four steps hold, and the value read is the decoded one.
  pub read_cross_program_account_iff :
      (info : AccountInfo) (owner address : Pubkey) (value : T)
      → (read_cross_program_account info owner address ≡ ok value)
        ↔ Genuine info owner address value
  unfolding read_cross_program_account
  read_cross_program_account_iff info owner address value = (
    λ h. elim (Option-cases info.borrowed) [
      | inl e ↦ ground arith
      | inr (bytes, e) ↦
          let same = bytes_eq_iff (take 8 bytes) type.discriminator in
          record {
            bytes = bytes;
            owned = ground arith;
            addressed = ground arith;
            readable = e;
            long_enough = ground arith;
            tagged = ground (arith, same);
            decoded = ground (arith, same);
          }
    ],
    λ g. ground (arith, bytes_eq_iff (take 8 g.bytes) type.discriminator),
  )

-- `Pubkey::find_program_address`, the address and its bump, and the address alone.
abbrev derive_pda :
    (find_program_address : List Bytes → Pubkey → Pubkey × ℕ) → List Bytes → Pubkey → Pubkey
derive_pda find_program_address seeds program_id = (find_program_address seeds program_id).0
