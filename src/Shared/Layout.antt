-- ===== src/Shared/Layout.antt =====
-- The constants of crates/credmesh-shared/src/lib.rs: seeds, program ids, the layout of the signed
-- credit message, and the kinds of attestor.
use credmesh_solana.Prelude.{ℕ, Option, none, some, [], ◌∷◌, ◌==◌, if◌then◌else◌}
use credmesh_solana.Shared.Bytes.{Pubkey, Bytes}

-- b"pool", b"advance", b"consumed", …
abbrev pub pool_seed : Bytes
pool_seed = b'p' ∷ b'o' ∷ b'o' ∷ b'l' ∷ []

abbrev pub advance_seed : Bytes
advance_seed = b'a' ∷ b'd' ∷ b'v' ∷ b'a' ∷ b'n' ∷ b'c' ∷ b'e' ∷ []

abbrev pub consumed_seed : Bytes
consumed_seed = b'c' ∷ b'o' ∷ b'n' ∷ b's' ∷ b'u' ∷ b'm' ∷ b'e' ∷ b'd' ∷ []

abbrev pub allowed_signer_seed : Bytes
allowed_signer_seed =
    b'a' ∷ b'l' ∷ b'l' ∷ b'o' ∷ b'w' ∷ b'e' ∷ b'd' ∷ b'_' ∷ b's' ∷ b'i' ∷ b'g' ∷ b'n' ∷ b'e' ∷ b'r'
    ∷ []

abbrev pub attestor_config_seed : Bytes
attestor_config_seed =
    b'a' ∷ b't' ∷ b't' ∷ b'e' ∷ b's' ∷ b't' ∷ b'o' ∷ b'r' ∷ b'_' ∷ b'c' ∷ b'o' ∷ b'n' ∷ b'f' ∷ b'i'
    ∷ b'g' ∷ []

abbrev pub issuance_ledger_seed : Bytes
issuance_ledger_seed =
    b'i' ∷ b's' ∷ b's' ∷ b'u' ∷ b'a' ∷ b'n' ∷ b'c' ∷ b'e' ∷ b'_' ∷ b'l' ∷ b'e' ∷ b'd' ∷ b'g' ∷ b'e'
    ∷ b'r' ∷ []

abbrev pub liquidation_tombstone_seed : Bytes
liquidation_tombstone_seed =
    b'l' ∷ b'i' ∷ b'q' ∷ b'_' ∷ b't' ∷ b'o' ∷ b'm' ∷ b'b' ∷ b's' ∷ b't' ∷ b'o' ∷ b'n' ∷ b'e' ∷ []

-- The program ids, as the numbers that their 32 bytes spell.
abbrev pub escrow : Pubkey
escrow = 0xa62d8ab919a65e84cae5c91d79c560bc0c66fa2c2d9473a92e78a6f01abc69b7

abbrev pub attestor_registry : Pubkey
attestor_registry = 0x5188ed9325b7884c39fa5e137ce736cd862922ce0b3c9dabcdc13581c19eb78a

abbrev pub squads_v4 : Pubkey
squads_v4 = 0xa8b79cacd468bf2ff5a36cb6fb7efc2e09af87c85e55b1b86823e247cec48106

abbrev pub memo : Pubkey
memo = 0x8d44054140a81fe481bb92bcddb5357c7c38da6071e8244d062129995a534a05

abbrev pub ed25519 : Pubkey
ed25519 = 0x804470cafc648af42749747005ff408d838f42f912befb937cd6467d03

-- `ed25519_credit_message`
abbrev pub version : ℕ
version = 1

abbrev pub total_len : ℕ
total_len = 128

abbrev pub agent_offset : ℕ
agent_offset = 0

abbrev pub pool_offset : ℕ
pool_offset = 32

abbrev pub credit_limit_offset : ℕ
credit_limit_offset = 64

abbrev pub outstanding_offset : ℕ
outstanding_offset = 72

abbrev pub expires_at_offset : ℕ
expires_at_offset = 80

abbrev pub attested_at_offset : ℕ
attested_at_offset = 88

abbrev pub nonce_offset : ℕ
nonce_offset = 96

abbrev pub nonce_len : ℕ
nonce_len = 16

abbrev pub chain_id_offset : ℕ
chain_id_offset = 112

abbrev pub version_offset : ℕ
version_offset = 120

abbrev pub max_attestation_age_seconds : ℕ
max_attestation_age_seconds = 900

abbrev pub chain_id_mainnet : ℕ
chain_id_mainnet = 1

abbrev pub chain_id_devnet : ℕ
chain_id_devnet = 2

pub data AttestorKind : Type 0 where
  credit_bridge : AttestorKind

-- `AttestorKind::as_u8` and `AttestorKind::from_u8`
unfoldable pub as_u8 : AttestorKind → ℕ
as_u8 credit_bridge = 0

unfoldable pub from_u8 : ℕ → Option AttestorKind
from_u8 b = if b == 0 then some credit_bridge else none
