-- ===== src/Escrow/Attestation.antt =====
-- The signed credit message of programs/credmesh-escrow/src/instructions/request_advance.rs: its
-- decoding against the layout of credmesh-shared, and the checks (1) to (3) of the handler. The
-- handler reads the fields between its checks; the reads change nothing, and stand here before them.
pub mod Fields
pub mod RoundTrip
pub mod Accepted
use credmesh_solana.Prelude.{
  ℕ, ◌+◌, Bool, ◌&&◌, leb, ◌==◌, length, ok, require, ◌>>=◌, ◌>>◌, if◌then◌else◌,
}
use credmesh_solana.Prelude.Int.{ℤ, pos, leb_ℤ, ltb_ℤ}
use credmesh_solana.Machine.{checked_sub_i64}
use credmesh_solana.Runtime.{Outcome, custom, or_panic, map_failure}
use credmesh_solana.Shared.Bytes.{Pubkey, Bytes, from_le_bytes, as_i64, index_range, bytes_eq}
use credmesh_solana.Shared.Layout.{
  version, total_len, agent_offset, pool_offset, credit_limit_offset, outstanding_offset,
  expires_at_offset, attested_at_offset, nonce_offset, nonce_len, chain_id_offset, version_offset,
  max_attestation_age_seconds, as_u8, credit_bridge,
}
use credmesh_solana.Shared.Instructions.{Sysvar}
use credmesh_solana.Shared.Introspection.{
  IxIntrospectionError, ed25519_offset_mismatch, verify_prev_ed25519,
}
use credmesh_solana.Registry.{AllowedSigner}
use credmesh_solana.Escrow.Errors.{
  CredmeshError, ed25519_missing, ed25519_message_mismatch, ed25519_signer_unknown,
  invalid_chain_id, receivable_stale, receivable_expired,
}

pub record Attestation : Type 0 where
  pub agent : Pubkey
  pub pool : Pubkey
  pub credit_limit : ℕ
  pub outstanding : ℕ
  pub expires_at : ℤ
  pub attested_at : ℤ
  pub nonce : Bytes
  pub chain_id : ℕ
  pub version : ℕ

unfoldable pub pubkey_at : Bytes → (offset : ℕ) → Outcome CredmeshError Pubkey
pubkey_at msg offset = do
  buf ← or_panic (index_range msg offset (offset + 32))
  ok (from_le_bytes buf)

unfoldable pub u64_le : Bytes → (offset : ℕ) → Outcome CredmeshError ℕ
u64_le msg offset = do buf ← or_panic (index_range msg offset (offset + 8)); ok (from_le_bytes buf)

unfoldable pub i64_le : Bytes → (offset : ℕ) → Outcome CredmeshError ℤ
i64_le msg offset = do
  buf ← or_panic (index_range msg offset (offset + 8))
  ok (as_i64 (from_le_bytes buf))

unfoldable pub decode : Bytes → Outcome CredmeshError Attestation
decode msg = do
  agent ← pubkey_at msg agent_offset
  pool ← pubkey_at msg pool_offset
  credit_limit ← u64_le msg credit_limit_offset
  outstanding ← u64_le msg outstanding_offset
  expires_at ← i64_le msg expires_at_offset
  attested_at ← i64_le msg attested_at_offset
  nonce ← or_panic (index_range msg nonce_offset (nonce_offset + nonce_len))
  chain_id ← u64_le msg chain_id_offset
  message_version ← u64_le msg version_offset
  ok (record {
    agent = agent;
    pool = pool;
    credit_limit = credit_limit;
    outstanding = outstanding;
    expires_at = expires_at;
    attested_at = attested_at;
    nonce = nonce;
    chain_id = chain_id;
    version = message_version;
  })

abbrev pub introspection_error : IxIntrospectionError → CredmeshError
introspection_error ed25519_offset_mismatch = ed25519_message_mismatch
introspection_error _ = ed25519_missing

-- `attested_at <= now && (now - attested_at) <= MAX_ATTESTATION_AGE_SECONDS`: the subtraction, which
-- may abort, is made only if the first test passes.
unfoldable pub is_fresh : (now attested_at : ℤ) → Outcome CredmeshError Bool
is_fresh now attested_at =
    if leb_ℤ attested_at now
    then (do
      age ← or_panic (checked_sub_i64 now attested_at)
      ok (leb_ℤ age (pos max_attestation_age_seconds)))
    else ok Bool.false

-- Steps (1) to (3): the signer's key and the accepted attestation.
unfoldable pub verify_attestation :
    (sysvar : Sysvar) (now : ℤ) (allowed : AllowedSigner) (agent pool_key : Pubkey) (chain_id : ℕ)
    (nonce : Bytes)
    → Outcome CredmeshError (Pubkey × Attestation)
verify_attestation sysvar now allowed agent pool_key chain_id nonce = do
  (signed_pubkey, signed_msg) ← map_failure introspection_error (verify_prev_ed25519 sysvar)
  require (length signed_msg == total_len) (custom ed25519_message_mismatch)
  require (signed_pubkey == allowed.signer) (custom ed25519_signer_unknown)
  require (allowed.kind == as_u8 credit_bridge) (custom ed25519_signer_unknown)
  m ← decode signed_msg
  require (m.agent == agent) (custom ed25519_message_mismatch)
  require (m.pool == pool_key) (custom ed25519_message_mismatch)
  require (m.version == version) (custom ed25519_message_mismatch)
  require (bytes_eq m.nonce nonce) (custom ed25519_message_mismatch)
  require (m.chain_id == chain_id) (custom invalid_chain_id)
  fresh ← is_fresh now m.attested_at
  require fresh (custom receivable_stale)
  require (ltb_ℤ now m.expires_at) (custom receivable_expired)
  ok (signed_pubkey, m)
