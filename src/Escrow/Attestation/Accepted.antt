-- ===== src/Escrow/Attestation/Accepted.antt =====
-- What the checks of `request_advance` on the signed message let through.
use credmesh_solana.Prelude.{ℕ, ◌≡◌, ◌↔◌, true, arith, ok, inl, inr, length, Result-cases}
use credmesh_solana.Prelude.Int.{ℤ, pos, ◌-ℤ◌, ◌≤ℤ◌, ◌<ℤ◌}
use credmesh_solana.Machine.{IsI64}
use credmesh_solana.Shared.Bytes.{Pubkey, Bytes, bytes_eq_iff}
use credmesh_solana.Shared.Layout.{as_u8, credit_bridge, version, total_len}
use credmesh_solana.Shared.Instructions.{Sysvar}
use credmesh_solana.Shared.Introspection.{verify_prev_ed25519}
use credmesh_solana.Shared.Introspection.Ed25519.{Verified, verify_prev_ed25519_iff}
use credmesh_solana.Registry.{AllowedSigner}
use credmesh_solana.Escrow.Attestation.{Attestation, decode, is_fresh, verify_attestation}

-- The message was signed by the whitelisted bridge key in the instruction just before, has the
-- documented length and version, names this agent, pool, cluster and nonce, and is at most 15 minutes
-- old and not expired.
pub record Accepted (sysvar : Sysvar) (now : ℤ) (allowed : AllowedSigner) (agent pool_key : Pubkey)
    (chain_id : ℕ) (nonce : Bytes) (key : Pubkey) (m : Attestation) : Type 0 where
  pub message : Bytes
  pub signed : Verified sysvar key message
  pub long : length message ≡ total_len
  pub decoded : decode message ≡ ok m
  pub whitelisted : key ≡ allowed.signer
  pub is_bridge : allowed.kind ≡ as_u8 credit_bridge
  pub for_agent : m.agent ≡ agent
  pub for_pool : m.pool ≡ pool_key
  pub of_version : m.version ≡ version
  pub with_nonce : m.nonce ≡ nonce
  pub on_cluster : m.chain_id ≡ chain_id
  pub issued_before : m.attested_at ≤ℤ now
  pub in_range : IsI64 (now -ℤ m.attested_at)
  pub fresh : now -ℤ m.attested_at ≤ℤ pos 900
  pub live : now <ℤ m.expires_at

is_fresh_iff :
    (now at : ℤ)
    → (is_fresh now at ≡ ok true) ↔ ((at ≤ℤ now) × IsI64 (now -ℤ at) × (now -ℤ at ≤ℤ pos 900))
unfolding is_fresh
is_fresh_iff now at = ground arith

module _ (sysvar : Sysvar) (now : ℤ) (allowed : AllowedSigner) (agent pool_key : Pubkey)
    (chain_id : ℕ) (nonce : Bytes) (key : Pubkey) (m : Attestation) where
  accepts :
      Accepted sysvar now allowed agent pool_key chain_id nonce key m
      → verify_attestation sysvar now allowed agent pool_key chain_id nonce ≡ ok (key, m)
  unfolding verify_attestation
  accepts a = ground (
    arith,
    (verify_prev_ed25519_iff sysvar key a.message).1 a.signed,
    bytes_eq_iff m.nonce nonce,
    is_fresh_iff now m.attested_at,
  )

  accepted :
      verify_attestation sysvar now allowed agent pool_key chain_id nonce ≡ ok (key, m)
      → Accepted sysvar now allowed agent pool_key chain_id nonce key m
  unfolding verify_attestation
  accepted h = elim (Result-cases (verify_prev_ed25519 sysvar)) [
    | inl (e, f) ↦ ground arith
    | inr ((k, message), f) ↦ elim (Result-cases (decode message)) [
      | inl (e, g) ↦ ground arith
      | inr (d, g) ↦
          let same = bytes_eq_iff d.nonce nonce in
          let recent = is_fresh_iff now d.attested_at in
          record {
            message = message;
            signed = (verify_prev_ed25519_iff sysvar key message).0 (ground arith);
            long = ground arith;
            decoded = ground arith;
            whitelisted = ground arith;
            is_bridge = ground arith;
            for_agent = ground arith;
            for_pool = ground arith;
            of_version = ground arith;
            with_nonce = ground (arith, same);
            on_cluster = ground arith;
            issued_before = ground (arith, recent);
            in_range = ground (arith, recent);
            fresh = ground (arith, recent);
            live = ground arith;
          }
    ]
  ]

  -- The checks on the signed message let through exactly the accepted attestations, and hand on the
  -- key that signed and the decoded fields.
  pub verify_attestation_iff :
      (verify_attestation sysvar now allowed agent pool_key chain_id nonce ≡ ok (key, m))
      ↔ Accepted sysvar now allowed agent pool_key chain_id nonce key m
  verify_attestation_iff = (accepted, accepts)
