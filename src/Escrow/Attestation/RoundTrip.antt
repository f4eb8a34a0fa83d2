-- ===== src/Escrow/Attestation/RoundTrip.antt =====
-- The layout of the message in crates/credmesh-shared/src/lib.rs, as an encoder, and that the
-- handler's decoder inverts it.
use credmesh_solana.Prelude.{ℕ, ◌+◌, ◌^◌, ◌<◌, ◌≡◌, ◌∙◌, some, ◌++◌, ok, length, length-append}
use credmesh_solana.Machine.{u64_mod, IsI64}
use credmesh_solana.Shared.Bytes.{Bytes, to_le_bytes, length-to_le_bytes, as_u64, index_range}
use credmesh_solana.Escrow.Attestation.Fields.{
  skip, here, last, pubkey_at_lem, u64_le_lem, i64_le_lem,
}
use credmesh_solana.Escrow.Attestation.{Attestation, decode, pubkey_at, u64_le, i64_le}

-- Every field lies in the range of its type.
pub record IsTyped (m : Attestation) : Type 0 where
  pub agent_lt : m.agent < 256 ^ 32
  pub pool_lt : m.pool < 256 ^ 32
  pub credit_limit_lt : m.credit_limit < u64_mod
  pub outstanding_lt : m.outstanding < u64_mod
  pub expires_at_fits : IsI64 m.expires_at
  pub attested_at_fits : IsI64 m.attested_at
  pub nonce_len : length m.nonce ≡ 16
  pub chain_id_lt : m.chain_id < u64_mod
  pub version_lt : m.version < u64_mod

module _ (m : Attestation) where
  -- The message from each field on.
  abbrev from_version : Bytes
  from_version = to_le_bytes 8 m.version

  abbrev from_chain_id : Bytes
  from_chain_id = to_le_bytes 8 m.chain_id ++ from_version

  abbrev from_nonce : Bytes
  from_nonce = m.nonce ++ from_chain_id

  abbrev from_attested_at : Bytes
  from_attested_at = to_le_bytes 8 (as_u64 m.attested_at) ++ from_nonce

  abbrev from_expires_at : Bytes
  from_expires_at = to_le_bytes 8 (as_u64 m.expires_at) ++ from_attested_at

  abbrev from_outstanding : Bytes
  from_outstanding = to_le_bytes 8 m.outstanding ++ from_expires_at

  abbrev from_credit_limit : Bytes
  from_credit_limit = to_le_bytes 8 m.credit_limit ++ from_outstanding

  abbrev from_pool : Bytes
  from_pool = to_le_bytes 32 m.pool ++ from_credit_limit

-- The nine fields, in order.
unfoldable pub encode : Attestation → Bytes
encode m = to_le_bytes 32 m.agent ++ from_pool m

module _ (m : Attestation) (typed : IsTyped m) where
  behind_agent :
      (a b : ℕ) → index_range (encode m) (32 + a) (32 + b) ≡ index_range (from_pool m) a b
  unfolding encode
  behind_agent a b =
      skip (to_le_bytes 32 m.agent) (from_pool m) 32 a b (length-to_le_bytes 32 m.agent)

  behind_pool :
      (a b : ℕ)
      → index_range (from_pool m) (32 + a) (32 + b) ≡ index_range (from_credit_limit m) a b
  behind_pool a b =
      skip (to_le_bytes 32 m.pool) (from_credit_limit m) 32 a b (length-to_le_bytes 32 m.pool)

  -- Behind a field of eight bytes.
  behind :
      (x : ℕ) (rest : Bytes) (a b : ℕ)
      → index_range (to_le_bytes 8 x ++ rest) (8 + a) (8 + b) ≡ index_range rest a b
  behind x rest a b = skip (to_le_bytes 8 x) rest 8 a b (length-to_le_bytes 8 x)

  behind_nonce :
      (a b : ℕ) → index_range (from_nonce m) (16 + a) (16 + b) ≡ index_range (from_chain_id m) a b
  behind_nonce a b = skip m.nonce (from_chain_id m) 16 a b typed.nonce_len

  -- The bytes from the first offset behind the pool, 64 and on.
  body :
      (a b : ℕ)
      → index_range (encode m) (32 + (32 + a)) (32 + (32 + b))
        ≡ index_range (from_credit_limit m) a b
  body a b = behind_agent (32 + a) (32 + b) ∙ behind_pool a b

  -- From 80 and on, and from 96 and on.
  times :
      (a b : ℕ)
      → index_range (from_credit_limit m) (8 + (8 + a)) (8 + (8 + b))
        ≡ index_range (from_expires_at m) a b
  times a b =
      behind m.credit_limit (from_outstanding m) (8 + a) (8 + b)
      ∙ behind m.outstanding (from_expires_at m) a b

  tail :
      (a b : ℕ)
      → index_range (from_expires_at m) (8 + (8 + a)) (8 + (8 + b)) ≡ index_range (from_nonce m) a b
  tail a b =
      behind (as_u64 m.expires_at) (from_attested_at m) (8 + a) (8 + b)
      ∙ behind (as_u64 m.attested_at) (from_nonce m) a b

  at_8 : (x : ℕ) (rest : Bytes) → index_range (to_le_bytes 8 x ++ rest) 0 8 ≡ some (to_le_bytes 8 x)
  at_8 x rest = here (to_le_bytes 8 x) rest 8 (length-to_le_bytes 8 x)

  read_agent : pubkey_at (encode m) 0 ≡ ok m.agent
  read_agent = pubkey_at_lem (encode m) 0 m.agent typed.agent_lt (
      unfold encode in
      here (to_le_bytes 32 m.agent) (from_pool m) 32 (length-to_le_bytes 32 m.agent))

  read_pool : pubkey_at (encode m) 32 ≡ ok m.pool
  read_pool = pubkey_at_lem (encode m) 32 m.pool typed.pool_lt (
      behind_agent 0 32
      ∙ here (to_le_bytes 32 m.pool) (from_credit_limit m) 32 (length-to_le_bytes 32 m.pool))

  read_credit_limit : u64_le (encode m) 64 ≡ ok m.credit_limit
  read_credit_limit =
      u64_le_lem (encode m) 64 m.credit_limit typed.credit_limit_lt
        (body 0 8 ∙ at_8 m.credit_limit (from_outstanding m))

  read_outstanding : u64_le (encode m) 72 ≡ ok m.outstanding
  read_outstanding = u64_le_lem (encode m) 72 m.outstanding typed.outstanding_lt (
      body 8 16
      ∙ behind m.credit_limit (from_outstanding m) 0 8
      ∙ at_8 m.outstanding (from_expires_at m))

  read_expires_at : i64_le (encode m) 80 ≡ ok m.expires_at
  read_expires_at =
      i64_le_lem (encode m) 80 m.expires_at typed.expires_at_fits
        (body 16 24 ∙ times 0 8 ∙ at_8 (as_u64 m.expires_at) (from_attested_at m))

  read_attested_at : i64_le (encode m) 88 ≡ ok m.attested_at
  read_attested_at = i64_le_lem (encode m) 88 m.attested_at typed.attested_at_fits (
      body 24 32
      ∙ times 8 16
      ∙ behind (as_u64 m.expires_at) (from_attested_at m) 0 8
      ∙ at_8 (as_u64 m.attested_at) (from_nonce m))

  read_nonce : index_range (encode m) 96 112 ≡ some m.nonce
  read_nonce =
      body 32 48 ∙ times 16 32 ∙ tail 0 16 ∙ here m.nonce (from_chain_id m) 16 typed.nonce_len

  read_chain_id : u64_le (encode m) 112 ≡ ok m.chain_id
  read_chain_id =
      u64_le_lem (encode m) 112 m.chain_id typed.chain_id_lt (
        body 48 56 ∙ times 32 40 ∙ tail 16 24 ∙ behind_nonce 0 8 ∙ at_8 m.chain_id (from_version m))

  read_version : u64_le (encode m) 120 ≡ ok m.version
  read_version = u64_le_lem (encode m) 120 m.version typed.version_lt (
      body 56 64
      ∙ times 40 48
      ∙ tail 24 32
      ∙ behind_nonce 8 16
      ∙ behind m.chain_id (from_version m) 0 8
      ∙ last (from_version m) 8 (length-to_le_bytes 8 m.version))

  -- Decoding the message of the documented layout gives back all nine fields.
  pub decode-encode : decode (encode m) ≡ ok m
  unfolding decode
  decode-encode = rw (
    read_agent, read_pool, read_credit_limit, read_outstanding, read_expires_at, read_attested_at,
    read_nonce, read_chain_id, read_version,
  )

  -- The message is 128 bytes long, as the handler demands.
  pub length-encode : length (encode m) ≡ 128
  unfolding encode
  length-encode = simp (length-append, length-to_le_bytes, typed.nonce_len)
