-- ===== src/Shared/Introspection.antt =====
-- crates/credmesh-shared/src/ix_introspection.rs: reading other instructions of the transaction. The
-- loops over at most 64 instructions recur on the rounds left.
pub mod Scan
pub mod Ed25519
pub mod Enough
use credmesh_solana.Prelude.{
  ℕ, zero, suc, ◌+◌, ◌-◌, Bool, true, false, not, ◌&&◌, ◌||◌, Option, none, some, List, [], ◌∷◌,
  ltb, ◌==◌, if◌then◌else◌, length, take, drop, Result, ok, err, require, ok_or, ◌>>=◌, ◌>>◌,
}
use credmesh_solana.Runtime.{Outcome, custom, or_fail, or_panic}
use credmesh_solana.Shared.Bytes.{Pubkey, Bytes, from_le_bytes, index_range, bytes_eq}
use credmesh_solana.Shared.Layout.{squads_v4, memo, ed25519}
use credmesh_solana.Shared.Instructions.{AccountMeta, Instruction, Sysvar}

pub data IxIntrospectionError : Type 0 where
  sysvar_load_failed : IxIntrospectionError
  prev_ix_not_found : IxIntrospectionError
  ed25519_not_found : IxIntrospectionError
  ed25519_malformed_data : IxIntrospectionError
  ed25519_offset_mismatch : IxIntrospectionError
  ed25519_pubkey_mismatch : IxIntrospectionError
  ed25519_message_mismatch : IxIntrospectionError
  memo_not_found : IxIntrospectionError
  memo_mismatch : IxIntrospectionError

abbrev pub ed25519_offsets_header : ℕ
ed25519_offsets_header = 2

abbrev pub ed25519_offsets_len : ℕ
ed25519_offsets_len = 14

pub record Ed25519Offsets : Type 0 where
  pub signature_offset : ℕ
  pub signature_instruction_index : ℕ
  pub public_key_offset : ℕ
  pub public_key_instruction_index : ℕ
  pub message_data_offset : ℕ
  pub message_data_size : ℕ
  pub message_instruction_index : ℕ

-- `u16::from_le_bytes([body[i], body[i + 1]])`
abbrev pub u16_at : Bytes → ℕ → ℕ
u16_at body i = from_le_bytes (take 2 (drop i body))

unfoldable pub parse_offsets : Bytes → Option Ed25519Offsets
parse_offsets bytes =
    let body = take ed25519_offsets_len (drop ed25519_offsets_header bytes) in
    if ltb (length bytes) (ed25519_offsets_header + ed25519_offsets_len)
    then none
    else some (record {
      signature_offset = u16_at body 0;
      signature_instruction_index = u16_at body 2;
      public_key_offset = u16_at body 4;
      public_key_instruction_index = u16_at body 6;
      message_data_offset = u16_at body 8;
      message_data_size = u16_at body 10;
      message_instruction_index = u16_at body 12;
    })

-- `!data.is_empty() && data[0] == 1`
abbrev pub is_single : Bytes → Bool
is_single [] = false
is_single (count ∷ _) = count == 1

unfoldable pub verify_prev_ed25519 : Sysvar → Outcome IxIntrospectionError (Pubkey × Bytes)
verify_prev_ed25519 sysvar = do
  cur_idx ← or_fail sysvar.current_index sysvar_load_failed
  require (not (cur_idx == 0)) (custom prev_ix_not_found)
  let prev_idx = cur_idx - 1
  prev_ix ← or_fail (sysvar.instruction_at prev_idx) prev_ix_not_found
  require (prev_ix.program_id == ed25519) (custom ed25519_not_found)
  require (is_single prev_ix.payload) (custom ed25519_malformed_data)
  offsets ← or_fail (parse_offsets prev_ix.payload) ed25519_malformed_data
  require
      (offsets.signature_instruction_index == prev_idx
        && offsets.public_key_instruction_index == prev_idx
        && offsets.message_instruction_index == prev_idx)
      (custom ed25519_offset_mismatch)
  let pk_off = offsets.public_key_offset
  let msg_off = offsets.message_data_offset
  let msg_len = offsets.message_data_size
  require (not (ltb (length prev_ix.payload) (pk_off + 32))) (custom ed25519_malformed_data)
  require (not (ltb (length prev_ix.payload) (msg_off + msg_len))) (custom ed25519_malformed_data)
  pk_bytes ← or_panic (index_range prev_ix.payload pk_off (pk_off + 32))
  signed_message ← or_panic (index_range prev_ix.payload msg_off (msg_off + msg_len))
  ok (from_le_bytes pk_bytes, signed_message)

abbrev pub max_ix_scan : ℕ
max_ix_scan = 64

-- `for idx in 0..MAX_IX_SCAN`: true at the first instruction that passes the test, false when a load
-- fails or the rounds are over.
unfoldable pub scan : (Instruction → Bool) → Sysvar → (rounds idx : ℕ) → Bool
scan test sysvar zero idx = false
scan test sysvar (suc rounds) idx = elim (sysvar.instruction_at idx) [
  | none ↦ false
  | some ix ↦ elim (test ix) [ true ↦ true | false ↦ scan test sysvar rounds (idx + 1) ]
]

-- `ix.program_id == MEMO && ix.data == expected_nonce`
abbrev pub is_memo : Bytes → Instruction → Bool
is_memo nonce ix = ix.program_id == memo && bytes_eq ix.payload nonce

unfoldable pub require_memo_nonce : Sysvar → Bytes → Outcome IxIntrospectionError (Unit {0})
require_memo_nonce sysvar nonce =
    require (scan (is_memo nonce) sysvar max_ix_scan 0) (custom memo_not_found)

-- `ix.accounts.iter().any(|a| a.pubkey == *expected_vault && a.is_writable)`
unfoldable pub writes_vault : Pubkey → List AccountMeta → Bool
writes_vault vault [] = false
writes_vault vault (a ∷ rest) = a.pubkey == vault && a.is_writable || writes_vault vault rest

abbrev pub is_governance : Pubkey → Instruction → Bool
is_governance vault ix = ix.program_id == squads_v4 && writes_vault vault ix.accounts

unfoldable pub require_squads_governance_cpi :
    Sysvar → Pubkey → Outcome IxIntrospectionError (Unit {0})
require_squads_governance_cpi sysvar vault =
    require (scan (is_governance vault) sysvar max_ix_scan 0) (custom prev_ix_not_found)
