-- ===== src/Escrow/Errors.antt =====
-- programs/credmesh-escrow/src/errors.rs
pub data CredmeshError : Type 0 where
  insufficient_idle_liquidity : CredmeshError
  receivable_expired : CredmeshError
  receivable_stale : CredmeshError
  advance_exceeds_cap : CredmeshError
  advance_exceeds_credit : CredmeshError
  ed25519_missing : CredmeshError
  ed25519_signer_unknown : CredmeshError
  ed25519_offset_mismatch : CredmeshError
  ed25519_message_mismatch : CredmeshError
  memo_nonce_mismatch : CredmeshError
  memo_missing : CredmeshError
  invalid_payer : CredmeshError
  not_settleable : CredmeshError
  not_liquidatable : CredmeshError
  math_overflow : CredmeshError
  governance_required : CredmeshError
  pending_params_not_ready : CredmeshError
  no_pending_params : CredmeshError
  replay_detected : CredmeshError
  invalid_advance_state : CredmeshError
  waterfall_sum_mismatch : CredmeshError
  late_days_exceeded : CredmeshError
  invalid_fee_curve : CredmeshError
  invalid_chain_id : CredmeshError
  agent_window_cap_exceeded : CredmeshError
