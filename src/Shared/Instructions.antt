-- ===== src/Shared/Instructions.antt =====
-- The instructions sysvar of the transaction, which the runtime provides: the index of the running
-- instruction (`load_current_index_checked`) and the instruction at an index
-- (`load_instruction_at_checked`), none where the load fails.
use credmesh_solana.Prelude.{ℕ, Bool, Option, List}
use credmesh_solana.Shared.Bytes.{Pubkey, Bytes}

pub record AccountMeta : Type 0 where
  pub pubkey : Pubkey
  pub is_writable : Bool

pub record Instruction : Type 0 where
  pub program_id : Pubkey
  pub accounts : List AccountMeta
  pub payload : Bytes

pub record Sysvar : Type 0 where
  pub current_index : Option ℕ
  pub instruction_at : ℕ → Option Instruction
