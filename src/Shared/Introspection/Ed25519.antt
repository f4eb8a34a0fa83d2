-- ===== src/Shared/Introspection/Ed25519.antt =====
-- What `verify_prev_ed25519` accepts: exactly one signature whose offsets all point at the verifying
-- instruction itself, with key and message read from its own bytes.
use mathlib.Core.Option.{some-injective}
use credmesh_solana.Prelude.{
  ℕ, zero, suc, ◌+◌, ◌*◌, ◌-◌, ◌≤◌, ◌≡◌, ◌≢◌, ◌↔◌, ◌∙◌, sym, ap, refl, true, some, [], ◌∷◌, arith,
  ok, err, length, take, drop, inl, inr, Option-cases, ==_iff,
}
use credmesh_solana.Runtime.{panicked}
use credmesh_solana.Shared.Bytes.{Pubkey, Bytes, from_le_bytes}
use credmesh_solana.Shared.Layout.{ed25519}
use credmesh_solana.Shared.Instructions.{Instruction, Sysvar}
use credmesh_solana.Shared.Introspection.{
  Ed25519Offsets, u16_at, ed25519_offsets_header, ed25519_offsets_len, parse_offsets,
  verify_prev_ed25519, is_single,
}

-- The two bytes at a position, the low one first; 0 beyond the end.
abbrev pub word_at : ℕ → Bytes → ℕ
word_at zero [] = 0
word_at zero (low ∷ []) = 0
word_at zero (low ∷ high ∷ rest) = low + 256 * high
word_at (suc i) [] = 0
word_at (suc i) (_ ∷ rest) = word_at i rest

-- The bytes of the Ed25519 program's instruction, as its documentation lays them out: the count of
-- signatures, a padding byte, and for the one signature the words of its own offset and instruction
-- index (2, 4), the key's offset and instruction index (6, 8), and the message's offset, size and
-- instruction index (10, 12, 14).
pub record Verified (sysvar : Sysvar) (key : Pubkey) (message : Bytes) : Type 0 where
  pub prev : ℕ
  pub ix : Instruction
  pub rest : Bytes
  pub runs_after : sysvar.current_index ≡ some (suc prev)
  pub stands_before : sysvar.instruction_at prev ≡ some ix
  pub program : ix.program_id ≡ ed25519
  pub one_signature : ix.payload ≡ 1 ∷ rest
  pub header_inside : 16 ≤ length ix.payload
  pub signature_here : word_at 4 ix.payload ≡ prev
  pub key_here : word_at 8 ix.payload ≡ prev
  pub message_here : word_at 14 ix.payload ≡ prev
  pub key_inside : word_at 6 ix.payload + 32 ≤ length ix.payload
  pub message_inside : word_at 10 ix.payload + word_at 12 ix.payload ≤ length ix.payload
  pub key_read : key ≡ from_le_bytes (take 32 (drop (word_at 6 ix.payload) ix.payload))
  pub message_read :
      message ≡ take (word_at 12 ix.payload) (drop (word_at 10 ix.payload) ix.payload)

-- Two bytes of a prefix are two bytes of the whole.
take-drop-take :
    (k i n : ℕ) (l : Bytes) → i + k ≤ n → take k (drop i (take n l)) ≡ take k (drop i l)
take-drop-take zero i n l h = refl
take-drop-take (suc k) i zero l h = absurd (omega (arith, h))
take-drop-take (suc k) zero (suc n) [] h = refl
take-drop-take (suc k) zero (suc n) (x ∷ l) h =
    ap (λ r. x ∷ r) (take-drop-take k zero n l (omega (arith, h)))
take-drop-take (suc k) (suc i) (suc n) [] h = refl
take-drop-take (suc k) (suc i) (suc n) (x ∷ l) h = take-drop-take (suc k) i n l (omega (arith, h))

from_le_bytes-word_at :
    (i : ℕ) (l : Bytes) → i + 2 ≤ length l → from_le_bytes (take 2 (drop i l)) ≡ word_at i l
unfolding from_le_bytes
from_le_bytes-word_at zero [] h = omega (arith, h)
from_le_bytes-word_at zero (a ∷ []) h = omega (arith, h)
from_le_bytes-word_at zero (a ∷ b ∷ l) h = omega arith
from_le_bytes-word_at (suc i) [] h = omega (arith, h)
from_le_bytes-word_at (suc i) (x ∷ l) h = from_le_bytes-word_at i l (omega (arith, h))

-- A field of the body, which starts behind the two bytes of the header.
u16_at-word_at :
    (i : ℕ) (bytes : Bytes)
    → i + 2 ≤ 14
    → 16 ≤ length bytes
    → u16_at (take ed25519_offsets_len (drop ed25519_offsets_header bytes)) i
      ≡ word_at (suc (suc i)) bytes
u16_at-word_at i [] h long = absurd (omega (arith, long))
u16_at-word_at i (a ∷ []) h long = absurd (omega (arith, long))
u16_at-word_at i (a ∷ b ∷ l) h long =
    ap from_le_bytes (take-drop-take 2 i 14 l h)
    ∙ from_le_bytes-word_at i l (omega (arith, h, long))

-- The offsets that the words spell.
abbrev laid_out : Bytes → Ed25519Offsets
laid_out bytes = record {
  signature_offset = word_at 2 bytes;
  signature_instruction_index = word_at 4 bytes;
  public_key_offset = word_at 6 bytes;
  public_key_instruction_index = word_at 8 bytes;
  message_data_offset = word_at 10 bytes;
  message_data_size = word_at 12 bytes;
  message_instruction_index = word_at 14 bytes;
}

parse_offsets-laid_out :
    (bytes : Bytes) → 16 ≤ length bytes → parse_offsets bytes ≡ some (laid_out bytes)
unfolding parse_offsets
parse_offsets-laid_out bytes long =
    let field = λ (i : ℕ) (h : i + 2 ≤ 14). u16_at-word_at i bytes h long in
    rw
      (
        field 0 (omega arith),
        field 2 (omega arith),
        field 4 (omega arith),
        field 6 (omega arith),
        field 8 (omega arith),
        field 10 (omega arith),
        field 12 (omega arith),
      )
      (ground (arith, long))

parse_offsets-length :
    (bytes : Bytes) {offsets : Ed25519Offsets}
    → parse_offsets bytes ≡ some offsets
    → 16 ≤ length bytes
unfolding parse_offsets
parse_offsets-length bytes h = ground (arith, h)

is_single_lem : (bytes : Bytes) → is_single bytes ≡ true → (rest : Bytes) × (bytes ≡ 1 ∷ rest)
is_single_lem [] h = ground (arith, h)
is_single_lem (count ∷ rest) h = (rest, ap (λ c. c ∷ rest) ((==_iff count 1).0 h))

-- No slice of `verify_prev_ed25519` leaves its array.
pub verify_prev_ed25519-ne-panicked : (sysvar : Sysvar) → verify_prev_ed25519 sysvar ≢ err panicked
unfolding verify_prev_ed25519
verify_prev_ed25519-ne-panicked sysvar = ground arith

Verified-verify :
    (sysvar : Sysvar) (key : Pubkey) (message : Bytes)
    → Verified sysvar key message
    → verify_prev_ed25519 sysvar ≡ ok (key, message)
unfolding verify_prev_ed25519
Verified-verify sysvar key message v =
    let parsed = parse_offsets-laid_out v.ix.payload v.header_inside in
    let single : is_single v.ix.payload ≡ true = rw (v.one_signature) refl in
    ground (arith, parsed, single)

verify-Verified :
    (sysvar : Sysvar) (key : Pubkey) (message : Bytes)
    → verify_prev_ed25519 sysvar ≡ ok (key, message)
    → Verified sysvar key message
unfolding verify_prev_ed25519
verify-Verified sysvar key message h = elim (Option-cases sysvar.current_index) [
  | inl e ↦ ground arith
  | inr (cur, e) ↦ elim (Option-cases (sysvar.instruction_at (cur - 1))) [
    | inl f ↦ ground arith
    | inr (ix, f) ↦ elim (Option-cases (parse_offsets ix.payload)) [
      | inl g ↦ ground arith
      | inr (offsets, g) ↦
          let long = parse_offsets-length ix.payload g in
          let same : offsets ≡ laid_out ix.payload =
            some-injective _ _ (sym g ∙ parse_offsets-laid_out ix.payload long) in
          let (rest, one) = is_single_lem ix.payload (ground arith) in
          record {
            prev = cur - 1;
            ix = ix;
            rest = rest;
            runs_after = ground arith;
            stands_before = f;
            program = ground arith;
            one_signature = one;
            header_inside = long;
            signature_here = ground (arith, same);
            key_here = ground (arith, same);
            message_here = ground (arith, same);
            key_inside = ground (arith, same);
            message_inside = ground (arith, same);
            key_read = ground (arith, same);
            message_read = ground (arith, same);
          }
    ]
  ]
]

-- The check passes exactly when the instruction just before is the Ed25519 program's, with one
-- signature, and its bytes, read as the program documents them, have the three instruction indices
-- (at 4, 8 and 14) name that instruction itself and the key and the message inside it; it then returns
-- the key and the message that stand there.
pub verify_prev_ed25519_iff :
    (sysvar : Sysvar) (key : Pubkey) (message : Bytes)
    → (verify_prev_ed25519 sysvar ≡ ok (key, message)) ↔ Verified sysvar key message
verify_prev_ed25519_iff sysvar key message =
    (verify-Verified sysvar key message, Verified-verify sysvar key message)
