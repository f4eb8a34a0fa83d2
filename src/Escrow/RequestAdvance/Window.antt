-- ===== src/Escrow/RequestAdvance/Window.antt =====
-- What the issuance window of a ledger lets through within 24 hours: sequences of charges, as step (4) of
-- programs/credmesh-escrow/src/instructions/request_advance.rs makes them.
use credmesh_solana.Prelude.{ℕ, ◌+◌, ◌*◌, ◌≤◌, ◌<◌, ◌≡◌, refl, arith, ok, inl, inr}
use credmesh_solana.Prelude.Int.{ℤ, pos, ◌+ℤ◌, ◌-ℤ◌, ◌≤ℤ◌, ◌<ℤ◌, +ℤ_parts, -ℤ_parts}
use credmesh_solana.Machine.{u64_mod, IsI64}
use credmesh_solana.Escrow.State.{AgentIssuanceLedger, agent_window_seconds}
use credmesh_solana.Escrow.RequestAdvance.{roll_window, charge_window}
use credmesh_solana.Escrow.RequestAdvance.Ledger.{charge_window_lem, roll_window_lem}

-- Charges of an agent's ledger in turn, all within 24 hours from a moment on, with their total.
pub data Charges (cap : ℕ) (from : ℤ) (l : AgentIssuanceLedger)
    : AgentIssuanceLedger → ℕ → Type 0 where
  no_charge : Charges cap from l l 0
  then_charge :
      {m l' : AgentIssuanceLedger} {total : ℕ}
      → Charges cap from l m total
      → (now : ℤ) (amount : ℕ) → from ≤ℤ now
      → now <ℤ from +ℤ pos agent_window_seconds
      → IsI64 (now -ℤ m.window_start)
      → charge_window amount cap (roll_window now m) ≡ ok l'
      → Charges cap from l l' (total + amount)

-- A total is all in the window, or the window began within the 24 hours and holds the rest.
data Spread (cap : ℕ) (from : ℤ) (l : AgentIssuanceLedger) (total : ℕ) : Type 0 where
  one_window : total ≤ l.issued_in_window → total ≤ cap → Spread cap from l total
  two_windows :
      from ≤ℤ l.window_start
      → total ≤ cap + l.issued_in_window
      → l.issued_in_window ≤ cap
      → Spread cap from l total

-- A window that began within the 24 hours does not end within them.
no_third :
    (from start now : ℤ)
    → from ≤ℤ start
    → start +ℤ pos agent_window_seconds ≤ℤ now
    → now <ℤ from +ℤ pos agent_window_seconds
    → ⊥
no_third from start now h k l = ground (
  arith,
  h,
  k,
  l,
  +ℤ_parts from (pos agent_window_seconds),
  +ℤ_parts start (pos agent_window_seconds),
)

Spread-kept :
    (cap : ℕ) (from : ℤ) (total amount : ℕ) (m : AgentIssuanceLedger)
    → m.issued_in_window + amount ≤ cap
    → Spread cap from m total
    → Spread cap from (record m { issued_in_window = m.issued_in_window + amount }) (total + amount)
Spread-kept cap from total amount m fits (one_window a b) =
    one_window (omega (arith, a)) (omega (arith, a, fits))
Spread-kept cap from total amount m fits (two_windows a b c) = two_windows a (omega (arith, b)) fits

Spread-rolled :
    (cap : ℕ) (from now : ℤ) (total amount : ℕ) (m : AgentIssuanceLedger)
    → amount ≤ cap
    → from ≤ℤ now
    → m.window_start +ℤ pos agent_window_seconds ≤ℤ now
    → now <ℤ from +ℤ pos agent_window_seconds
    → Spread cap from m total
    → Spread cap from
        (record m { window_start = now; issued_in_window = 0 + amount })
        (total + amount)
Spread-rolled cap from now total amount m fits since old before (one_window a b) =
    two_windows since (omega (arith, b)) (omega (arith, fits))
Spread-rolled cap from now total amount m fits since old before (two_windows a b c) =
    absurd (no_third from m.window_start now a old before)

Charges-Spread :
    (cap : ℕ) (from : ℤ) (l : AgentIssuanceLedger)
    → 0 < cap
    → {l' : AgentIssuanceLedger} {total : ℕ} → Charges cap from l l' total
    → Spread cap from l' total
Charges-Spread cap from l positive no_charge = one_window (omega arith) (omega arith)
Charges-Spread cap from l positive
      (then_charge {m = m} {total = total} c now amount since before range h) =
    let spread = Charges-Spread cap from l positive c in
    elim (roll_window_lem now m range) [
      | inl (young, keeps) ↦
          let (after, capped) = charge_window_lem amount cap m (rw keeps at h) in
          let fits : m.issued_in_window + amount ≤ cap = omega (arith, capped, positive) in
          rw after (Spread-kept cap from total amount m fits spread)
      | inr (old, rolls) ↦
          let empty : AgentIssuanceLedger = record m { window_start = now; issued_in_window = 0 } in
          let (after, capped) = charge_window_lem amount cap empty (rw rolls at h) in
          let fits : amount ≤ cap = omega (arith, capped, positive) in
          rw after (Spread-rolled cap from now total amount m fits since old before spread)
    ]

-- Within any 24 hours an agent's ledger is charged at most twice the window cap, if the cap is on,
-- however the charges are spread over them and whatever its window holds before.
pub window_cap_twice_at_most :
    (cap : ℕ) (from : ℤ) (l : AgentIssuanceLedger) {l' : AgentIssuanceLedger} {total : ℕ}
    → 0 < cap
    → Charges cap from l l' total
    → total ≤ 2 * cap
window_cap_twice_at_most cap from l positive c = elim (Charges-Spread cap from l positive c) [
  | one_window a b ↦ omega (arith, b)
  | two_windows a b d ↦ omega (arith, b, d)
]

-- A difference that is between 0 and 24 hours is an `i64`.
day_fits :
    (start now : ℤ) → start ≤ℤ now → now ≤ℤ start +ℤ pos agent_window_seconds → IsI64 (now -ℤ start)
day_fits start now h k =
    ground (arith, h, k, +ℤ_parts start (pos agent_window_seconds), -ℤ_parts now start)

charge-young :
    (cap : ℕ) (now : ℤ) (l : AgentIssuanceLedger)
    → 0 < cap
    → cap < u64_mod
    → l.issued_in_window ≡ 0
    → l.window_start ≤ℤ now
    → now <ℤ l.window_start +ℤ pos agent_window_seconds
    → charge_window cap cap (roll_window now l) ≡ ok (record l { issued_in_window = cap })
unfolding charge_window roll_window
charge-young cap now l positive fits empty since young =
    ground (arith, +ℤ_parts l.window_start (pos agent_window_seconds), -ℤ_parts now l.window_start)

charge-old :
    (cap : ℕ) (now : ℤ) (l : AgentIssuanceLedger)
    → 0 < cap
    → cap < u64_mod
    → now ≡ l.window_start +ℤ pos agent_window_seconds
    → charge_window cap cap (roll_window now l)
      ≡ ok (record l { window_start = now; issued_in_window = cap })
unfolding charge_window roll_window
charge-old cap now l positive fits ends =
    ground (arith, +ℤ_parts l.window_start (pos agent_window_seconds), -ℤ_parts now l.window_start)

pub window_cap_twice_reached :
    (cap : ℕ) (from : ℤ) (l : AgentIssuanceLedger)
    → 0 < cap
    → cap < u64_mod
    → l.issued_in_window ≡ 0
    → l.window_start <ℤ from
    → from <ℤ l.window_start +ℤ pos agent_window_seconds
    → Charges cap from l
        (record l {
          window_start = l.window_start +ℤ pos agent_window_seconds;
          issued_in_window = cap;
        })
        (0 + cap + cap)
window_cap_twice_reached cap from l positive fits empty after before =
    let ends = l.window_start +ℤ pos agent_window_seconds in
    let parts = +ℤ_parts l.window_start (pos agent_window_seconds) in
    let later = +ℤ_parts from (pos agent_window_seconds) in
    let first : Charges cap from l (record l { issued_in_window = cap }) (0 + cap) =
      then_charge no_charge from cap (ground arith) (ground (arith, later))
        (day_fits l.window_start from (ground arith) (ground arith))
        (charge-young cap from l positive fits empty (ground arith) before) in
    then_charge first ends cap (ground arith) (ground (arith, parts, later, after))
      (day_fits l.window_start ends (ground (arith, parts)) (ground arith))
      (charge-old cap ends (record l { issued_in_window = cap }) positive fits refl)
