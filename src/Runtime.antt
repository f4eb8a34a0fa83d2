-- ===== src/Runtime.antt =====
-- How an instruction of the two programs fails: by an error of its own enum (`error!`, `require!`),
-- by a panic (an overflow check or a slice index), by an account constraint of the framework with no
-- error of the program's own, or because a cross-program call was refused.
use credmesh_solana.Prelude.{Bool, true, false, Option, none, some, Result, ok, err, ok_or}

pub data Failure {ℓ} (E : Type ℓ) : Type ℓ where
  custom : E → Failure E
  panicked : Failure E
  constraint : Failure E
  cpi : Failure E

abbrev pub Outcome {ℓ κ} : Type ℓ → Type κ → Type (ℓ ⊔ κ)
Outcome E A = Result (Failure E) A

-- `….ok_or(error)?`
abbrev pub or_fail {ℓ κ} : {E : Type ℓ} {A : Type κ} → Option A → E → Outcome E A
or_fail o e = ok_or o (custom e)

-- A plain operator under `overflow-checks`.
abbrev pub or_panic {ℓ κ} : {E : Type ℓ} {A : Type κ} → Option A → Outcome E A
or_panic o = ok_or o panicked

abbrev pub or_cpi {ℓ κ} : {E : Type ℓ} {A : Type κ} → Option A → Outcome E A
or_cpi o = ok_or o cpi

-- An account that the constraints require, and that is missing or of another kind.
abbrev pub or_constraint {ℓ κ} : {E : Type ℓ} {A : Type κ} → Option A → Outcome E A
or_constraint o = ok_or o constraint

-- `map_err(|e| …)` on the errors of a called function; a panic passes through.
abbrev pub map_failure {ℓ κ μ} :
    {E : Type ℓ} {F : Type κ} {A : Type μ} → (E → F) → Outcome E A → Outcome F A
map_failure f (ok a) = ok a
map_failure f (err (custom e)) = err (custom (f e))
map_failure f (err panicked) = err panicked
map_failure f (err constraint) = err constraint
map_failure f (err cpi) = err cpi

-- `init`: the address must be free.
abbrev pub is_free {ℓ} : {A : Type ℓ} → Option A → Bool
is_free none = true
is_free (some a) = false
