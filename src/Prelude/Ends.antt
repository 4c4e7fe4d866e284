-- ===== src/Prelude/Ends.antt =====
-- How a piece of the program ends: it returns, it calls `exit`, it waits for ever, or it reads or
-- writes outside of an object, after which C does not say what it does.
use Prim.Native.Nat.{ℕ}

pub data Outcome {ℓ} (A : Type ℓ) : Type ℓ where
  done : A → Outcome A
  exits : ℕ → Outcome A
  hangs : Outcome A
  overruns : Outcome A
