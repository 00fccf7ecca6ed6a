-- ===== src/Memory/Returns.antt =====
-- Total correctness of a command: no fault, enough fuel, and a postcondition.
use easyipc.Memory.{Memory, Run, ok, Cmd, and_then}

pub data Returns {A : Type 0} (P : A → Memory → Type 0) : Run A → Type 0 where
  returns : {a : A} {m : Memory} → P a m → Returns P (ok a m)

module _ {A : Type 0} {P : A → Memory → Type 0} where
  pub bind :
      {B : Type 0} {Q : B → Memory → Type 0} {r : Run A} {k : A → Cmd B}
      → Returns P r
      → ((a : A) (m : Memory) → P a m → Returns Q (k a m))
      → Returns Q (and_then r k)
  bind (returns p) rest = rest _ _ p
