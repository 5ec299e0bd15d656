-- ===== src/Base/Faults.antt =====
-- The ends of a kernel function: a result, a call of `panic`, an access that C leaves undefined, or
-- a loop on a lock that only another CPU can end.

use Prim.Native.String.{String}

pub data Fault : Type 0 where
  panic : String → Fault
  out_of_range : Fault
  null_pointer : Fault
  spins : Fault

pub data Outcome {ℓ} (A : Type ℓ) : Type ℓ where
  ok : A → Outcome A
  halt : Fault → Outcome A

infixl 5 ◌>>=◌ ◌>>◌
abbrev pub ◌>>=◌ {ℓ κ} : {A : Type ℓ} {B : Type κ} → Outcome A → (A → Outcome B) → Outcome B
ok a >>= f = f a
halt e >>= f = halt e

abbrev pub ◌>>◌ {ℓ} : {B : Type ℓ} → Outcome (Unit {0}) → Outcome B → Outcome B
m >> k = m >>= λ _. k
