-- ===== src/Cipher/Loop.antt =====
-- The `while` loops of cipher_read and cipher_write as a step function run on fuel.
pub mod Rule
use advanced_unix_ceng.Base.{ℕ, zero, suc}
use advanced_unix_ceng.Cipher.Device.{Reply}

-- What one round does: it goes on, the function returns, or it does something undefined.
pub data Next (S : Type 0) : Type 0 where
  continue : S → Next S
  stop : S → Reply → Next S
  crash : Next S

-- `fault` is undefined behaviour, such as a use of freed memory.
pub data Outcome (A : Type 0) : Type 0 where
  done : A → Outcome A
  fault : Outcome A
  out_of_fuel : Outcome A

unfoldable pub loop : {S : Type 0} → (S → Next S) → ℕ → S → Outcome (S × Reply)
loop step zero s = out_of_fuel
loop step (suc fuel) s = elim (step s) [
  | continue s' ↦ loop step fuel s'
  | stop s' r ↦ done (s', r)
  | crash ↦ fault
]
