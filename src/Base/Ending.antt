-- ===== src/Base/Ending.antt =====
-- How a piece of Go code can end: a loop on fuel may be cut short, and code may panic.

pub data Run {ℓ} (A : Type ℓ) : Type ℓ where
  out_of_fuel : Run A
  panicked : Run A
  returned : A → Run A
