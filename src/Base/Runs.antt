-- ===== src/Base/Runs.antt =====
-- The outcomes of code with a loop that may not end: it runs on fuel.
use kvpaxos.Base.Results.{Result, undefined, throws, ok}

pub data Run {ℓ} (A : Type ℓ) : Type ℓ where
  out_of_fuel : Run A
  finished : Result A → Run A

infixl 5 ◌>>=◌
-- The code behind runs where there is a value.
abbrev pub ◌>>=◌ {ℓ κ} : {A : Type ℓ} {B : Type κ} → Run A → (A → Run B) → Run B
out_of_fuel >>= next = out_of_fuel
finished undefined >>= next = finished undefined
finished throws >>= next = finished throws
finished (ok value) >>= next = next value

abbrev pub returns {ℓ} : {A : Type ℓ} → A → Run A
returns value = finished (ok value)
