-- ===== src/Requests/Doubles.antt =====
-- What the generation uses of `double`. `literal m d` is the double for m / 10^d; `to_long` and
-- `to_int` are the conversions, and `none` where they are undefined.
use kvpaxos.Base.{ℕ, ℤ, Bool, Option}

pub record Double : Type 1 where
  pub D : Type 0
  pub literal : ℕ → ℕ → D
  pub of_long : ℤ → D
  pub to_long : D → Option ℤ
  pub to_int : D → Option ℤ
  pub plus : D → D → D
  pub minus : D → D → D
  pub times : D → D → D
  pub over : D → D → D
  pub pow : D → D → D
  pub below : D → D → Bool
  pub same : D → D → Bool

-- A random engine: `seed` is its constructor, `draw` its `operator()`, `min` and `max` its constants.
pub record Engine : Type 1 where
  pub G : Type 0
  pub seed : ℤ → G
  pub draw : G → ℕ × G
  pub min : ℕ
  pub max : ℕ
