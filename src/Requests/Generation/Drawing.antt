-- ===== src/Requests/Generation/Drawing.antt =====
-- When the loop that draws a key ends.
use kvpaxos.Base.{ℕ, zero, suc, ◌<◌, ℤ, Bool, true, false, ◌≡◌, refl, arith}
use kvpaxos.Base.Results.{ok}
use kvpaxos.Base.Runs.{out_of_fuel, returns}
use kvpaxos.Requests.Counter.{Counter}
use kvpaxos.Requests.Doubles.{Double, Engine}
use kvpaxos.Requests.Random.{Standard, RandFunction, call}
use kvpaxos.Requests.Generation.{narrow, draw_until}

module _ (double : Double) (engine : Engine) (standard : Standard double engine) where
  -- `Accepted accept c n f k f'`: `n` draws are turned down, and the one behind them gives `k`, which
  -- is accepted, and leaves `f'`.
  pub data Accepted (accept : ℤ → Bool) (c : Counter)
      : ℕ
        → RandFunction double engine standard
        → ℤ
        → RandFunction double engine standard
        → Type 0 where
    now :
        (k : ℤ) {f f' : RandFunction double engine standard}
        → call double engine standard c f ≡ ok (k, f')
        → accept (narrow k) ≡ true
        → Accepted accept c zero f (narrow k) f'
    later :
        (k : ℤ) {n : ℕ} {f f' f'' : RandFunction double engine standard} {k' : ℤ}
        → call double engine standard c f ≡ ok (k, f')
        → accept (narrow k) ≡ false
        → Accepted accept c n f' k' f''
        → Accepted accept c (suc n) f k' f''

  pub draw_until-Accepted :
      (accept : ℤ → Bool) (c : Counter) (fuel : ℕ) {n : ℕ}
      {f f' : RandFunction double engine standard} {k : ℤ}
      → Accepted accept c n f k f'
      → n < fuel
      → draw_until double engine standard fuel accept c f ≡ returns (k, f')
  unfolding draw_until
  draw_until-Accepted accept c zero (now k e yes_) h = elim h [ ]
  draw_until-Accepted accept c (suc fuel) (now k e yes_) h = rw (e, draw_until) (rw yes_)
  draw_until-Accepted accept c zero (later k e no_ a) h = elim h [ ]
  draw_until-Accepted accept c (suc fuel) (later k e no_ a) h =
      rw (e, draw_until) (rw no_ (draw_until-Accepted accept c fuel a (omega arith)))

  pub accepts :
      {accept : ℤ → Bool} {c : Counter} {n : ℕ} {f f' : RandFunction double engine standard} {k : ℤ}
      → Accepted accept c n f k f'
      → accept k ≡ true
  accepts (now k e h) = h
  accepts (later k e h a) = accepts a

  -- Functions of the kind `P` draw numbers that are turned down, and stay of that kind.
  pub record Starves (accept : ℤ → Bool) (c : Counter)
      (P : RandFunction double engine standard → Type 0) : Type 0 where
    pub draws :
        (f : RandFunction double engine standard)
        → P f
        → (k : ℤ) × (f' : RandFunction double engine standard) × (call double engine standard c f
            ≡ ok (k, f'))
          × (accept (narrow k) ≡ false)
          × P f'

  -- Where every draw is turned down, no fuel is enough.
  pub draw_until-Starves :
      (accept : ℤ → Bool) (c : Counter) (P : RandFunction double engine standard → Type 0)
      → Starves accept c P
      → (fuel : ℕ) (f : RandFunction double engine standard) → P f
      → draw_until double engine standard fuel accept c f ≡ out_of_fuel
  unfolding draw_until
  draw_until-Starves accept c P s zero f p = refl
  draw_until-Starves accept c P s (suc fuel) f p =
      let (k, f', e, no_, p') = s.draws f p in
      rw (e, draw_until) (rw no_ (draw_until-Starves accept c P s fuel f' p'))
