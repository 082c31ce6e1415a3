-- ===== src/Requests/Generation/Keys/Starving.antt =====
-- A workload of reads on fewer than two records.
use kvpaxos.Base.{ℕ, ◌≤◌, ℤ, pos, negsuc, ◌-ℤ◌, ◌≤ℤ◌, ◌≡◌, refl, arith, false, ltb_ℤ}
use kvpaxos.Base.Results.{ok}
use kvpaxos.Base.Runs.{out_of_fuel}
use kvpaxos.Types.{RequestType, read, update}
use kvpaxos.Requests.Counter.{make, last_value}
use kvpaxos.Requests.Doubles.{Double, Engine}
use kvpaxos.Requests.Random.{Standard, RandFunction, uniform_of, call, uniform_distribution_rand}
use kvpaxos.Requests.Generation.{narrow, Generator, generate_typed}
use kvpaxos.Requests.Generation.Drawing.{Starves, draw_until-Starves}

-- Types for which a key is drawn.
pub data Draws : RequestType → Type 0 where
  reads : Draws read
  updates : Draws update

module _ (double : Double) (engine : Engine) (standard : Standard double engine) where
  -- `std::uniform_int_distribution` gives numbers between its bounds.
  pub record IsUniform : Type 0 where
    pub bounds :
        (min max : ℤ) (g : engine.G)
        → min ≤ℤ max
        → (min ≤ℤ (standard.uniform_int min max g).0) × ((standard.uniform_int min max g).0 ≤ℤ max)

  -- The functions that `uniform_distribution_rand(0, n, …)` makes, and their calls leave.
  data UniformKey (n : ℕ) : RandFunction double engine standard → Type 0 where
    uniform_below : (g : engine.G) → UniformKey n (uniform_of (pos 0) (pos n) g)

  turned_down :
      (n : ℕ) (k : ℤ) → n ≤ 1 → pos 0 ≤ℤ k → k ≤ℤ pos n → ltb_ℤ (narrow k) (pos n -ℤ pos 1) ≡ false
  unfolding ◌-ℤ◌
  turned_down n (pos k) h p q = ground arith
  turned_down n (negsuc k) h p q = absurd (omega arith)

  uniform-Starves :
      (n : ℕ)
      → n ≤ 1
      → IsUniform
      → Starves double engine standard
          (λ key. ltb_ℤ key (last_value (make (pos n))))
          (make (pos n))
          (UniformKey n)
  unfolding last_value make call
  uniform-Starves n h u = record { draws = draws }
    where
      draws :
          (f : RandFunction double engine standard)
          → UniformKey n f
          → (k : ℤ) × (f' : RandFunction double engine standard) × (call double engine standard
                (make (pos n))
                f
              ≡ ok (k, f'))
            × (ltb_ℤ (narrow k) (pos n -ℤ pos 1) ≡ false)
            × UniformKey n f'
      draws f (uniform_below g) =
          let r = standard.uniform_int (pos 0) (pos n) g in
          let b = u.bounds (pos 0) (pos n) g (omega arith) in
          (
            r.0,
            uniform_of (pos 0) (pos n) r.1,
            refl,
            turned_down n r.0 h b.0 b.1,
            uniform_below r.1,
          )

  -- Where a workload starts with no record or one, and its keys are drawn uniformly from 0 to that
  -- number: a request that reads or updates is never made, whatever the fuel, since the loop that draws
  -- its key turns down every key that the distribution gives.
  pub generate_typed-Starves :
      (n fuel : ℕ) (seed : ℤ) (type : RequestType) (s : Generator double engine standard)
      → IsUniform
      → n ≤ 1
      → Draws type
      → s.insertkeysequence ≡ make (pos n)
      → s.data_generator ≡ uniform_distribution_rand double engine standard (pos 0) (pos n) seed
      → generate_typed double engine standard fuel type s ≡ out_of_fuel
  unfolding generate_typed uniform_distribution_rand
  generate_typed-Starves n fuel seed type s u h reads c f = rw (
    c,
    f,
    draw_until-Starves double engine standard _ (make (pos n)) (UniformKey n)
        (uniform-Starves n h u) fuel _ (uniform_below (engine.seed seed)),
  )
  generate_typed-Starves n fuel seed type s u h updates c f = rw (
    c,
    f,
    draw_until-Starves double engine standard _ (make (pos n)) (UniformKey n)
        (uniform-Starves n h u) fuel _ (uniform_below (engine.seed seed)),
  )
