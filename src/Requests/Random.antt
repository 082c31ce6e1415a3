-- ===== src/Requests/Random.antt =====
-- src/request/random.cpp and random.h: `std::function`s that draw. A function is the distribution
-- and the engine that `std::bind` copies into it; the standard library's are parameters.
use Prim.Native.String.{String}
use text.Mathlib.Text.{◌==◌}
use kvpaxos.Base.{ℤ, ◌+ℤ◌, ◌-ℤ◌, Option, none, some, if◌then◌else◌}
use kvpaxos.Base.Results.{Result, ok, throws, ◌>>=◌}
use kvpaxos.Requests.Counter.{Counter}
use kvpaxos.Requests.Doubles.{Double, Engine}
use kvpaxos.Requests.Zipfian
use kvpaxos.Requests.Scrambled
use kvpaxos.Requests.Latest

-- `enum Distribution`
pub data Distribution : Type 0 where
  fixed uniform binomial zipfian latest : Distribution

-- `string_to_distribution.at`; `none` is its exception.
unfoldable pub string_to_distribution : String → Option Distribution
string_to_distribution name =
    if name == "FIXED"
    then some fixed
    else if name == "UNIFORM"
    then some uniform
    else if name == "BINOMIAL"
    then some binomial
    else if name == "ZIPFIAN"
    then some zipfian
    else if name == "LATEST"
    then some latest
    else none

-- The distributions of the standard library, by their parameters and the engine.
pub record Standard (double : Double) (engine : Engine) : Type 0 where
  pub uniform_int : ℤ → ℤ → engine.G → ℤ × engine.G
  pub uniform_real : double.D → double.D → engine.G → double.D × engine.G
  pub binomial_int : ℤ → double.D → engine.G → ℤ × engine.G

module _ (double : Double) (engine : Engine) (standard : Standard double engine) where
  open double use {D, literal}
  open engine use {G, seed}

  -- `RandFunction`; `empty` is a `std::function` that nothing was assigned to.
  pub data RandFunction : Type 0 where
    empty : RandFunction
    uniform_of : ℤ → ℤ → G → RandFunction
    fixed_at : ℤ → RandFunction
    binomial_of : ℤ → D → G → RandFunction
    zipfian_of : Zipfian.Zipfian double → G → RandFunction
    scrambled_of : Scrambled.Scrambled double → G → RandFunction
    latest_of : Latest.Latest double → G → RandFunction
    ranged_of : ℤ → ℤ → D → G → RandFunction

  -- `DoubleRandFunction`
  pub record DoubleRandFunction : Type 0 where
    pub least : D
    pub greatest : D
    pub generator : G

  unfoldable pub uniform_distribution_rand : ℤ → ℤ → ℤ → RandFunction
  uniform_distribution_rand min_value max_value s = uniform_of min_value max_value (seed s)

  unfoldable pub uniform_double_distribution_rand : D → D → ℤ → DoubleRandFunction
  uniform_double_distribution_rand min_value max_value s = record {
    least = min_value;
    greatest = max_value;
    generator = seed s;
  }

  unfoldable pub fixed_distribution : ℤ → RandFunction
  fixed_distribution value = fixed_at value

  unfoldable pub binomial_distribution : ℤ → D → ℤ → RandFunction
  binomial_distribution n_experiments success_probability s =
      binomial_of n_experiments success_probability (seed s)

  unfoldable pub zipfian_distribution : ℤ → ℤ → ℤ → RandFunction
  unfolding Zipfian.make
  zipfian_distribution min max s = zipfian_of (Zipfian.make double min max) (seed s)

  unfoldable pub scrambled_zipfian_distribution : ℤ → ℤ → ℤ → RandFunction
  unfolding Scrambled.make
  scrambled_zipfian_distribution min max s =
      scrambled_of (Scrambled.make double min max (literal 99 2)) (seed s)

  unfoldable pub skewed_latest_distribution : Zipfian.Zipfian double → ℤ → RandFunction
  unfolding Latest.make
  skewed_latest_distribution zip s = latest_of (Latest.make double zip) (seed s)

  unfoldable pub ranged_binomial_distribution : ℤ → ℤ → D → ℤ → RandFunction
  ranged_binomial_distribution min_value n_experiments success_probability s =
      ranged_of min_value (n_experiments -ℤ min_value) success_probability (seed s)

  -- A call. The counter is the one that the latest distribution points to; a call of an empty
  -- function throws.
  unfoldable pub call : Counter → RandFunction → Result (ℤ × RandFunction)
  unfolding Zipfian.next_item Scrambled.next Latest.next
  call basis empty = throws
  call basis (uniform_of min max g) =
      let (k, g') = standard.uniform_int min max g in ok (k, uniform_of min max g')
  call basis (fixed_at value) = ok (value, fixed_at value)
  call basis (binomial_of n p g) =
      let (k, g') = standard.binomial_int n p g in ok (k, binomial_of n p g')
  call basis (zipfian_of z g) =
      Zipfian.next_item double engine z g >>= λ r. ok (r.0, zipfian_of r.1 r.2)
  call basis (scrambled_of d g) =
      Scrambled.next double engine d g >>= λ r. ok (r.0, scrambled_of r.1 r.2)
  call basis (latest_of d g) =
      Latest.next double engine basis d g >>= λ r. ok (r.0, latest_of r.1 r.2)
  call basis (ranged_of min n p g) =
      let (k, g') = standard.binomial_int n p g in ok (k +ℤ min, ranged_of min n p g')

  unfoldable pub call_double : DoubleRandFunction → D × DoubleRandFunction
  call_double f =
      let (x, g') = standard.uniform_real f.least f.greatest f.generator in
      (x, record f { generator = g' })
