-- ===== src/Requests/Zipfian.antt =====
-- src/request/zipfian_int_distribution.cpp at `long`. `double` is a parameter.
pub mod Exact
use kvpaxos.Base.{
  ℕ, zero, suc, ◌-◌, ℤ, pos, ◌+ℤ◌, ◌-ℤ◌, pos_part, Bool, true, false, not, ◌&&◌, Option, none, some,
  ltb_ℤ, ite, ℤ-discrete, if◌then◌else◌,
}
use kvpaxos.Base.Results.{Result, ok, ◌>>=◌, or_undefined}
use kvpaxos.Requests.Doubles.{Double, Engine}

module _ (double : Double) where
  open double use {D, literal, of_long, to_long, plus, minus, times, over, pow, below}

  -- `lastvalue` is not initialised; `none` stands for that.
  pub record Zipfian : Type 0 where
    pub items : ℤ
    pub base : ℤ
    pub zipfianconstant : D
    pub alpha : D
    pub zetan : D
    pub eta : D
    pub theta : D
    pub zeta2theta : D
    pub countforzeta : ℤ
    pub allowitemcountdecrease : Bool
    pub lastvalue : Option ℤ

  -- The loop of `zetastatic`, from `i`, with the number of rounds left.
  unfoldable pub zeta_from : ℤ → ℕ → D → D → D
  zeta_from i zero theta sum = sum
  zeta_from i (suc rounds) theta sum =
      zeta_from (i +ℤ pos 1) rounds theta
        (plus sum (over (of_long (pos 1)) (pow (of_long (i +ℤ pos 1)) theta)))

  -- `zetastatic(st, n, theta, initialsum)`
  unfoldable pub zetastatic : ℤ → ℤ → D → D → D
  unfolding zeta_from
  zetastatic st n theta initialsum = zeta_from st (pos_part (n -ℤ st)) theta initialsum

  abbrev pub zipfian_constant : D
  zipfian_constant = literal 99 2

  -- The line of `init` and `next` that sets `eta`.
  unfoldable pub eta_of : ℤ → D → D → D → D
  eta_of items theta zeta2theta zetan =
      over
        (minus (literal 1 0)
          (pow (over (literal 20 1) (of_long items)) (minus (literal 1 0) theta)))
        (minus (literal 1 0) (over zeta2theta zetan))

  -- `init(min, max, zipfian_constant, zetan_)`. It calls `zeta(2, theta)`, which sets `countforzeta`
  -- to 2; the assignment below it overwrites that.
  unfoldable pub init : ℤ → ℤ → D → D → Zipfian
  unfolding zetastatic eta_of
  init min max constant zetan =
      let items = max -ℤ min +ℤ pos 1 in
      let zeta2theta = zetastatic (pos 0) (pos 2) constant (of_long (pos 0)) in
      record {
        items = items;
        base = min;
        zipfianconstant = constant;
        alpha = over (literal 10 1) (minus (literal 10 1) constant);
        zetan = zetan;
        eta = eta_of items constant zeta2theta zetan;
        theta = constant;
        zeta2theta = zeta2theta;
        countforzeta = items;
        allowitemcountdecrease = false;
        lastvalue = none;
      }

  -- `zipfian_int_distribution(min, max)`
  unfoldable pub make : ℤ → ℤ → Zipfian
  unfolding init
  make min max =
      init min max zipfian_constant
        (zetastatic (pos 0) (max -ℤ min +ℤ pos 1) zipfian_constant (of_long (pos 0)))

  -- The two overloads of `zeta`, and `eta` behind them.
  unfoldable pub grow : ℤ → Zipfian → Zipfian
  unfolding zetastatic eta_of
  grow itemcount z =
      let zetan = zetastatic z.countforzeta itemcount z.theta z.zetan in
      record z {
        countforzeta = itemcount;
        zetan = zetan;
        eta = eta_of z.items z.theta z.zeta2theta zetan;
      }

  unfoldable pub shrink : ℤ → Zipfian → Zipfian
  unfolding zetastatic eta_of
  shrink itemcount z =
      let zetan = zetastatic (pos 0) itemcount z.theta (of_long (pos 0)) in
      record z {
        countforzeta = itemcount;
        zetan = zetan;
        eta = eta_of z.items z.theta z.zeta2theta zetan;
      }

  -- The `if` at the start of `next`.
  unfoldable pub adjust : ℤ → Zipfian → Zipfian
  unfolding grow shrink
  adjust itemcount z =
      if ltb_ℤ z.countforzeta itemcount
      then grow itemcount z
      else if ltb_ℤ itemcount z.countforzeta && z.allowitemcountdecrease
      then shrink itemcount z
      else z

  -- What `next` gives for the number `u` between 0 and 1.
  unfoldable pub choose : ℤ → D → Zipfian → Result (ℤ × Zipfian)
  choose itemcount u z =
      let uz = times u z.zetan in
      if below uz (literal 10 1)
      then ok (z.base, z)
      else if below uz (plus (literal 10 1) (pow (literal 5 1) z.theta))
      then ok (z.base +ℤ pos 1, z)
      else (or_undefined (
            to_long (
              times (of_long itemcount)
                (pow (plus (minus (times z.eta u) z.eta) (literal 1 0)) z.alpha)))
          >>= λ v. ok (z.base +ℤ v, record z { lastvalue = some (z.base +ℤ v) }))

  module _ (engine : Engine) where
    open engine use {G, draw, min, max}

    -- `next(__urng, itemcount)`. The conversion of the drawn number, and of the constants, to double.
    unfoldable pub next : ℤ → Zipfian → G → Result (ℤ × Zipfian × G)
    unfolding adjust choose
    next itemcount z g =
        let (drawn, g') = draw g in
        let u =
          over (minus (of_long (pos drawn)) (of_long (pos min))) (of_long (pos (max - min))) in
        choose itemcount u (adjust itemcount z) >>= λ r. ok (r.0, r.1, g')

    -- `next(__urng)`, and `operator()`.
    unfoldable pub next_item : Zipfian → G → Result (ℤ × Zipfian × G)
    unfolding next
    next_item z g = next z.items z g
