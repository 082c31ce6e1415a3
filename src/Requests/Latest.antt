-- ===== src/Requests/Latest.antt =====
-- src/request/skewed_latest_int_distribution.cpp at `long`. The counter that it points to is shared
-- with the generation, and is an argument; no one else has the zipfian distribution.
use kvpaxos.Base.{ℤ, ◌-ℤ◌, Option, none, some}
use kvpaxos.Base.Results.{Result, ok, ◌>>=◌}
use kvpaxos.Requests.Counter.{Counter, last_value}
use kvpaxos.Requests.Doubles.{Double, Engine}
use kvpaxos.Requests.Zipfian

module _ (double : Double) where
  pub record Latest : Type 0 where
    pub zipfian : Zipfian.Zipfian double
    pub last : Option ℤ

  -- The constructor.
  unfoldable pub make : Zipfian.Zipfian double → Latest
  make zipfian = record { zipfian = zipfian; last = none }

  module _ (engine : Engine) where
    open engine use {G}

    -- `next`, and `operator()`.
    unfoldable pub next : Counter → Latest → G → Result (ℤ × Latest × G)
    unfolding last_value Zipfian.next
    next basis d g =
        let max = last_value basis in
        Zipfian.next double engine max d.zipfian g >>= λ r.
        ok (max -ℤ r.0, record d { zipfian = r.1; last = some (max -ℤ r.0) }, r.2)
