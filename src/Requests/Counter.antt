-- ===== src/Requests/Counter.antt =====
-- src/request/acknowledged_counter.cpp: the sequence of the keys that are inserted.
use kvpaxos.Base.{ℤ, pos, ◌+ℤ◌, ◌-ℤ◌, ltb_ℤ, if◌then◌else◌}

pub record Counter : Type 0 where
  pub counter : ℤ
  pub limit : ℤ

-- `acknowledged_counter(_IntType count_start)`
unfoldable pub make : ℤ → Counter
make count_start = record { counter = count_start; limit = count_start -ℤ pos 1 }

-- `return counter_++`
unfoldable pub next : Counter → ℤ × Counter
next c = (c.counter, record c { counter = c.counter +ℤ pos 1 })

unfoldable pub acknowledge : ℤ → Counter → Counter
acknowledge value c = if ltb_ℤ c.limit value then record c { limit = value } else c

unfoldable pub last_value : Counter → ℤ
last_value c = c.limit
