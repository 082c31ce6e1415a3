-- ===== src/Requests/Operations.antt =====
-- src/request/request_generation.cpp, `next_operation`: the type of the next request is drawn by the
-- proportions.
use kvpaxos.Base.{pos, List, [], ◌∷◌, if◌then◌else◌}
use kvpaxos.Base.Results.{Result, ok, throws, ◌>>=◌}
use kvpaxos.Types.{RequestType}
use kvpaxos.Requests.Doubles.{Double, Engine}
use kvpaxos.Requests.Random.{Standard, DoubleRandFunction, call_double}

module _ (double : Double) where
  open double use {D, of_long, plus, minus, over, below}

  abbrev pub Proportions : Type 0
  Proportions = List (RequestType × D)

  -- The loop that adds the proportions up.
  unfoldable pub sum_from : D → Proportions → D
  sum_from sum [] = sum
  sum_from sum ((type, proportion) ∷ values) = sum_from (plus sum proportion) values

  -- The loop that looks for the type; behind it the code throws.
  unfoldable pub pick : D → D → Proportions → Result RequestType
  pick sum val [] = throws
  pick sum val ((type, proportion) ∷ values) =
      if below val (over proportion sum)
      then ok type
      else pick sum (minus val (over proportion sum)) values

  module _ (engine : Engine) (standard : Standard double engine) where
    unfoldable pub next_operation :
        Proportions
        → DoubleRandFunction double engine standard
        → Result (RequestType × DoubleRandFunction double engine standard)
    unfolding sum_from pick call_double
    next_operation values generator =
        let (val, generator') = call_double double engine standard generator in
        pick (sum_from (of_long (pos 0)) values) val values >>= λ type. ok (type, generator')
