-- ===== src/Imbalance.antt =====
-- src/scheduler/async_imb_scheduler.hpp and src/scheduler/old_imb_scheduler.hpp: when the load is
-- out of balance. `float` is a parameter.
pub mod Counters
use kvpaxos.Base.{
  ℕ, zero, suc, ◌+◌, ◌-◌, ◌%◌, ◌^◌, Bool, true, false, List, [], ◌∷◌, ltb, if◌then◌else◌, replicate,
  length,
}

-- The operations of `float` that the code calls.
pub record Float : Type 1 where
  pub F : Type 0
  pub of_size : ℕ → F
  pub minus : F → F → F
  pub times : F → F → F
  pub over : F → F → F
  pub abs : F → F
  pub above : F → F → Bool

-- The counters. `sucessive_imbalance` has one for each partition.
pub record Balance : Type 0 where
  pub sucessive_cross_partition_intensive : ℕ
  pub sucessive_imbalance : List ℕ
  pub in_queue_amount : List ℕ
  pub cross_operation_start : ℕ

pub clear_imbalance_count : Balance → Balance
clear_imbalance_count b = record b {
  sucessive_imbalance = replicate (length b.sucessive_imbalance) 0;
}

abbrev pub sum_of : List ℕ → ℕ
sum_of [] = 0
sum_of (n ∷ ns) = n + sum_of ns

-- `MaxSucessiveImbalances` is `max`.
module _ (float : Float) (balance_threshold : float.F) (max : ℕ) where
  -- The share of the requests since the start of the interval that were cross-partition.
  pub cross_partition_ratio : ℕ → ℕ → ℕ → ℕ → float.F
  cross_partition_ratio dispatched operation_start cross cross_start =
      float.over (float.of_size ((cross + 2 ^ 64 - cross_start) % 2 ^ 64))
        (float.of_size (dispatched - operation_start))

  pub is_cross_partition_intensive : ℕ → ℕ → ℕ → Balance → Bool × Balance
  unfolding cross_partition_ratio
  is_cross_partition_intensive dispatched operation_start cross b =
      if ltb operation_start dispatched
      then (if float.above
            (cross_partition_ratio dispatched operation_start cross b.cross_operation_start)
            balance_threshold
          then (
            ltb max (b.sucessive_cross_partition_intensive + 1),
            record b {
              sucessive_cross_partition_intensive = b.sucessive_cross_partition_intensive + 1;
            },
          )
          else (false, record b { sucessive_cross_partition_intensive = 0 }))
      else (false, b)

  -- The amount in a queue is further from the average than the threshold.
  pub deviates : float.F → ℕ → Bool
  deviates avg amount =
      float.above (float.abs (float.minus (float.of_size amount) avg))
        (float.times avg balance_threshold)

  -- The loop over the partitions; its first result is whether it ended with the `break`.
  pub count_imbalance : float.F → List ℕ → List ℕ → Bool × List ℕ
  unfolding deviates
  count_imbalance avg [] counts = (false, counts)
  count_imbalance avg (a ∷ amounts) [] = (false, [])
  count_imbalance avg (a ∷ amounts) (c ∷ counts) =
      let (found, rest) = count_imbalance avg amounts counts in
      let next = (c + 1) % 2 ^ 32 in
      if deviates avg a
      then (if ltb max next then (true, next ∷ counts) else (found, next ∷ rest))
      else (found, 0 ∷ rest)

  -- `amounts` are the queues' sizes, in the order in which the partitions are iterated over.
  pub imbalance : ℕ → ℕ → ℕ → List ℕ → Balance → Bool × Balance
  unfolding is_cross_partition_intensive clear_imbalance_count count_imbalance
  imbalance dispatched operation_start cross amounts b =
      let (intensive, c) = is_cross_partition_intensive dispatched operation_start cross b in
      if intensive
      then (true, clear_imbalance_count (record c { sucessive_cross_partition_intensive = 0 }))
      else (let avg =
            float.over (float.of_size (sum_of amounts)) (float.of_size (length amounts)) in
          let (found, counts) = count_imbalance avg amounts c.sucessive_imbalance in
          let d = record c { in_queue_amount = amounts; sucessive_imbalance = counts } in
          if found
          then (true, clear_imbalance_count (record d { sucessive_cross_partition_intensive = 0 }))
          else (false, d))
