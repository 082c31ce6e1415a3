-- ===== src/Blocking/OldImb.antt =====
-- src/scheduler/old_imb_scheduler.hpp: repartition where the load is out of balance. Its test of
-- the balance is that of src/scheduler/async_imb_scheduler.hpp.
use kvpaxos.Base.{ℕ, ◌+◌, Bool, false, List, leb, if◌then◌else◌, replicate}
use kvpaxos.Base.Results.{Result, ok, ◌>>=◌}
use kvpaxos.Types.{ClientMessage}
use kvpaxos.Tracking.{init}
use kvpaxos.Scheduler.{make, dispatch_counted}
use kvpaxos.Imbalance.{Float, imbalance}
use kvpaxos.Repartition.{Config, Partitioners, is_round_robin, is_microseconds}
use kvpaxos.Blocking.{Blocking, BlockingRound, come_to_barrier, repartition_at_barrier}

-- The constructor, for `n` partitions at the time `now`.
unfoldable pub init_old_imb : Config → ℕ → ℕ → Blocking
init_old_imb cfg n now = record {
  scheduler = make n;
  tracker = init cfg.tracking_length;
  balance = record {
    sucessive_cross_partition_intensive = 0;
    sucessive_imbalance = replicate n 0;
    in_queue_amount = replicate n 0;
    cross_operation_start = 0;
  };
  operation_start = 0;
  time_start = now;
  note = false;
  at_barrier = false;
}

unfoldable pub interval_over : Config → ℕ → Blocking → Bool
interval_over cfg now s =
    if is_microseconds cfg.interval_type
    then leb (s.time_start + cfg.repartition_interval) now
    else leb (s.operation_start + cfg.repartition_interval) s.scheduler.n_dispatched_requests

-- The interval starts again.
unfoldable pub restart_interval : Config → ℕ → Blocking → Blocking
restart_interval cfg now s = record s {
  time_start = if is_microseconds cfg.interval_type then now else s.time_start;
  operation_start = s.scheduler.n_dispatched_requests;
  balance = record (s.balance) { cross_operation_start = s.scheduler.cross_partition_count };
}

-- `amounts` are the sizes of the partitions' queues as they are read.
module _ (float : Float) (threshold : float.F) (max : ℕ) where
  unfoldable pub check_load : Config → ℕ → List ℕ → Blocking → Blocking
  unfolding restart_interval
  check_load cfg now amounts s =
      let (found, b) =
        imbalance float threshold max s.scheduler.n_dispatched_requests s.operation_start
          s.scheduler.cross_partition_count amounts s.balance in
      let t = record s { balance = b } in
      if found then come_to_barrier t else restart_interval cfg now t

  -- `schedule_and_answer`, up to the first barrier.
  unfoldable pub schedule_if_imbalanced :
      (List ℕ → List ℕ) → Config → ℕ → List ℕ → ClientMessage → Blocking → Result BlockingRound
  unfolding interval_over check_load
  schedule_if_imbalanced order cfg now amounts m s = dispatch_counted order m s.scheduler >>= λ d.
      let t = record s { scheduler = d.scheduler } in
      if is_round_robin cfg.repartition_method
      then ok (record { shared = t; actions = d.actions })
      else (if interval_over cfg now t
          then ok (record { shared = check_load cfg now amounts t; actions = d.actions })
          else ok (record { shared = t; actions = d.actions }))

-- From the barrier on.
unfoldable pub repartition_and_restart :
    (List ℕ → List ℕ) → Partitioners → Config → ℕ → Blocking → Result BlockingRound
unfolding restart_interval
repartition_and_restart order lib cfg now s = repartition_at_barrier order lib cfg now s >>= λ r.
    ok (record r { shared = restart_interval cfg now r.shared })
