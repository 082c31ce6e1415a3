-- ===== src/Repartition/AsyncImb.antt =====
-- src/scheduler/async_imb_scheduler.hpp: the rounds of its loops.
use kvpaxos.Base.{
  ℕ, ◌+◌, ◌-◌, ◌%◌, ◌^◌, Bool, true, false, List, [], some, leb, ltb, if◌then◌else◌, replicate,
}
use kvpaxos.Base.Results.{Result, ok, ◌>>=◌}
use kvpaxos.Types.{ClientMessage}
use kvpaxos.Graph.{n_vertex}
use kvpaxos.Graph.Cut.{no_graph}
use kvpaxos.Scheduler.{make}
use kvpaxos.Tracking.{init}
use kvpaxos.Imbalance.{Float, imbalance, clear_imbalance_count}
use kvpaxos.Repartition.{
  Config, Shared, Scheduling, is_round_robin, is_microseconds, order_partitioning, track,
}
use kvpaxos.Repartition.Rounds.{time_achieved, restart_time, dispatch_shared, take_over}

-- The constructor, for `n` partitions at the time `now`.
abbrev pub init_shared : Config → ℕ → ℕ → Shared
init_shared cfg n now = record {
  scheduler = make n;
  tracker = init cfg.tracking_length;
  balance = record {
    sucessive_cross_partition_intensive = 0;
    sucessive_imbalance = replicate n 0;
    in_queue_amount = replicate n 0;
    cross_operation_start = 0;
  };
  repartitioning = false;
  update = false;
  repartition = false;
  repart_semaphore = 0;
  updating = false;
  input_graph = no_graph;
  updated_data_to_partition = some [];
  operation_start = 0;
  time_start = now;
}

unfoldable pub reset : Config → ℕ → Shared → Shared
reset cfg now s = record (restart_time cfg now s) {
  update = false;
  operation_start = s.scheduler.n_dispatched_requests;
  balance = record (s.balance) { cross_operation_start = s.scheduler.cross_partition_count };
  repartitioning = false;
}

unfoldable pub schedule_and_answer :
    (List ℕ → List ℕ) → Config → ℕ → ClientMessage → Shared → Result Scheduling
unfolding reset
schedule_and_answer order cfg now m s = dispatch_shared order m s >>= λ r.
    if is_round_robin cfg.repartition_method
    then ok r
    else (if r.shared.update then take_over order r (reset cfg now) else ok r)

-- `n_processed_requests_ - operation_start_` is a `size_t`, and wraps.
unfoldable pub interval_achieved : Config → ℕ → Shared → Bool
interval_achieved cfg now s =
    if is_microseconds cfg.interval_type
    then time_achieved cfg now s
    else leb cfg.repartition_interval
        ((s.tracker.n_processed_requests + 2 ^ 64 - s.operation_start) % 2 ^ 64)

-- The interval starts again.
unfoldable pub restart : Config → ℕ → Shared → Shared
restart cfg now s = record (restart_time cfg now s) {
  operation_start =
      if is_microseconds cfg.interval_type
      then s.operation_start
      else s.tracker.n_processed_requests;
}

-- `amounts` are the sizes of the partitions' queues as they are read.
module _ (float : Float) (threshold : float.F) (max : ℕ) where
  -- The test of the balance, and the order to repartition.
  unfoldable pub check_balance : List ℕ → Shared → Result Shared
  check_balance amounts s =
      let (found, b) =
        imbalance float threshold max s.scheduler.n_dispatched_requests s.operation_start
          s.scheduler.cross_partition_count amounts s.balance in
      let t = record s { balance = b } in
      if found
      then (if ltb 0 (n_vertex t.tracker.workload_graph)
          then (order_partitioning (record t { repartitioning = true }) >>= λ u.
              ok (record u { balance = clear_imbalance_count u.balance }))
          else ok (record t { repartitioning = true }))
      else ok t

  -- The counter goes up before the thread waits for the request.
  unfoldable pub update_graph_round : Config → ℕ → List ℕ → ClientMessage → Shared → Result Shared
  unfolding interval_achieved restart check_balance
  update_graph_round cfg now amounts m s =
      track cfg.tracking_length m (record s {
        tracker = record (s.tracker) { n_processed_requests = s.tracker.n_processed_requests + 1 };
      })
      >>= λ t.
          if t.repartitioning
          then ok t
          else (if interval_achieved cfg now t
              then (check_balance amounts t >>= λ u. ok (restart cfg now u))
              else ok t)
