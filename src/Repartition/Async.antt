-- ===== src/Repartition/Async.antt =====
-- src/scheduler/async_scheduler.hpp: the rounds of its loops.
use kvpaxos.Base.{ℕ, ◌+◌, Bool, true, false, List, [], some, leb, if◌then◌else◌, replicate}
use kvpaxos.Base.Results.{Result, ok, ◌>>=◌}
use kvpaxos.Types.{ClientMessage}
use kvpaxos.Graph.Cut.{no_graph}
use kvpaxos.Scheduler.{make}
use kvpaxos.Tracking.{init}
use kvpaxos.Repartition.{Config, Shared, Scheduling, is_round_robin, is_microseconds, track}
use kvpaxos.Repartition.Rounds.{
  time_achieved, restart_time, dispatch_shared, take_over, order_if_any,
}

-- The constructor, for `n` partitions at the time `now`.
abbrev pub init_shared : Config → ℕ → ℕ → Shared
init_shared cfg n now = record {
  scheduler = make n;
  tracker = init cfg.tracking_length;
  balance = record {
    sucessive_cross_partition_intensive = 0;
    sucessive_imbalance = replicate n 0;
    in_queue_amount = replicate n 0;
    cross_operation_start = 0;
  };
  repartitioning = false;
  update = false;
  repartition = false;
  repart_semaphore = 0;
  updating = false;
  input_graph = no_graph;
  updated_data_to_partition = some [];
  operation_start = 0;
  time_start = now;
}

unfoldable pub interval_achieved : Config → ℕ → Shared → Bool
interval_achieved cfg now s =
    if is_microseconds cfg.interval_type
    then time_achieved cfg now s
    else leb (s.operation_start + cfg.repartition_interval) s.scheduler.n_dispatched_requests

unfoldable pub reset : Config → ℕ → Shared → Shared
reset cfg now s = record (restart_time cfg now s) {
  update = false;
  repartitioning = false;
  operation_start =
      if is_microseconds cfg.interval_type
      then s.operation_start
      else s.scheduler.n_dispatched_requests;
}

unfoldable pub schedule_and_answer :
    (List ℕ → List ℕ) → Config → ℕ → ClientMessage → Shared → Result Scheduling
unfolding reset interval_achieved
schedule_and_answer order cfg now m s = dispatch_shared order m s >>= λ r.
    if is_round_robin cfg.repartition_method
    then ok r
    else (if r.shared.repartitioning
        then (if r.shared.update then take_over order r (reset cfg now) else ok r)
        else (if interval_achieved cfg now r.shared
            then ok (record r {
              shared = record (r.shared) { repartition = true; repartitioning = true };
            })
            else ok r))

unfoldable pub update_graph_round : Config → ClientMessage → Shared → Result Shared
update_graph_round cfg m s = track cfg.tracking_length m s >>= λ t.
    if t.repartition then order_if_any (record t { repartition = false }) else ok t
