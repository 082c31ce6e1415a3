-- ===== src/Repartition/NonStop.antt =====
-- src/scheduler/non_stop_scheduler.hpp: the rounds of its loops.
use kvpaxos.Base.{ℕ, true, false, [], some, ltb, if◌then◌else◌, replicate}
use kvpaxos.Base.Results.{Result, ok, ◌>>=◌}
use kvpaxos.Types.{ClientMessage}
use kvpaxos.Graph.{n_vertex}
use kvpaxos.Graph.Cut.{no_graph}
use kvpaxos.Scheduler.{make}
use kvpaxos.Tracking.{init}
use kvpaxos.Repartition.{Config, Shared, order_partitioning, track}

-- The constructor, for `n` partitions at the time `now`.
abbrev pub init_shared : Config → ℕ → ℕ → Shared
init_shared cfg n now = record {
  scheduler = make n;
  tracker = init cfg.tracking_length;
  balance = record {
    sucessive_cross_partition_intensive = 0;
    sucessive_imbalance = replicate n 0;
    in_queue_amount = replicate n 0;
    cross_operation_start = 0;
  };
  repartitioning = false;
  update = false;
  repartition = false;
  repart_semaphore = 0;
  updating = false;
  input_graph = no_graph;
  updated_data_to_partition = some [];
  operation_start = 0;
  time_start = now;
}

unfoldable pub update_graph_round : Config → ClientMessage → Shared → Result Shared
update_graph_round cfg m s = track cfg.tracking_length m s >>= λ t.
    if t.repartitioning
    then ok t
    else (if ltb 0 (n_vertex t.tracker.workload_graph)
        then order_partitioning (record t { repartitioning = true })
        else ok t)
