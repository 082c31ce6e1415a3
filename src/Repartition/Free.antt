-- ===== src/Repartition/Free.antt =====
-- src/scheduler/free_scheduler.hpp: the rounds of its loops.
use kvpaxos.Base.{ℕ, true, false, ◌&&◌, List, [], some, ltb, if◌then◌else◌, replicate}
use kvpaxos.Base.Results.{Result, ok, ◌>>=◌}
use kvpaxos.Types.{ClientMessage}
use kvpaxos.Graph.{n_vertex}
use kvpaxos.Graph.Cut.{no_graph}
use kvpaxos.Scheduler.{make}
use kvpaxos.Tracking.{init}
use kvpaxos.Repartition.{Config, Shared, Scheduling, is_round_robin, order_partitioning, track}
use kvpaxos.Repartition.Rounds.{restart_time, interval_divides, dispatch_shared, take_over}

-- The constructor, for `n` partitions at the time `now`. The fields `balance`, `repartition` and
-- `operation_start` belong to other classes.
abbrev pub init_shared : Config → ℕ → ℕ → Shared
init_shared cfg n now = record {
  scheduler = make n;
  tracker = init cfg.tracking_length;
  balance = record {
    sucessive_cross_partition_intensive = 0;
    sucessive_imbalance = replicate n 0;
    in_queue_amount = replicate n 0;
    cross_operation_start = 0;
  };
  repartitioning = false;
  update = false;
  repartition = false;
  repart_semaphore = 0;
  updating = false;
  input_graph = no_graph;
  updated_data_to_partition = some [];
  operation_start = 0;
  time_start = now;
}

unfoldable pub reset : Config → ℕ → Shared → Shared
reset cfg now s = record (restart_time cfg now s) { update = false; repartitioning = false }

unfoldable pub schedule_and_answer :
    (List ℕ → List ℕ) → Config → ℕ → ClientMessage → Shared → Result Scheduling
unfolding reset
schedule_and_answer order cfg now m s = dispatch_shared order m s >>= λ r.
    if is_round_robin cfg.repartition_method
    then ok r
    else (if r.shared.update then take_over order r (reset cfg now) else ok r)

-- The round of `update_graph_loop` that takes in the request.
unfoldable pub update_graph_round : Config → ℕ → ClientMessage → Shared → Result Shared
update_graph_round cfg now m s = track cfg.tracking_length m s >>= λ t.
    if t.repartitioning
    then ok t
    else (interval_divides cfg now t >>= λ start.
        if start && ltb 0 (n_vertex t.tracker.workload_graph)
        then order_partitioning (record t { repartitioning = true })
        else ok t)
