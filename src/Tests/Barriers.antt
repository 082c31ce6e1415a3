-- ===== src/Tests/Barriers.antt =====
-- The theorems on the blocking schedulers at a request that brings the scheduling thread to its
-- barrier.
use kvpaxos.Base.{
  ℕ, List, [], ◌∷◌, ◌++◌, pos, ◌≡◌, refl, arith, inr, ℤ-discrete, ℕ_discrete, ◌+ℤ◌, true,
}
use kvpaxos.Base.Maps.{find, emplace, assign}
use kvpaxos.Base.Results.{ok}
use kvpaxos.Types.{ClientMessage, read, key_count}
use kvpaxos.Scheduler.{
  push, make, involved_partitions, involve_from, involve, close_mapping, map_key_to, insert,
  dispatch_counted, dispatch, dispatch_to,
}
use kvpaxos.Scheduler.Dispatching.{touches}
use kvpaxos.Scheduler.Workers.{Workers, Works}
use kvpaxos.Scheduler.Workers.Simulation.{served_by}
use kvpaxos.Scheduler.Workers.Progress.{naming}
use kvpaxos.Scheduler.Order.{Runs, next, stop, keep}
use kvpaxos.Repartition.{metis, operations}
use kvpaxos.Tests.Repartitioning.{one_key, zero_filled, works_one}
use kvpaxos.Blocking.{
  Blocking, BlockingRound, init_blocking, schedule_to_barrier, start_repartitioning,
  come_to_barrier, update_graph_counted,
}
use kvpaxos.Blocking.Order.{blocking_in_order, blocking_succeeds, blocking_served}
use kvpaxos.Blocking.Threads.{
  plain, start, serving, BlockingSetting, begun_with, IsBlockingSetting, BlockingReach, serve_of,
  repartition_of,
}
use kvpaxos.Tests.{message}
use kvpaxos.Tests.Scheduling.{as_is, as_is-IsOrder, read-IsDispatched}
use kvpaxos.Tests.Stores.{marked}
use kvpaxos.Tests.Graphs.{all_first, all_first-AreSound, whole}

abbrev setting : BlockingSetting
setting = record {
  kind = plain;
  config = record {
    repartition_method = metis;
    interval_type = operations;
    repartition_interval = 1;
    tracking_length = 1;
  };
  order = as_is;
  partitioners = all_first;
  float = whole;
  balance_threshold = 1;
  max_sucessive_imbalances = 100;
  codec = marked;
}

setting-IsBlockingSetting : IsBlockingSetting setting
setting-IsBlockingSetting = record {
  window = omega arith;
  interval = inr (omega arith);
  iterates = as_is-IsOrder;
  partitioners = all_first-AreSound;
}

stopped : BlockingRound
unfolding init_blocking
stopped = record {
  shared = record (begun_with one_key (init_blocking setting.config 2 0)) {
    scheduler = record {
      n_partitions = 2;
      round_robin_counter = 1;
      sync_counter = 0;
      n_dispatched_requests = 1;
      data_to_partition = (pos 0, 0) ∷ [];
      cross_partition_count = 0;
      next_barrier = 0;
    };
    note = true;
    at_barrier = true;
  };
  actions = push 0 (message read 0) ∷ [];
}

reach_stopped : BlockingReach setting 2 stopped.actions stopped.shared
unfolding stopped init_blocking schedule_to_barrier start_repartitioning come_to_barrier
    dispatch_counted dispatch dispatch_to involved_partitions involve_from involve close_mapping
    map_key_to insert make key_count find emplace assign ◌+ℤ◌ ℤ-discrete ℕ_discrete
reach_stopped =
    serving 0 [] (message read 0) (start 0 one_key zero_filled) refl (read-IsDispatched 0) refl

stopped-Runs : Runs stopped.actions stopped.actions []
unfolding stopped
stopped-Runs = next [] (push 0 (message read 0)) [] tt (stop [])

blocking_in_order_example :
    keep (touches (pos 0)) stopped.actions ++ keep (touches (pos 0)) []
    ≡ keep (touches (pos 0)) stopped.actions
blocking_in_order_example =
    blocking_in_order setting 2 stopped.actions stopped.shared (pos 0) stopped.actions []
      setting-IsBlockingSetting (omega arith) reach_stopped stopped-Runs

blocking_succeeds_example :
    ((r : BlockingRound) × (serve_of setting 3 [] (message read 1) stopped.shared ≡ ok r))
    × ((t : Blocking) × (update_graph_counted setting.config (message read 1) stopped.shared
          ≡ ok t))
    × ((r : BlockingRound) × (repartition_of setting 3 stopped.shared ≡ ok r))
blocking_succeeds_example =
    blocking_succeeds setting 2 stopped.actions stopped.shared 3 [] (message read 1)
      setting-IsBlockingSetting (omega arith) (read-IsDispatched 1) reach_stopped

works_stopped : (w : Workers) × Works stopped.actions ((0, message read 0) ∷ []) w
unfolding stopped
works_stopped = works_one

blocking_served_example :
    (rest : List (ℕ × ClientMessage)) × (naming (pos 0) ((0, message read 0) ∷ []) ++ rest
      ≡ naming (pos 0) (served_by stopped.actions))
blocking_served_example =
    blocking_served setting 2 stopped.actions stopped.shared (pos 0) ((0, message read 0) ∷ [])
      works_stopped.0 setting-IsBlockingSetting (omega arith) reach_stopped works_stopped.1
