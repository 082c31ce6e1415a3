-- ===== src/Tests/Repartitioning.antt =====
-- The theorems on the three threads at a run in which a request is dispatched and one is taken in.
use kvpaxos.Base.{ℕ, List, [], ◌∷◌, ◌++◌, pos, ◌≡◌, refl, arith, inr, ℤ-discrete, ℕ_discrete, ◌+ℤ◌}
use kvpaxos.Base.Maps.{find, emplace, assign}
use kvpaxos.Base.Results.{ok}
use kvpaxos.Types.{ClientMessage, read, write, key_count, int_key}
use kvpaxos.Scheduler.{
  push, map_key, make, involved_partitions, involve_from, involve, close_mapping, map_key_to,
  insert, dispatch_counted, dispatch, dispatch_to,
}
use kvpaxos.Scheduler.Dispatching.{touches}
use kvpaxos.Scheduler.Workers.{
  request, Workers, Works, pushed, taken, served, begins, issues, steps,
}
use kvpaxos.Scheduler.Workers.Simulation.{served_by}
use kvpaxos.Scheduler.Workers.Progress.{naming}
use kvpaxos.Scheduler.Order.{next, stop, keep}
use kvpaxos.Repartition.{metis, operations, Shared, Scheduling}
use kvpaxos.Repartition.Rounds.{dispatch_shared}
use kvpaxos.Repartition.Free
use kvpaxos.Storage.{template_value}
use kvpaxos.Storage
use kvpaxos.Partition.Worker.{populate_storage}
use kvpaxos.Tracking.{init}
use kvpaxos.Tracking.Window.{IsRequest}
use kvpaxos.Tracking.Runs.{Tracked, track_request-InWindow, init-InWindow}
use kvpaxos.Repartition.Start.{
  Populated, Populating, unpopulated, process_populate_request, constructed, populated,
}
use kvpaxos.Repartition.Threads.{
  Setting, started_with, free, Reach, start, scheduling, schedule_of, update_graph_of,
}
use kvpaxos.Repartition.Agreement.{Reach-Agrees, reached_in_order, reached_succeeds, reached_served}
use kvpaxos.Repartition.Commands.{Agrees}
use kvpaxos.Repartition.Variants.{IsSetting}
use kvpaxos.Tests.{message}
use kvpaxos.Tests.Scheduling.{as_is, as_is-IsOrder, read-IsDispatched}
use kvpaxos.Tests.Stores.{marked}
use kvpaxos.Tests.Graphs.{all_first, all_first-AreSound, whole}

abbrev pub setting : Setting
setting = record {
  variant = free;
  config = record {
    repartition_method = metis;
    interval_type = operations;
    repartition_interval = 1;
    tracking_length = 1;
  };
  order = as_is;
  partitioners = all_first;
  float = whole;
  balance_threshold = 1;
  max_sucessive_imbalances = 100;
  codec = marked;
}

setting-IsSetting : IsSetting setting
setting-IsSetting = record {
  window = omega arith;
  interval = inr (omega arith);
  iterates = as_is-IsOrder;
  partitioners = all_first-AreSound;
}

write_zero-IsRequest : IsRequest (message write 0)
unfolding key_count
write_zero-IsRequest = record { real = refl; counted = refl }

pub zero_taken : Tracked 1 (message write 0) (init 1)
zero_taken =
    track_request-InWindow 1 (message write 0) (init 1) (omega arith) write_zero-IsRequest
      (init-InWindow 1)

-- The key 0 is populated.
abbrev pub one_key : Populated
one_key = record {
  scheduler = record {
    n_partitions = 2;
    round_robin_counter = 1;
    sync_counter = 0;
    n_dispatched_requests = 0;
    data_to_partition = (pos 0, 0) ∷ [];
    cross_partition_count = 0;
    next_barrier = 0;
  };
  tracker = record (zero_taken.next) { n_processed_requests = (init 1).n_processed_requests };
  store = record { storage = (pos 0, 1 ∷ template_value) ∷ [] };
}

fill_zero :
    process_populate_request marked setting.config (message write 0) (unpopulated setting.config 2)
    ≡ ok one_key
unfolding process_populate_request map_key map_key_to populate_storage Storage.write make find
    emplace assign
fill_zero = rw (zero_taken.runs) refl

pub zero_filled : Populating marked setting.config 2 one_key
zero_filled = populated (message write 0) constructed write_zero-IsRequest fill_zero

abbrev pub begun : Shared
begun = started_with one_key (Free.init_shared setting.config 2 0)

abbrev pub one : Scheduling
one = record {
  shared = record begun {
    scheduler = record {
      n_partitions = 2;
      round_robin_counter = 1;
      sync_counter = 0;
      n_dispatched_requests = 1;
      data_to_partition = (pos 0, 0) ∷ [];
      cross_partition_count = 0;
      next_barrier = 0;
    };
  };
  actions = push 0 (message read 0) ∷ [];
}

scheduled_one : Free.schedule_and_answer as_is setting.config 0 (message read 0) begun ≡ ok one
unfolding Free.schedule_and_answer dispatch_shared dispatch_counted dispatch dispatch_to
    involved_partitions involve_from involve close_mapping map_key_to insert make key_count find
    emplace assign ◌+ℤ◌ ℤ-discrete ℕ_discrete
scheduled_one = refl

reach_one : Reach setting 2 one.actions one.shared
reach_one =
    scheduling 0 (message read 0) (start 0 one_key zero_filled) (read-IsDispatched 0) scheduled_one

reached_in_order_example :
    keep (touches (pos 0)) one.actions ++ keep (touches (pos 0)) []
    ≡ keep (touches (pos 0)) one.actions
reached_in_order_example =
    reached_in_order setting 2 one.actions one.shared (pos 0) one.actions [] setting-IsSetting
      (omega arith) reach_one (next [] (push 0 (message read 0)) [] tt (stop []))

Reach-Agrees_example : Agrees setting 2 one.actions one.shared
Reach-Agrees_example =
    Reach-Agrees setting 2 one.actions one.shared setting-IsSetting (omega arith) reach_one

reached_succeeds_example :
    ((r : Scheduling) × (schedule_of setting 5 (message read 1) one.shared ≡ ok r))
    × ((t : Shared) × (update_graph_of setting 5 [] (message read 1) one.shared ≡ ok t))
reached_succeeds_example =
    reached_succeeds setting 2 one.actions one.shared 5 [] (message read 1) setting-IsSetting
      (omega arith) (read-IsDispatched 1) reach_one

-- The worker has taken the request and served it.
pub works_one : (w : Workers) × Works one.actions ((0, message read 0) ∷ []) w
works_one = (
  _,
  steps
      (steps
        (steps (issues (push 0 (message read 0)) begins refl tt)
          (pushed 0 (request (message read 0)) [] refl))
        (taken 0 (message read 0) [] refl refl))
      (served 0 (message read 0) refl),
)

reached_served_example :
    (rest : List (ℕ × ClientMessage)) × (naming (pos 0) ((0, message read 0) ∷ []) ++ rest
      ≡ naming (pos 0) (served_by one.actions))
reached_served_example =
    reached_served setting 2 one.actions one.shared (pos 0) ((0, message read 0) ∷ []) works_one.0
      setting-IsSetting (omega arith) reach_one works_one.1
