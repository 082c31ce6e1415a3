-- ===== src/Blocking.antt =====
-- src/scheduler/scheduler.hpp and src/scheduler/old_imb_scheduler.hpp: the schedulers that stop the
-- service while they repartition. The scheduling thread waits at a barrier until the graph thread
-- has taken in the requests that were dispatched; between two barriers the graph is copied.
pub mod OldImb
pub mod Dispatches
pub mod Rounds
pub mod Threads
pub mod Order
use kvpaxos.Base.{
  ℕ, ◌+◌, ◌%◌, Bool, true, false, ◌&&◌, List, [], ◌∷◌, leb, ◌==◌, if◌then◌else◌, replicate,
}
use kvpaxos.Base.Results.{Result, ok, undefined, ◌>>=◌, or_throw}
use kvpaxos.Types.{ClientMessage}
use kvpaxos.Graph.Cut.{multilevel_cut_data}
use kvpaxos.Tracking.{Tracker, init, track_request}
use kvpaxos.Storage.{Codec, Storage}
use kvpaxos.Partition.Worker.{populate_storage}
use kvpaxos.Scheduler.{Scheduler, Action, make, map_key, dispatch_counted, change_scheme}
use kvpaxos.Imbalance.{Balance}
use kvpaxos.Repartition.{Config, Partitioners, partitioning, is_round_robin, is_microseconds}

-- What the two threads share. `at_barrier` is that the scheduling thread waits at
-- `repartition_barrier_`; `balance` and `operation_start` are fields of `OldImbScheduler`.
pub record Blocking : Type 0 where
  pub scheduler : Scheduler
  pub tracker : Tracker
  pub balance : Balance
  pub operation_start : ℕ
  pub time_start : ℕ
  pub note : Bool
  pub at_barrier : Bool

pub record BlockingRound : Type 0 where
  pub shared : Blocking
  pub actions : List Action

-- The constructor, for `n` partitions at the time `now`.
unfoldable pub init_blocking : Config → ℕ → ℕ → Blocking
init_blocking cfg n now = record {
  scheduler = make n;
  tracker = init cfg.tracking_length;
  balance = record {
    sucessive_cross_partition_intensive = 0;
    sucessive_imbalance = replicate n 0;
    in_queue_amount = replicate n 0;
    cross_operation_start = 0;
  };
  operation_start = 0;
  time_start = now;
  note = false;
  at_barrier = false;
}

-- Whether the interval is over, after the dispatch. A remainder by 0 is undefined.
unfoldable pub start_repartitioning : Config → ℕ → Blocking → Result Bool
start_repartitioning cfg now s =
    if is_microseconds cfg.interval_type
    then ok (leb (s.time_start + cfg.repartition_interval) now)
    else (if cfg.repartition_interval == 0
        then undefined
        else ok (s.scheduler.n_dispatched_requests % cfg.repartition_interval == 0))

-- `note_ = true`, the post that wakes the graph thread, and the wait at the barrier.
unfoldable pub come_to_barrier : Blocking → Blocking
come_to_barrier s = record s { note = true; at_barrier = true }

-- `schedule_and_answer`, up to the first barrier.
unfoldable pub schedule_to_barrier :
    (List ℕ → List ℕ) → Config → ℕ → ClientMessage → Blocking → Result BlockingRound
unfolding start_repartitioning come_to_barrier
schedule_to_barrier order cfg now m s = dispatch_counted order m s.scheduler >>= λ d.
    let t = record s { scheduler = d.scheduler } in
    if is_round_robin cfg.repartition_method
    then ok (record { shared = t; actions = d.actions })
    else (start_repartitioning cfg now t >>= λ start.
        ok (record { shared = if start then come_to_barrier t else t; actions = d.actions }))

-- From the barrier on: the graph thread takes the note back, the graph is copied and cut, and the
-- scheme takes the place of the old one.
unfoldable pub repartition_at_barrier :
    (List ℕ → List ℕ) → Partitioners → Config → ℕ → Blocking → Result BlockingRound
repartition_at_barrier order lib cfg now s =
    multilevel_cut_data s.tracker.workload_graph >>= λ graph.
    partitioning lib cfg.repartition_method graph s.scheduler >>= λ scheme.
    let d = change_scheme order scheme s.scheduler in
    ok (record {
      shared = record s {
        scheduler = d.scheduler;
        time_start = if is_microseconds cfg.interval_type then now else s.time_start;
        note = false;
        at_barrier = false;
      };
      actions = d.actions;
    })

-- `update_graph_loop` meets the scheduling thread where it has taken in all but one of the requests.
unfoldable pub graph_meets : Blocking → Bool
graph_meets s = s.note && leb s.scheduler.n_dispatched_requests (s.tracker.n_processed_requests + 1)

-- Its other branch.
unfoldable pub update_graph_counted : Config → ClientMessage → Blocking → Result Blocking
update_graph_counted cfg m s =
    or_throw (track_request cfg.tracking_length m s.tracker) >>= λ t. ok (record s { tracker = t })
