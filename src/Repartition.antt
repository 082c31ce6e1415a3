-- ===== src/Repartition.antt =====
-- How the partition scheme is made anew while requests are served: `partitioning` of
-- src/scheduler/scheduler.hpp and src/graph/partitioning.cpp, and the state that the three threads
-- of src/scheduler/free_scheduler.hpp share.
pub mod Scheme
pub mod Rounds
pub mod Free
pub mod NonStop
pub mod Async
pub mod AsyncImb
pub mod Taking
pub mod Serving
pub mod Graphing
pub mod Start
pub mod Threads
pub mod Handshake
pub mod Variants
pub mod Commands
pub mod Agreement
use kvpaxos.Base.{
  ℕ, zero, suc, ◌+◌, ◌-◌, ◌%◌, Bool, true, false, ◌&&◌, ◌||◌, not, Option, none, some, List, [],
  ◌∷◌, ◌++◌, ℤ, length, replicate, get_elem?, leb, ltb, ◌==◌, if◌then◌else◌,
}
use kvpaxos.Base.Maps.{Map, emplace}
use kvpaxos.Base.Results.{Result, ok, throws, undefined, ◌>>=◌, or_throw, or_undefined}
use kvpaxos.Types.{ClientMessage, int_key}
use kvpaxos.Graph.{n_vertex}
use kvpaxos.Graph.Cut.{InputGraph, no_graph, multilevel_cut_data}
use kvpaxos.Tracking.{Tracker, track_request}
use kvpaxos.Scheduler.{Scheduler, Action, Dispatched, partition_at, change_scheme}
use kvpaxos.Imbalance.{Balance}

-- `enum CutMethod`
pub data CutMethod : Type 0 where
  metis kahip fennel refennel round_robin : CutMethod

abbrev pub is_metis : CutMethod → Bool
is_metis metis = true
is_metis _ = false

abbrev pub is_round_robin : CutMethod → Bool
is_round_robin round_robin = true
is_round_robin _ = false

-- `enum interval_type`
pub data IntervalType : Type 0 where
  microseconds operations : IntervalType

abbrev pub is_microseconds : IntervalType → Bool
is_microseconds microseconds = true
is_microseconds operations = false

-- The parameters of a scheduler.
pub record Config : Type 0 where
  pub repartition_method : CutMethod
  pub interval_type : IntervalType
  pub repartition_interval : ℕ
  pub tracking_length : ℕ

-- `METIS_PartGraphKway` and `kaffpa`, with the options that the code sets: from the weights of the
-- vertices, the offsets, the edges, their weights, the number of partitions, and the array to fill.
pub record Partitioners : Type 0 where
  pub part_graph_kway : List ℤ → List ℕ → List ℕ → List ℤ → ℕ → List ℕ → List ℕ
  pub kaffpa : List ℤ → List ℕ → List ℕ → List ℤ → ℕ → List ℕ → List ℕ

unfoldable pub multilevel_cut :
    Partitioners → List ℤ → List ℕ → List ℕ → List ℤ → ℕ → CutMethod → List ℕ
multilevel_cut lib vertice_weight x_edges edges edges_weight n_partitions cut_method =
    let vertex_partitions = replicate (length vertice_weight) 0 in
    if is_metis cut_method
    then lib.part_graph_kway vertice_weight x_edges edges edges_weight n_partitions
        vertex_partitions
    else lib.kaffpa vertice_weight x_edges edges edges_weight n_partitions vertex_partitions

-- The loop of `partitioning` over the positions of the keys. An index beyond the vector is undefined
-- behaviour, and the id of no partition makes `at` throw.
unfoldable pub reconstruct : List ℕ → Map ℤ ℕ → Map ℤ ℕ → Scheduler → Result (Map ℤ ℕ)
reconstruct partition_scheme [] m s = ok m
reconstruct partition_scheme ((key, position) ∷ ps) m s =
    or_undefined (get_elem? partition_scheme position) >>= λ partition.
    partition_at partition s >>= λ p. reconstruct partition_scheme ps (emplace key p m) s

unfoldable pub partitioning : Partitioners → CutMethod → InputGraph → Scheduler → Result (Map ℤ ℕ)
unfolding multilevel_cut reconstruct
partitioning lib method graph s =
    reconstruct
      (multilevel_cut lib graph.vertice_weight graph.x_edges graph.edges graph.edges_weight
        s.n_partitions method)
      graph.vertice_to_pos [] s

-- What the scheduling thread, the graph thread and the partitioning thread share. `updating` is
-- that the partitioning thread is between its `sem_wait` and its `update_.store(true)`; while it is,
-- `updated_data_to_partition` is deleted. `repartition`, `operation_start` and `balance` are fields
-- of the classes that use them.
pub record Shared : Type 0 where
  pub scheduler : Scheduler
  pub tracker : Tracker
  pub balance : Balance
  pub repartitioning : Bool
  pub update : Bool
  pub repartition : Bool
  pub repart_semaphore : ℕ
  pub updating : Bool
  pub input_graph : InputGraph
  pub updated_data_to_partition : Option (Map ℤ ℕ)
  pub operation_start : ℕ
  pub time_start : ℕ

-- What a step of the scheduling thread gives: the state, and what it did to the partitions.
pub record Scheduling : Type 0 where
  pub shared : Shared
  pub actions : List Action

-- `change_partition_scheme`: the two maps change places.
unfoldable pub change_partition_scheme : (List ℕ → List ℕ) → Shared → Result Scheduling
change_partition_scheme order s = or_undefined s.updated_data_to_partition >>= λ scheme.
    let d = change_scheme order scheme s.scheduler in
    ok (record {
      shared = record s {
        scheduler = d.scheduler;
        updated_data_to_partition = some s.scheduler.data_to_partition;
      };
      actions = d.actions;
    })

-- `order_partitioning`
unfoldable pub order_partitioning : Shared → Result Shared
order_partitioning s = multilevel_cut_data s.tracker.workload_graph >>= λ d.
    ok (record s { input_graph = d; repart_semaphore = s.repart_semaphore + 1 })

-- The graph thread takes a request in; the counter of processed requests is not touched.
unfoldable pub track : ℕ → ClientMessage → Shared → Result Shared
track tl m s = or_throw (track_request tl m s.tracker) >>= λ t.
    ok (record s { tracker = record t { n_processed_requests = s.tracker.n_processed_requests } })

-- The two halves of a round of `partitioning_loop`; `none` is that the thread waits.
unfoldable pub begin_partitioning : Shared → Option Shared
begin_partitioning s =
    if s.updating || s.repart_semaphore == 0
    then none
    else some (record s {
      repart_semaphore = s.repart_semaphore - 1;
      updating = true;
      updated_data_to_partition = none;
    })

unfoldable pub end_partitioning : Partitioners → Config → Shared → Result Shared
unfolding partitioning
end_partitioning lib cfg s =
    partitioning lib cfg.repartition_method s.input_graph s.scheduler >>= λ m.
    ok (record s { updated_data_to_partition = some m; update = true; updating = false })
