-- ===== src/Repartition/Handshake.antt =====
-- The flags, the semaphore and the map that the three threads share: what holds between the rounds.
use kvpaxos.Base.{
  ℕ, ◌+◌, ◌≤◌, ◌<◌, Bool, true, false, none, some, List, ℤ, ◌≡◌, refl, arith, ◌==◌, ◌-◌,
}
use kvpaxos.Base.Maps.{Map}
use kvpaxos.Base.Results.{Result, ok}
use kvpaxos.Types.{ClientMessage, int_key}
use kvpaxos.Graph.{Graph, n_vertex}
use kvpaxos.Graph.View.{vertex, row}
use kvpaxos.Graph.Cut.{InputGraph}
use kvpaxos.Graph.Cut.Csr.{HasRows, multilevel_cut_data-IsCsr}
use kvpaxos.Tracking.{Tracker}
use kvpaxos.Tracking.Window.{IsRequest, Follows}
use kvpaxos.Tracking.Runs.{InWindow, track_request-InWindow}
use kvpaxos.Scheduler.{Scheduler}
use kvpaxos.Scheduler.Involving.{IsValid}
use kvpaxos.Repartition.{
  Shared, Partitioners, Config, track, order_partitioning, begin_partitioning, end_partitioning,
}
use kvpaxos.Repartition.Scheme.{InRange, IsGraph, AreSound, partitioning-InRange}

abbrev pub bit : Bool → ℕ
bit true = 1
bit false = 0

-- How many repartitionings are asked for, at work, or ready to be taken over.
abbrev pub pending : Shared → ℕ
pending s = s.repart_semaphore + bit s.updating + bit s.update + bit s.repartition

-- At most one repartitioning is under way, and none if `repartitioning` is not set; outside the
-- partitioning thread's critical part the new map is there, and it names partitions that exist; and
-- the copy of the graph is sound when the partitioning thread is to read it.
pub record Handshake (n tl : ℕ) (s : Shared) : Type 0 where
  pub valid : IsValid s.scheduler
  pub same_size : s.scheduler.n_partitions ≡ n
  pub at_most_one : pending s ≤ bit s.repartitioning
  pub scheme :
      s.updating ≡ false → (m : Map ℤ ℕ) × (s.updated_data_to_partition ≡ some m) × InRange n m
  pub graph : 0 < s.repart_semaphore + bit s.updating → IsGraph s.input_graph
  pub inside : InWindow tl s.tracker

-- The round succeeds, leaves the scheduler `c` alone, and the handshake holds after it.
pub record Round (n tl : ℕ) (c : Scheduler) (r : Result Shared) : Type 0 where
  pub after : Shared
  pub runs : r ≡ ok after
  pub unchanged : after.scheduler ≡ c
  pub holds : Handshake n tl after

pub Follows-HasRows : (w : List ClientMessage) (g : Graph ℤ) → Follows w g → HasRows g
unfolding vertex row
Follows-HasRows w g f = λ k h. ground (arith, f.vertices k, f.rows k)

-- Taking in a request changes the tracker only.
pub track-InWindow :
    (tl : ℕ) (m : ClientMessage) (s : Shared)
    → 0 < tl
    → IsRequest m
    → InWindow tl s.tracker
    → (t : Tracker) × (track tl m s ≡ ok (record s { tracker = t })) × InWindow tl t
unfolding track
track-InWindow tl m s p r inside =
    let one = track_request-InWindow tl m s.tracker p r inside in
    (
      record (one.next) { n_processed_requests = s.tracker.n_processed_requests },
      rw (one.runs) refl,
      record { follows = one.inside.follows; tracked = one.inside.tracked; full = one.inside.full },
    )

-- The order copies the graph, and posts.
pub order_partitioning-IsGraph :
    (tl : ℕ) (s : Shared)
    → InWindow tl s.tracker
    → (d : InputGraph) × (order_partitioning s
        ≡ ok (record s { input_graph = d; repart_semaphore = s.repart_semaphore + 1 }))
      × ((n : ℕ)
          → IsValid s.scheduler
          → s.scheduler.n_partitions ≡ n
          → pending s + 1 ≤ bit s.repartitioning
          → (s.updating ≡ false
              → (m : Map ℤ ℕ) × (s.updated_data_to_partition ≡ some m) × InRange n m)
          → Handshake n tl
              (record s { input_graph = d; repart_semaphore = s.repart_semaphore + 1 }))
unfolding order_partitioning
order_partitioning-IsGraph tl s inside =
    let (d, runs, numbered, csr, laid_out) =
      multilevel_cut_data-IsCsr s.tracker.workload_graph
        (Follows-HasRows s.tracker.graph_deletion_queue s.tracker.workload_graph inside.follows) in
    (
      d,
      rw runs refl,
      λ n valid same_size once scheme. record {
        valid = valid;
        same_size = same_size;
        at_most_one = omega (arith, once);
        scheme = scheme;
        graph = λ h. record {
          size = n_vertex s.tracker.workload_graph;
          numbered = numbered;
          csr = csr;
        };
        inside = inside;
      },
    )

-- The rounds of the graph thread: a repartitioning is ordered only where none is under way.
pub ordered :
    (n tl : ℕ) (s : Shared)
    → Handshake n tl s
    → s.repartitioning ≡ false
    → Round n tl s.scheduler (order_partitioning (record s { repartitioning = true }))
ordered n tl s h e =
    let (d, runs, holds) =
      order_partitioning-IsGraph tl (record s { repartitioning = true }) h.inside in
    record {
      after = record s {
        repartitioning = true;
        input_graph = d;
        repart_semaphore = s.repart_semaphore + 1;
      };
      runs = runs;
      unchanged = refl;
      holds =
          holds n h.valid h.same_size
            (let none : pending s ≤ 0 = rw e at h.at_most_one in omega (arith, none)) h.scheme;
    }

-- The state with another tracker.
pub with_tracker :
    (n tl : ℕ) (s : Shared) (t : Tracker)
    → Handshake n tl s
    → InWindow tl t
    → Handshake n tl (record s { tracker = t })
with_tracker n tl s t h inside = record {
  valid = h.valid;
  same_size = h.same_size;
  at_most_one = h.at_most_one;
  scheme = h.scheme;
  graph = h.graph;
  inside = inside;
}

-- The partitioning thread comes past its `sem_wait`, where a repartitioning is ordered.
pub begin_partitioning-Handshake :
    (n tl : ℕ) (s : Shared)
    → Handshake n tl s
    → 0 < s.repart_semaphore
    → (t : Shared) × (begin_partitioning s ≡ some t)
      × (t.updating ≡ true)
      × (t.scheduler ≡ s.scheduler)
      × Handshake n tl t
unfolding begin_partitioning
begin_partitioning-Handshake n tl s h p =
    let idle : s.updating ≡ false = ground (arith, h.at_most_one) in
    let some_order : (s.repart_semaphore == 0) ≡ false = ground arith in
    (
      record s {
        repart_semaphore = s.repart_semaphore - 1;
        updating = true;
        updated_data_to_partition = none;
      },
      rw idle (rw some_order refl),
      refl,
      refl,
      record {
        valid = h.valid;
        same_size = h.same_size;
        at_most_one = ground (arith, h.at_most_one);
        scheme = λ x. absurd (cc);
        graph = λ x. h.graph (omega arith);
        inside = h.inside;
      },
    )

-- Once it is past, it makes a scheme.
pub end_partitioning-Handshake :
    (n tl : ℕ) (lib : Partitioners) (cfg : Config) (s : Shared)
    → AreSound lib
    → Handshake n tl s
    → s.updating ≡ true
    → Round n tl s.scheduler (end_partitioning lib cfg s)
unfolding end_partitioning
end_partitioning-Handshake n tl lib cfg s sound h e =
    let g = h.graph (ground arith) in
    let (m, runs, in_range, keys) =
      partitioning-InRange lib cfg.repartition_method s.input_graph s.scheduler sound g
        h.valid.some_partition in
    record {
      after = record s { updated_data_to_partition = some m; update = true; updating = false };
      runs = rw runs refl;
      unchanged = refl;
      holds = record {
        valid = h.valid;
        same_size = h.same_size;
        at_most_one = ground (arith, h.at_most_one);
        scheme = λ x. (m, refl, rw (h.same_size) at in_range);
        graph = λ x. g;
        inside = h.inside;
      };
    }
