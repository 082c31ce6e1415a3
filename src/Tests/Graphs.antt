-- ===== src/Tests/Graphs.antt =====
-- The theorems on the graph's arrays, the schemes and the balance at small data.
use kvpaxos.Base.{
  ℕ, zero, suc, [], ◌∷◌, ◌≡◌, arith, pos, All, length, replicate, length-replicate, ltb, ◌-◌, ◌/◌,
  ◌*◌, ◌<◌, is_some, ℤ,
}
use kvpaxos.Base.Maps.{Map, find}
use kvpaxos.Base.Results.{ok}
use kvpaxos.Types.{int_key}
use kvpaxos.Graph.{Graph, n_vertex}
use kvpaxos.Graph.Cut.{InputGraph, multilevel_cut_data}
use kvpaxos.Graph.Cut.Csr.{HasRows, multilevel_cut_data-IsCsr}
use kvpaxos.Graph.Cut.Layout.{IsLaidOut}
use kvpaxos.Graph.Cut.Places.{IsNumbered, IsCsr}
use kvpaxos.Scheduler.{make}
use kvpaxos.Imbalance.{Float, Balance, imbalance}
use kvpaxos.Imbalance.Counters.{Judged, imbalance-counts}
use kvpaxos.Repartition.{Partitioners, metis, partitioning}
use kvpaxos.Repartition.Scheme.{InRange, IsGraph, AreSound, partitioning-InRange}

-- Two keys, requested together once.
abbrev pair : Graph ℤ
pair = record {
  vertex_weight = (pos 4, pos 1) ∷ (pos 3, pos 1) ∷ [];
  edges_weight = (pos 4, (pos 3, pos 1) ∷ []) ∷ (pos 3, (pos 4, pos 1) ∷ []) ∷ [];
  n_edges = 1;
  total_vertex_weight = pos 2;
  total_edges_weight = pos 1;
}

pair-HasRows : HasRows pair
unfolding find
pair-HasRows k h = ground arith

multilevel_cut_data-IsCsr_example :
    (d : InputGraph) × (multilevel_cut_data pair ≡ ok d)
    × IsNumbered (n_vertex pair) d
    × IsCsr (n_vertex pair) (n_vertex pair) d
    × IsLaidOut pair d
multilevel_cut_data-IsCsr_example = multilevel_cut_data-IsCsr pair pair-HasRows

-- A library that puts every vertex into the first partition.
abbrev pub all_first : Partitioners
all_first = record {
  part_graph_kway = λ vertices offsets edges weights n out. replicate (length out) 0;
  kaffpa = λ vertices offsets edges weights n out. replicate (length out) 0;
}

zeros-below : (n m : ℕ) → 0 < n → All (λ p. p < n) (replicate m 0)
zeros-below n zero h = tt
zeros-below n (suc m) h = (h, zeros-below n m h)

pub all_first-AreSound : AreSound all_first
all_first-AreSound = record {
  kway = λ d n out g p e. (length-replicate (length out) 0, zeros-below n (length out) p);
  kaffpa = λ d n out g p e. (length-replicate (length out) 0, zeros-below n (length out) p);
}

pair-IsGraph : IsGraph (multilevel_cut_data-IsCsr pair pair-HasRows).0
pair-IsGraph =
    let (d, runs, numbered, csr, laid_out) = multilevel_cut_data-IsCsr pair pair-HasRows in
    record { size = n_vertex pair; numbered = numbered; csr = csr }

make-some : 0 < (make 2).n_partitions
unfolding make
make-some = omega arith

partitioning-InRange_example :
    (m : Map ℤ ℕ) × (partitioning all_first metis
        (multilevel_cut_data-IsCsr pair pair-HasRows).0
        (make 2)
      ≡ ok m)
    × InRange (make 2).n_partitions m
    × ((k : ℤ)
        → is_some (find k m)
          ≡ is_some (find k (multilevel_cut_data-IsCsr pair pair-HasRows).0.vertice_to_pos))
partitioning-InRange_example =
    partitioning-InRange all_first metis (multilevel_cut_data-IsCsr pair pair-HasRows).0 (make 2)
      all_first-AreSound pair-IsGraph make-some

-- Whole numbers in the place of `float`.
abbrev pub whole : Float
whole = record {
  F = ℕ;
  of_size = λ n. n;
  minus = λ a b. a - b;
  times = λ a b. a * b;
  over = λ a b. a / b;
  abs = λ a. a;
  above = λ a b. ltb b a;
}

abbrev pub counts : Balance
counts = record {
  sucessive_cross_partition_intensive = 0;
  sucessive_imbalance = 1 ∷ 0 ∷ [];
  in_queue_amount = 0 ∷ 0 ∷ [];
  cross_operation_start = 0;
}

imbalance-counts_example :
    Judged whole 1 2 4 0 8 (9 ∷ 1 ∷ []) counts (imbalance whole 1 2 4 0 8 (9 ∷ 1 ∷ []) counts)
imbalance-counts_example =
    imbalance-counts whole 1 2 4 0 8 (9 ∷ 1 ∷ []) counts (omega arith)
      (omega arith, (omega arith, tt)) (omega arith)
