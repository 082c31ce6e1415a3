-- ===== src/Repartition/Scheme.antt =====
-- The scheme that `partitioning` makes, and the partitions that it names.
use kvpaxos.Base.{
  ℕ, zero, suc, ◌<◌, ◌||◌, some, List, [], ◌∷◌, ℤ, ◌≡◌, refl, sym, ◌∙◌, arith, length, get_elem?,
  All, is_some, lt→ltb, Bool-cases, inl, inr, replicate, length-replicate, subst,
}
use kvpaxos.Base.Maps.{Map, find, emplace, find-emplace}
use kvpaxos.Base.Results.{ok}
use kvpaxos.Types.{int_key}
use kvpaxos.Graph.Cut.{InputGraph}
use kvpaxos.Graph.Cut.Places.{IsCsr, IsNumbered}
use kvpaxos.Scheduler.{Scheduler}
use kvpaxos.Repartition.{
  CutMethod, Partitioners, multilevel_cut, reconstruct, partitioning, is_metis,
}

-- The keys go to partitions below `n`.
abbrev pub InRange : ℕ → Map ℤ ℕ → Type 0
InRange n m = (k : ℤ) (p : ℕ) → find k m ≡ some p → p < n

-- `d` is a graph of some number of vertices.
pub record IsGraph (d : InputGraph) : Type 0 where
  pub size : ℕ
  pub numbered : IsNumbered size d
  pub csr : IsCsr size size d

-- A partition below `n` for each vertex.
abbrev pub IsCut : ℕ → ℕ → List ℕ → Type 0
IsCut vertices n cut = (length cut ≡ vertices) × All (λ p. p < n) cut

-- METIS and KaHIP fill the array: of a graph in compressed sparse rows, and at least one partition.
pub record AreSound (lib : Partitioners) : Type 0 where
  pub kway :
      (d : InputGraph) (n : ℕ) (out : List ℕ)
      → IsGraph d
      → 0 < n
      → length out ≡ length d.vertice_weight
      → IsCut
          (length out)
          n
          (lib.part_graph_kway d.vertice_weight d.x_edges d.edges d.edges_weight n out)
  pub kaffpa :
      (d : InputGraph) (n : ℕ) (out : List ℕ)
      → IsGraph d
      → 0 < n
      → length out ≡ length d.vertice_weight
      → IsCut (length out) n (lib.kaffpa d.vertice_weight d.x_edges d.edges d.edges_weight n out)

multilevel_cut-IsCut :
    (lib : Partitioners) (d : InputGraph) (n : ℕ) (method : CutMethod)
    → AreSound lib
    → IsGraph d
    → 0 < n
    → IsCut
        (length d.vertice_weight)
        n
        (multilevel_cut lib d.vertice_weight d.x_edges d.edges d.edges_weight n method)
unfolding multilevel_cut
multilevel_cut-IsCut lib d n method sound g p = elim (Bool-cases (is_metis method)) [
  | inl e ↦ rw e (
      IsCut-size (lib.part_graph_kway d.vertice_weight d.x_edges d.edges d.edges_weight n zeros)
        (sound.kway d n zeros g p size))
  | inr e ↦ rw e (
      IsCut-size (lib.kaffpa d.vertice_weight d.x_edges d.edges d.edges_weight n zeros)
        (sound.kaffpa d n zeros g p size))
]
  where
    zeros : List ℕ
    zeros = replicate (length d.vertice_weight) 0

    size : length zeros ≡ length d.vertice_weight
    size = length-replicate (length d.vertice_weight) 0

    IsCut-size : (cut : List ℕ) → IsCut (length zeros) n cut → IsCut (length d.vertice_weight) n cut
    IsCut-size cut k = (k.0 ∙ size, k.1)

get_elem?-below :
    (n i : ℕ) (ps : List ℕ)
    → i < length ps
    → All (λ p. p < n) ps
    → (p : ℕ) × (get_elem? ps i ≡ some p) × (p < n)
get_elem?-below n i [] h a = absurd (omega (arith, h))
get_elem?-below n zero (p ∷ ps) h a = (p, refl, a.0)
get_elem?-below n (suc i) (p ∷ ps) h a = get_elem?-below n i ps (omega (arith, h)) a.1

-- What the loop makes of the positions `ps`, with `m` made before.
record Reconstructed (scheme : List ℕ) (ps m : Map ℤ ℕ) (s : Scheduler) : Type 0 where
  after : Map ℤ ℕ
  runs : reconstruct scheme ps m s ≡ ok after
  in_range : InRange s.n_partitions after
  keys : (k : ℤ) → is_some (find k after) ≡ (is_some (find k m) || is_some (find k ps))

reconstruct-InRange :
    (scheme : List ℕ) (ps m : Map ℤ ℕ) (s : Scheduler)
    → All (λ e. e.1 < length scheme) ps
    → All (λ p. p < s.n_partitions) scheme
    → InRange s.n_partitions m
    → Reconstructed scheme ps m s
unfolding reconstruct find
reconstruct-InRange scheme [] m s a b r = record {
  after = m;
  runs = refl;
  in_range = r;
  keys = λ k. ground arith;
}
reconstruct-InRange scheme ((key, position) ∷ ps) m s a b r =
    let (p, e, below) = get_elem?-below s.n_partitions position scheme a.0 b in
    let rest =
      reconstruct-InRange scheme ps (emplace key p m) s a.1 b
        (λ k q h. ground (arith, r k q, below, find-emplace key k p m)) in
    record {
      after = rest.after;
      runs = rw e (rw (lt→ltb p s.n_partitions below) (rest.runs));
      in_range = rest.in_range;
      keys = λ k. ground (arith, rest.keys k, find-emplace key k p m);
    }

-- Where METIS and KaHIP fill the array with ids of partitions, `partitioning` of a graph in
-- compressed sparse rows succeeds, and its scheme maps the keys of the graph, and no others, to
-- partitions that exist.
pub partitioning-InRange :
    (lib : Partitioners) (method : CutMethod) (d : InputGraph) (s : Scheduler)
    → AreSound lib
    → IsGraph d
    → 0 < s.n_partitions
    → (m : Map ℤ ℕ) × (partitioning lib method d s ≡ ok m)
      × InRange s.n_partitions m
      × ((k : ℤ) → is_some (find k m) ≡ is_some (find k d.vertice_to_pos))
unfolding partitioning find
partitioning-InRange lib method d s sound g p =
    let (filled, below) = multilevel_cut-IsCut lib d s.n_partitions method sound g p in
    let cut =
      multilevel_cut lib d.vertice_weight d.x_edges d.edges d.edges_weight s.n_partitions method in
    let r =
      reconstruct-InRange cut d.vertice_to_pos [] s
        (subst (λ l. All (λ e. e.1 < l) d.vertice_to_pos) (sym (filled ∙ g.numbered.weights))
          g.numbered.entries)
        below (λ k q h. absurd (cc)) in
    (r.after, r.runs, r.in_range, λ k. r.keys k)
