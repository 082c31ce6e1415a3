-- ===== src/Graph.antt =====
-- src/graph/graph.hpp: the weighted, undirected workload graph `model::Graph<T>`.
-- `int` weights are integers: the C++ leaves their overflow undefined. `n_edges_` is a `size_t`, and
-- wraps.
pub mod View
pub mod Cut
use kvpaxos.Base.{
  ℕ, ◌+◌, ◌-◌, ◌%◌, ◌^◌, Bool, Option, none, some, List, [], ◌∷◌, ℤ, pos, ◌+ℤ◌, ◌-ℤ◌, ite,
  ℤ-discrete, if◌then◌else◌, is_some, or_else, ◌>>=◌, length,
}
use kvpaxos.Base.Maps.{Key, Map, find, assign, erase}

pub record Graph (K : Type 0) : Type 0 where
  pub vertex_weight : Map K ℤ
  pub edges_weight : Map K (Map K ℤ)
  pub n_edges : ℕ
  pub total_vertex_weight : ℤ
  pub total_edges_weight : ℤ

abbrev pub size_mod : ℕ
size_mod = 2 ^ 64

abbrev pub empty : {K : Type 0} → Graph K
empty = record {
  vertex_weight = [];
  edges_weight = [];
  n_edges = 0;
  total_vertex_weight = pos 0;
  total_edges_weight = pos 0;
}

module _ {K : Type 0} ⦃key : Key K⦄ where
  -- `edges_weight_[k]`, which makes an empty row where there is none.
  abbrev pub row_of : K → Map K (Map K ℤ) → Map K ℤ
  row_of k m = or_else (find k m) []

  -- `edges_weight_[from][to] = w`
  pub assign_edge : K → K → ℤ → Map K (Map K ℤ) → Map K (Map K ℤ)
  assign_edge from to w m = assign from (assign to w (row_of from m)) m

  -- `edges_weight_[from][to]`, read: a missing entry reads as 0.
  abbrev pub weight_at : K → K → Map K (Map K ℤ) → ℤ
  weight_at from to m = or_else (find to (row_of from m)) (pos 0)

  -- `edges_weight_[from][to] += value`
  pub add_at : K → K → ℤ → Map K (Map K ℤ) → Map K (Map K ℤ)
  unfolding assign_edge
  add_at from to value m = assign_edge from to (weight_at from to m +ℤ value) m

  -- `edges_weight_[from].erase(to)`
  pub erase_at : K → K → Map K (Map K ℤ) → Map K (Map K ℤ)
  erase_at from to m = assign from (erase to (row_of from m)) m

  pub add_vertice : K → Graph K → Graph K
  add_vertice k g = if is_some (find k g.vertex_weight) then g else record g {
    vertex_weight = assign k (pos 0) g.vertex_weight;
    edges_weight = assign k [] g.edges_weight;
  }

  pub increment_vertice_weight : K → ℤ → Graph K → Graph K
  increment_vertice_weight k weight g = record g {
    vertex_weight = assign k (or_else (find k g.vertex_weight) (pos 0) +ℤ weight) g.vertex_weight;
    total_vertex_weight = g.total_vertex_weight +ℤ weight;
  }

  -- `vertex_weight_[vertice]` makes the entry that the `erase` then takes away.
  pub remove_weightless_vertice : K → Graph K → Graph K
  remove_weightless_vertice k g =
      ite (ℤ-discrete (or_else (find k g.vertex_weight) (pos 0)) (pos 0))
        (record g {
          vertex_weight = erase k g.vertex_weight;
          edges_weight = erase k g.edges_weight;
        })
        g

  -- The test makes the row of `from`; the edge is written both ways.
  pub add_edge : K → K → Graph K → Graph K
  unfolding assign_edge
  add_edge from to g = if is_some (find to (row_of from g.edges_weight)) then g else record g {
    edges_weight = assign_edge to from (pos 0) (assign_edge from to (pos 0) g.edges_weight);
    n_edges = (g.n_edges + 1) % size_mod;
  }

  pub increment_edge_weight : K → K → ℤ → Graph K → Graph K
  unfolding add_at
  increment_edge_weight from to value g = record g {
    edges_weight = add_at to from value (add_at from to value g.edges_weight);
    total_edges_weight = g.total_edges_weight +ℤ value;
  }

  -- `edges_weight_[from][to]` in the test makes the entry, with weight 0.
  pub remove_weightless_edge : K → K → Graph K → Graph K
  unfolding assign_edge erase_at
  remove_weightless_edge from to g =
      let read = assign_edge from to (weight_at from to g.edges_weight) g.edges_weight in
      ite (ℤ-discrete (weight_at from to g.edges_weight) (pos 0))
        (record g {
          edges_weight = erase_at from to (erase_at to from read);
          n_edges = (g.n_edges + size_mod - 1) % size_mod;
        })
        (record g { edges_weight = read })

  pub vertice_exists : K → Graph K → Bool
  vertice_exists k g = is_some (find k g.vertex_weight)

  -- `none` is the `std::out_of_range` of `at`.
  pub are_connected : K → K → Graph K → Option Bool
  are_connected a b g = find a g.edges_weight >>= λ row. some (is_some (find b row))

  pub vertice_weight : K → Graph K → Option ℤ
  vertice_weight k g = find k g.vertex_weight

  pub edge_weight : K → K → Graph K → Option ℤ
  edge_weight from to g = find from g.edges_weight >>= λ row. find to row

  pub set_vertice_weight : K → ℤ → Graph K → Graph K
  set_vertice_weight k weight g = record g {
    vertex_weight = assign k weight g.vertex_weight;
    total_vertex_weight =
        g.total_vertex_weight -ℤ or_else (find k g.vertex_weight) (pos 0) +ℤ weight;
  }

  pub set_edge_weight : K → K → ℤ → Graph K → Graph K
  unfolding assign_edge
  set_edge_weight from to weight g = record g {
    edges_weight = assign_edge to from weight (assign_edge from to weight g.edges_weight);
    total_edges_weight = g.total_edges_weight -ℤ weight_at from to g.edges_weight +ℤ weight;
  }

pub n_vertex : {K : Type 0} → Graph K → ℕ
n_vertex g = length g.vertex_weight
