-- ===== src/Graph/Cut.antt =====
-- src/graph/graph.hpp, `sorted_vertex`, `sorted_map` and `multilevel_cut_data`, and
-- src/scheduler/input_graph.hpp: the graph in the arrays that METIS and KaHIP take.
pub mod Layout
pub mod Sorting
pub mod Places
pub mod Numbering
pub mod Csr
use kvpaxos.Base.{
  ℕ, zero, suc, ◌+◌, Option, none, some, List, [], ◌∷◌, ◌++◌, ℤ, leb_ℤ, if◌then◌else◌, map,
}
use kvpaxos.Base.Maps.{Map, find, assign}
use kvpaxos.Base.Results.{Result, ok, ◌>>=◌, or_throw}
use kvpaxos.Types.{int_key}
use kvpaxos.Graph.{Graph}

-- `struct InputGraph`
pub record InputGraph : Type 0 where
  pub vertice_weight : List ℤ
  pub x_edges : List ℕ
  pub edges : List ℕ
  pub edges_weight : List ℤ
  pub vertice_to_pos : Map ℤ ℕ

abbrev pub no_graph : InputGraph
no_graph = record {
  vertice_weight = [];
  x_edges = [];
  edges = [];
  edges_weight = [];
  vertice_to_pos = [];
}

-- `std::sort`, and the order in which `std::map` keeps its keys.
pub insert_sorted : ℤ → List ℤ → List ℤ
insert_sorted k [] = k ∷ []
insert_sorted k (j ∷ js) =
    let rest = insert_sorted k js in if leb_ℤ k j then k ∷ j ∷ js else j ∷ rest

pub sort : List ℤ → List ℤ
unfolding insert_sorted
sort [] = []
sort (k ∷ ks) = insert_sorted k (sort ks)

abbrev pub keys_of : Map ℤ ℤ → List ℤ
keys_of [] = []
keys_of ((k, w) ∷ m) = k ∷ keys_of m

pub sorted_vertex : Graph ℤ → List ℤ
unfolding sort
sorted_vertex g = sort (keys_of g.vertex_weight)

insert_entry : ℤ × ℤ → List (ℤ × ℤ) → List (ℤ × ℤ)
insert_entry e [] = e ∷ []
insert_entry e (f ∷ fs) =
    let rest = insert_entry e fs in if leb_ℤ (e.0) (f.0) then e ∷ f ∷ fs else f ∷ rest

pub sorted_map : Graph ℤ → List (ℤ × ℤ)
unfolding insert_entry
sorted_map g = entries g.vertex_weight
  where
    entries : List (ℤ × ℤ) → List (ℤ × ℤ)
    entries [] = []
    entries (e ∷ m) = insert_entry e (entries m)

-- The first loop over the vertices, from position `i`.
pub number_vertices : Graph ℤ → ℕ → List ℤ → InputGraph → Result InputGraph
number_vertices g i [] d = ok d
number_vertices g i (v ∷ vs) d = or_throw (find v g.vertex_weight) >>= λ w.
    number_vertices g (i + 1) vs (record d {
      vertice_weight = d.vertice_weight ++ w ∷ [];
      vertice_to_pos = assign v i d.vertice_to_pos;
    })

-- The loop over the edges of a vertex. Its second result is `n_neighbours`.
pub add_neighbours : List (ℤ × ℤ) → ℕ → InputGraph → InputGraph × ℕ
add_neighbours [] n d = (d, n)
add_neighbours ((k, w) ∷ row) n d = elim (find k d.vertice_to_pos) [
  | none ↦ add_neighbours row n d
  | some j ↦
      add_neighbours row (n + 1)
        (record d { edges = d.edges ++ j ∷ []; edges_weight = d.edges_weight ++ w ∷ [] })
]

-- `x_edges.back()` of the vector, which is not empty.
abbrev pub back : ℕ → List ℕ → ℕ
back x [] = x
back x (y ∷ ys) = back y ys

-- The second loop over the vertices.
pub add_rows : Graph ℤ → List ℤ → InputGraph → Result InputGraph
unfolding add_neighbours
add_rows g [] d = ok d
add_rows g (v ∷ vs) d = or_throw (find v g.edges_weight) >>= λ row.
    let (e, n) = add_neighbours row 0 d in
    add_rows g vs (record e { x_edges = d.x_edges ++ (back 0 d.x_edges + n) ∷ [] })

-- The call on empty vectors, as the constructor of `InputGraph` does it.
pub multilevel_cut_data : Graph ℤ → Result InputGraph
unfolding number_vertices add_rows
multilevel_cut_data g = number_vertices g 0 (sorted_vertex g) no_graph >>= λ d.
    add_rows g (sorted_vertex g) (record d { x_edges = 0 ∷ [] })
