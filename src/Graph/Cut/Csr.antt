-- ===== src/Graph/Cut/Csr.antt =====
-- The arrays as a graph in compressed sparse rows: the offsets, and the vertices that the edges
-- name.
use mathlib.Core.List.{append_assoc, append-nil}
use kvpaxos.Base.{
  map, or_else, Option, fun_ext, ℕ, suc, ◌+◌, true, List, [], ◌∷◌, ◌++◌, ℤ, ◌≡◌, subst, refl, sym,
  ◌∙◌, arith, length, length-append, is_some, Option-cases, inl, inr, ap,
}
use mathlib.Core.Bool.{false≢true}
use kvpaxos.Base.Maps.{find}
use kvpaxos.Base.Results.{ok}
use kvpaxos.Types.{int_key}
use kvpaxos.Graph.{Graph, n_vertex}
use kvpaxos.Graph.Cut.{
  InputGraph, no_graph, sort, keys_of, sorted_vertex, back, add_rows, multilevel_cut_data,
}
use kvpaxos.Graph.Cut.Layout.{
  IsLaidOut, position, neighbours, neighbours_of, edges_of, edges_weight_of, ends_of,
}
use kvpaxos.Graph.Cut.Sorting.{sort-Ascending, position-find}
use kvpaxos.Graph.Cut.Numbering.{add_neighbours-below}
use kvpaxos.Graph.Cut.Places.{
  IsCsr, IsNumbered, Rising-snoc, back-snoc, length-sort, Found, Found-self, Found-rows,
  number_vertices-IsNumbered,
}

-- After the second loop.
record Filled (g : Graph ℤ) (n m : ℕ) (vs : List ℤ) (d : InputGraph) : Type 0 where
  after : InputGraph
  runs : add_rows g vs d ≡ ok after
  numbered : IsNumbered n after
  csr : IsCsr n (m + length vs) after
  same_places : after.vertice_to_pos ≡ d.vertice_to_pos
  same_weights : after.vertice_weight ≡ d.vertice_weight
  ends : after.x_edges ≡ d.x_edges ++ ends_of (λ k. find k d.vertice_to_pos) g (back 0 d.x_edges) vs
  edges : after.edges ≡ d.edges ++ edges_of (λ k. find k d.vertice_to_pos) g vs
  edges_weight :
      after.edges_weight ≡ d.edges_weight ++ edges_weight_of (λ k. find k d.vertice_to_pos) g vs

add_rows-IsCsr :
    (g : Graph ℤ) (n m : ℕ) (vs : List ℤ) (d : InputGraph)
    → IsNumbered n d
    → IsCsr n m d
    → Found g.edges_weight vs
    → Filled g n m vs d
unfolding add_rows
add_rows-IsCsr g n m [] d num csr f =
    let e : m + 0 ≡ m = omega arith in
    record {
      after = d;
      runs = refl;
      numbered = num;
      csr = rw e csr;
      same_places = refl;
      same_weights = refl;
      ends = sym (append-nil d.x_edges);
      edges = sym (append-nil d.edges);
      edges_weight = sym (append-nil d.edges_weight);
    }
add_rows-IsCsr g n m (v ∷ vs) d num csr f = elim (Option-cases (find v g.edges_weight)) [
  | inl e ↦ absurd (false≢true (sym (ap is_some e) ∙ f.0))
  | inr (row, e) ↦
      let one = add_neighbours-below n 0 row d num csr.paired csr.below in
      let last = back 0 d.x_edges + one.count in
      let rest =
        add_rows-IsCsr g n (m + 1) vs (record (one.after) { x_edges = d.x_edges ++ last ∷ [] })
          (record {
            weights = one.numbered.weights;
            below = one.numbered.below;
            entries = one.numbered.entries;
          })
          (record {
            offsets = omega (arith, csr.offsets, length-append d.x_edges (last ∷ []));
            rising = Rising-snoc 0 last d.x_edges csr.rising (omega arith);
            total = back-snoc 0 last d.x_edges ∙ omega (arith, csr.total, one.added);
            paired = one.paired;
            below = one.below;
          })
          f.1 in
      let same : m + suc (length vs) ≡ m + 1 + length vs = omega arith in
      let place : ℤ → Option ℕ = λ k. find k d.vertice_to_pos in
      let row_is : or_else (find v g.edges_weight) [] ≡ row = rw e refl in
      let count_is : last ≡ back 0 d.x_edges + length (neighbours_of place g v) =
        omega (arith, one.counted, ap (λ r. length (neighbours place r)) row_is) in
      record {
        after = rest.after;
        runs = rw e (rw (one.runs) (rest.runs));
        numbered = rest.numbered;
        csr = rw same (rest.csr);
        same_places = rest.same_places ∙ one.same_places;
        same_weights = rest.same_weights ∙ one.same_weights;
        ends =
            rest.ends
            ∙ ap
                (λ m.
                  (d.x_edges ++ last ∷ [])
                  ++ ends_of (λ k. find k m) g (back 0 (d.x_edges ++ last ∷ [])) vs)
                one.same_places
            ∙ ap (λ b. (d.x_edges ++ last ∷ []) ++ ends_of place g b vs)
                (back-snoc 0 last d.x_edges)
            ∙ append_assoc d.x_edges (last ∷ []) (ends_of place g last vs)
            ∙ ap (λ x. d.x_edges ++ x ∷ ends_of place g x vs) count_is;
        edges =
            rest.edges
            ∙ ap (λ m. one.after.edges ++ edges_of (λ k. find k m) g vs) one.same_places
            ∙ ap (λ x. x ++ edges_of place g vs)
                (one.edges ∙ ap (λ r. d.edges ++ map (λ e. e.0) (neighbours place r)) (sym row_is))
            ∙ append_assoc d.edges (map (λ e. e.0) (neighbours_of place g v)) (edges_of place g vs);
        edges_weight =
            rest.edges_weight
            ∙ ap (λ m. one.after.edges_weight ++ edges_weight_of (λ k. find k m) g vs)
                one.same_places
            ∙ ap (λ x. x ++ edges_weight_of place g vs)
                (one.edges_weight
                  ∙ ap (λ r. d.edges_weight ++ map (λ e. e.1) (neighbours place r)) (sym row_is))
            ∙ append_assoc d.edges_weight (map (λ e. e.1) (neighbours_of place g v))
                (edges_weight_of place g vs);
      }
]

-- Every vertex has a row of edges.
abbrev pub HasRows : Graph ℤ → Type 0
HasRows g =
    (k : ℤ) → is_some (find k g.vertex_weight) ≡ true → is_some (find k g.edges_weight) ≡ true

-- Of a graph whose vertices have rows, `multilevel_cut_data` succeeds, and its arrays hold the graph:
-- the vertices are sorted; each has the position at which it stands among them, and no other key has one;
-- the weights are those of the vertices, in that order; the edges are the rows, one behind the other,
-- each with the positions and the weights of its entries that are vertices, in the row's order; and
-- the offsets are 0 and the ends of the rows. So they are in compressed sparse rows: a weight for
-- each vertex, positions below the number of vertices, offsets that rise and end at the number of
-- edges, and edges that lead to vertices.
pub multilevel_cut_data-IsCsr :
    (g : Graph ℤ)
    → HasRows g
    → (d : InputGraph) × (multilevel_cut_data g ≡ ok d)
      × IsNumbered (n_vertex g) d
      × IsCsr (n_vertex g) (n_vertex g) d
      × IsLaidOut g d
unfolding multilevel_cut_data sorted_vertex n_vertex find
multilevel_cut_data-IsCsr g rows =
    let vs = sort (keys_of g.vertex_weight) in
    let found = Found-self g.vertex_weight in
    let one =
      number_vertices-IsNumbered g 0 vs no_graph
        (record { weights = refl; below = λ k i h. absurd (cc); entries = tt }) found in
    let size : length vs ≡ length g.vertex_weight = length-sort g.vertex_weight in
    let same : 0 + length vs ≡ length g.vertex_weight = omega (arith, size) in
    let two =
      add_rows-IsCsr g (0 + length vs) 0 vs (record (one.after) { x_edges = 0 ∷ [] })
        (record {
          weights = one.numbered.weights;
          below = one.numbered.below;
          entries = one.numbered.entries;
        })
        (record {
          offsets = refl;
          rising = (omega arith, tt);
          total = ap length (sym one.edges);
          paired = ap length one.edges_weight ∙ ap length (sym one.edges);
          below = rw (one.edges) tt;
        })
        (Found-rows g.vertex_weight g.edges_weight vs rows found) in
    let place : ℤ → Option ℕ = λ k. find k one.after.vertice_to_pos in
    let placed : place ≡ position g = fun_ext one.places in
    (
      two.after,
      rw (one.runs) (two.runs),
      subst (λ n. IsNumbered n two.after) same two.numbered,
      subst (λ n. IsCsr n n two.after) same two.csr,
      record {
        ordered = sort-Ascending (keys_of g.vertex_weight);
        vertices = position-find g;
        vertice_to_pos = λ k. ap (λ m. find k m) two.same_places ∙ one.places k;
        vertice_weight = two.same_weights ∙ one.written;
        x_edges = two.ends ∙ ap (λ f. 0 ∷ ends_of f g 0 vs) placed;
        edges =
            two.edges
            ∙ ap (λ es. es ++ edges_of place g vs) one.edges
            ∙ ap (λ f. edges_of f g vs) placed;
        edges_weight =
            two.edges_weight
            ∙ ap (λ es. es ++ edges_weight_of place g vs) one.edges_weight
            ∙ ap (λ f. edges_weight_of f g vs) placed;
      },
    )
