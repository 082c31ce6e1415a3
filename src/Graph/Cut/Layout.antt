-- ===== src/Graph/Cut/Layout.antt =====
-- What the arrays of `multilevel_cut_data` are to hold, written from the graph alone.
use kvpaxos.Base.{
  All, leb_ℤ, true, is_some, ℕ, ◌+◌, Option, none, some, List, [], ◌∷◌, ◌++◌, ℤ, pos, map, length,
  ite, ℤ-discrete, or_else, ◌≡◌, refl,
}
use kvpaxos.Base.Maps.{Map, find}
use kvpaxos.Types.{int_key}
use kvpaxos.Graph.{Graph}
use kvpaxos.Graph.Cut.{InputGraph, sorted_vertex}

-- Keys that do not fall.
abbrev pub Ascending : List ℤ → Type 0
Ascending [] = Unit {0}
Ascending (k ∷ ks) = All (λ j. leb_ℤ k j ≡ true) ks × Ascending ks

-- Where the key stands in the list, counted from `i`; `old` if it does not.
abbrev pub place_from : ℕ → List ℤ → Option ℕ → ℤ → Option ℕ
place_from i [] old k = old
place_from i (v ∷ vs) old k = place_from (i + 1) vs (ite (ℤ-discrete v k) (some i) old) k

-- The position of a key among the sorted vertices.
abbrev pub position : Graph ℤ → ℤ → Option ℕ
position g k = place_from 0 (sorted_vertex g) none k

-- The entries of a row whose key has a position: that, and the weight.
pub neighbours : (ℤ → Option ℕ) → Map ℤ ℤ → List (ℕ × ℤ)
neighbours place [] = []
neighbours place ((k, w) ∷ row) = elim (place k) [
  | none ↦ neighbours place row
  | some j ↦ (j, w) ∷ neighbours place row
]

pub neighbours-cons_none :
    (place : ℤ → Option ℕ) (k w : ℤ) (row : Map ℤ ℤ)
    → place k ≡ none
    → neighbours place ((k, w) ∷ row) ≡ neighbours place row
unfolding neighbours
neighbours-cons_none place k w row e = rw (e, neighbours) refl

pub neighbours-cons_some :
    (place : ℤ → Option ℕ) (k w : ℤ) (row : Map ℤ ℤ) (j : ℕ)
    → place k ≡ some j
    → neighbours place ((k, w) ∷ row) ≡ (j, w) ∷ neighbours place row
unfolding neighbours
neighbours-cons_some place k w row j e = rw (e, neighbours) refl

pub neighbours-nil : (place : ℤ → Option ℕ) → neighbours place [] ≡ []
unfolding neighbours
neighbours-nil place = refl

abbrev pub weights_of : Graph ℤ → List ℤ → List ℤ
weights_of g [] = []
weights_of g (v ∷ vs) = or_else (find v g.vertex_weight) (pos 0) ∷ weights_of g vs

abbrev pub neighbours_of : (ℤ → Option ℕ) → Graph ℤ → ℤ → List (ℕ × ℤ)
neighbours_of place g v = neighbours place (or_else (find v g.edges_weight) [])

-- The rows one behind the other, and where each ends.
abbrev pub edges_of : (ℤ → Option ℕ) → Graph ℤ → List ℤ → List ℕ
edges_of place g [] = []
edges_of place g (v ∷ vs) = map (λ e. e.0) (neighbours_of place g v) ++ edges_of place g vs

abbrev pub edges_weight_of : (ℤ → Option ℕ) → Graph ℤ → List ℤ → List ℤ
edges_weight_of place g [] = []
edges_weight_of place g (v ∷ vs) =
    map (λ e. e.1) (neighbours_of place g v) ++ edges_weight_of place g vs

abbrev pub ends_of : (ℤ → Option ℕ) → Graph ℤ → ℕ → List ℤ → List ℕ
ends_of place g x [] = []
ends_of place g x (v ∷ vs) =
    (x + length (neighbours_of place g v))
    ∷ ends_of place g (x + length (neighbours_of place g v)) vs

-- The arrays hold the graph.
pub record IsLaidOut (g : Graph ℤ) (d : InputGraph) : Type 0 where
  pub ordered : Ascending (sorted_vertex g)
  pub vertices : (k : ℤ) → is_some (position g k) ≡ is_some (find k g.vertex_weight)
  pub vertice_to_pos : (k : ℤ) → find k d.vertice_to_pos ≡ position g k
  pub vertice_weight : d.vertice_weight ≡ weights_of g (sorted_vertex g)
  pub x_edges : d.x_edges ≡ 0 ∷ ends_of (position g) g 0 (sorted_vertex g)
  pub edges : d.edges ≡ edges_of (position g) g (sorted_vertex g)
  pub edges_weight : d.edges_weight ≡ edges_weight_of (position g) g (sorted_vertex g)
