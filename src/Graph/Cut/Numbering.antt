-- ===== src/Graph/Cut/Numbering.antt =====
-- What the loop over the edges of one vertex adds to the compressed sparse rows.
use kvpaxos.Base.{
  ℕ, ◌+◌, ◌≤◌, ◌<◌, List, [], ◌∷◌, ◌++◌, ℤ, ◌≡◌, refl, sym, ◌∙◌, arith, All, length, length-append,
  Option-cases, inl, inr, map,
}
use mathlib.Core.List.{append_assoc, append-nil}
use kvpaxos.Graph.Cut.Layout.{
  neighbours, neighbours-nil, neighbours-cons_none, neighbours-cons_some,
}
use kvpaxos.Base.Maps.{find}
use kvpaxos.Types.{int_key}
use kvpaxos.Graph.Cut.{InputGraph, add_neighbours}
use kvpaxos.Graph.Cut.Places.{IsNumbered, All-snoc}

-- What the loop over the edges of a vertex does.
pub record EdgesAdded (n : ℕ) (c : ℕ) (row : List (ℤ × ℤ)) (d : InputGraph) : Type 0 where
  pub after : InputGraph
  pub count : ℕ
  pub runs : add_neighbours row c d ≡ (after, count)
  pub numbered : IsNumbered n after
  pub offsets : after.x_edges ≡ d.x_edges
  pub added : length after.edges + c ≡ length d.edges + count
  pub grown : c ≤ count
  pub paired : length after.edges_weight ≡ length after.edges
  pub below : All (λ e. e < n) after.edges
  pub same_places : after.vertice_to_pos ≡ d.vertice_to_pos
  pub same_weights : after.vertice_weight ≡ d.vertice_weight
  pub edges :
      after.edges ≡ d.edges ++ map (λ e. e.0) (neighbours (λ k. find k d.vertice_to_pos) row)
  pub edges_weight :
      after.edges_weight
      ≡ d.edges_weight ++ map (λ e. e.1) (neighbours (λ k. find k d.vertice_to_pos) row)
  pub counted : count ≡ c + length (neighbours (λ k. find k d.vertice_to_pos) row)

pub add_neighbours-below :
    (n c : ℕ) (row : List (ℤ × ℤ)) (d : InputGraph)
    → IsNumbered n d
    → length d.edges_weight ≡ length d.edges
    → All (λ e. e < n) d.edges
    → EdgesAdded n c row d
unfolding add_neighbours
add_neighbours-below n c [] d num paired below = record {
  after = d;
  count = c;
  runs = refl;
  numbered = num;
  offsets = refl;
  added = refl;
  grown = omega arith;
  paired = paired;
  below = below;
  same_places = refl;
  same_weights = refl;
  edges = rw (neighbours-nil (λ k. find k d.vertice_to_pos)) (sym (append-nil d.edges));
  edges_weight =
      rw (neighbours-nil (λ k. find k d.vertice_to_pos)) (sym (append-nil d.edges_weight));
  counted = rw (neighbours-nil (λ k. find k d.vertice_to_pos)) (omega arith);
}
add_neighbours-below n c ((k, w) ∷ row) d num paired below =
    elim (Option-cases (find k d.vertice_to_pos)) [
      | inl e ↦
          let rest = add_neighbours-below n c row d num paired below in
          record {
            after = rest.after;
            count = rest.count;
            runs = rw (e, add_neighbours) (rest.runs);
            numbered = rest.numbered;
            offsets = rest.offsets;
            added = rest.added;
            grown = rest.grown;
            paired = rest.paired;
            below = rest.below;
            same_places = rest.same_places;
            same_weights = rest.same_weights;
            edges =
                rw (neighbours-cons_none (λ k'. find k' d.vertice_to_pos) k w row e) (rest.edges);
            edges_weight =
                rw (neighbours-cons_none (λ k'. find k' d.vertice_to_pos) k w row e)
                  (rest.edges_weight);
            counted =
                rw (neighbours-cons_none (λ k'. find k' d.vertice_to_pos) k w row e) (rest.counted);
          }
      | inr (j, e) ↦
          let rest =
            add_neighbours-below n (c + 1) row
              (record d { edges = d.edges ++ j ∷ []; edges_weight = d.edges_weight ++ w ∷ [] })
              (record { weights = num.weights; below = num.below; entries = num.entries })
              (omega (
                arith,
                paired,
                length-append d.edges (j ∷ []),
                length-append d.edges_weight (w ∷ []),
              ))
              (All-snoc n j d.edges below (num.below k j e)) in
          record {
            after = rest.after;
            count = rest.count;
            runs = rw (e, add_neighbours) (rest.runs);
            numbered = rest.numbered;
            offsets = rest.offsets;
            added = omega (arith, rest.added, length-append d.edges (j ∷ []));
            grown = omega (arith, rest.grown);
            paired = rest.paired;
            below = rest.below;
            same_places = rest.same_places;
            same_weights = rest.same_weights;
            edges =
                rw (neighbours-cons_some (λ k'. find k' d.vertice_to_pos) k w row j e)
                  (rest.edges ∙ append_assoc d.edges (j ∷ []) _);
            edges_weight =
                rw (neighbours-cons_some (λ k'. find k' d.vertice_to_pos) k w row j e)
                  (rest.edges_weight ∙ append_assoc d.edges_weight (w ∷ []) _);
            counted =
                rw (neighbours-cons_some (λ k'. find k' d.vertice_to_pos) k w row j e)
                  (omega (arith, rest.counted));
          }
    ]
