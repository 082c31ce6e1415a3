-- ===== src/Graph/View.antt =====
-- The graph seen through its reads: which vertices and rows there are, and each edge's weight.
use kvpaxos.Base.{
  [], Bool, true, false, Option, none, some, ℤ, pos, ◌+ℤ◌, ite, ◌≡◌, refl, ◌≢◌, arith, ℤ-discrete,
  if◌then◌else◌, is_some, or_else,
}
use kvpaxos.Base.Maps.{Key, Map, find, assign, erase, find-nil, find-assign, find-erase}
use kvpaxos.Graph.{
  Graph, assign_edge, add_at, erase_at, weight_at, row_of, add_vertice, increment_vertice_weight,
  remove_weightless_vertice, add_edge, increment_edge_weight, remove_weightless_edge,
}

-- An update of a family at one key, and at one pair of keys.
module _ {K : Type 0} ⦃key : Key K⦄ {A : Type 0} where
  abbrev pub at : K → K → A → A → A
  at k a new old = ite (key.same k a) new old

  abbrev pub at_pair : K → K → K → K → A → A → A
  at_pair f t a b new old = ite (key.same f a) (ite (key.same t b) new old) old

module _ {K : Type 0} ⦃key : Key K⦄ where
  unfoldable pub vertex : Graph K → K → Option ℤ
  vertex g a = find a g.vertex_weight

  unfoldable pub row : Graph K → K → Bool
  row g a = is_some (find a g.edges_weight)

  abbrev pub entry : Map K (Map K ℤ) → K → K → Option ℤ
  entry m a b = find b (row_of a m)

  unfoldable pub edge : Graph K → K → K → Option ℤ
  edge g a b = entry g.edges_weight a b

  entry-assign_edge :
      (f t : K) (w : ℤ) (m : Map K (Map K ℤ)) (a b : K)
      → entry (assign_edge f t w m) a b ≡ at_pair f t a b (some w) (entry m a b)
  unfolding assign_edge
  entry-assign_edge f t w m a b =
      ground (arith, find-assign f a (assign t w (row_of f m)) m, find-assign t b w (row_of f m))

  row-assign_edge :
      (f t : K) (w : ℤ) (m : Map K (Map K ℤ)) (a : K)
      → is_some (find a (assign_edge f t w m)) ≡ at f a true (is_some (find a m))
  unfolding assign_edge
  row-assign_edge f t w m a = ground (arith, find-assign f a (assign t w (row_of f m)) m)

  entry-erase_at :
      (f t : K) (m : Map K (Map K ℤ)) (a b : K)
      → entry (erase_at f t m) a b ≡ at_pair f t a b none (entry m a b)
  unfolding erase_at
  entry-erase_at f t m a b =
      ground (arith, find-assign f a (erase t (row_of f m)) m, find-erase t b (row_of f m))

  row-erase_at :
      (f t : K) (m : Map K (Map K ℤ)) (a : K)
      → is_some (find a (erase_at f t m)) ≡ at f a true (is_some (find a m))
  unfolding erase_at
  row-erase_at f t m a = ground (arith, find-assign f a (erase t (row_of f m)) m)

  -- `add_vertice`
  pub vertex-add_vertice :
      (k : K) (g : Graph K) (a : K)
      → vertex (add_vertice k g) a
        ≡ (if is_some (vertex g a) then vertex g a else at k a (some (pos 0)) none)
  unfolding vertex add_vertice
  vertex-add_vertice k g a = ground (arith, find-assign k a (pos 0) g.vertex_weight)

  pub row-add_vertice :
      (k : K) (g : Graph K) (a : K)
      → row (add_vertice k g) a ≡ (if is_some (vertex g k) then row g a else at k a true (row g a))
  unfolding vertex row add_vertice
  row-add_vertice k g a = ground (arith, find-assign k a [] g.edges_weight)

  pub edge-add_vertice :
      (k : K) (g : Graph K) (a b : K)
      → edge (add_vertice k g) a b
        ≡ (if is_some (vertex g k) then edge g a b else at k a none (edge g a b))
  unfolding vertex edge add_vertice
  edge-add_vertice k g a b = ground (arith, find-assign k a [] g.edges_weight, find-nil {V = ℤ} b)

  -- `increment_vertice_weight`
  pub vertex-increment_vertice_weight :
      (k : K) (w : ℤ) (g : Graph K) (a : K)
      → vertex (increment_vertice_weight k w g) a
        ≡ at k a (some (or_else (vertex g k) (pos 0) +ℤ w)) (vertex g a)
  unfolding vertex increment_vertice_weight
  vertex-increment_vertice_weight k w g a =
      find-assign k a (or_else (find k g.vertex_weight) (pos 0) +ℤ w) g.vertex_weight

  pub row-increment_vertice_weight :
      (k : K) (w : ℤ) (g : Graph K) (a : K) → row (increment_vertice_weight k w g) a ≡ row g a
  unfolding row increment_vertice_weight
  row-increment_vertice_weight k w g a = refl

  pub edge-increment_vertice_weight :
      (k : K) (w : ℤ) (g : Graph K) (a b : K)
      → edge (increment_vertice_weight k w g) a b ≡ edge g a b
  unfolding edge increment_vertice_weight
  edge-increment_vertice_weight k w g a b = refl

  -- `remove_weightless_vertice`
  pub vertex-remove_weightless_vertice :
      (k : K) (g : Graph K) (a : K)
      → vertex (remove_weightless_vertice k g) a
        ≡ ite
            (ℤ-discrete (or_else (vertex g k) (pos 0)) (pos 0))
            (at k a none (vertex g a))
            (vertex g a)
  unfolding vertex remove_weightless_vertice
  vertex-remove_weightless_vertice k g a = ground (arith, find-erase k a g.vertex_weight)

  pub row-remove_weightless_vertice :
      (k : K) (g : Graph K) (a : K)
      → row (remove_weightless_vertice k g) a
        ≡ ite (ℤ-discrete (or_else (vertex g k) (pos 0)) (pos 0)) (at k a false (row g a)) (row g a)
  unfolding vertex row remove_weightless_vertice
  row-remove_weightless_vertice k g a = ground (arith, find-erase k a g.edges_weight)

  pub edge-remove_weightless_vertice :
      (k : K) (g : Graph K) (a b : K)
      → edge (remove_weightless_vertice k g) a b
        ≡ ite
            (ℤ-discrete (or_else (vertex g k) (pos 0)) (pos 0))
            (at k a none (edge g a b))
            (edge g a b)
  unfolding vertex edge remove_weightless_vertice
  edge-remove_weightless_vertice k g a b =
      ground (arith, find-erase k a g.edges_weight, find-nil {V = ℤ} b)

  -- Operations on edges leave the vertices alone.
  pub vertex-add_edge : (f t : K) (g : Graph K) (a : K) → vertex (add_edge f t g) a ≡ vertex g a
  unfolding vertex add_edge
  vertex-add_edge f t g a = ground arith

  pub vertex-increment_edge_weight :
      (f t : K) (v : ℤ) (g : Graph K) (a : K)
      → vertex (increment_edge_weight f t v g) a ≡ vertex g a
  unfolding vertex increment_edge_weight
  vertex-increment_edge_weight f t v g a = refl

  pub vertex-remove_weightless_edge :
      (f t : K) (g : Graph K) (a : K) → vertex (remove_weightless_edge f t g) a ≡ vertex g a
  unfolding vertex remove_weightless_edge
  vertex-remove_weightless_edge f t g a = ground arith

  -- The edge operations, between two different keys.
  module _ (f t : K) (g : Graph K) (apart : f ≢ t) where
    pub edge-add_edge :
        (a b : K)
        → edge (add_edge f t g) a b ≡ (
            if is_some (edge g f t)
            then edge g a b
            else at_pair t f a b (some (pos 0)) (at_pair f t a b (some (pos 0)) (edge g a b)))
    unfolding edge add_edge
    edge-add_edge a b = ground (
      arith,
      entry-assign_edge f t (pos 0) g.edges_weight a b,
      entry-assign_edge t f (pos 0) (assign_edge f t (pos 0) g.edges_weight) a b,
    )

    pub row-add_edge :
        (a : K)
        → row (add_edge f t g) a
          ≡ (if is_some (edge g f t) then row g a else at t a true (at f a true (row g a)))
    unfolding edge row add_edge
    row-add_edge a = ground (
      arith,
      row-assign_edge f t (pos 0) g.edges_weight a,
      row-assign_edge t f (pos 0) (assign_edge f t (pos 0) g.edges_weight) a,
    )

    pub edge-increment_edge_weight :
        (v : ℤ) (a b : K)
        → edge (increment_edge_weight f t v g) a b
          ≡ at_pair t f a b
              (some (or_else (edge g t f) (pos 0) +ℤ v))
              (at_pair f t a b (some (or_else (edge g f t) (pos 0) +ℤ v)) (edge g a b))
    unfolding edge increment_edge_weight add_at
    edge-increment_edge_weight v a b = ground (
      arith,
      entry-assign_edge f t (or_else (edge g f t) (pos 0) +ℤ v) g.edges_weight a b,
      entry-assign_edge f t (or_else (edge g f t) (pos 0) +ℤ v) g.edges_weight t f,
      entry-assign_edge t f (or_else (edge g t f) (pos 0) +ℤ v)
          (assign_edge f t (or_else (edge g f t) (pos 0) +ℤ v) g.edges_weight) a b,
    )

    pub row-increment_edge_weight :
        (v : ℤ) (a : K)
        → row (increment_edge_weight f t v g) a ≡ at t a true (at f a true (row g a))
    unfolding row increment_edge_weight add_at
    row-increment_edge_weight v a =
        let m = assign_edge f t (weight_at f t g.edges_weight +ℤ v) g.edges_weight in
        ground (
          arith,
          row-assign_edge f t (weight_at f t g.edges_weight +ℤ v) g.edges_weight a,
          row-assign_edge t f (weight_at t f m +ℤ v) m a,
        )

    pub edge-remove_weightless_edge :
        (a b : K)
        → edge (remove_weightless_edge f t g) a b
          ≡ ite
              (ℤ-discrete (or_else (edge g f t) (pos 0)) (pos 0))
              (at_pair f t a b none (at_pair t f a b none (edge g a b)))
              (at_pair f t a b (some (or_else (edge g f t) (pos 0))) (edge g a b))
    unfolding edge remove_weightless_edge
    edge-remove_weightless_edge a b =
        let w = weight_at f t g.edges_weight in
        let m = assign_edge f t w g.edges_weight in
        ground (
          arith,
          entry-assign_edge f t w g.edges_weight a b,
          entry-erase_at t f m a b,
          entry-erase_at f t (erase_at t f m) a b,
        )

    pub row-remove_weightless_edge :
        (a : K)
        → row (remove_weightless_edge f t g) a
          ≡ ite
              (ℤ-discrete (or_else (edge g f t) (pos 0)) (pos 0))
              (at f a true (at t a true (row g a)))
              (at f a true (row g a))
    unfolding edge row remove_weightless_edge
    row-remove_weightless_edge a =
        let w = weight_at f t g.edges_weight in
        let m = assign_edge f t w g.edges_weight in
        ground (
          arith,
          row-assign_edge f t w g.edges_weight a,
          row-erase_at t f m a,
          row-erase_at f t (erase_at t f m) a,
        )
