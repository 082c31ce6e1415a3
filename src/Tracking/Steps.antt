-- ===== src/Tracking/Steps.antt =====
-- The bodies of the loops of `update_graph` and `expire`, and what each does to a graph that holds
-- given weights.
use kvpaxos.Base.{
  ℕ, zero, suc, ◌-◌, ◌<◌, Bool, true, false, Option, none, some, ℤ, pos, negsuc, ◌+ℤ◌, ◌≡◌, refl,
  ◌≢◌, arith, if◌then◌else◌, ltb,
}
use kvpaxos.Base.Maps.{Key, find}
use kvpaxos.Graph.{
  Graph, add_vertice, increment_vertice_weight, remove_weightless_vertice, add_edge,
  increment_edge_weight, remove_weightless_edge, empty,
}
use kvpaxos.Graph.View.{
  at, at_pair, vertex, row, edge, vertex-add_vertice, row-add_vertice, edge-add_vertice,
  vertex-increment_vertice_weight, row-increment_vertice_weight, edge-increment_vertice_weight,
  vertex-remove_weightless_vertice, row-remove_weightless_vertice, edge-remove_weightless_vertice,
  vertex-add_edge, row-add_edge, edge-add_edge, vertex-increment_edge_weight,
  row-increment_edge_weight, edge-increment_edge_weight, vertex-remove_weightless_edge,
  row-remove_weightless_edge, edge-remove_weightless_edge,
}

-- An edge of weight 0 is not stored.
abbrev pub present : ℕ → Option ℤ
present zero = none
present (suc n) = some (pos (suc n))

module _ {K : Type 0} ⦃key : Key K⦄ where
  pub touch : K → Graph K → Graph K
  touch k g = increment_vertice_weight k (pos 1) (add_vertice k g)

  pub link_step : K → K → Graph K → Graph K
  link_step k j g = increment_edge_weight k j (pos 1) (add_edge k j (add_vertice j g))

  pub unlink_step : K → K → Graph K → Graph K
  unlink_step k j g =
      remove_weightless_vertice j
        (remove_weightless_edge k j (increment_edge_weight k j (negsuc 0) g))

  pub release : K → Graph K → Graph K
  release k g = remove_weightless_vertice k (increment_vertice_weight k (negsuc 0) g)

  -- The graph has the vertices `e`, with the weights `s`, and between them the edges of weight `q`.
  pub record Tracks (e : K → Bool) (s : K → ℕ) (q : K → K → ℕ) (g : Graph K) : Type 0 where
    pub vertices : (a : K) → vertex g a ≡ (if e a then some (pos (s a)) else none)
    pub rows : (a : K) → row g a ≡ e a
    pub edges : (a b : K) → edge g a b ≡ (if e a then present (q a b) else none)

  abbrev pub with_key : (K → Bool) → K → K → Bool
  with_key e k a = at k a true (e a)

  abbrev pub one_more : (K → ℕ) → K → K → ℕ
  one_more s k a = at k a (suc (s a)) (s a)

  abbrev pub one_less : (K → ℕ) → K → K → ℕ
  one_less s k a = at k a (s a - 1) (s a)

  abbrev pub pair_more : (K → K → ℕ) → K → K → K → K → ℕ
  pair_more q f t a b = at_pair t f a b (suc (q a b)) (at_pair f t a b (suc (q a b)) (q a b))

  abbrev pub pair_less : (K → K → ℕ) → K → K → K → K → ℕ
  pair_less q f t a b = at_pair t f a b (q a b - 1) (at_pair f t a b (q a b - 1) (q a b))

  module _ (e : K → Bool) (s : K → ℕ) (q : K → K → ℕ) (g : Graph K) (tr : Tracks e s q g) where
    open tr use {vertices, rows, edges}

    add_vertice-Tracks :
        (k : K)
        → (e k ≡ false → s k ≡ 0)
        → ((b : K) → e k ≡ false → q k b ≡ 0)
        → Tracks (with_key e k) s q (add_vertice k g)
    add_vertice-Tracks k hs hq = record {
      vertices = λ a. ground (arith, vertex-add_vertice k g a, vertices a, vertices k, hs);
      rows = λ a. ground (arith, row-add_vertice k g a, vertices k, rows a);
      edges = λ a b. ground (arith, edge-add_vertice k g a b, vertices k, edges a b, hq b);
    }

    increment-Tracks :
        (k : K) → e k ≡ true → Tracks e (one_more s k) q (increment_vertice_weight k (pos 1) g)
    unfolding ◌+ℤ◌
    increment-Tracks k h = record {
      vertices = λ a.
          ground (arith, vertex-increment_vertice_weight k (pos 1) g a, vertices a, vertices k);
      rows = λ a. ground (arith, row-increment_vertice_weight k (pos 1) g a, rows a);
      edges = λ a b. ground (arith, edge-increment_vertice_weight k (pos 1) g a b, edges a b);
    }

    -- The vertex goes when its last request does, and its row with it.
    pub release-Tracks :
        (k : K)
        → e k ≡ true
        → 0 < s k
        → Tracks (λ a. at k a (ltb 1 (s a)) (e a)) (one_less s k) q (release k g)
    unfolding ◌+ℤ◌ release
    release-Tracks k h p =
        let g' = increment_vertice_weight k (negsuc 0) g in
        record {
          vertices = λ a. ground (
            arith,
            vertex-remove_weightless_vertice k g' a,
            vertex-increment_vertice_weight k (negsuc 0) g a,
            vertex-increment_vertice_weight k (negsuc 0) g k,
            vertices a,
            vertices k,
          );
          rows = λ a. ground (
            arith,
            row-remove_weightless_vertice k g' a,
            row-increment_vertice_weight k (negsuc 0) g a,
            vertex-increment_vertice_weight k (negsuc 0) g k,
            vertices k,
            rows a,
          );
          edges = λ a b. ground (
            arith,
            edge-remove_weightless_vertice k g' a b,
            edge-increment_vertice_weight k (negsuc 0) g a b,
            vertex-increment_vertice_weight k (negsuc 0) g k,
            vertices k,
            edges a b,
          );
        }

  pub touch-Tracks :
      {e : K → Bool} {s : K → ℕ} {q : K → K → ℕ} {g : Graph K} (k : K)
      → Tracks e s q g
      → (e k ≡ false → s k ≡ 0)
      → ((b : K) → e k ≡ false → q k b ≡ 0)
      → Tracks (with_key e k) (one_more s k) q (touch k g)
  unfolding touch
  touch-Tracks k tr hs hq =
      increment-Tracks _ _ _ _ (add_vertice-Tracks _ _ _ _ tr k hs hq) k (ground arith)

  module _ (e : K → Bool) (s : K → ℕ) (q : K → K → ℕ) (g : Graph K) (tr : Tracks e s q g) (k j : K)
      (apart : k ≢ j) (ek : e k ≡ true) (even : q j k ≡ q k j) where
    open tr use {vertices, rows, edges}

    link-Tracks :
        e j ≡ true
        → Tracks e s (pair_more q k j) (increment_edge_weight k j (pos 1) (add_edge k j g))
    unfolding ◌+ℤ◌
    link-Tracks ej =
        let g' = add_edge k j g in
        record {
          vertices = λ a. ground (
            arith,
            vertex-increment_edge_weight k j (pos 1) g' a,
            vertex-add_edge k j g a,
            vertices a,
          );
          rows = λ a. ground (
            arith,
            row-increment_edge_weight k j g' apart (pos 1) a,
            row-add_edge k j g apart a,
            rows a,
          );
          edges = λ a b. ground (
            arith,
            edge-increment_edge_weight k j g' apart (pos 1) a b,
            edge-add_edge k j g apart a b,
            edge-add_edge k j g apart k j,
            edge-add_edge k j g apart j k,
            edges a b,
            edges k j,
            edges j k,
          );
        }

    pub unlink_step-Tracks :
        e j ≡ ltb 0 (s j)
        → 0 < q k j
        → (s j ≡ 0 → q k j ≡ 1)
        → Tracks e s (pair_less q k j) (unlink_step k j g)
    unfolding ◌+ℤ◌ unlink_step
    unlink_step-Tracks ej some_left last =
        let g' = increment_edge_weight k j (negsuc 0) g in
        let g'' = remove_weightless_edge k j g' in
        record {
          vertices = λ a. ground (
            arith,
            vertex-remove_weightless_vertice j g'' a,
            vertex-remove_weightless_edge k j g' a,
            vertex-remove_weightless_edge k j g' j,
            vertex-increment_edge_weight k j (negsuc 0) g a,
            vertex-increment_edge_weight k j (negsuc 0) g j,
            vertices a,
            vertices j,
          );
          rows = λ a. ground (
            arith,
            row-remove_weightless_vertice j g'' a,
            vertex-remove_weightless_edge k j g' j,
            vertex-increment_edge_weight k j (negsuc 0) g j,
            row-remove_weightless_edge k j g' apart a,
            row-increment_edge_weight k j g apart (negsuc 0) a,
            vertices j,
            rows a,
          );
          edges = λ a b. ground (
            arith,
            edge-remove_weightless_vertice j g'' a b,
            vertex-remove_weightless_edge k j g' j,
            vertex-increment_edge_weight k j (negsuc 0) g j,
            edge-remove_weightless_edge k j g' apart a b,
            edge-increment_edge_weight k j g apart (negsuc 0) a b,
            edge-increment_edge_weight k j g apart (negsuc 0) k j,
            vertices j,
            edges a b,
            edges k j,
            edges j k,
          );
        }

  pub Tracks-ext :
      {e e' : K → Bool} {s s' : K → ℕ} {q q' : K → K → ℕ} {g : Graph K}
      → Tracks e s q g
      → ((a : K) → e a ≡ e' a)
      → ((a : K) → s a ≡ s' a)
      → ((a b : K) → q a b ≡ q' a b)
      → Tracks e' s' q' g
  Tracks-ext tr he hs hq = record {
    vertices = λ a. ground (arith, tr.vertices a, he a, hs a);
    rows = λ a. ground (arith, tr.rows a, he a);
    edges = λ a b. ground (arith, tr.edges a b, he a, hq a b);
  }

  -- Where there is no vertex there is no weight.
  pub record Grounded (e : K → Bool) (s : K → ℕ) (q : K → K → ℕ) : Type 0 where
    pub no_weight : (a : K) → e a ≡ false → s a ≡ 0
    pub no_edge : (a b : K) → e a ≡ false → q a b ≡ 0
    pub even : (a b : K) → q a b ≡ q b a

  pub link_step-Tracks :
      (e : K → Bool) (s : K → ℕ) (q : K → K → ℕ) (g : Graph K) (k j : K)
      → Tracks e s q g
      → Grounded e s q
      → k ≢ j
      → e k ≡ true
      → Tracks (with_key e j) s (pair_more q k j) (link_step k j g)
  unfolding link_step
  link_step-Tracks e s q g k j tr gr apart ek =
      link-Tracks (with_key e j) s q (add_vertice j g)
        (add_vertice-Tracks e s q g tr j (gr.no_weight j) (gr.no_edge j)) k j apart (ground arith)
        (gr.even j k) (ground arith)

  pub link_step-Grounded :
      (e : K → Bool) (s : K → ℕ) (q : K → K → ℕ) (k j : K)
      → Grounded e s q
      → e k ≡ true
      → Grounded (with_key e j) s (pair_more q k j)
  link_step-Grounded e s q k j gr ek = record {
    no_weight = λ a h. ground (arith, gr.no_weight a);
    no_edge = λ a b h. ground (arith, gr.no_edge a b);
    even = λ a b. ground (arith, gr.even a b);
  }

  pub empty-Tracks : Tracks (λ a. false) (λ a. 0) (λ a b. 0) empty
  unfolding vertex row edge find
  empty-Tracks = record { vertices = λ a. refl; rows = λ a. refl; edges = λ a b. refl }
