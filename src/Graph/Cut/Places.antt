-- ===== src/Graph/Cut/Places.antt =====
-- The first loop of `multilevel_cut_data`: the positions of the vertices, and their weights.
use kvpaxos.Base.{
  ℕ, suc, ◌+◌, ◌≤◌, ◌<◌, true, some, List, [], ◌∷◌, ◌++◌, ℤ, leb_ℤ, ◌≡◌, refl, sym, ◌∙◌, arith, All,
  length, length-append, is_some, Option-cases, Bool-cases, inl, inr, ℤ-discrete, if_pos, if_neg,
  ap,
}
use mathlib.Core.Bool.{false≢true}
use mathlib.Core.List.{append_assoc, append-nil}
use kvpaxos.Graph.Cut.Layout.{place_from, weights_of}
use kvpaxos.Base.Maps.{Map, find, assign, find-assign}
use kvpaxos.Base.Results.{ok}
use kvpaxos.Types.{int_key}
use kvpaxos.Graph.{Graph}
use kvpaxos.Graph.Cut.{InputGraph, insert_sorted, sort, keys_of, number_vertices, back}

-- Numbers that do not fall, from `x` on.
abbrev pub Rising : ℕ → List ℕ → Type 0
Rising x [] = Unit {0}
Rising x (y ∷ ys) = (x ≤ y) × Rising y ys

-- `n` vertices, with the first `m` rows written.
pub record IsCsr (n m : ℕ) (d : InputGraph) : Type 0 where
  pub offsets : length d.x_edges ≡ m + 1
  pub rising : Rising 0 d.x_edges
  pub total : back 0 d.x_edges ≡ length d.edges
  pub paired : length d.edges_weight ≡ length d.edges
  pub below : All (λ e. e < n) d.edges

-- The vertices have the positions below `n`, and `n` weights.
pub record IsNumbered (n : ℕ) (d : InputGraph) : Type 0 where
  pub weights : length d.vertice_weight ≡ n
  pub below : (k : ℤ) (i : ℕ) → find k d.vertice_to_pos ≡ some i → i < n
  pub entries : All (λ e. e.1 < n) d.vertice_to_pos

pub Rising-snoc : (x y : ℕ) (xs : List ℕ) → Rising x xs → back x xs ≤ y → Rising x (xs ++ y ∷ [])
Rising-snoc x y [] r h = (h, tt)
Rising-snoc x y (z ∷ xs) r h = (r.0, Rising-snoc z y xs r.1 h)

pub back-snoc : (x y : ℕ) (xs : List ℕ) → back x (xs ++ y ∷ []) ≡ y
back-snoc x y [] = refl
back-snoc x y (z ∷ xs) = back-snoc z y xs

pub All-snoc :
    (n j : ℕ) (es : List ℕ) → All (λ e. e < n) es → j < n → All (λ e. e < n) (es ++ j ∷ [])
All-snoc n j [] a h = (h, tt)
All-snoc n j (e ∷ es) a h = (a.0, All-snoc n j es a.1 h)

length-insert_sorted : (k : ℤ) (ks : List ℤ) → length (insert_sorted k ks) ≡ suc (length ks)
unfolding insert_sorted
length-insert_sorted k [] = refl
length-insert_sorted k (j ∷ js) = ground (arith, length-insert_sorted k js)

pub length-sort : (m : Map ℤ ℤ) → length (sort (keys_of m)) ≡ length m
unfolding sort
length-sort [] = refl
length-sort ((k, w) ∷ m) = omega (arith, length-insert_sorted k (sort (keys_of m)), length-sort m)

-- Every key of the list has a value in the map.
abbrev pub Found : {V : Type 0} → Map ℤ V → List ℤ → Type 0
Found m ks = All (λ k. is_some (find k m) ≡ true) ks

Found-insert_sorted :
    {V : Type 0} (m : Map ℤ V) (k : ℤ) (ks : List ℤ)
    → is_some (find k m) ≡ true
    → Found m ks
    → Found m (insert_sorted k ks)
unfolding insert_sorted
Found-insert_sorted m k [] h f = (h, tt)
Found-insert_sorted m k (j ∷ js) h f = elim (Bool-cases (leb_ℤ k j)) [
  | inl e ↦ rw e (h, f)
  | inr e ↦ rw e (f.0, Found-insert_sorted m k js h f.1)
]

Found-keys :
    (m m' : Map ℤ ℤ) (ks : List ℤ)
    → ((k : ℤ) → is_some (find k m) ≡ true → is_some (find k m') ≡ true)
    → Found m ks
    → Found m' ks
Found-keys m m' [] h f = tt
Found-keys m m' (k ∷ ks) h f = (h k f.0, Found-keys m m' ks h f.1)

pub Found-self : (m : Map ℤ ℤ) → Found m (sort (keys_of m))
unfolding sort find
Found-self [] = tt
Found-self ((k, w) ∷ m) =
    Found-insert_sorted ((k, w) ∷ m) k (sort (keys_of m)) (ground arith)
      (Found-keys m ((k, w) ∷ m) (sort (keys_of m)) (λ j h. ground arith) (Found-self m))

pub Found-rows :
    (m : Map ℤ ℤ) (m' : Map ℤ (Map ℤ ℤ)) (ks : List ℤ)
    → ((k : ℤ) → is_some (find k m) ≡ true → is_some (find k m') ≡ true)
    → Found m ks
    → Found m' ks
Found-rows m m' [] h f = tt
Found-rows m m' (k ∷ ks) h f = (h k f.0, Found-rows m m' ks h f.1)

entries-assign :
    (i : ℕ) (v : ℤ) (m : Map ℤ ℕ) → All (λ e. e.1 < i) m → All (λ e. e.1 < i + 1) (assign v i m)
unfolding assign
entries-assign i v [] a = (omega arith, tt)
entries-assign i v ((j, w) ∷ m) a = elim (ℤ-discrete j v) [
  | yes e ↦ rw (if_pos (ℤ-discrete j v) e) (omega arith, entries-grow i m a.1)
  | no e ↦ rw (if_neg (ℤ-discrete j v) e) (omega (arith, a.0), entries-assign i v m a.1)
]
  where
    entries-grow : (i : ℕ) (m : Map ℤ ℕ) → All (λ e. e.1 < i) m → All (λ e. e.1 < i + 1) m
    entries-grow i [] a = tt
    entries-grow i (e ∷ m) a = (omega (arith, a.0), entries-grow i m a.1)

-- After the first loop: `n` vertices have positions, and nothing else is written.
pub record Numbered (g : Graph ℤ) (i : ℕ) (vs : List ℤ) (d : InputGraph) : Type 0 where
  pub after : InputGraph
  pub runs : number_vertices g i vs d ≡ ok after
  pub numbered : IsNumbered (i + length vs) after
  pub edges : after.edges ≡ d.edges
  pub edges_weight : after.edges_weight ≡ d.edges_weight
  pub written : after.vertice_weight ≡ d.vertice_weight ++ weights_of g vs
  pub places : (k : ℤ) → find k after.vertice_to_pos ≡ place_from i vs (find k d.vertice_to_pos) k

pub number_vertices-IsNumbered :
    (g : Graph ℤ) (i : ℕ) (vs : List ℤ) (d : InputGraph)
    → IsNumbered i d
    → Found g.vertex_weight vs
    → Numbered g i vs d
unfolding number_vertices
number_vertices-IsNumbered g i [] d num f =
    let e : i + 0 ≡ i = omega arith in
    record {
      after = d;
      runs = refl;
      numbered = rw e num;
      edges = refl;
      edges_weight = refl;
      written = sym (append-nil d.vertice_weight);
      places = λ k. refl;
    }
number_vertices-IsNumbered g i (v ∷ vs) d num f = elim (Option-cases (find v g.vertex_weight)) [
  | inl e ↦ absurd (false≢true (sym (ap is_some e) ∙ f.0))
  | inr (w, e) ↦
      let rest =
        number_vertices-IsNumbered g (i + 1) vs
          (record d {
            vertice_weight = d.vertice_weight ++ w ∷ [];
            vertice_to_pos = assign v i d.vertice_to_pos;
          })
          (record {
            weights = omega (arith, num.weights, length-append d.vertice_weight (w ∷ []));
            below = λ k j h. ground (arith, num.below k j, find-assign v k i d.vertice_to_pos);
            entries = entries-assign i v d.vertice_to_pos num.entries;
          })
          f.1 in
      let same : i + suc (length vs) ≡ i + 1 + length vs = omega arith in
      record {
        after = rest.after;
        runs = rw e (rest.runs);
        numbered = rw same (rest.numbered);
        edges = rest.edges;
        edges_weight = rest.edges_weight;
        written = rw e (rest.written ∙ append_assoc d.vertice_weight (w ∷ []) (weights_of g vs));
        places = λ k.
            rest.places k
            ∙ ap (λ old. place_from (i + 1) vs old k) (find-assign v k i d.vertice_to_pos);
      }
]
