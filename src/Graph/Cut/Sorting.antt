-- ===== src/Graph/Cut/Sorting.antt =====
-- `sorted_vertex` of src/graph/graph.hpp: the order of the vertices, and which keys are among them.
use kvpaxos.Base.{
  ℕ, ◌+◌, Bool, true, false, ◌||◌, Option, none, some, List, [], ◌∷◌, ℤ, leb_ℤ, ite, ℤ-discrete,
  is_some, ◌≡◌, refl, ◌∙◌, arith, All, Bool-cases, inl, inr,
}
use kvpaxos.Base.Maps.{Map, find}
use kvpaxos.Types.{int_key}
use kvpaxos.Graph.{Graph}
use kvpaxos.Graph.Cut.{insert_sorted, sort, keys_of, sorted_vertex}
use kvpaxos.Graph.Cut.Layout.{Ascending, place_from, position}

All-insert_sorted :
    (P : ℤ → Type 0) (k : ℤ) (js : List ℤ) → P k → All P js → All P (insert_sorted k js)
unfolding insert_sorted
All-insert_sorted P k [] h a = (h, tt)
All-insert_sorted P k (j ∷ js) h a = elim (Bool-cases (leb_ℤ k j)) [
  | inl e ↦ rw e (h, a)
  | inr e ↦ rw e (a.0, All-insert_sorted P k js h a.1)
]

from_below :
    (k j : ℤ) (js : List ℤ)
    → leb_ℤ k j ≡ true
    → All (λ i. leb_ℤ j i ≡ true) js
    → All (λ i. leb_ℤ k i ≡ true) js
from_below k j [] h a = tt
from_below k j (i ∷ js) h a = (ground (arith, a.0), from_below k j js h a.1)

insert_sorted-Ascending : (k : ℤ) (js : List ℤ) → Ascending js → Ascending (insert_sorted k js)
unfolding insert_sorted
insert_sorted-Ascending k [] a = (tt, tt)
insert_sorted-Ascending k (j ∷ js) a = elim (Bool-cases (leb_ℤ k j)) [
  | inl e ↦ rw e ((e, from_below k j js e a.0), a)
  | inr e ↦ rw e (
    All-insert_sorted (λ i. leb_ℤ j i ≡ true) k js (ground arith) a.0,
    insert_sorted-Ascending k js a.1,
  )
]

pub sort-Ascending : (ks : List ℤ) → Ascending (sort ks)
unfolding sort
sort-Ascending [] = tt
sort-Ascending (k ∷ ks) = insert_sorted-Ascending k (sort ks) (sort-Ascending ks)

abbrev member : ℤ → List ℤ → Bool
member k [] = false
member k (v ∷ vs) = ite (ℤ-discrete v k) true (member k vs)

member-insert_sorted :
    (k v : ℤ) (vs : List ℤ)
    → member k (insert_sorted v vs) ≡ ite (ℤ-discrete v k) true (member k vs)
unfolding insert_sorted
member-insert_sorted k v [] = refl
member-insert_sorted k v (j ∷ js) = ground (arith, member-insert_sorted k v js)

member-sort : (k : ℤ) (m : Map ℤ ℤ) → member k (sort (keys_of m)) ≡ is_some (find k m)
unfolding sort find
member-sort k [] = refl
member-sort k ((v, w) ∷ m) =
    ground (arith, member-insert_sorted k v (sort (keys_of m)), member-sort k m)

place_from-member :
    (i : ℕ) (vs : List ℤ) (old : Option ℕ) (k : ℤ)
    → is_some (place_from i vs old k) ≡ (is_some old || member k vs)
place_from-member i [] old k = ground arith
place_from-member i (v ∷ vs) old k =
    ground (arith, place_from-member (i + 1) vs (ite (ℤ-discrete v k) (some i) old) k)

pub position-find :
    (g : Graph ℤ) (k : ℤ) → is_some (position g k) ≡ is_some (find k g.vertex_weight)
unfolding sorted_vertex
position-find g k =
    place_from-member 0 (sort (keys_of g.vertex_weight)) none k ∙ member-sort k g.vertex_weight
