-- ===== src/LinkedQueue/Shape.antt =====
-- The nodes of a linked queue beside the items that its readers have not popped.
use kvpaxos.Base.{
  ℕ, zero, suc, ◌<◌, ◌≤◌, Bool, true, false, ◌&&◌, Option, none, some, List, [], ◌∷◌, ◌++◌, length,
  length-append, get_elem?, leb, ltb, ◌==◌, if◌then◌else◌, ◌≡◌, refl, arith, ◌∙◌, ℕ_discrete, ap,
}
use kvpaxos.Base.Runs.{returns}
use kvpaxos.LinkedQueue.{Node, LinkedQueue, make, push, free_until, update}

abbrev pub least : ℕ → ℕ → ℕ
least a b = if leb a b then a else b

abbrev pub greatest : ℕ → ℕ → ℕ
greatest a b = if leb a b then b else a

abbrev pub passed_at : ℕ → ℕ → Option Bool
passed_at furthest zero = none
passed_at furthest (suc i) = some (leb (suc i) furthest)

module _ {A : Type 0} where
  get_elem?-append :
      (xs : List A) (x : A) (i : ℕ)
      → get_elem? (xs ++ x ∷ []) i ≡ (if i == length xs then some x else get_elem? xs i)
  get_elem?-append [] x zero = refl
  get_elem?-append [] x (suc i) = ground arith
  get_elem?-append (y ∷ xs) x zero = ground arith
  get_elem?-append (y ∷ xs) x (suc i) = ground (arith, get_elem?-append xs x i)

  -- The item of the node at an address; the node at 0 has none.
  abbrev pub item_at : List A → ℕ → Option A
  item_at items zero = none
  item_at items (suc i) = get_elem? items i

  -- The node at the address `i`, where the readers are at `p` and `q`.
  abbrev pub node_at : List A → ℕ → ℕ → ℕ → Option (Node A)
  node_at items p q i =
      if leb (least p q) i && leb i (length items)
      then some (record {
        value = item_at items i;
        passed = passed_at (greatest p q) i;
        next = if ltb i (length items) then some (suc i) else none;
      })
      else none

  -- The queue of the items that were pushed, of which the readers have popped `p` and `q`.
  pub record Holds (items : List A) (p q : ℕ) (s : LinkedQueue A) : Type 0 where
    pub nodes : (i : ℕ) → s.node i ≡ node_at items p q i
    pub fresh : s.fresh ≡ suc (length items)
    pub tail : s.tail ≡ length items
    pub first_head : s.head_0 ≡ p
    pub second_head : s.head_1 ≡ q
    pub freed : s.free_head ≡ least p q
    pub bounds : (p ≤ length items) × (q ≤ length items)

  pub make-Holds : (ahead_0 ahead_1 : ℕ) → Holds [] 0 0 (make ahead_0 ahead_1)
  unfolding make
  make-Holds ahead_0 ahead_1 = record {
    nodes = nodes;
    fresh = refl;
    tail = refl;
    first_head = refl;
    second_head = refl;
    freed = refl;
    bounds = (omega arith, omega arith);
  }
    where
      nodes : (i : ℕ) → (make {A = A} ahead_0 ahead_1).node i ≡ node_at [] 0 0 i
      nodes zero = refl
      nodes (suc i) = ground arith

  push_node :
      (items : List A) (p q : ℕ) (x : A) (s : LinkedQueue A) (i : ℕ)
      → Holds items p q s
      → (n : Node A) → s.node (length items) ≡ some n
      → update
          (update s.node
            (suc (length items))
            (some (record { value = some x; passed = some false; next = none })))
          (length items)
          (some (record n { next = some (suc (length items)) }))
          i
        ≡ node_at (items ++ x ∷ []) p q i
  push_node [] p q x s zero h n e = ground (arith, h.nodes 0, e, h.bounds)
  push_node (y ∷ items) p q x s zero h n e = ground (arith, h.nodes 0, h.bounds)
  push_node items p q x s (suc i) h n e = ground (
    arith,
    h.nodes (suc i),
    h.nodes (length items),
    e,
    h.bounds,
    length-append items (x ∷ []),
    get_elem?-append items x i,
  )

  -- The node at the tail is there.
  last_node :
      (items : List A) (p q : ℕ) (s : LinkedQueue A)
      → Holds items p q s
      → (n : Node A) × (s.node (length items) ≡ some n)
  last_node items p q s h = (_, h.nodes (length items) ∙ in_range)
    where
      in_range :
          node_at items p q (length items)
          ≡ some (record {
            value = item_at items (length items);
            passed = passed_at (greatest p q) (length items);
            next = none;
          })
      in_range = ground (arith, h.bounds)

  behind : (items : List A) → (length items == suc (length items)) ≡ false
  behind items = ground arith

  -- A push puts the item at the end.
  pub push-Holds :
      (items : List A) (p q : ℕ) (x : A) (s : LinkedQueue A)
      → Holds items p q s
      → (t : LinkedQueue A) × (push x s ≡ returns t) × Holds (items ++ x ∷ []) p q t
  unfolding push
  push-Holds items p q x s h =
      let (n, e) = last_node items p q s h in
      (
        record s {
          node =
              update
                (update s.node (suc (length items))
                  (some (record { value = some x; passed = some false; next = none })))
                (length items) (some (record n { next = some (suc (length items)) }));
          fresh = suc (suc (length items));
          tail = suc (length items);
        },
        rw (h.tail, h.fresh, behind items, e),
        record {
          nodes = λ i. push_node items p q x s i h n e;
          fresh = omega (arith, length-append items (x ∷ []));
          tail = omega (arith, length-append items (x ∷ []));
          first_head = h.first_head;
          second_head = h.second_head;
          freed = h.freed;
          bounds = omega (arith, length-append items (x ∷ []), h.bounds.0, h.bounds.1);
        },
      )

  pub node_at_comm : (items : List A) (p q i : ℕ) → node_at items p q i ≡ node_at items q p i
  node_at_comm items p q zero = ground arith
  node_at_comm items p q (suc i) = ground arith

  pub get_elem?-lt : (xs : List A) (i : ℕ) {x : A} → get_elem? xs i ≡ some x → i < length xs
  get_elem?-lt [] i e = cc
  get_elem?-lt (x ∷ xs) zero e = omega arith
  get_elem?-lt (x ∷ xs) (suc i) e = omega (arith, get_elem?-lt xs i e)

  -- The second reader that passes a node deletes the one before it.
  pub freed_node :
      (items : List A) (p q i : ℕ)
      → p < q
      → q ≤ length items
      → (if i == p then none else node_at items p q i) ≡ node_at items (suc p) q i
  freed_node items p q zero h k = ground arith
  freed_node items p q (suc i) h k = ground arith

  abbrev pub reached : List A → ℕ → A → Bool → Node A
  reached items p x passed = record {
    value = some x;
    passed = some passed;
    next = if ltb (suc p) (length items) then some (suc (suc p)) else none;
  }

  -- The first reader that passes a node marks it.
  pub marked_node :
      (items : List A) (p q i : ℕ) (x : A)
      → q ≤ p
      → get_elem? items p ≡ some x
      → p < length items
      → (if i == suc p then some (reached items p x true) else node_at items p q i)
        ≡ node_at items (suc p) q i
  marked_node items p q zero x h e k = ground arith
  marked_node items p q (suc i) x h e k = elim (ℕ_discrete i p) [
    | yes same ↦ rw same (ground (arith, e))
    | no apart ↦ ground arith
  ]

  -- The nodes that a pop looks at.
  abbrev pub passing : List A → ℕ → ℕ → Node A
  passing items p q = record {
    value = item_at items p;
    passed = passed_at (greatest p q) p;
    next = some (suc p);
  }

  pub before_node :
      (items : List A) (p q : ℕ) → p < length items → node_at items p q p ≡ some (passing items p q)
  before_node items p q h = ground arith

  pub after_node :
      (items : List A) (p q : ℕ) (x : A)
      → p < length items
      → get_elem? items p ≡ some x
      → node_at items p q (suc p) ≡ some (reached items p x (leb (suc p) q))
  after_node items p q x h e = ground (arith, e)

  free_until_here :
      (fuel a : ℕ) (s : LinkedQueue A) → s.free_head ≡ a → free_until (suc fuel) a s ≡ returns s
  unfolding free_until
  free_until_here fuel a s h =
      let same : (s.free_head == a) ≡ true = ground (arith, h) in rw (same, free_until)

  -- The loop deletes one node.
  pub free_until_one :
      (fuel a : ℕ) (n : Node A) (s : LinkedQueue A)
      → s.free_head ≡ a
      → s.node a ≡ some n
      → n.next ≡ some (suc a)
      → free_until (suc (suc fuel)) (suc a) s
        ≡ returns (record s { node = update s.node a none; free_head = suc a })
  unfolding free_until
  free_until_one fuel a n s h e k =
      let apart : (a == suc a) ≡ false = ground arith in
      rw (h, apart, free_until)
        (rw h (
          rw e (
            rw k (
              free_until_here fuel (suc a)
                (record s { node = update s.node s.free_head none; free_head = suc a }) refl
              ∙ ap (λ b. returns (record s { node = update s.node b none; free_head = suc a }))
                  h))))
