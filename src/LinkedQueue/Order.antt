-- ===== src/LinkedQueue/Order.antt =====
-- What a pop of the linked queue takes, and which nodes it reads and deletes.
use kvpaxos.Base.{
  ℕ, suc, true, none, some, List, get_elem?, leb, ◌==◌, if◌then◌else◌, ◌≡◌, refl, arith, ◌∙◌, ap,
  Bool-cases, inl, inr,
}
use kvpaxos.Base.Runs.{returns}
use kvpaxos.Queue.{Head, first, second, sem_post}
use kvpaxos.LinkedQueue.{LinkedQueue, pop, lead, update}
use kvpaxos.LinkedQueue.Shape.{
  Holds, node_at_comm, get_elem?-lt, freed_node, reached, marked_node, passing, before_node,
  after_node, free_until_one,
}

-- How many items a reader has popped, and how many each has popped after a pop of one.
abbrev pub at_head : Head → ℕ → ℕ → ℕ
at_head first p q = p
at_head second p q = q

abbrev pub moved_0 : Head → ℕ → ℕ
moved_0 first p = suc p
moved_0 second p = p

abbrev pub moved_1 : Head → ℕ → ℕ
moved_1 first q = q
moved_1 second q = suc q

module _ {A : Type 0} where
  -- The first reader's pop.
  pop-Holds_first :
      (fuel : ℕ) (items : List A) (p q : ℕ) (x : A) (s : LinkedQueue A)
      → get_elem? items p ≡ some x
      → Holds items p q s
      → (t : LinkedQueue A) × (pop (suc (suc fuel)) first s ≡ returns (x, t))
        × Holds items (suc p) q t
  unfolding pop lead
  pop-Holds_first fuel items p q x s e h =
      let lt = get_elem?-lt items p e in
      let before = h.nodes p ∙ before_node items p q lt in
      let after = h.nodes (suc p) ∙ after_node items p q x lt e in
      elim (Bool-cases (leb (suc p) q)) [
        | inl second_one ↦ (
          record s {
            head_0 = suc p;
            node = update s.node p none;
            free_head = suc p;
            ahead_sem_1 = sem_post s.ahead_sem_1;
          },
          rw (h.first_head, before)
              (rw after (
                rw second_one (
                  rw (
                    free_until_one fuel p (passing items p q) (record s { head_0 = suc p })
                      (h.freed ∙ ground arith) before refl)))),
          record {
            nodes = λ i.
                ap (λ n. if i == p then none else n) (h.nodes i)
                ∙ freed_node items p q i (ground arith) h.bounds.1;
            fresh = h.fresh;
            tail = h.tail;
            first_head = refl;
            second_head = h.second_head;
            freed = ground arith;
            bounds = (lt, h.bounds.1);
          },
        )
        | inr first_one ↦ (
          record s {
            head_0 = suc p;
            node = update s.node (suc p) (some (reached items p x true));
            ahead_sem_1 = sem_post s.ahead_sem_1;
          },
          rw (h.first_head, before) (rw after (rw first_one)),
          record {
            nodes = λ i.
                ap (λ n. if i == suc p then some (reached items p x true) else n) (h.nodes i)
                ∙ marked_node items p q i x (ground arith) e lt;
            fresh = h.fresh;
            tail = h.tail;
            first_head = refl;
            second_head = h.second_head;
            freed = h.freed ∙ ground arith;
            bounds = (lt, h.bounds.1);
          },
        )
      ]

  -- The second reader's, by the same steps with the readers' places changed.
  pop-Holds_second :
      (fuel : ℕ) (items : List A) (p q : ℕ) (x : A) (s : LinkedQueue A)
      → get_elem? items q ≡ some x
      → Holds items p q s
      → (t : LinkedQueue A) × (pop (suc (suc fuel)) second s ≡ returns (x, t))
        × Holds items p (suc q) t
  unfolding pop lead
  pop-Holds_second fuel items p q x s e h =
      let lt = get_elem?-lt items q e in
      let before = h.nodes q ∙ node_at_comm items p q q ∙ before_node items q p lt in
      let after = h.nodes (suc q) ∙ node_at_comm items p q (suc q) ∙ after_node items q p x lt e in
      elim (Bool-cases (leb (suc q) p)) [
        | inl first_one ↦ (
          record s {
            head_1 = suc q;
            node = update s.node q none;
            free_head = suc q;
            ahead_sem_0 = sem_post s.ahead_sem_0;
          },
          rw (h.second_head, before)
              (rw after (
                rw first_one (
                  rw (
                    free_until_one fuel q (passing items q p) (record s { head_1 = suc q })
                      (h.freed ∙ ground arith) before refl)))),
          record {
            nodes = λ i.
                ap (λ n. if i == q then none else n) (h.nodes i ∙ node_at_comm items p q i)
                ∙ freed_node items q p i (ground arith) h.bounds.0
                ∙ node_at_comm items (suc q) p i;
            fresh = h.fresh;
            tail = h.tail;
            first_head = h.first_head;
            second_head = refl;
            freed = ground arith;
            bounds = (h.bounds.0, lt);
          },
        )
        | inr second_one ↦ (
          record s {
            head_1 = suc q;
            node = update s.node (suc q) (some (reached items q x true));
            ahead_sem_0 = sem_post s.ahead_sem_0;
          },
          rw (h.second_head, before) (rw after (rw second_one)),
          record {
            nodes = λ i.
                ap (λ n. if i == suc q then some (reached items q x true) else n)
                  (h.nodes i ∙ node_at_comm items p q i)
                ∙ marked_node items q p i x (ground arith) e lt
                ∙ node_at_comm items (suc q) p i;
            fresh = h.fresh;
            tail = h.tail;
            first_head = h.first_head;
            second_head = refl;
            freed = h.freed ∙ ground arith;
            bounds = (h.bounds.0, lt);
          },
        )
      ]

  -- Where the items `items` were pushed, and the readers have popped `p` and `q` of them: a reader that
  -- has not popped all pops the next one in the order of the pushes. With two rounds or more as
  -- fuel the loop that deletes nodes ends, no deleted node and no field that is not initialised is
  -- read, and the nodes that are left are again those that some reader has not passed.
  pub pop-Holds :
      (h : Head) (fuel : ℕ) (items : List A) (p q : ℕ) (x : A) (s : LinkedQueue A)
      → get_elem? items (at_head h p q) ≡ some x
      → Holds items p q s
      → (t : LinkedQueue A) × (pop (suc (suc fuel)) h s ≡ returns (x, t))
        × Holds items (moved_0 h p) (moved_1 h q) t
  pop-Holds first fuel items p q x s e h = pop-Holds_first fuel items p q x s e h
  pop-Holds second fuel items p q x s e h = pop-Holds_second fuel items p q x s e h
