-- ===== src/Queue/Safety.antt =====
-- What the two reading threads can rely on.
use kvpaxos.Base.{ℕ, ◌+◌, ◌≤◌, ◌<◌, List, [], ◌∷◌, ◌++◌, some, ◌≡◌, refl, arith, length}
use kvpaxos.Queue.{Head, first, second, other, Queue, contents, set_contents, pop_front}
use kvpaxos.Queue.Threads.{System, reader, popped_by, ready, Reach}
use kvpaxos.Queue.Invariant.{Reach-Inv, unpushed}

abbrev pub initial_lead : Head → ℕ → ℕ → ℕ
initial_lead first a b = a
initial_lead second a b = b

module _ {ℓ} {A : Type ℓ} where
  pop_front-cons :
      (h : Head) (q : Queue A) (xs : List A)
      → contents h q ≡ xs
      → 0 < length xs
      → (x : A) × (q' : Queue A) × (pop_front h q ≡ some (x, q'))
  unfolding pop_front
  pop_front-cons h q [] e p = elim p [ ]
  pop_front-cons h q (x ∷ rest) e p = (x, set_contents h rest q, rw (e, pop_front))

  -- In every reachable state each reader has popped the first items that were submitted, in their
  -- order and none twice: what it has not popped is the rest.
  pub popped_in_order :
      {a b : ℕ} {s : System A}
      → Reach a b s
      → (h : Head) → (rest : List A) × (popped_by h s ++ rest ≡ s.submitted)
  popped_in_order {s} r first = (s.queue.queue_0, (Reach-Inv r).order_0)
  popped_in_order {s} r second =
      (s.queue.queue_1 ++ unpushed second s.writer, (Reach-Inv r).order_1)

  -- In every reachable state a reader is at most its initial lead ahead of the other.
  pub popped_lead :
      {a b : ℕ} {s : System A}
      → Reach a b s
      → (h : Head) → length (popped_by h s) ≤ initial_lead h a b + length (popped_by (other h) s)
  popped_lead r first = omega (arith, (Reach-Inv r).lead_0)
  popped_lead r second = omega (arith, (Reach-Inv r).lead_1)

  -- A reader that is past its two waits never meets an empty queue.
  pub pop_front-ready :
      {a b : ℕ} {s : System A}
      → Reach a b s
      → (h : Head) → reader h s ≡ ready
      → (x : A) × (q : Queue A) × (pop_front h s.queue ≡ some (x, q))
  pop_front-ready {s} r first e =
      pop_front-cons first s.queue _ refl (ground (arith, (Reach-Inv r).items_0))
  pop_front-ready {s} r second e =
      pop_front-cons second s.queue _ refl (ground (arith, (Reach-Inv r).items_1))
