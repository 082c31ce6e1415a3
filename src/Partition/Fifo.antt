-- ===== src/Partition/Fifo.antt =====
-- The request queue of a partition, bounded or not, beside a list of the requests that wait.
use kvpaxos.Base.{
  ℕ, ◌+◌, ◌-◌, ◌≤◌, ◌<◌, List, [], ◌∷◌, ◌++◌, none, some, length, ltb, if◌then◌else◌, ◌≡◌, arith,
  length-append, Bool-cases, ltb→lt, inl, inr, ◌⊎◌,
}
use kvpaxos.Queue.{sem_value_max}
use kvpaxos.Types.{ClientMessage}
use kvpaxos.Partition.{BoundedQueue, Partition, make, request_queue_size, push_request, pop_request}

module _ {capacity : ℕ} (bounded : BoundedQueue capacity) where
  -- The abstract view: the requests that wait, oldest first.
  unfoldable pub pending : Partition bounded → List ClientMessage
  pending p = if ltb 0 capacity then bounded.to_list p.bounded_requests_queue else p.requests_queue

  -- The semaphores count what waits, and the room that is left.
  pub record IsCounted (p : Partition bounded) : Type 0 where
    pub waiting : p.semaphore ≡ length (pending p)
    pub room : 0 < capacity → p.remaining_space + length (pending p) ≡ capacity

  pub make-IsCounted : (id : ℕ) → IsCounted (make bounded id) × (pending (make bounded id) ≡ [])
  unfolding make pending
  make-IsCounted id = (
    record {
      waiting = ground (arith, bounded.to_list-empty);
      room = λ h. ground (arith, bounded.to_list-empty);
    },
    ground (arith, bounded.to_list-empty),
  )

  -- `request_queue_size` is the length of the view.
  pub request_queue_size-pending :
      (p : Partition bounded) → request_queue_size bounded p ≡ length (pending p)
  unfolding request_queue_size pending
  request_queue_size-pending p = ground (arith, bounded.available-length p.bounded_requests_queue)

  -- Where the semaphores count, a bounded queue that is full blocks the push.
  pub push_request_full :
      (m : ClientMessage) (p : Partition bounded)
      → IsCounted p
      → 0 < capacity
      → capacity ≤ length (pending p)
      → push_request bounded m p ≡ none
  unfolding push_request pending
  push_request_full m p c h full = ground (arith, c.room)

  -- A push goes through where the queue is unbounded, or has room, and puts the request at the end.
  pub record Pushed (m : ClientMessage) (p : Partition bounded) : Type 0 where
    pub after : Partition bounded
    pub runs : push_request bounded m p ≡ some after
    pub appended : pending after ≡ pending p ++ m ∷ []
    pub counted : IsCounted after

  push_bounded :
      (m : ClientMessage) (p : Partition bounded)
      → IsCounted p
      → length (pending p) < sem_value_max
      → 0 < capacity
      → length (pending p) < capacity
      → Pushed m p
  unfolding push_request pending
  push_bounded m p c small h room =
      let added = bounded.to_list-push m p.bounded_requests_queue (ground arith) in
      record {
        after = record p {
          remaining_space = p.remaining_space - 1;
          bounded_requests_queue = bounded.push m p.bounded_requests_queue;
          semaphore = p.semaphore + 1;
        };
        runs = ground (arith, c.room, c.waiting);
        appended = ground (arith, added);
        counted = record {
          waiting = ground (
            arith,
            added,
            c.waiting,
            length-append (bounded.to_list p.bounded_requests_queue) (m ∷ []),
          );
          room = λ _. ground (
            arith,
            added,
            c.room,
            length-append (bounded.to_list p.bounded_requests_queue) (m ∷ []),
          );
        };
      }

  push_unbounded :
      (m : ClientMessage) (p : Partition bounded)
      → IsCounted p
      → length (pending p) < sem_value_max
      → capacity ≡ 0
      → Pushed m p
  unfolding push_request pending
  push_unbounded m p c small h = record {
    after = record p { requests_queue = p.requests_queue ++ m ∷ []; semaphore = p.semaphore + 1 };
    runs = ground (arith, c.waiting);
    appended = ground arith;
    counted = record {
      waiting = ground (arith, c.waiting, length-append p.requests_queue (m ∷ []));
      room = λ b. absurd (omega arith);
    };
  }

  -- Where the semaphores count, and fewer requests wait than a semaphore can hold, a push into a queue
  -- that is not bounded, or not full, goes through, puts the request at the end, and the semaphores
  -- count again.
  pub push_request-pending :
      (m : ClientMessage) (p : Partition bounded)
      → IsCounted p
      → length (pending p) < sem_value_max
      → (capacity ≡ 0) ⊎ (length (pending p) < capacity)
      → Pushed m p
  push_request-pending m p c small (inl h) = push_unbounded m p c small h
  push_request-pending m p c small (inr h) = push_bounded m p c small (omega arith) h

  -- Where the semaphores count, a pop blocks on the empty queue.
  pub pop_request_empty :
      (p : Partition bounded) → IsCounted p → pending p ≡ [] → pop_request bounded p ≡ none
  unfolding pop_request
  pop_request_empty p c e = ground (arith, c.waiting)

  -- Otherwise it gives the oldest request, and leaves the others.
  pub record Popped (m : ClientMessage) (ms : List ClientMessage) (p : Partition bounded)
      : Type 0 where
    pub after : Partition bounded
    pub runs : pop_request bounded p ≡ some (m, after)
    pub left : pending after ≡ ms
    pub counted : IsCounted after

  pop_bounded :
      (m : ClientMessage) (ms : List ClientMessage) (p : Partition bounded)
      → IsCounted p
      → capacity < sem_value_max
      → 0 < capacity
      → pending p ≡ m ∷ ms
      → Popped m ms p
  unfolding pop_request pending
  pop_bounded m ms p c small h e =
      let e' : bounded.to_list p.bounded_requests_queue ≡ m ∷ ms = ground arith in
      let rest = bounded.to_list-pop m ms p.bounded_requests_queue e' in
      record {
        after = record p {
          semaphore = p.semaphore - 1;
          bounded_requests_queue = bounded.pop p.bounded_requests_queue;
          remaining_space = p.remaining_space + 1;
        };
        runs =
            ground
              (arith, c.room, c.waiting, e', bounded.front-cons m ms p.bounded_requests_queue e');
        left = ground (arith, rest);
        counted = record {
          waiting = ground (arith, rest, c.waiting, e');
          room = λ _. ground (arith, rest, c.room, e');
        };
      }

  pop_unbounded :
      (m : ClientMessage) (ms : List ClientMessage) (p : Partition bounded)
      → IsCounted p
      → capacity ≡ 0
      → pending p ≡ m ∷ ms
      → Popped m ms p
  unfolding pop_request pending
  pop_unbounded m ms p c h e = record {
    after = record p { semaphore = p.semaphore - 1; requests_queue = ms };
    runs = ground (arith, c.waiting);
    left = ground arith;
    counted = record { waiting = ground (arith, c.waiting); room = λ b. absurd (omega arith) };
  }

  -- Where the semaphores count, a pop from a queue that is not empty gives the oldest request and
  -- leaves the others, and the semaphores count again.
  pub pop_request-pending :
      (m : ClientMessage) (ms : List ClientMessage) (p : Partition bounded)
      → IsCounted p
      → capacity < sem_value_max
      → pending p ≡ m ∷ ms
      → Popped m ms p
  pop_request-pending m ms p c small e = elim (Bool-cases (ltb 0 capacity)) [
    | inl b ↦ pop_bounded m ms p c small (ltb→lt 0 capacity b) e
    | inr b ↦ pop_unbounded m ms p c (ground arith) e
  ]
