-- ===== src/Queue.antt =====
-- src/queue/queue.hpp: `model::Queue<T>`, the queue with one writer and two readers that stay near
-- each other. Its semaphores are counters; `sem_wait` is a step that waits for a counter above 0.
pub mod Threads
pub mod Invariant
pub mod Safety
use kvpaxos.Base.{
  ℕ, ◌+◌, ◌-◌, ◌/◌, ◌%◌, ◌^◌, List, [], ◌∷◌, ◌++◌, Option, none, some, ltb, if◌then◌else◌,
}

-- The template argument `Head`: 0 is the scheduling thread's, 1 the graph thread's.
pub data Head : Type 0 where
  first second : Head

abbrev pub other : Head → Head
other first = second
other second = first

pub record Queue {ℓ} (A : Type ℓ) : Type ℓ where
  pub semaphore_0 : ℕ
  pub semaphore_1 : ℕ
  pub ahead_sem_0 : ℕ
  pub ahead_sem_1 : ℕ
  pub queue_0 : List A
  pub queue_1 : List A

abbrev pub sem_value_max : ℕ
sem_value_max = 2 ^ 31 - 1

-- `sem_post`, which fails with EOVERFLOW at the maximum; the program does not look.
abbrev pub sem_post : ℕ → ℕ
sem_post n = if ltb n sem_value_max then n + 1 else n

module _ {ℓ} {A : Type ℓ} where
  -- `Queue(size_t ahead_0, size_t ahead_1)`
  unfoldable pub make : ℕ → ℕ → Queue A
  make ahead_0 ahead_1 = record {
    semaphore_0 = 0;
    semaphore_1 = 0;
    ahead_sem_0 = ahead_0;
    ahead_sem_1 = ahead_1;
    queue_0 = [];
    queue_1 = [];
  }

  -- `Queue(size_t distance)`
  unfoldable pub with_distance : ℕ → Queue A
  unfolding make
  with_distance distance = make (distance / 2) (distance / 2 + distance % 2)

  abbrev pub semaphore : Head → Queue A → ℕ
  semaphore first q = q.semaphore_0
  semaphore second q = q.semaphore_1

  abbrev pub ahead_sem : Head → Queue A → ℕ
  ahead_sem first q = q.ahead_sem_0
  ahead_sem second q = q.ahead_sem_1

  abbrev pub contents : Head → Queue A → List A
  contents first q = q.queue_0
  contents second q = q.queue_1

  abbrev pub set_semaphore : Head → ℕ → Queue A → Queue A
  set_semaphore first n q = record q { semaphore_0 = n }
  set_semaphore second n q = record q { semaphore_1 = n }

  abbrev pub set_ahead_sem : Head → ℕ → Queue A → Queue A
  set_ahead_sem first n q = record q { ahead_sem_0 = n }
  set_ahead_sem second n q = record q { ahead_sem_1 = n }

  abbrev pub set_contents : Head → List A → Queue A → Queue A
  set_contents first xs q = record q { queue_0 = xs }
  set_contents second xs q = record q { queue_1 = xs }

  -- The part of `push` under the lock of one queue.
  unfoldable pub push_to : Head → A → Queue A → Queue A
  push_to h x q = set_contents h (contents h q ++ x ∷ []) q

  unfoldable pub push : A → Queue A → Queue A
  unfolding push_to
  push x q = push_to second x (push_to first x q)

  unfoldable pub notify : Head → Queue A → Queue A
  notify h q = set_semaphore h (sem_post (semaphore h q)) q

  unfoldable pub free : Head → Queue A → Queue A
  unfolding notify
  free h q = let q' = notify h q in set_ahead_sem h (sem_post (ahead_sem h q')) q'

  -- The two `sem_wait`s of `wait`; `none` blocks.
  unfoldable pub wait_item : Head → Queue A → Option (Queue A)
  wait_item h q =
      if ltb 0 (semaphore h q) then some (set_semaphore h (semaphore h q - 1) q) else none

  unfoldable pub wait_lead : Head → Queue A → Option (Queue A)
  wait_lead h q =
      if ltb 0 (ahead_sem h q) then some (set_ahead_sem h (ahead_sem h q - 1) q) else none

  -- The part of `pop` under the lock; `none` is `front` of an empty queue, which is undefined.
  unfoldable pub pop_front : Head → Queue A → Option (A × Queue A)
  pop_front h q = elim (contents h q) [ [] ↦ none | x ∷ rest ↦ some (x, set_contents h rest q) ]

  -- `sem_post(&ahead_sems[(Head+1)%2])`, the last line of `pop`.
  unfoldable pub lead_other : Head → Queue A → Queue A
  lead_other h q = set_ahead_sem (other h) (sem_post (ahead_sem (other h) q)) q
