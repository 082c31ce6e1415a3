-- ===== src/LinkedQueue.antt =====
-- src/linked_queue/linked_queue.hpp: `model::LinkedQueue<T>`, the linked form of the queue with two
-- readers. Its nodes stand at addresses, which `new` gives in their order; a node is deleted by the
-- second reader that passes it.
pub mod Shape
pub mod Order
use kvpaxos.Base.{
  ℕ, zero, suc, ◌+◌, ◌-◌, ◌/◌, ◌%◌, Bool, true, false, Option, none, some, ◌==◌, ltb, if◌then◌else◌,
}
use kvpaxos.Base.Results.{Result, ok, or_undefined}
use kvpaxos.Base.Results
use kvpaxos.Base.Runs.{Run, out_of_fuel, finished, returns, ◌>>=◌}
use kvpaxos.Queue.{Head, first, second, other, sem_post}

-- `Node`. `none` is a field that is not initialised.
pub record Node (A : Type 0) : Type 0 where
  pub value : Option A
  pub passed : Option Bool
  pub next : Option ℕ

pub record LinkedQueue (A : Type 0) : Type 0 where
  pub node : ℕ → Option (Node A)
  pub fresh : ℕ
  pub tail : ℕ
  pub head_0 : ℕ
  pub head_1 : ℕ
  pub free_head : ℕ
  pub semaphore_0 : ℕ
  pub semaphore_1 : ℕ
  pub ahead_sem_0 : ℕ
  pub ahead_sem_1 : ℕ

-- A field that is read: it must be initialised.
abbrev pub read_field : {B : Type 0} → Option B → Run B
read_field field = finished (or_undefined field)

module _ {A : Type 0} where
  abbrev pub update : (ℕ → Option (Node A)) → ℕ → Option (Node A) → ℕ → Option (Node A)
  update node a n i = if i == a then n else node i

  -- `LinkedQueue(size_t ahead_0, size_t ahead_1)`: the two leads change places.
  unfoldable pub make : ℕ → ℕ → LinkedQueue A
  make ahead_0 ahead_1 = record {
    node = update (λ i. none) 0 (some (record { value = none; passed = none; next = none }));
    fresh = 1;
    tail = 0;
    head_0 = 0;
    head_1 = 0;
    free_head = 0;
    semaphore_0 = 0;
    semaphore_1 = 0;
    ahead_sem_0 = ahead_1;
    ahead_sem_1 = ahead_0;
  }

  -- `LinkedQueue(size_t distance)`
  unfoldable pub with_distance : ℕ → LinkedQueue A
  unfolding make
  with_distance distance = make (distance / 2) (distance / 2 + distance % 2)

  -- A pointer that is followed: it must lead to a node.
  abbrev pub load : ℕ → LinkedQueue A → Run (Node A)
  load a q = finished (or_undefined (q.node a))

  unfoldable pub push : A → LinkedQueue A → Run (LinkedQueue A)
  push value q =
      let a = q.fresh in
      let node =
        update q.node a (some (record { value = some value; passed = some false; next = none })) in
      load q.tail (record q { node = node }) >>= λ n. returns (record q {
        node = update node q.tail (some (record n { next = some a }));
        fresh = suc a;
        tail = a;
      })

  abbrev pub head_of : Head → LinkedQueue A → ℕ
  head_of first q = q.head_0
  head_of second q = q.head_1

  abbrev pub set_head : Head → ℕ → LinkedQueue A → LinkedQueue A
  set_head first a q = record q { head_0 = a }
  set_head second a q = record q { head_1 = a }

  unfoldable pub notify : Head → LinkedQueue A → LinkedQueue A
  notify first q = record q { semaphore_0 = sem_post q.semaphore_0 }
  notify second q = record q { semaphore_1 = sem_post q.semaphore_1 }

  unfoldable pub lead : Head → LinkedQueue A → LinkedQueue A
  lead first q = record q { ahead_sem_0 = sem_post q.ahead_sem_0 }
  lead second q = record q { ahead_sem_1 = sem_post q.ahead_sem_1 }

  unfoldable pub free : Head → LinkedQueue A → LinkedQueue A
  unfolding notify lead
  free h q = lead h (notify h q)

  -- The two `sem_wait`s of `wait`; `none` blocks.
  unfoldable pub wait_item : Head → LinkedQueue A → Option (LinkedQueue A)
  wait_item first q =
      if ltb 0 q.semaphore_0 then some (record q { semaphore_0 = q.semaphore_0 - 1 }) else none
  wait_item second q =
      if ltb 0 q.semaphore_1 then some (record q { semaphore_1 = q.semaphore_1 - 1 }) else none

  unfoldable pub wait_lead : Head → LinkedQueue A → Option (LinkedQueue A)
  wait_lead first q =
      if ltb 0 q.ahead_sem_0 then some (record q { ahead_sem_0 = q.ahead_sem_0 - 1 }) else none
  wait_lead second q =
      if ltb 0 q.ahead_sem_1 then some (record q { ahead_sem_1 = q.ahead_sem_1 - 1 }) else none

  -- `while(free_head != head)`, with the number of rounds as fuel.
  unfoldable pub free_until : ℕ → ℕ → LinkedQueue A → Run (LinkedQueue A)
  free_until zero head q = out_of_fuel
  free_until (suc fuel) head q = elim (q.free_head == head) [
    | true ↦ returns q
    | false ↦ load q.free_head q >>= λ n. read_field n.next >>= λ next.
        free_until fuel head (record q { node = update q.node q.free_head none; free_head = next })
  ]

  unfoldable pub pop : ℕ → Head → LinkedQueue A → Run (A × LinkedQueue A)
  unfolding free_until lead
  pop fuel h q = load (head_of h q) q >>= λ before. read_field before.next >>= λ head.
      load head q >>= λ n. read_field n.value >>= λ curr_value. read_field n.passed >>= λ passed.
      (if passed
        then free_until fuel head (set_head h head q)
        else returns (record (set_head h head q) {
          node = update q.node head (some (record n { passed = some true }));
        }))
      >>= λ after. returns (curr_value, lead (other h) after)
