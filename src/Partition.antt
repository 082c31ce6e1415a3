-- ===== src/Partition.antt =====
-- src/scheduler/partition.hpp: a partition's request queue and its weights. The worker's loop is in
-- the child `Worker`.
pub mod Fifo
pub mod Worker
pub mod Serving
use kvpaxos.Base.{
  ℕ, suc, ◌+◌, ◌-◌, ◌<◌, List, [], ◌∷◌, ◌++◌, Option, none, some, ℤ, pos, ◌+ℤ◌, ◌-ℤ◌, length, ltb,
  if◌then◌else◌, or_else, ◌≡◌, ◌>>=◌, Bool, true, false,
}
use kvpaxos.Base.Maps.{Map, find, assign, erase}
use kvpaxos.Queue.{sem_post}
use kvpaxos.Types.{ClientMessage, int_key}

-- `boost::lockfree::spsc_queue` of a fixed capacity, by its documented behaviour: a push into a queue
-- that is not full is appended, and the front is the oldest item.
pub record BoundedQueue (capacity : ℕ) : Type 1 where
  pub Items : Type 0
  pub empty : Items
  pub push : ClientMessage → Items → Items
  pub front : Items → Option ClientMessage
  pub pop : Items → Items
  pub read_available : Items → ℕ
  pub to_list : Items → List ClientMessage
  pub to_list-empty : to_list empty ≡ []
  pub to_list-push :
      (m : ClientMessage) (q : Items)
      → length (to_list q) < capacity
      → to_list (push m q) ≡ to_list q ++ m ∷ []
  pub front-cons :
      (m : ClientMessage) (ms : List ClientMessage) (q : Items)
      → to_list q ≡ m ∷ ms
      → front q ≡ some m
  pub to_list-pop :
      (m : ClientMessage) (ms : List ClientMessage) (q : Items)
      → to_list q ≡ m ∷ ms
      → to_list (pop q) ≡ ms
  pub available-length : (q : Items) → read_available q ≡ length (to_list q)

module _ {capacity : ℕ} (bounded : BoundedQueue capacity) where
  open bounded use {Items}

  pub record Partition : Type 0 where
    pub id : ℕ
    pub n_executed_requests : ℕ
    pub executing : Bool
    pub semaphore : ℕ
    pub requests_queue : List ClientMessage
    pub bounded_requests_queue : Items
    pub total_weight : ℤ
    pub weight : Map ℤ ℤ
    pub remaining_space : ℕ
    pub error_count : ℕ

  -- The constructor and `start_worker_thread`.
  unfoldable pub make : ℕ → Partition
  make id = record {
    id = id;
    n_executed_requests = 0;
    executing = true;
    semaphore = 0;
    requests_queue = [];
    bounded_requests_queue = bounded.empty;
    total_weight = pos 0;
    weight = [];
    remaining_space = capacity;
    error_count = 0;
  }

  unfoldable pub request_queue_size : Partition → ℕ
  request_queue_size p =
      if ltb 0 capacity
      then bounded.read_available p.bounded_requests_queue
      else length p.requests_queue

  -- `none` blocks, until the worker makes room.
  unfoldable pub push_request : ClientMessage → Partition → Option Partition
  push_request m p =
      if ltb 0 capacity
      then if ltb 0 p.remaining_space
        then some (record p {
          remaining_space = p.remaining_space - 1;
          bounded_requests_queue = bounded.push m p.bounded_requests_queue;
          semaphore = sem_post p.semaphore;
        })
        else none
      else some (record p {
        requests_queue = p.requests_queue ++ m ∷ [];
        semaphore = sem_post p.semaphore;
      })

  front_of : List ClientMessage → Option (ClientMessage × List ClientMessage)
  front_of [] = none
  front_of (m ∷ ms) = some (m, ms)

  -- What `pop_request` does once it is past `sem_wait`; `none` is the front of an empty queue.
  unfoldable pub take_request : Partition → Option (ClientMessage × Partition)
  unfolding front_of
  take_request p =
      if ltb 0 capacity
      then (bounded.front p.bounded_requests_queue >>= λ m. some (
        m,
        record p {
          bounded_requests_queue = bounded.pop p.bounded_requests_queue;
          remaining_space = sem_post p.remaining_space;
        },
      ))
      else (front_of p.requests_queue >>= λ r. some (r.0, record p { requests_queue = r.1 }))

  -- `none` blocks, until a request is pushed.
  unfoldable pub pop_request : Partition → Option (ClientMessage × Partition)
  unfolding take_request
  pop_request p =
      if ltb 0 p.semaphore then take_request (record p { semaphore = p.semaphore - 1 }) else none

  -- `weight_[data] = weight`
  unfoldable pub insert_data : ℤ → ℤ → Partition → Partition
  insert_data key w p = record p {
    weight = assign key w p.weight;
    total_weight = p.total_weight +ℤ w;
  }

  -- `none` is the exception of `at`.
  unfoldable pub remove_data : ℤ → Partition → Option Partition
  remove_data key p = find key p.weight >>= λ w.
      some (record p { total_weight = p.total_weight -ℤ w; weight = erase key p.weight })

  unfoldable pub increase_weight : ℤ → ℤ → Partition → Partition
  increase_weight key w p = record p {
    weight = assign key (or_else (find key p.weight) (pos 0) +ℤ w) p.weight;
    total_weight = p.total_weight +ℤ w;
  }
