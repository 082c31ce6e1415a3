-- ===== src/Tracking.antt =====
-- src/scheduler/scheduler.hpp, `update_graph`, `expire` and the queue of requests that are tracked:
-- how the graph thread records requests in the workload graph and lets them expire.
pub mod Counts
pub mod Steps
pub mod Lists
pub mod Loops
pub mod Window
pub mod Runs
use kvpaxos.Base.{
  ℕ, zero, suc, ◌+◌, ◌-◌, Option, none, some, List, [], ◌∷◌, ◌++◌, ℤ, pos, ◌+ℤ◌, pos_part,
  if◌then◌else◌, ◌>>=◌, replicate, ◌==◌, false,
}
use kvpaxos.Types.{ClientMessage, RequestType, int_key, key_count, is_dummy, to_size}
use kvpaxos.Graph.{Graph, empty}
use Steps.{touch, link_step, unlink_step, release}

-- The inner loop of `update_graph`, with `n` rounds left.
link_from : ℤ → ℕ → ℕ → ℕ → Graph ℤ → Graph ℤ
link_from key i j zero g = g
link_from key i j (suc n) g = link_from key i (j + 1) n (link_step (key +ℤ pos i) (key +ℤ pos j) g)

-- The outer loop.
pub update_from : ℤ → ℕ → ℕ → Graph ℤ → Graph ℤ
update_from key i zero g = g
update_from key i (suc n) g =
    update_from key (i + 1) n (link_from key i (i + 1) n (touch (key +ℤ pos i) g))

-- `size_t data_size`. `none` is the exception of `std::stoi`.
pub update_graph : ClientMessage → Graph ℤ → Option (Graph ℤ)
unfolding update_from link_from
update_graph m g = key_count m >>= λ n. some (update_from m.key 0 (to_size n) g)

-- The inner loop of `expire`: `j` runs from `i + n` down to `i + 1`.
unlink_from : ℤ → ℕ → ℕ → Graph ℤ → Graph ℤ
unlink_from key i zero g = g
unlink_from key i (suc n) g =
    unlink_from key i n (unlink_step (key +ℤ pos i) (key +ℤ pos (suc (i + n))) g)

-- The outer loop: from `i - 1` down to 0, of `size` keys.
pub expire_from : ℤ → ℕ → ℕ → Graph ℤ → Graph ℤ
expire_from key size zero g = g
expire_from key size (suc i) g =
    expire_from key size i (release (key +ℤ pos i) (unlink_from key i (size - suc i) g))

-- `int data_size`: the loop of a negative size has no round.
pub expire : ClientMessage → Graph ℤ → Option (Graph ℤ)
unfolding expire_from unlink_from
expire m g =
    if is_dummy m.type
    then some g
    else (key_count m >>= λ n. some (expire_from m.key (pos_part n) (pos_part n) g))

-- The graph thread's part of the scheduler.
pub record Tracker : Type 0 where
  pub workload_graph : Graph ℤ
  pub graph_deletion_queue : List ClientMessage
  pub n_processed_requests : ℕ

abbrev pub dummy_message : ClientMessage
dummy_message = record {
  id = pos 0;
  s_addr = 0;
  sin_port = 0;
  key = pos 0;
  type = RequestType.dummy;
  record_timestamp = false;
  args = 0 ∷ 0 ∷ 0 ∷ 0 ∷ [];
  size = 0;
}

-- The constructor fills the queue with `TL` dummies.
unfoldable pub init : ℕ → Tracker
init tl = record {
  workload_graph = empty;
  graph_deletion_queue = replicate tl dummy_message;
  n_processed_requests = 0;
}

-- `front`, `pop_front` and `expire`. The queue is not empty: a message was just pushed.
expire_front : List ClientMessage → Graph ℤ → ℕ → Option Tracker
expire_front [] g n = none
expire_front (m ∷ queue) g n = expire m g >>= λ g'.
    some (record { workload_graph = g'; graph_deletion_queue = queue; n_processed_requests = n })

-- One request on the graph thread, with tracking length `tl`.
pub track_request : ℕ → ClientMessage → Tracker → Option Tracker
unfolding expire_front
track_request tl m t = update_graph m t.workload_graph >>= λ g.
    if tl == 0
    then some (record t { workload_graph = g; n_processed_requests = t.n_processed_requests + 1 })
    else expire_front (t.graph_deletion_queue ++ m ∷ []) g (t.n_processed_requests + 1)

pub track_requests : ℕ → List ClientMessage → Tracker → Option Tracker
track_requests tl [] t = some t
track_requests tl (m ∷ ms) t = track_request tl m t >>= λ t'. track_requests tl ms t'
