-- ===== src/Tracking/Runs.antt =====
-- The graph thread over a whole run of requests.
use kvpaxos.Base.{
  ℕ, zero, suc, ◌+◌, ◌<◌, some, List, [], ◌∷◌, ◌++◌, ◌≡◌, refl, ap, ◌∙◌, sym, arith, All, length,
  replicate, length-replicate, length-append, inl, inr,
}
use mathlib.Core.List.{append_assoc, append-nil}
use kvpaxos.Types.{ClientMessage}
use kvpaxos.Tracking.{Tracker, init, track_request, track_requests, dummy_message}
use kvpaxos.Tracking.Window.{
  IsRequest, IsTracked, Follows, update_graph-Follows, expire-Follows, empty-Follows,
}

-- The window is in the queue, and the graph is that of the window.
pub record InWindow (tl : ℕ) (t : Tracker) : Type 0 where
  pub follows : Follows t.graph_deletion_queue t.workload_graph
  pub tracked : All IsTracked t.graph_deletion_queue
  pub full : length t.graph_deletion_queue ≡ tl

-- What one request does: `oldest` leaves the queue.
pub record Tracked (tl : ℕ) (m : ClientMessage) (t : Tracker) : Type 0 where
  pub next : Tracker
  pub oldest : ClientMessage
  pub runs : track_request tl m t ≡ some next
  pub queue : oldest ∷ next.graph_deletion_queue ≡ t.graph_deletion_queue ++ m ∷ []
  pub counted : next.n_processed_requests ≡ t.n_processed_requests + 1
  pub inside : InWindow tl next

All-snoc :
    (w : List ClientMessage) (m : ClientMessage)
    → All IsTracked w
    → IsRequest m
    → All IsTracked (w ++ m ∷ [])
All-snoc [] m h r = (inr r, tt)
All-snoc (x ∷ w) m h r = (h.0, All-snoc w m h.1 r)

track_after :
    (tl : ℕ) (m x : ClientMessage) (t : Tracker) (w : List ClientMessage)
    → 0 < tl
    → IsRequest m
    → InWindow tl t
    → t.graph_deletion_queue ≡ x ∷ w
    → Tracked tl m t
unfolding track_request
track_after tl m x t w p r inside e =
    let (g, updated, follows) = update_graph-Follows _ m t.workload_graph r inside.follows in
    let tracked = (rw e at inside.tracked) in
    let (g', expired, follows') = expire-Follows (w ++ m ∷ []) x g tracked.0 (rw e at follows) in
    record {
      next = record {
        workload_graph = g';
        graph_deletion_queue = w ++ m ∷ [];
        n_processed_requests = t.n_processed_requests + 1;
      };
      oldest = x;
      runs = ground (arith, updated, expired, e);
      queue = rw e;
      counted = refl;
      inside = record {
        follows = follows';
        tracked = All-snoc w m tracked.1 r;
        full = omega (arith, inside.full, ap length e, length-append w (m ∷ []));
      };
    }

-- One request: it enters the window, and the oldest message leaves it.
pub track_request-InWindow :
    (tl : ℕ) (m : ClientMessage) (t : Tracker)
    → 0 < tl
    → IsRequest m
    → InWindow tl t
    → Tracked tl m t
track_request-InWindow tl m t p r inside = split t.graph_deletion_queue refl
  where
    split : (q : List ClientMessage) → t.graph_deletion_queue ≡ q → Tracked tl m t
    split [] e = absurd (omega (arith, inside.full, ap length e))
    split (x ∷ w) e = track_after tl m x t w p r inside e

-- A run of requests: as many messages leave the queue.
pub record Ran (tl : ℕ) (ms : List ClientMessage) (t : Tracker) : Type 0 where
  pub last : Tracker
  pub expired : List ClientMessage
  pub runs : track_requests tl ms t ≡ some last
  pub as_many : length expired ≡ length ms
  pub queue : expired ++ last.graph_deletion_queue ≡ t.graph_deletion_queue ++ ms
  pub counted : last.n_processed_requests ≡ t.n_processed_requests + length ms
  pub inside : InWindow tl last

track_requests-Ran :
    (tl : ℕ) (ms : List ClientMessage) (t : Tracker)
    → 0 < tl
    → All IsRequest ms
    → InWindow tl t
    → Ran tl ms t
unfolding track_requests
track_requests-Ran tl [] t p r inside = record {
  last = t;
  expired = [];
  runs = refl;
  as_many = refl;
  queue = sym (append-nil t.graph_deletion_queue);
  counted = omega arith;
  inside = inside;
}
track_requests-Ran tl (m ∷ ms) t p r inside =
    let one = track_request-InWindow tl m t p r.0 inside in
    let rest = track_requests-Ran tl ms one.next p r.1 one.inside in
    record {
      last = rest.last;
      expired = one.oldest ∷ rest.expired;
      runs = rw one.runs rest.runs;
      as_many = ap suc rest.as_many;
      queue =
          ap (λ q. one.oldest ∷ q) rest.queue
          ∙ ap (λ q. q ++ ms) one.queue
          ∙ append_assoc t.graph_deletion_queue (m ∷ []) ms;
      counted = omega (arith, rest.counted, one.counted);
      inside = rest.inside;
    }

-- At the start the window holds dummies.
pub init-InWindow : (tl : ℕ) → InWindow tl (init tl)
unfolding init
init-InWindow tl = record {
  follows = empty-Follows tl;
  tracked = dummies-tracked tl;
  full = length-replicate tl dummy_message;
}
  where
    dummies-tracked : (n : ℕ) → All IsTracked (replicate n dummy_message)
    dummies-tracked zero = tt
    dummies-tracked (suc n) = (inl refl, dummies-tracked n)

-- From the start, any run of requests of known length succeeds, and leaves in the queue the last
-- `tl` messages of the dummies followed by the requests, and in the graph what these name: a vertex
-- for each key in use, weighted by the number of requests that name it, and an edge for each pair of
-- keys, weighted by the number of requests that name both.
pub track_requests_window :
    (tl : ℕ) (ms : List ClientMessage) → 0 < tl → All IsRequest ms → Ran tl ms (init tl)
track_requests_window tl ms p r = track_requests-Ran tl ms (init tl) p r (init-InWindow tl)
