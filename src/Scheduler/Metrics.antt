-- ===== src/Scheduler/Metrics.antt =====
-- src/scheduler/scheduler.hpp: what the scheduler reports of its partitions. The partitions come in
-- the order in which the map gives them.
use kvpaxos.Base.{ℕ, ◌+◌, List, [], ◌∷◌, ◌≡◌, refl, ap}
use kvpaxos.Imbalance.{sum_of}
use kvpaxos.Partition.{BoundedQueue, Partition, request_queue_size}

module _ {capacity : ℕ} (bounded : BoundedQueue capacity) where
  unfoldable pub n_executed_requests : List (Partition bounded) → ℕ
  n_executed_requests [] = 0
  n_executed_requests (p ∷ ps) = p.n_executed_requests + n_executed_requests ps

  unfoldable pub n_enqueued_requests : List (Partition bounded) → ℕ
  n_enqueued_requests [] = 0
  n_enqueued_requests (p ∷ ps) = request_queue_size bounded p + n_enqueued_requests ps

  unfoldable pub in_queue_amount : List (Partition bounded) → List ℕ
  in_queue_amount [] = []
  in_queue_amount (p ∷ ps) = request_queue_size bounded p ∷ in_queue_amount ps

  unfoldable pub error_count : List (Partition bounded) → ℕ
  error_count [] = 0
  error_count (p ∷ ps) = p.error_count + error_count ps

  -- The amounts in the queues add up to the number of enqueued requests.
  pub n_enqueued_requests-in_queue_amount :
      (ps : List (Partition bounded)) → sum_of (in_queue_amount ps) ≡ n_enqueued_requests ps
  unfolding n_enqueued_requests in_queue_amount
  n_enqueued_requests-in_queue_amount [] = refl
  n_enqueued_requests-in_queue_amount (p ∷ ps) =
      ap (λ n. request_queue_size bounded p + n) (n_enqueued_requests-in_queue_amount ps)
