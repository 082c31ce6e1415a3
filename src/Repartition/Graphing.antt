-- ===== src/Repartition/Graphing.antt =====
-- The rounds of the graph thread: a request is taken in, and a repartitioning is ordered where none
-- is under way.
use kvpaxos.Base.{
  ℕ, ◌+◌, ◌<◌, Bool, true, false, ◌&&◌, List, ◌≡◌, refl, ◌∙◌, arith, Bool-cases, inl, inr, ltb,
  ◌==◌, ◌%◌, if◌then◌else◌, if-true, if-false, ◌⊎◌,
}
use kvpaxos.Base.Results.{Result, ok}
use kvpaxos.Types.{ClientMessage}
use kvpaxos.Graph.{n_vertex}
use kvpaxos.Scheduler.{Scheduler}
use kvpaxos.Tracking.Window.{IsRequest}
use kvpaxos.Imbalance.{Float, Balance, imbalance, clear_imbalance_count}
use kvpaxos.Repartition.{Config, Shared, order_partitioning, is_microseconds}
use kvpaxos.Repartition.Rounds.{interval_divides, order_if_any, time_achieved}
use kvpaxos.Repartition.Handshake.{
  Handshake, Round, track-InWindow, order_partitioning-IsGraph, ordered, with_tracker,
}
use kvpaxos.Repartition.Free
use kvpaxos.Repartition.NonStop
use kvpaxos.Repartition.Async
use kvpaxos.Repartition.AsyncImb

abbrev any_vertex : Shared → Bool
any_vertex s = ltb 0 (n_vertex s.tracker.workload_graph)

stays : (n tl : ℕ) (s : Shared) → Handshake n tl s → Round n tl s.scheduler (ok s)
stays n tl s h = record { after = s; runs = refl; unchanged = refl; holds = h }

-- A round that is equal to another.
same_round :
    (n tl : ℕ) (c : Scheduler) (r q : Result Shared) → r ≡ q → Round n tl c q → Round n tl c r
same_round n tl c r q e o = record {
  after = o.after;
  runs = e ∙ o.runs;
  unchanged = o.unchanged;
  holds = o.holds;
}

-- The interval of operations is not 0.
abbrev pub HasInterval : Config → Type 0
HasInterval cfg = (is_microseconds cfg.interval_type ≡ true) ⊎ (0 < cfg.repartition_interval)

interval_divides-HasInterval :
    (cfg : Config) (now : ℕ) (s : Shared)
    → HasInterval cfg
    → (b : Bool) × (interval_divides cfg now s ≡ ok b)
unfolding interval_divides
interval_divides-HasInterval cfg now s (inl e) = (time_achieved cfg now s, if-true _ e)
interval_divides-HasInterval cfg now s (inr p) =
    elim (Bool-cases (is_microseconds cfg.interval_type)) [
      | inl e ↦ (time_achieved cfg now s, if-true _ e)
      | inr e ↦
          let q : (cfg.repartition_interval == 0) ≡ false = ground arith in
          (
            s.scheduler.n_dispatched_requests % cfg.repartition_interval == 0,
            if-false _ e ∙ if-false _ q,
          )
    ]

-- `FreeScheduler`
pub free-Round :
    (cfg : Config) (n now : ℕ) (m : ClientMessage) (s : Shared)
    → 0 < cfg.tracking_length
    → HasInterval cfg
    → IsRequest m
    → Handshake n cfg.tracking_length s
    → Round n cfg.tracking_length s.scheduler (Free.update_graph_round cfg now m s)
unfolding Free.update_graph_round order_partitioning
free-Round cfg n now m s p i r h =
    let tl = cfg.tracking_length in
    let (tracker, runs, inside) = track-InWindow tl m s p r h.inside in
    let t = record s { tracker = tracker } in
    let held = with_tracker n tl s tracker h inside in
    elim (Bool-cases s.repartitioning) [
      | inl e ↦ same_round n tl s.scheduler _ (ok t) (rw runs (if-true _ e)) (stays n tl t held)
      | inr e ↦
          let (b, divides) = interval_divides-HasInterval cfg now t i in
          elim (Bool-cases (b && any_vertex t)) [
            | inl y ↦
                same_round n tl s.scheduler _
                  (order_partitioning (record t { repartitioning = true }))
                  (rw runs (if-false _ e ∙ rw divides (if-true _ y))) (ordered n tl t held e)
            | inr y ↦
                same_round n tl s.scheduler _ (ok t)
                  (rw runs (if-false _ e ∙ rw divides (if-false _ y))) (stays n tl t held)
          ]
    ]

-- `NonStopScheduler`
pub non_stop-Round :
    (cfg : Config) (n : ℕ) (m : ClientMessage) (s : Shared)
    → 0 < cfg.tracking_length
    → IsRequest m
    → Handshake n cfg.tracking_length s
    → Round n cfg.tracking_length s.scheduler (NonStop.update_graph_round cfg m s)
unfolding NonStop.update_graph_round order_partitioning
non_stop-Round cfg n m s p r h =
    let tl = cfg.tracking_length in
    let (tracker, runs, inside) = track-InWindow tl m s p r h.inside in
    let t = record s { tracker = tracker } in
    let held = with_tracker n tl s tracker h inside in
    elim (Bool-cases s.repartitioning) [
      | inl e ↦ same_round n tl s.scheduler _ (ok t) (rw runs (if-true _ e)) (stays n tl t held)
      | inr e ↦ elim (Bool-cases (any_vertex t)) [
        | inl y ↦
            same_round n tl s.scheduler _ (order_partitioning (record t { repartitioning = true }))
              (rw runs (if-false _ e ∙ if-true _ y)) (ordered n tl t held e)
        | inr y ↦
            same_round n tl s.scheduler _ (ok t) (rw runs (if-false _ e ∙ if-false _ y))
              (stays n tl t held)
      ]
    ]

-- `AsyncScheduler`: the flag that the scheduling thread has set is taken back.
pub async-Round :
    (cfg : Config) (n : ℕ) (m : ClientMessage) (s : Shared)
    → 0 < cfg.tracking_length
    → IsRequest m
    → Handshake n cfg.tracking_length s
    → Round n cfg.tracking_length s.scheduler (Async.update_graph_round cfg m s)
unfolding Async.update_graph_round order_if_any
async-Round cfg n m s p r h =
    let tl = cfg.tracking_length in
    let (tracker, runs, inside) = track-InWindow tl m s p r h.inside in
    let t = record s { tracker = tracker } in
    let held = with_tracker n tl s tracker h inside in
    let u = record t { repartition = false } in
    elim (Bool-cases s.repartition) [
      | inr e ↦ same_round n tl s.scheduler _ (ok t) (rw runs (if-false _ e)) (stays n tl t held)
      | inl e ↦ elim (Bool-cases (any_vertex t)) [
        | inr y ↦ same_round n tl s.scheduler _ (ok u) (rw runs (if-true _ e ∙ if-false _ y)) (
            stays n tl u (record {
              valid = held.valid;
              same_size = held.same_size;
              at_most_one = ground (arith, h.at_most_one);
              scheme = held.scheme;
              graph = held.graph;
              inside = held.inside;
            }))
        | inl y ↦
            let (d, orders, holds) = order_partitioning-IsGraph tl u inside in
            record {
              after = record u { input_graph = d; repart_semaphore = u.repart_semaphore + 1 };
              runs = rw runs (if-true _ e ∙ if-true _ y ∙ orders);
              unchanged = refl;
              holds = holds n h.valid h.same_size (ground (arith, h.at_most_one)) h.scheme;
            }
      ]
    ]

-- The fields that the handshake does not speak of.
with_counts :
    (n tl time start : ℕ) (b : Balance) (s : Shared)
    → Handshake n tl s
    → Handshake n tl (record s { time_start = time; operation_start = start; balance = b })
with_counts n tl time start b s h = record {
  valid = h.valid;
  same_size = h.same_size;
  at_most_one = h.at_most_one;
  scheme = h.scheme;
  graph = h.graph;
  inside = h.inside;
}

-- The test of the balance, where no repartitioning is under way.
check_balance-Round :
    (float : Float) (threshold : float.F) (max n tl : ℕ) (amounts : List ℕ) (s : Shared)
    → Handshake n tl s
    → s.repartitioning ≡ false
    → Round n tl s.scheduler (AsyncImb.check_balance float threshold max amounts s)
unfolding AsyncImb.check_balance order_partitioning
check_balance-Round float threshold max n tl amounts s h e =
    let r =
      imbalance float threshold max s.scheduler.n_dispatched_requests s.operation_start
        s.scheduler.cross_partition_count amounts s.balance in
    let t = record s { balance = r.1 } in
    let held = with_counts n tl s.time_start s.operation_start r.1 s h in
    elim (Bool-cases r.0) [
      | inr f ↦ same_round n tl s.scheduler _ (ok t) (if-false _ f) (stays n tl t held)
      | inl f ↦ elim (Bool-cases (any_vertex t)) [
        | inr y ↦
            same_round n tl s.scheduler _ (ok (record t { repartitioning = true }))
              (if-true _ f ∙ if-false _ y)
              (stays n tl (record t { repartitioning = true })
                (record {
                  valid = held.valid;
                  same_size = held.same_size;
                  at_most_one = ground (arith, h.at_most_one);
                  scheme = held.scheme;
                  graph = held.graph;
                  inside = held.inside;
                }))
        | inl y ↦
            let o = ordered n tl t held e in
            record {
              after = record (o.after) { balance = clear_imbalance_count o.after.balance };
              runs = if-true _ f ∙ if-true _ y ∙ (rw (o.runs) refl);
              unchanged = o.unchanged;
              holds =
                  with_counts n tl o.after.time_start o.after.operation_start
                    (clear_imbalance_count o.after.balance) o.after o.holds;
            }
      ]
    ]

-- `AsyncImbScheduler`
pub async_imb-Round :
    (float : Float) (threshold : float.F) (max : ℕ) (cfg : Config) (n now : ℕ) (amounts : List ℕ)
    (m : ClientMessage) (s : Shared)
    → 0 < cfg.tracking_length
    → IsRequest m
    → Handshake n cfg.tracking_length s
    → Round n cfg.tracking_length s.scheduler
        (AsyncImb.update_graph_round float threshold max cfg now amounts m s)
unfolding AsyncImb.update_graph_round AsyncImb.restart
async_imb-Round float threshold max cfg n now amounts m s p r h =
    let tl = cfg.tracking_length in
    let counted = record (s.tracker) {
      n_processed_requests = s.tracker.n_processed_requests + 1;
    } in
    let (tracker, runs, inside) =
      track-InWindow tl m (record s { tracker = counted }) p r
        (record { follows = h.inside.follows; tracked = h.inside.tracked; full = h.inside.full }) in
    let t = record s { tracker = tracker } in
    let held = with_tracker n tl s tracker h inside in
    elim (Bool-cases s.repartitioning) [
      | inl e ↦ same_round n tl s.scheduler _ (ok t) (rw runs (if-true _ e)) (stays n tl t held)
      | inr e ↦ elim (Bool-cases (AsyncImb.interval_achieved cfg now t)) [
        | inr y ↦
            same_round n tl s.scheduler _ (ok t) (rw runs (if-false _ e ∙ if-false _ y))
              (stays n tl t held)
        | inl y ↦
            let o = check_balance-Round float threshold max n tl amounts t held e in
            record {
              after = AsyncImb.restart cfg now o.after;
              runs = rw runs (if-false _ e ∙ if-true _ y ∙ (rw (o.runs) refl));
              unchanged = o.unchanged;
              holds =
                  with_counts n tl
                    (if is_microseconds cfg.interval_type then now else o.after.time_start)
                    (if is_microseconds cfg.interval_type
                      then o.after.operation_start
                      else o.after.tracker.n_processed_requests)
                    o.after.balance o.after o.holds;
            }
      ]
    ]
