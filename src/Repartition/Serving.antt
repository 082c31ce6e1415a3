-- ===== src/Repartition/Serving.antt =====
-- The rounds of the scheduling thread: a request is dispatched, and a new scheme is taken over where
-- one is ready.
use kvpaxos.Base.{
  ℕ, true, List, refl, ◌∙◌, arith, Bool-cases, inl, inr, if◌then◌else◌, if-true, if-false,
}
use kvpaxos.Types.{ClientMessage, int_key}
use kvpaxos.Scheduler.{change_scheme}
use kvpaxos.Scheduler.Dispatching.{IsOrder, IsDispatched}
use kvpaxos.Repartition.{Config, Shared, is_round_robin, is_microseconds}
use kvpaxos.Repartition.Rounds.{take_over}
use kvpaxos.Repartition.Handshake.{Handshake}
use kvpaxos.Repartition.Free
use kvpaxos.Repartition.Async
use kvpaxos.Repartition.AsyncImb
use kvpaxos.Repartition.Taking.{
  Served, dispatch_shared-Sent, change_partition_scheme-Taken, plain-Served, take_over-Taken,
  renewed-Served,
}

-- `FreeScheduler`, and `NonStopScheduler`, whose scheduling thread is the same.
pub free-Served :
    (order : List ℕ → List ℕ) (cfg : Config) (n now : ℕ) (m : ClientMessage) (s : Shared)
    → IsOrder order
    → IsDispatched m
    → Handshake n cfg.tracking_length s
    → Served order n cfg.tracking_length s (Free.schedule_and_answer order cfg now m s)
unfolding Free.schedule_and_answer Free.reset take_over
free-Served order cfg n now m s o is h =
    let tl = cfg.tracking_length in
    let sent = dispatch_shared-Sent order n tl m s o is h in
    let t = record s { scheduler = sent.d.scheduler } in
    elim (Bool-cases (is_round_robin cfg.repartition_method)) [
      | inl rr ↦
          plain-Served order n tl m s t _ is sent refl sent.holds (rw (sent.runs) (rw rr refl))
      | inr rr ↦ elim (Bool-cases s.update) [
        | inr u ↦
            plain-Served order n tl m s t _ is sent refl sent.holds
              (rw (sent.runs) (rw rr (if-false _ u)))
        | inl u ↦
            let taken = change_partition_scheme-Taken order n tl t sent.holds u in
            renewed-Served order n tl m s _ is sent taken
              (if is_microseconds cfg.interval_type then now else s.time_start) s.operation_start
              s.balance
              (rw (sent.runs) (
                rw rr
                  (if-true _ u ∙ take_over-Taken order n tl m s sent taken (Free.reset cfg now))))
      ]
    ]

-- `AsyncScheduler`
pub async-Served :
    (order : List ℕ → List ℕ) (cfg : Config) (n now : ℕ) (m : ClientMessage) (s : Shared)
    → IsOrder order
    → IsDispatched m
    → Handshake n cfg.tracking_length s
    → Served order n cfg.tracking_length s (Async.schedule_and_answer order cfg now m s)
unfolding Async.schedule_and_answer Async.reset take_over
async-Served order cfg n now m s o is h =
    let tl = cfg.tracking_length in
    let sent = dispatch_shared-Sent order n tl m s o is h in
    let t = record s { scheduler = sent.d.scheduler } in
    elim (Bool-cases (is_round_robin cfg.repartition_method)) [
      | inl rr ↦
          plain-Served order n tl m s t _ is sent refl sent.holds (rw (sent.runs) (rw rr refl))
      | inr rr ↦ elim (Bool-cases s.repartitioning) [
        | inl f ↦ elim (Bool-cases s.update) [
          | inr u ↦
              plain-Served order n tl m s t _ is sent refl sent.holds
                (rw (sent.runs) (rw rr (if-true _ f ∙ if-false _ u)))
          | inl u ↦
              let taken = change_partition_scheme-Taken order n tl t sent.holds u in
              renewed-Served order n tl m s _ is sent taken
                (if is_microseconds cfg.interval_type then now else s.time_start)
                (if is_microseconds cfg.interval_type
                  then s.operation_start
                  else (change_scheme order taken.scheme
                      sent.d.scheduler).scheduler.n_dispatched_requests)
                s.balance
                (rw (sent.runs) (
                  rw rr (
                    if-true _ f
                    ∙ if-true _ u
                    ∙ take_over-Taken order n tl m s sent taken (Async.reset cfg now))))
        ]
        | inr f ↦ elim (Bool-cases (Async.interval_achieved cfg now t)) [
          | inr e ↦
              plain-Served order n tl m s t _ is sent refl sent.holds
                (rw (sent.runs) (rw rr (if-false _ f ∙ if-false _ e)))
          | inl e ↦
              plain-Served order n tl m s (record t { repartition = true; repartitioning = true }) _
                is sent refl
                (record {
                  valid = sent.holds.valid;
                  same_size = sent.holds.same_size;
                  at_most_one = ground (arith, h.at_most_one);
                  scheme = sent.holds.scheme;
                  graph = sent.holds.graph;
                  inside = sent.holds.inside;
                })
                (rw (sent.runs) (rw rr (if-false _ f ∙ if-true _ e)))
        ]
      ]
    ]

-- `AsyncImbScheduler`
pub async_imb-Served :
    (order : List ℕ → List ℕ) (cfg : Config) (n now : ℕ) (m : ClientMessage) (s : Shared)
    → IsOrder order
    → IsDispatched m
    → Handshake n cfg.tracking_length s
    → Served order n cfg.tracking_length s (AsyncImb.schedule_and_answer order cfg now m s)
unfolding AsyncImb.schedule_and_answer AsyncImb.reset take_over
async_imb-Served order cfg n now m s o is h =
    let tl = cfg.tracking_length in
    let sent = dispatch_shared-Sent order n tl m s o is h in
    let t = record s { scheduler = sent.d.scheduler } in
    elim (Bool-cases (is_round_robin cfg.repartition_method)) [
      | inl rr ↦
          plain-Served order n tl m s t _ is sent refl sent.holds (rw (sent.runs) (rw rr refl))
      | inr rr ↦ elim (Bool-cases s.update) [
        | inr u ↦
            plain-Served order n tl m s t _ is sent refl sent.holds
              (rw (sent.runs) (rw rr (if-false _ u)))
        | inl u ↦
            let taken = change_partition_scheme-Taken order n tl t sent.holds u in
            renewed-Served order n tl m s _ is sent taken
              (if is_microseconds cfg.interval_type then now else s.time_start)
              (change_scheme order taken.scheme sent.d.scheduler).scheduler.n_dispatched_requests
              (record (s.balance) {
                cross_operation_start =
                    (change_scheme order taken.scheme
                      sent.d.scheduler).scheduler.cross_partition_count;
              })
              (rw (sent.runs) (
                rw rr (
                  if-true _ u
                  ∙ take_over-Taken order n tl m s sent taken (AsyncImb.reset cfg now))))
      ]
    ]
