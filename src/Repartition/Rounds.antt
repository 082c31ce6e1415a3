-- ===== src/Repartition/Rounds.antt =====
-- What the rounds of the loops of the schedulers that repartition beside the service have in common.
use kvpaxos.Base.{ℕ, ◌+◌, ◌%◌, Bool, List, ◌++◌, leb, ltb, ◌==◌, if◌then◌else◌}
use kvpaxos.Base.Results.{Result, ok, undefined, ◌>>=◌}
use kvpaxos.Types.{ClientMessage}
use kvpaxos.Graph.{n_vertex}
use kvpaxos.Scheduler.{dispatch_counted}
use kvpaxos.Repartition.{
  Config, Shared, Scheduling, is_microseconds, change_partition_scheme, order_partitioning,
}

-- `utils::now() - time_start_ >= time_interval_`
abbrev pub time_achieved : Config → ℕ → Shared → Bool
time_achieved cfg now s = leb (s.time_start + cfg.repartition_interval) now

-- `time_start_ = utils::now()`, where the interval is of time.
abbrev pub restart_time : Config → ℕ → Shared → Shared
restart_time cfg now s = record s {
  time_start = if is_microseconds cfg.interval_type then now else s.time_start;
}

-- `n_dispatched_requests_ % operation_interval_ == 0`; a remainder by 0 is undefined.
unfoldable pub interval_divides : Config → ℕ → Shared → Result Bool
interval_divides cfg now s =
    if is_microseconds cfg.interval_type
    then ok (time_achieved cfg now s)
    else (if cfg.repartition_interval == 0
        then undefined
        else ok (s.scheduler.n_dispatched_requests % cfg.repartition_interval == 0))

-- The request is dispatched, and counted.
unfoldable pub dispatch_shared : (List ℕ → List ℕ) → ClientMessage → Shared → Result Scheduling
dispatch_shared order m s = dispatch_counted order m s.scheduler >>= λ d.
    ok (record { shared = record s { scheduler = d.scheduler }; actions = d.actions })

-- The scheme is taken over, after the actions `r.actions`.
unfoldable pub take_over : (List ℕ → List ℕ) → Scheduling → (Shared → Shared) → Result Scheduling
take_over order r reset = change_partition_scheme order r.shared >>= λ t.
    ok (record { shared = reset t.shared; actions = r.actions ++ t.actions })

-- `repartition_` is set by the flags' owner.
unfoldable pub order_if_any : Shared → Result Shared
order_if_any s = if ltb 0 (n_vertex s.tracker.workload_graph) then order_partitioning s else ok s
