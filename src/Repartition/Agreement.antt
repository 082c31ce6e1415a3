-- ===== src/Repartition/Agreement.antt =====
-- The states that the three threads come to, under any interleaving, and the commands behind them.
use kvpaxos.Base.{false, ℕ, ◌<◌, true, some, List, ◌++◌, ℤ, ◌≡◌, refl, arith}
use kvpaxos.Base.Results.{ok}
use kvpaxos.Types.{ClientMessage, int_key}
use kvpaxos.Scheduler.{Action}
use kvpaxos.Scheduler.Dispatching.{IsDispatched, touches}
use kvpaxos.Scheduler.Order.{Runs, keep}
use kvpaxos.Scheduler.Sequence.{schedule_in_order}
use kvpaxos.Scheduler.Workers.{Workers, Works}
use kvpaxos.Scheduler.Workers.Simulation.{served_by}
use kvpaxos.Scheduler.Workers.Progress.{naming, served_in_order}
use kvpaxos.Repartition.{Shared, Scheduling, end_partitioning}
use kvpaxos.Base.Maps.{Map}
use kvpaxos.Repartition.Scheme.{InRange, partitioning-InRange}
use kvpaxos.Repartition.Start.{Populating-Started}
use kvpaxos.Repartition.Threads.{
  Setting, schedule_of, update_graph_of, Reach, start, scheduling, tracking, beginning, ending,
}
use kvpaxos.Repartition.Commands.{
  Agrees, Started-Agrees, beginning-Agrees, scheduled-Agrees, tracked-Agrees, ended-Agrees,
}
use kvpaxos.Repartition.Variants.{IsSetting, schedule_of-Served, update_graph_of-Round}

-- Of a scheduler that repartitions beside the service, with at least one partition, a tracking
-- window, an interval and sound libraries: in every state that its three threads come to, from a
-- populated start, at most one repartitioning is under way, and its map and its copy of the graph are
-- there when they are taken; and the actions of the scheduling thread are those of some run of
-- requests that name keys and of schemes with existing partitions.
pub Reach-Agrees :
    (g : Setting) (n : ℕ) (acts : List Action) (s : Shared)
    → IsSetting g
    → 0 < n
    → Reach g n acts s
    → Agrees g n acts s
Reach-Agrees g n acts s i p (start now q populating) =
    Started-Agrees g n now q (Populating-Started g.codec g.config n q p i.window populating)
Reach-Agrees g n acts s i p (scheduling now m {acts = acts'} {s = s'} {r = r} reach d e) =
    scheduled-Agrees g n now m acts' s' r i d e (Reach-Agrees g n acts' s' i p reach)
Reach-Agrees g n acts s i p (tracking now amounts m {s = s'} {t = t} reach d e) =
    tracked-Agrees g n now amounts m acts s' t i d e (Reach-Agrees g n acts s' i p reach)
Reach-Agrees g n acts s i p (beginning {s = s'} {t = t} reach e) =
    beginning-Agrees g n acts s' t (Reach-Agrees g n acts s' i p reach) e
Reach-Agrees g n acts s i p (ending {s = s'} {t = t} reach u e) =
    ended-Agrees g n acts s' t i u e (Reach-Agrees g n acts s' i p reach)

-- Of a scheduler that repartitions beside the service, with at least one partition, a tracking
-- window, an interval and sound libraries: in every state that its three threads come to, from a
-- populated start, and in whichever order the workers do the actions so far, the requests that name a
-- key are done in the order in which they were dispatched.
pub reached_in_order :
    (g : Setting) (n : ℕ) (acts : List Action) (s : Shared) (k : ℤ) (finished left : List Action)
    → IsSetting g
    → 0 < n
    → Reach g n acts s
    → Runs acts finished left
    → keep (touches k) finished ++ keep (touches k) left ≡ keep (touches k) acts
reached_in_order g n acts s k finished left i p reach run =
    let a = Reach-Agrees g n acts s i p reach in
    schedule_in_order g.order a.begun a.commands k
      (record { scheduler = s.scheduler; actions = acts }) finished left i.iterates a.begun_valid
      (rw (a.begun_size) a.allowed) a.performed run

-- Of a scheduler that repartitions beside the service, with at least one partition, a tracking
-- window, an interval and sound libraries: in every state that its three threads come to, from a
-- populated start, a request that names a key is dispatched, and taken into the graph, without an
-- exception or undefined behaviour.
pub reached_succeeds :
    (g : Setting) (n : ℕ) (acts : List Action) (s : Shared) (now : ℕ) (amounts : List ℕ)
    (m : ClientMessage)
    → IsSetting g
    → 0 < n
    → IsDispatched m
    → Reach g n acts s
    → ((r : Scheduling) × (schedule_of g now m s ≡ ok r))
      × ((t : Shared) × (update_graph_of g now amounts m s ≡ ok t))
reached_succeeds g n acts s now amounts m i p d reach =
    let h = (Reach-Agrees g n acts s i p reach).holds in
    let served = schedule_of-Served g n now m s i d h in
    let round = update_graph_of-Round g n now amounts m s i d.request h in
    ((served.after, served.runs), (round.after, round.runs))

-- Of such a scheduler, in every such state: a partitioning that has begun ends, and its scheme
-- names partitions that exist.
pub reached_ends :
    (g : Setting) (n : ℕ) (acts : List Action) (s : Shared)
    → IsSetting g
    → 0 < n
    → s.updating ≡ true
    → Reach g n acts s
    → (m : Map ℤ ℕ) × (end_partitioning g.partitioners g.config s
        ≡ ok (record s { updated_data_to_partition = some m; update = true; updating = false }))
      × InRange n m
unfolding end_partitioning
reached_ends g n acts s i p u reach =
    let h = (Reach-Agrees g n acts s i p reach).holds in
    let (m, runs, in_range, keys) =
      partitioning-InRange g.partitioners g.config.repartition_method s.input_graph s.scheduler
        i.partitioners (h.graph (ground arith)) h.valid.some_partition in
    (m, rw runs refl, rw (h.same_size) at in_range)

-- Of a scheduler that repartitions beside the service, with at least one partition, a tracking
-- window, an interval and sound libraries: in every state that its three threads come to, from a
-- populated start, and whatever the interleaving of the workers with the pushes of the
-- actions so far, the requests that name a key and are served are, in the order in which they are
-- served, the first of those that were dispatched.
pub reached_served :
    (g : Setting) (n : ℕ) (acts : List Action) (s : Shared) (k : ℤ) (log : List (ℕ × ClientMessage))
    (w : Workers)
    → IsSetting g
    → 0 < n
    → Reach g n acts s
    → Works acts log w
    → (rest : List (ℕ × ClientMessage)) × (naming k log ++ rest ≡ naming k (served_by acts))
reached_served g n acts s k log w i p reach works =
    served_in_order k works
      (λ finished left run. reached_in_order g n acts s k finished left i p reach run)
