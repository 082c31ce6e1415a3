-- ===== src/Blocking/Order.antt =====
-- The states that the two threads of a blocking scheduler come to: the order of service, and the rounds
-- from there.
use kvpaxos.Base.{ℕ, ◌<◌, List, ◌++◌, ℤ, ◌≡◌}
use kvpaxos.Base.Results.{ok}
use kvpaxos.Types.{ClientMessage, int_key}
use kvpaxos.Scheduler.{Action}
use kvpaxos.Scheduler.Dispatching.{IsDispatched, touches}
use kvpaxos.Scheduler.Order.{Runs, keep}
use kvpaxos.Scheduler.Sequence.{schedule_in_order}
use kvpaxos.Scheduler.Workers.{Workers, Works}
use kvpaxos.Scheduler.Workers.Simulation.{served_by}
use kvpaxos.Scheduler.Workers.Progress.{naming, served_in_order}
use kvpaxos.Repartition.Start.{Populating-Started}
use kvpaxos.Blocking.{Blocking, BlockingRound, update_graph_counted}
use kvpaxos.Blocking.Rounds.{update_graph_counted-Sound}
use kvpaxos.Blocking.Threads.{
  start, serving, tracking, meeting, BlockingSetting, IsBlockingSetting, serve_of, repartition_of,
  BlockingReach, serve_of-Commanded, repartition_of-Commanded, Agreed, Commanded-Agreed,
  tracked-Agreed, start-Agreed,
}

BlockingReach-Agreed :
    (g : BlockingSetting) (n : ℕ) (acts : List Action) (s : Blocking)
    → IsBlockingSetting g
    → 0 < n
    → BlockingReach g n acts s
    → Agreed g n acts s
BlockingReach-Agreed g n acts s i p (start now q populating) =
    start-Agreed g n now q (Populating-Started g.codec g.config n q p i.window populating)
BlockingReach-Agreed g n acts s i p
      (serving now amounts m {acts = acts'} {s = s'} {r = r} reach b d e) =
    let a = BlockingReach-Agreed g n acts' s' i p reach in
    Commanded-Agreed g n acts' s' (serve_of g now amounts m s') r
      (serve_of-Commanded g n now amounts m s' i d a.sound) e a
BlockingReach-Agreed g n acts s i p (tracking m {s = s'} {t = t} reach b d e) =
    tracked-Agreed g n acts m s' t i d e (BlockingReach-Agreed g n acts s' i p reach)
BlockingReach-Agreed g n acts s i p (meeting now {acts = acts'} {s = s'} {r = r} reach b d e) =
    let a = BlockingReach-Agreed g n acts' s' i p reach in
    Commanded-Agreed g n acts' s' (repartition_of g now s') r
      (repartition_of-Commanded g n now s' i a.sound) e a

-- Of a blocking scheduler, with at least one partition, a tracking window, an interval and sound
-- libraries: in every state that its two threads come to, from a populated start, and in whichever
-- order the workers do the actions so far, the requests that name a key are done in the order in
-- which they were dispatched.
pub blocking_in_order :
    (g : BlockingSetting) (n : ℕ) (acts : List Action) (s : Blocking) (k : ℤ)
    (finished left : List Action)
    → IsBlockingSetting g
    → 0 < n
    → BlockingReach g n acts s
    → Runs acts finished left
    → keep (touches k) finished ++ keep (touches k) left ≡ keep (touches k) acts
blocking_in_order g n acts s k finished left i p reach run =
    let a = BlockingReach-Agreed g n acts s i p reach in
    schedule_in_order g.order a.begun a.commands k
      (record { scheduler = s.scheduler; actions = acts }) finished left i.iterates a.begun_valid
      (rw (a.begun_size) a.allowed) a.performed run

-- Of a blocking scheduler, with at least one partition, a tracking window, an interval and sound
-- libraries: in every state that its two threads come to, from a populated start, a request that
-- names a key is dispatched, and taken into the graph, and the partitions are made anew at the
-- barrier, without an exception or undefined behaviour.
pub blocking_succeeds :
    (g : BlockingSetting) (n : ℕ) (acts : List Action) (s : Blocking) (now : ℕ) (amounts : List ℕ)
    (m : ClientMessage)
    → IsBlockingSetting g
    → 0 < n
    → IsDispatched m
    → BlockingReach g n acts s
    → ((r : BlockingRound) × (serve_of g now amounts m s ≡ ok r))
      × ((t : Blocking) × (update_graph_counted g.config m s ≡ ok t))
      × ((r : BlockingRound) × (repartition_of g now s ≡ ok r))
blocking_succeeds g n acts s now amounts m i p d reach =
    let h = (BlockingReach-Agreed g n acts s i p reach).sound in
    let served = serve_of-Commanded g n now amounts m s i d h in
    let (t, runs, unchanged, sound) =
      update_graph_counted-Sound g.config n m s i.window d.request h in
    let renewed = repartition_of-Commanded g n now s i h in
    ((served.after, served.runs), (t, runs), (renewed.after, renewed.runs))

-- Of a blocking scheduler, with at least one partition, a tracking window, an interval and sound
-- libraries: in every state that its two threads come to, from a populated start, and whatever the
-- interleaving of the workers with the pushes of the actions so far, the requests that name a key and
-- are served are, in the order in which they are served, the first of those that were dispatched.
pub blocking_served :
    (g : BlockingSetting) (n : ℕ) (acts : List Action) (s : Blocking) (k : ℤ)
    (log : List (ℕ × ClientMessage)) (w : Workers)
    → IsBlockingSetting g
    → 0 < n
    → BlockingReach g n acts s
    → Works acts log w
    → (rest : List (ℕ × ClientMessage)) × (naming k log ++ rest ≡ naming k (served_by acts))
blocking_served g n acts s k log w i p reach works =
    served_in_order k works
      (λ finished left run. blocking_in_order g n acts s k finished left i p reach run)
