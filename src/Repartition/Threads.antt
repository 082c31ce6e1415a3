-- ===== src/Repartition/Threads.antt =====
-- The three threads beside each other: each step is one round of one thread's loop, and they come in
-- any order.
use kvpaxos.Base.{ℕ, true, some, List, [], ◌++◌, ◌≡◌}
use kvpaxos.Base.Results.{Result, ok}
use kvpaxos.Types.{ClientMessage}
use kvpaxos.Tracking.Window.{IsRequest}
use kvpaxos.Storage.{Codec}
use kvpaxos.Scheduler.{Action}
use kvpaxos.Scheduler.Dispatching.{IsDispatched}
use kvpaxos.Imbalance.{Float}
use kvpaxos.Repartition.{
  Config, Partitioners, Shared, Scheduling, begin_partitioning, end_partitioning,
}
use kvpaxos.Repartition.Start.{Populated, Populating}
use kvpaxos.Repartition.Free
use kvpaxos.Repartition.NonStop
use kvpaxos.Repartition.Async
use kvpaxos.Repartition.AsyncImb

-- The classes whose threads run beside each other.
pub data Variant : Type 0 where
  free non_stop async async_imb : Variant

-- What the constructors take, and what the code outside gives.
pub record Setting : Type 1 where
  pub variant : Variant
  pub config : Config
  pub order : List ℕ → List ℕ
  pub partitioners : Partitioners
  pub float : Float
  pub balance_threshold : float.F
  pub max_sucessive_imbalances : ℕ
  pub codec : Codec

-- The constructors, and below them the loop bodies that they start threads on.
abbrev pub init_of : Setting → ℕ → ℕ → Shared
init_of g n now = elim (g.variant) [
  | free ↦ Free.init_shared g.config n now
  | non_stop ↦ NonStop.init_shared g.config n now
  | async ↦ Async.init_shared g.config n now
  | async_imb ↦ AsyncImb.init_shared g.config n now
]

abbrev pub schedule_of : Setting → ℕ → ClientMessage → Shared → Result Scheduling
schedule_of g now m s = elim (g.variant) [
  | free ↦ Free.schedule_and_answer g.order g.config now m s
  | non_stop ↦ Free.schedule_and_answer g.order g.config now m s
  | async ↦ Async.schedule_and_answer g.order g.config now m s
  | async_imb ↦ AsyncImb.schedule_and_answer g.order g.config now m s
]

abbrev pub update_graph_of : Setting → ℕ → List ℕ → ClientMessage → Shared → Result Shared
update_graph_of g now amounts m s = elim (g.variant) [
  | free ↦ Free.update_graph_round g.config now m s
  | non_stop ↦ NonStop.update_graph_round g.config m s
  | async ↦ Async.update_graph_round g.config m s
  | async_imb ↦
      AsyncImb.update_graph_round g.float g.balance_threshold g.max_sucessive_imbalances g.config
        now amounts m s
]

-- The members that are filled before the threads get a request.
abbrev pub started_with : Populated → Shared → Shared
started_with p s = record s { scheduler = p.scheduler; tracker = p.tracker }

-- The states that come about with `n` partitions, once keys are populated, and the actions of the
-- scheduling thread so far.
pub data Reach (g : Setting) (n : ℕ) : List Action → Shared → Type 0 where
  start :
      (now : ℕ) (p : Populated)
      → Populating g.codec g.config n p
      → Reach g n [] (started_with p (init_of g n now))
  scheduling :
      (now : ℕ) (m : ClientMessage) {acts : List Action} {s : Shared} {r : Scheduling}
      → Reach g n acts s
      → IsDispatched m
      → schedule_of g now m s ≡ ok r
      → Reach g n (acts ++ r.actions) r.shared
  tracking :
      (now : ℕ) (amounts : List ℕ) (m : ClientMessage) {acts : List Action} {s t : Shared}
      → Reach g n acts s
      → IsRequest m
      → update_graph_of g now amounts m s ≡ ok t
      → Reach g n acts t
  beginning :
      {acts : List Action} {s t : Shared}
      → Reach g n acts s
      → begin_partitioning s ≡ some t
      → Reach g n acts t
  ending :
      {acts : List Action} {s t : Shared}
      → Reach g n acts s
      → s.updating ≡ true
      → end_partitioning g.partitioners g.config s ≡ ok t
      → Reach g n acts t
