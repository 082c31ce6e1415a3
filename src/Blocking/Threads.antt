-- ===== src/Blocking/Threads.antt =====
-- The two threads of a blocking scheduler beside each other, of src/scheduler/scheduler.hpp and
-- old_imb_scheduler.hpp, and what each round of theirs does.
use kvpaxos.Base.{
  ℕ, ◌<◌, true, false, List, [], ◌++◌, ◌≡◌, refl, sym, ◌∙◌, ap, subst, All, All-append,
}
use kvpaxos.Base.Results.{Result, ok, ok_injective}
use kvpaxos.Types.{ClientMessage, int_key}
use kvpaxos.Tracking.Window.{IsRequest}
use kvpaxos.Storage.{Codec}
use kvpaxos.Scheduler.{Scheduler, Action}
use kvpaxos.Scheduler.Involving.{IsValid}
use kvpaxos.Scheduler.Dispatching.{IsOrder, IsDispatched}
use kvpaxos.Scheduler.Sequence.{Command, IsCommand, schedule}
use kvpaxos.Imbalance.{Float}
use kvpaxos.Repartition.{Config, Partitioners}
use kvpaxos.Repartition.Scheme.{AreSound}
use kvpaxos.Repartition.Graphing.{HasInterval}
use kvpaxos.Repartition.Variants.{schedule-append}
use kvpaxos.Repartition.Start.{Populated, Populating, Started}
use kvpaxos.Blocking.{
  Blocking, BlockingRound, init_blocking, schedule_to_barrier, repartition_at_barrier, graph_meets,
  update_graph_counted,
}
use kvpaxos.Blocking.OldImb.{init_old_imb, schedule_if_imbalanced, repartition_and_restart}
use kvpaxos.Blocking.Rounds.{
  schedule_if_imbalanced-Commanded, update_graph_counted-Sound, repartition_at_barrier-Commanded,
  repartition_and_restart-Commanded,
}
use kvpaxos.Blocking.Dispatches.{Sound, Commanded, schedule_to_barrier-Commanded}

-- `Scheduler` and `OldImbScheduler`.
pub data Kind : Type 0 where
  plain old_imb : Kind

pub record BlockingSetting : Type 1 where
  pub kind : Kind
  pub config : Config
  pub order : List ℕ → List ℕ
  pub partitioners : Partitioners
  pub float : Float
  pub balance_threshold : float.F
  pub max_sucessive_imbalances : ℕ
  pub codec : Codec

pub record IsBlockingSetting (g : BlockingSetting) : Type 0 where
  pub window : 0 < g.config.tracking_length
  pub interval : HasInterval g.config
  pub iterates : IsOrder g.order
  pub partitioners : AreSound g.partitioners

-- The constructors.
abbrev pub init_of_kind : Kind → Config → ℕ → ℕ → Blocking
init_of_kind plain cfg n now = init_blocking cfg n now
init_of_kind old_imb cfg n now = init_old_imb cfg n now

-- The rounds of the scheduling thread, up to its barrier and from it on.
abbrev pub serve_of : BlockingSetting → ℕ → List ℕ → ClientMessage → Blocking → Result BlockingRound
serve_of g now amounts m s = elim (g.kind) [
  | plain ↦ schedule_to_barrier g.order g.config now m s
  | old_imb ↦
      schedule_if_imbalanced g.float g.balance_threshold g.max_sucessive_imbalances g.order g.config
        now amounts m s
]

abbrev pub repartition_of : BlockingSetting → ℕ → Blocking → Result BlockingRound
repartition_of g now s = elim (g.kind) [
  | plain ↦ repartition_at_barrier g.order g.partitioners g.config now s
  | old_imb ↦ repartition_and_restart g.order g.partitioners g.config now s
]

-- The members that are filled before the threads get a request.
abbrev pub begun_with : Populated → Blocking → Blocking
begun_with p s = record s { scheduler = p.scheduler; tracker = p.tracker }

-- The states that come about with `n` partitions, once keys are populated, and the actions so far. The scheduling thread
-- takes no request while it is at the barrier, and the graph thread none when it is to meet it.
pub data BlockingReach (g : BlockingSetting) (n : ℕ) : List Action → Blocking → Type 0 where
  start :
      (now : ℕ) (p : Populated)
      → Populating g.codec g.config n p
      → BlockingReach g n [] (begun_with p (init_of_kind g.kind g.config n now))
  serving :
      (now : ℕ) (amounts : List ℕ) (m : ClientMessage) {acts : List Action} {s : Blocking}
      {r : BlockingRound}
      → BlockingReach g n acts s
      → s.at_barrier ≡ false
      → IsDispatched m
      → serve_of g now amounts m s ≡ ok r
      → BlockingReach g n (acts ++ r.actions) r.shared
  tracking :
      (m : ClientMessage) {acts : List Action} {s t : Blocking}
      → BlockingReach g n acts s
      → graph_meets s ≡ false
      → IsRequest m
      → update_graph_counted g.config m s ≡ ok t
      → BlockingReach g n acts t
  meeting :
      (now : ℕ) {acts : List Action} {s : Blocking} {r : BlockingRound}
      → BlockingReach g n acts s
      → s.at_barrier ≡ true
      → graph_meets s ≡ true
      → repartition_of g now s ≡ ok r
      → BlockingReach g n (acts ++ r.actions) r.shared

pub serve_of-Commanded :
    (g : BlockingSetting) (n now : ℕ) (amounts : List ℕ) (m : ClientMessage) (s : Blocking)
    → IsBlockingSetting g
    → IsDispatched m
    → Sound n g.config.tracking_length s
    → Commanded g.order n g.config.tracking_length s (serve_of g now amounts m s)
serve_of-Commanded g n now amounts m s i d h = go g.kind refl
  where
    go :
        (k : Kind)
        → g.kind ≡ k
        → Commanded g.order n g.config.tracking_length s (serve_of g now amounts m s)
    go plain e =
        rw e (schedule_to_barrier-Commanded g.order g.config n now m s i.iterates i.interval d h)
    go old_imb e = rw e (
        schedule_if_imbalanced-Commanded g.float g.balance_threshold g.max_sucessive_imbalances
          g.order g.config n now amounts m s i.iterates d h)

pub repartition_of-Commanded :
    (g : BlockingSetting) (n now : ℕ) (s : Blocking)
    → IsBlockingSetting g
    → Sound n g.config.tracking_length s
    → Commanded g.order n g.config.tracking_length s (repartition_of g now s)
repartition_of-Commanded g n now s i h = go g.kind refl
  where
    go :
        (k : Kind)
        → g.kind ≡ k
        → Commanded g.order n g.config.tracking_length s (repartition_of g now s)
    go plain e =
        rw e (
          repartition_at_barrier-Commanded g.order g.partitioners g.config n now s i.partitioners h)
    go old_imb e =
        rw e (
          repartition_and_restart-Commanded g.order g.partitioners g.config n now s i.partitioners
            h)

-- The actions are those of a run of commands that are allowed, from what the threads started with.
pub record Agreed (g : BlockingSetting) (n : ℕ) (acts : List Action) (s : Blocking) : Type 0 where
  pub sound : Sound n g.config.tracking_length s
  pub begun : Scheduler
  pub begun_valid : IsValid begun
  pub begun_size : begun.n_partitions ≡ n
  pub commands : List Command
  pub allowed : All (IsCommand n) commands
  pub performed :
      schedule g.order commands begun ≡ ok (record { scheduler = s.scheduler; actions = acts })

pub Commanded-Agreed :
    (g : BlockingSetting) (n : ℕ) (acts : List Action) (s : Blocking) (q : Result BlockingRound)
    (r : BlockingRound)
    → Commanded g.order n g.config.tracking_length s q
    → q ≡ ok r
    → Agreed g n acts s
    → Agreed g n (acts ++ r.actions) r.shared
Commanded-Agreed g n acts s q r o e a =
    let same : r ≡ o.after = ok_injective (sym e ∙ o.runs) in
    record {
      sound = rw same (o.sound);
      begun = a.begun;
      begun_valid = a.begun_valid;
      begun_size = a.begun_size;
      commands = a.commands ++ o.commands;
      allowed = All-append (IsCommand n) a.commands o.commands a.allowed o.allowed;
      performed =
          schedule-append g.order a.commands o.commands a.begun
          ∙ rw (a.performed) (rw (o.performed) (rw same refl));
    }

pub tracked-Agreed :
    (g : BlockingSetting) (n : ℕ) (acts : List Action) (m : ClientMessage) (s t : Blocking)
    → IsBlockingSetting g
    → IsRequest m
    → update_graph_counted g.config m s ≡ ok t
    → Agreed g n acts s
    → Agreed g n acts t
tracked-Agreed g n acts m s t i d e a =
    let (u, runs, unchanged, sound) =
      update_graph_counted-Sound g.config n m s i.window d a.sound in
    let e' : u ≡ t = ok_injective (sym runs ∙ e) in
    record {
      sound = subst (Sound n g.config.tracking_length) e' sound;
      begun = a.begun;
      begun_valid = a.begun_valid;
      begun_size = a.begun_size;
      commands = a.commands;
      allowed = a.allowed;
      performed =
          a.performed
          ∙ ap (λ c. ok (record { scheduler = c; actions = acts }))
              (sym unchanged ∙ ap (λ x. x.scheduler) e');
    }

init_same :
    (k : Kind) (cfg : Config) (n now : ℕ) → init_of_kind k cfg n now ≡ init_blocking cfg n now
unfolding init_blocking init_old_imb
init_same plain cfg n now = refl
init_same old_imb cfg n now = refl

pub start-Agreed :
    (g : BlockingSetting) (n now : ℕ) (p : Populated)
    → Started n g.config.tracking_length p
    → Agreed g n [] (begun_with p (init_of_kind g.kind g.config n now))
unfolding init_blocking schedule
start-Agreed g n now p h = rw (init_same g.kind g.config n now) (record {
  sound = record { valid = h.valid; same_size = h.same_size; inside = h.inside };
  begun = p.scheduler;
  begun_valid = h.valid;
  begun_size = h.same_size;
  commands = [];
  allowed = tt;
  performed = refl;
})
