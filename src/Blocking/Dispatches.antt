-- ===== src/Blocking/Dispatches.antt =====
-- The dispatch of a blocking scheduler, up to the barrier: what it does as commands.
use kvpaxos.Base.{
  ℕ, Bool, true, false, List, [], ◌∷◌, ◌≡◌, refl, ◌∙◌, ap, arith, Bool-cases, inl, inr, if-true,
  if-false, if◌then◌else◌, All, ◌==◌, ◌%◌, ◌+◌, leb,
}
use mathlib.Core.List.{append-nil}
use kvpaxos.Base.Results.{Result, undefined, ok}
use kvpaxos.Types.{ClientMessage, int_key}
use kvpaxos.Tracking.Runs.{InWindow}
use kvpaxos.Scheduler.{Dispatched, dispatch_counted}
use kvpaxos.Scheduler.Involving.{IsValid}
use kvpaxos.Scheduler.Dispatching.{IsOrder, IsDispatched, dispatch-Group}
use kvpaxos.Scheduler.Sequence.{Command, request, IsCommand, perform, schedule}
use kvpaxos.Imbalance.{Float}
use kvpaxos.Repartition.{Config, is_round_robin, is_microseconds}
use kvpaxos.Repartition.Graphing.{HasInterval}
use kvpaxos.Blocking.{
  Blocking, BlockingRound, start_repartitioning, come_to_barrier, schedule_to_barrier,
}
use kvpaxos.Blocking.OldImb.{check_load, restart_interval}

-- What holds between the rounds.
pub record Sound (n tl : ℕ) (s : Blocking) : Type 0 where
  pub valid : IsValid s.scheduler
  pub same_size : s.scheduler.n_partitions ≡ n
  pub inside : InWindow tl s.tracker

-- A round succeeds, does what some commands do, and what holds still holds.
pub record Commanded (order : List ℕ → List ℕ) (n tl : ℕ) (s : Blocking) (r : Result BlockingRound)
    : Type 0 where
  pub after : BlockingRound
  pub runs : r ≡ ok after
  pub commands : List Command
  pub allowed : All (IsCommand n) commands
  pub performed :
      schedule order commands s.scheduler
      ≡ ok (record { scheduler = after.shared.scheduler; actions = after.actions })
  pub sound : Sound n tl after.shared

-- A dispatch, after which only the fields that the commands do not speak of are changed.
pub dispatched-Commanded :
    (order : List ℕ → List ℕ) (n tl : ℕ) (m : ClientMessage) (s : Blocking)
    (r : Result BlockingRound) (after : Dispatched → Blocking)
    → IsOrder order
    → IsDispatched m
    → Sound n tl s
    → ((d : Dispatched)
        → dispatch_counted order m s.scheduler ≡ ok d
        → r ≡ ok (record { shared = after d; actions = d.actions }))
    → ((d : Dispatched) → (after d).scheduler ≡ d.scheduler)
    → ((d : Dispatched) → (after d).tracker ≡ s.tracker)
    → Commanded order n tl s r
unfolding schedule perform
dispatched-Commanded order n tl m s r after o is h runs same_scheduler same_tracker =
    let g = dispatch-Group order m s.scheduler o h.valid is in
    record {
      after = record { shared = after g.result; actions = g.result.actions };
      runs = runs g.result g.runs;
      commands = request m ∷ [];
      allowed = (is, tt);
      performed = rw (g.runs) (
          rw (same_scheduler g.result) (
            ap (λ es. ok (record { scheduler = g.result.scheduler; actions = es }))
              (append-nil g.result.actions)));
      sound = record {
        valid = rw (same_scheduler g.result) (g.valid);
        same_size = rw (same_scheduler g.result) (g.extends.same_size ∙ h.same_size);
        inside = rw (same_tracker g.result) (h.inside);
      };
    }

-- The state after the dispatch.
abbrev pub with_scheduler : Blocking → Dispatched → Blocking
with_scheduler s d = record s { scheduler = d.scheduler }

-- What the test of the interval comes to.
abbrev pub starts : Config → ℕ → Blocking → Bool
starts cfg now s =
    if is_microseconds cfg.interval_type
    then leb (s.time_start + cfg.repartition_interval) now
    else s.scheduler.n_dispatched_requests % cfg.repartition_interval == 0

start_repartitioning-starts :
    (cfg : Config) (now : ℕ) (s : Blocking)
    → HasInterval cfg
    → start_repartitioning cfg now s ≡ ok (starts cfg now s)
unfolding start_repartitioning
start_repartitioning-starts cfg now s i = elim (Bool-cases (is_microseconds cfg.interval_type)) [
  | inl e ↦ rw e refl
  | inr e ↦ rw e (if-false undefined (not_zero i e))
]
  where
    not_zero :
        HasInterval cfg
        → is_microseconds cfg.interval_type ≡ false
        → (cfg.repartition_interval == 0) ≡ false
    not_zero (inl y) e = absurd (cc)
    not_zero (inr p) e = ground arith

-- A change that keeps the scheduler and the tracker.
pub record Keeps (s t : Blocking) : Type 0 where
  pub scheduler : t.scheduler ≡ s.scheduler
  pub tracker : t.tracker ≡ s.tracker

pub Keeps-if : (b : Bool) (s t u : Blocking) → Keeps s t → Keeps s u → Keeps s (if b then t else u)
Keeps-if true s t u k l = k
Keeps-if false s t u k l = l

come_to_barrier-Keeps : (s : Blocking) → Keeps s (come_to_barrier s)
unfolding come_to_barrier
come_to_barrier-Keeps s = record { scheduler = refl; tracker = refl }

pub self-Keeps : (s : Blocking) → Keeps s s
self-Keeps s = record { scheduler = refl; tracker = refl }

pub check_load-Keeps :
    (float : Float) (threshold : float.F) (max : ℕ) (cfg : Config) (now : ℕ) (amounts : List ℕ)
    (s : Blocking)
    → Keeps s (check_load float threshold max cfg now amounts s)
unfolding check_load restart_interval come_to_barrier
check_load-Keeps float threshold max cfg now amounts s =
    Keeps-if _ s _ _ (record { scheduler = refl; tracker = refl })
      (record { scheduler = refl; tracker = refl })

-- `Scheduler::schedule_and_answer`
pub schedule_to_barrier-Commanded :
    (order : List ℕ → List ℕ) (cfg : Config) (n now : ℕ) (m : ClientMessage) (s : Blocking)
    → IsOrder order
    → HasInterval cfg
    → IsDispatched m
    → Sound n cfg.tracking_length s
    → Commanded order n cfg.tracking_length s (schedule_to_barrier order cfg now m s)
unfolding schedule_to_barrier
schedule_to_barrier-Commanded order cfg n now m s o i is h =
    elim (Bool-cases (is_round_robin cfg.repartition_method)) [
      | inl rr ↦
          dispatched-Commanded order n cfg.tracking_length m s _ (with_scheduler s) o is h
            (λ d e. rw e (if-true _ rr)) (λ d. refl) (λ d. refl)
      | inr rr ↦
          dispatched-Commanded order n cfg.tracking_length m s _ after o is h
            (λ d e. rw e (
              if-false _ rr ∙ rw (start_repartitioning-starts cfg now (with_scheduler s d) i) refl))
            (λ d. (keeps d).scheduler) (λ d. (keeps d).tracker)
    ]
  where
    after : Dispatched → Blocking
    after d =
        if starts cfg now (with_scheduler s d)
        then come_to_barrier (with_scheduler s d)
        else with_scheduler s d

    keeps : (d : Dispatched) → Keeps (with_scheduler s d) (after d)
    keeps d =
        Keeps-if (starts cfg now (with_scheduler s d)) (with_scheduler s d)
          (come_to_barrier (with_scheduler s d)) (with_scheduler s d)
          (come_to_barrier-Keeps (with_scheduler s d)) (self-Keeps (with_scheduler s d))
