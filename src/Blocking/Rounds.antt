-- ===== src/Blocking/Rounds.antt =====
-- `OldImbScheduler`'s round up to the barrier, the round of the graph thread, and what the scheduling
-- thread does at the barrier, as commands.
use kvpaxos.Base.{
  ℕ, ◌<◌, Bool, true, false, List, [], ◌∷◌, ◌≡◌, refl, ◌∙◌, arith, Bool-cases, inl, inr, if-true,
  if-false, if◌then◌else◌,
}
use kvpaxos.Base.Results.{Result, ok}
use kvpaxos.Types.{ClientMessage, int_key}
use kvpaxos.Tracking.Window.{IsRequest}
use kvpaxos.Tracking.Runs.{track_request-InWindow}
use kvpaxos.Graph.Cut.Csr.{multilevel_cut_data-IsCsr}
use kvpaxos.Graph.{n_vertex}
use kvpaxos.Scheduler.{Dispatched, change_scheme, sync_all_partitions, sync_partitions}
use kvpaxos.Scheduler.Dispatching.{IsOrder, IsDispatched}
use kvpaxos.Scheduler.Sequence.{remap, perform, schedule}
use kvpaxos.Imbalance.{Float}
use kvpaxos.Repartition.{Config, Partitioners, is_round_robin, is_microseconds}
use kvpaxos.Repartition.Scheme.{AreSound, partitioning-InRange}
use kvpaxos.Repartition.Handshake.{Follows-HasRows}
use kvpaxos.Blocking.{Blocking, BlockingRound, repartition_at_barrier, update_graph_counted}
use kvpaxos.Blocking.OldImb.{
  check_load, restart_interval, interval_over, schedule_if_imbalanced, repartition_and_restart,
}
use kvpaxos.Blocking.Dispatches.{
  Sound, Commanded, dispatched-Commanded, with_scheduler, Keeps, Keeps-if, self-Keeps,
  check_load-Keeps,
}

-- `OldImbScheduler::schedule_and_answer`
pub schedule_if_imbalanced-Commanded :
    (float : Float) (threshold : float.F) (max : ℕ) (order : List ℕ → List ℕ) (cfg : Config)
    (n now : ℕ) (amounts : List ℕ) (m : ClientMessage) (s : Blocking)
    → IsOrder order
    → IsDispatched m
    → Sound n cfg.tracking_length s
    → Commanded order n cfg.tracking_length s
        (schedule_if_imbalanced float threshold max order cfg now amounts m s)
unfolding schedule_if_imbalanced
schedule_if_imbalanced-Commanded float threshold max order cfg n now amounts m s o is h =
    elim (Bool-cases (is_round_robin cfg.repartition_method)) [
      | inl rr ↦
          dispatched-Commanded order n cfg.tracking_length m s _ (with_scheduler s) o is h
            (λ d e. rw e (if-true _ rr)) (λ d. refl) (λ d. refl)
      | inr rr ↦
          dispatched-Commanded order n cfg.tracking_length m s _ after o is h
            (λ d e. rw e (if-false _ rr ∙ branch d (interval_over cfg now (with_scheduler s d))))
            (λ d. (keeps d).scheduler) (λ d. (keeps d).tracker)
    ]
  where
    checked : Dispatched → Blocking
    checked d = check_load float threshold max cfg now amounts (with_scheduler s d)

    after : Dispatched → Blocking
    after d = if interval_over cfg now (with_scheduler s d) then checked d else with_scheduler s d

    keeps : (d : Dispatched) → Keeps (with_scheduler s d) (after d)
    keeps d =
        Keeps-if (interval_over cfg now (with_scheduler s d)) (with_scheduler s d) (checked d)
          (with_scheduler s d)
          (check_load-Keeps float threshold max cfg now amounts (with_scheduler s d))
          (self-Keeps (with_scheduler s d))

    gives : Blocking → Dispatched → Result BlockingRound
    gives t d = ok (record { shared = t; actions = d.actions })

    branch :
        (d : Dispatched) (b : Bool)
        → (if b then gives (checked d) d else gives (with_scheduler s d) d)
          ≡ ok
              (record { shared = if b then checked d else with_scheduler s d; actions = d.actions })
    branch d true = refl
    branch d false = refl

-- The graph thread's round.
pub update_graph_counted-Sound :
    (cfg : Config) (n : ℕ) (m : ClientMessage) (s : Blocking)
    → 0 < cfg.tracking_length
    → IsRequest m
    → Sound n cfg.tracking_length s
    → (t : Blocking) × (update_graph_counted cfg m s ≡ ok t)
      × (t.scheduler ≡ s.scheduler)
      × Sound n cfg.tracking_length t
unfolding update_graph_counted
update_graph_counted-Sound cfg n m s p r h =
    let one = track_request-InWindow cfg.tracking_length m s.tracker p r h.inside in
    (
      record s { tracker = one.next },
      rw (one.runs) refl,
      refl,
      record { valid = h.valid; same_size = h.same_size; inside = one.inside },
    )

-- The round at the barrier.
pub repartition_at_barrier-Commanded :
    (order : List ℕ → List ℕ) (lib : Partitioners) (cfg : Config) (n now : ℕ) (s : Blocking)
    → AreSound lib
    → Sound n cfg.tracking_length s
    → Commanded order n cfg.tracking_length s (repartition_at_barrier order lib cfg now s)
unfolding repartition_at_barrier schedule perform change_scheme sync_all_partitions sync_partitions
repartition_at_barrier-Commanded order lib cfg n now s sound h =
    let (graph, cuts, numbered, csr, laid_out) =
      multilevel_cut_data-IsCsr s.tracker.workload_graph (
        Follows-HasRows s.tracker.graph_deletion_queue s.tracker.workload_graph h.inside.follows) in
    let (scheme, makes, in_range, keys) =
      partitioning-InRange lib cfg.repartition_method graph s.scheduler sound
        (record { size = n_vertex s.tracker.workload_graph; numbered = numbered; csr = csr })
        h.valid.some_partition in
    let d = change_scheme order scheme s.scheduler in
    record {
      after = record {
        shared = record s {
          scheduler = d.scheduler;
          time_start = if is_microseconds cfg.interval_type then now else s.time_start;
          note = false;
          at_barrier = false;
        };
        actions = d.actions;
      };
      runs = rw cuts (rw makes refl);
      commands = remap scheme ∷ [];
      allowed = (λ k q f. omega (arith, in_range k q f, h.same_size), tt);
      performed = refl;
      sound = record {
        valid = record {
          some_partition = h.valid.some_partition;
          in_round = h.valid.in_round;
          in_range = in_range;
        };
        same_size = h.same_size;
        inside = h.inside;
      };
    }

pub repartition_and_restart-Commanded :
    (order : List ℕ → List ℕ) (lib : Partitioners) (cfg : Config) (n now : ℕ) (s : Blocking)
    → AreSound lib
    → Sound n cfg.tracking_length s
    → Commanded order n cfg.tracking_length s (repartition_and_restart order lib cfg now s)
unfolding repartition_and_restart restart_interval
repartition_and_restart-Commanded order lib cfg n now s sound h =
    let c = repartition_at_barrier-Commanded order lib cfg n now s sound h in
    record {
      after = record (c.after) { shared = restart_interval cfg now c.after.shared };
      runs = rw (c.runs) refl;
      commands = c.commands;
      allowed = c.allowed;
      performed = c.performed;
      sound = record {
        valid = c.sound.valid;
        same_size = c.sound.same_size;
        inside = c.sound.inside;
      };
    }
