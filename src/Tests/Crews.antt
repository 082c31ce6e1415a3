-- ===== src/Tests/Crews.antt =====
-- The theorems on the workers at a run in which a request is served, and one of two workers has come
-- to a barrier.
use kvpaxos.Base.{ℕ, List, [], ◌∷◌, ◌≡◌, refl, arith, ◌⊎◌}
use kvpaxos.Types.{ClientMessage, read}
use kvpaxos.Scheduler.{Action, push, sync}
use kvpaxos.Scheduler.Order.{Runs}
use kvpaxos.Scheduler.Workers.{
  request, meet, Workers, Step, Works, pushed, taken, served, arrived, begins, issues, steps,
}
use kvpaxos.Scheduler.Workers.Simulation.{served_by}
use kvpaxos.Scheduler.Workers.Progress.{Works-Runs, works_on}
use kvpaxos.Tests.{message}

abbrev both : List Action
both = push 0 (message read 0) ∷ sync 0 (0 ∷ 1 ∷ []) ∷ []

abbrev log : List (ℕ × ClientMessage)
log = (0, message read 0) ∷ []

-- The first action is done.
works_first : (w : Workers) × Works (push 0 (message read 0) ∷ []) log w
works_first = (
  _,
  steps
      (steps
        (steps (issues (push 0 (message read 0)) begins refl tt)
          (pushed 0 (request (message read 0)) [] refl))
        (taken 0 (message read 0) [] refl refl))
      (served 0 (message read 0) refl),
)

-- The first worker stands at the barrier.
works_both : (w : Workers) × Works both log w
unfolding works_first
works_both = (
  _,
  steps
      (steps
        (steps
          (issues (sync 0 (0 ∷ 1 ∷ [])) works_first.1 refl
            (omega arith, (refl, (refl, tt)), omega arith))
          (pushed 0 (meet 0) ((1, meet 0) ∷ []) refl))
        (pushed 1 (meet 0) [] refl))
      (arrived 0 0 [] refl refl),
)

Works-Runs_example :
    (finished : List Action) × (left : List Action) × Runs both finished left
    × (log ≡ served_by finished)
Works-Runs_example = Works-Runs both log works_both.0 works_both.1

works_on_example :
    ((finished : List Action) × Runs both finished [] × (log ≡ served_by finished))
    ⊎ ((new : List (ℕ × ClientMessage)) × (v : Workers) × Step works_both.0 new v)
works_on_example = works_on both log works_both.0 works_both.1
