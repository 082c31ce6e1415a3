-- ===== src/Scheduler/Workers.antt =====
-- The workers' loops, `thread_loop` of src/scheduler/partition.hpp, beside the pushes of the
-- scheduling thread: a worker takes a request and serves it, or waits at the barrier that a `sync`
-- message points to (`pthread_barrier_wait`) until as many as it counts have come. The children relate
-- what they do to the orders of Scheduler.Order.
pub mod Views
pub mod Left
pub mod Simulation
pub mod Quiet
pub mod Steps
pub mod Meeting
pub mod Progress
use kvpaxos.Base.{
  ℕ, zero, suc, ◌+◌, ◌-◌, ◌<◌, ◌≤◌, false, List, [], ◌∷◌, ◌++◌, length, map, ◌≡◌, ◌==◌,
  if◌then◌else◌,
}
use kvpaxos.Types.{ClientMessage}
use kvpaxos.Scheduler.{Action, push, sync, contains}

-- What a message in a partition's queue is to its worker.
pub data Item : Type 0 where
  request : ClientMessage → Item
  meet : ℕ → Item

-- `push_request`, or the loop of `sync_partitions`.
abbrev pub pushes : Action → List (ℕ × Item)
pushes (push p m) = (p, request m) ∷ []
pushes (sync b ps) = map (λ p. (p, meet b)) ps

-- A worker waits for its queue, serves a request, or stands at a barrier.
pub data Status : Type 0 where
  ready : Status
  serving : ClientMessage → Status
  waiting : ℕ → Status

-- `missing b` is how many have still to come to the barrier `b`; no barrier from `next_barrier` on
-- has been made.
pub record Workers : Type 0 where
  pub pushing : List (ℕ × Item)
  pub queues : ℕ → List Item
  pub status : ℕ → Status
  pub missing : ℕ → ℕ
  pub next_barrier : ℕ

abbrev pub set_at {ℓ} : {A : Type ℓ} → ℕ → A → (ℕ → A) → ℕ → A
set_at p x f q = if q == p then x else f q

abbrev pub begun : Workers
begun = record {
  pushing = [];
  queues = λ p. [];
  status = λ p. ready;
  missing = λ b. 0;
  next_barrier = 0;
}

-- The scheduling thread turns to its next action; for a `sync` it makes the barrier first.
abbrev pub issue : Action → Workers → Workers
issue (push p m) w = record w { pushing = pushes (push p m) }
issue (sync b ps) w = record w {
  pushing = pushes (sync b ps);
  missing = set_at b (length ps) w.missing;
  next_barrier = suc b;
}

abbrev pub AllDistinct : List ℕ → Type 0
AllDistinct [] = Unit {0}
AllDistinct (p ∷ ps) = (contains p ps ≡ false) × AllDistinct ps

-- The barrier is a new one, of a set of partitions that is not empty.
abbrev pub IsIssuable : Action → Workers → Type 0
IsIssuable (push p m) w = Unit {0}
IsIssuable (sync b ps) w = (w.next_barrier ≤ b) × AllDistinct ps × (0 < length ps)

-- The steps of the threads, and what they serve.
pub data Step (w : Workers) : List (ℕ × ClientMessage) → Workers → Type 0 where
  pushed :
      (p : ℕ) (i : Item) (rest : List (ℕ × Item))
      → w.pushing ≡ (p, i) ∷ rest
      → Step w [] (record w { pushing = rest; queues = set_at p (w.queues p ++ i ∷ []) w.queues })
  taken :
      (p : ℕ) (m : ClientMessage) (rest : List Item)
      → w.status p ≡ ready
      → w.queues p ≡ request m ∷ rest
      → Step w []
          (record w { queues = set_at p rest w.queues; status = set_at p (serving m) w.status })
  served :
      (p : ℕ) (m : ClientMessage)
      → w.status p ≡ serving m
      → Step w ((p, m) ∷ []) (record w { status = set_at p ready w.status })
  arrived :
      (p b : ℕ) (rest : List Item)
      → w.status p ≡ ready
      → w.queues p ≡ meet b ∷ rest
      → Step w [] (record w {
        queues = set_at p rest w.queues;
        status = set_at p (waiting b) w.status;
        missing = set_at b (w.missing b - 1) w.missing;
      })
  released :
      (p b : ℕ)
      → w.status p ≡ waiting b
      → w.missing b ≡ 0
      → Step w [] (record w { status = set_at p ready w.status })

-- The states that come about, with the actions of the scheduling thread so far and what has been
-- served, in order.
pub data Works : List Action → List (ℕ × ClientMessage) → Workers → Type 0 where
  begins : Works [] [] begun
  issues :
      (e : Action) {acts : List Action} {log : List (ℕ × ClientMessage)} {w : Workers}
      → Works acts log w
      → w.pushing ≡ []
      → IsIssuable e w
      → Works (acts ++ e ∷ []) log (issue e w)
  steps :
      {acts : List Action} {log new : List (ℕ × ClientMessage)} {w v : Workers}
      → Works acts log w
      → Step w new v
      → Works acts (log ++ new) v
