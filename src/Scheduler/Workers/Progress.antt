-- ===== src/Scheduler/Workers/Progress.antt =====
-- What the workers have served, and whether they can go on.
use mathlib.Core.List.{append-nil}
use kvpaxos.Base.{
  ℕ, ◌<◌, false, List, [], ◌∷◌, ◌++◌, ℤ, ◌≡◌, refl, sym, ◌∙◌, ap, arith, ◌==◌, if◌then◌else◌,
  Bool-cases, inl, inr, ◌⊎◌, All, subst,
}
use kvpaxos.Types.{ClientMessage, int_key}
use kvpaxos.Scheduler.{Action, push, sync}
use kvpaxos.Scheduler.Order.{Runs, stop, keep}
use kvpaxos.Scheduler.Dispatching.{touches}
use kvpaxos.Scheduler.Workers.{
  Item, request, meet, Status, ready, serving, waiting, Workers, Step, pushed, taken, served,
  arrived, released, Works, begins, issues, steps,
}
use kvpaxos.Scheduler.Workers.Views.{for_worker, queue_of, undone, is_at, absent_some}
use kvpaxos.Scheduler.Workers.Simulation.{
  Counted, Simulates, served_by, served_by-append, issue-Simulates,
}
use kvpaxos.Scheduler.Workers.Steps.{served-Simulates}
use kvpaxos.Scheduler.Workers.Quiet.{pushed-Simulates, taken-Simulates, released-Simulates}
use kvpaxos.Scheduler.Workers.Meeting.{arrived-Simulates}

Step-Simulates :
    {acts : List Action} {log new : List (ℕ × ClientMessage)} {w v : Workers}
    → Step w new v
    → Simulates acts log w
    → Simulates acts (log ++ new) v
Step-Simulates {acts = acts} {log = log} {w = w} (pushed p i rest e) s =
    rw append-nil (pushed-Simulates p i rest acts log w e s)
Step-Simulates {acts = acts} {log = log} {w = w} (taken p m rest r e) s =
    rw append-nil (taken-Simulates p m rest acts log w r e s)
Step-Simulates {acts = acts} {log = log} {w = w} (served p m r) s =
    served-Simulates p m acts log w r s
Step-Simulates {acts = acts} {log = log} {w = w} (arrived p b rest r e) s =
    rw append-nil (arrived-Simulates p b rest acts log w r e s)
Step-Simulates {acts = acts} {log = log} {w = w} (released p b r z) s =
    rw append-nil (released-Simulates p b acts log w r z s)

pub Works-Simulates :
    {acts : List Action} {log : List (ℕ × ClientMessage)} {w : Workers}
    → Works acts log w
    → Simulates acts log w
Works-Simulates begins = record {
  finished = [];
  left = [];
  runs = stop [];
  logged = refl;
  view = λ q. refl;
  counted = tt;
  unique = tt;
  known = λ q b h. absurd (cc);
}
Works-Simulates (issues e {acts = acts} {log = log} {w = w} before idle i) =
    issue-Simulates e acts log w idle i (Works-Simulates before)
Works-Simulates (steps before step) = Step-Simulates step (Works-Simulates before)

-- Whatever the interleaving of the workers and of the scheduling thread's pushes: what has been served
-- so far, in order, is what some order of the actions serves that leaves none behind another one that
-- shares a partition with it.
pub Works-Runs :
    (acts : List Action) (log : List (ℕ × ClientMessage)) (w : Workers)
    → Works acts log w
    → (finished : List Action) × (left : List Action) × Runs acts finished left
      × (log ≡ served_by finished)
Works-Runs acts log w works =
    let s = Works-Simulates works in (s.finished, s.left, s.runs, s.logged)

-- Those of a log that name the key.
abbrev pub naming : ℤ → List (ℕ × ClientMessage) → List (ℕ × ClientMessage)
naming k [] = []
naming k (x ∷ log) = if touches k (push x.0 x.1) then x ∷ naming k log else naming k log

naming-served_by :
    (k : ℤ) (es : List Action) → naming k (served_by es) ≡ served_by (keep (touches k) es)
unfolding keep touches
naming-served_by k [] = refl
naming-served_by k (push p m ∷ es) = elim (Bool-cases (touches k (push p m))) [
  | inl y ↦ rw y (ap (λ x. (p, m) ∷ x) (naming-served_by k es))
  | inr n ↦ rw n (naming-served_by k es)
]
naming-served_by k (sync b ps ∷ es) = naming-served_by k es

-- Where every order of the actions keeps those that name a key in order, what is served is a prefix.
pub served_in_order :
    {acts : List Action} {log : List (ℕ × ClientMessage)} {w : Workers} (k : ℤ)
    → Works acts log w
    → ((finished left : List Action)
        → Runs acts finished left
        → keep (touches k) finished ++ keep (touches k) left ≡ keep (touches k) acts)
    → (rest : List (ℕ × ClientMessage)) × (naming k log ++ rest ≡ naming k (served_by acts))
served_in_order {acts = acts} {log = log} k works in_order =
    let s = Works-Simulates works in
    (
      served_by (keep (touches k) s.left),
      rw (s.logged, naming-served_by k s.finished, naming-served_by k acts)
          (sym (served_by-append (keep (touches k) s.finished) (keep (touches k) s.left))
            ∙ ap served_by (in_order s.finished s.left s.runs)),
    )

-- A step that the worker can take: it has the item to do, and is not at its barrier yet.
worker_steps :
    (w : Workers) (p : ℕ) (i : Item) (rest : List Item)
    → undone w.missing (w.status p) (w.queues p) ≡ i ∷ rest
    → ((b : ℕ) → i ≡ meet b → is_at b (w.status p) ≡ false)
    → (new : List (ℕ × ClientMessage)) × (v : Workers) × Step w new v
worker_steps w p i rest e away = go (w.status p) refl
  where
    from_queue :
        (j : Item)
        → w.status p ≡ ready
        → w.queues p ≡ j ∷ rest
        → (new : List (ℕ × ClientMessage)) × (v : Workers) × Step w new v
    from_queue (request m) r q = (_, _, taken p m rest r q)
    from_queue (meet b) r q = (_, _, arrived p b rest r q)

    go :
        (s : Status)
        → w.status p ≡ s
        → (new : List (ℕ × ClientMessage)) × (v : Workers) × Step w new v
    go ready r = from_queue i r (rw r at e)
    go (serving m) r = (_, _, served p m r)
    go (waiting b) r = elim (Bool-cases (w.missing b == 0)) [
      | inl z ↦ (_, _, released p b r (ground arith))
      | inr n ↦
          let same : i ≡ meet b = head_same (rw (r, n) at e) in
          absurd (here b (rw r at (away b same)))
    ]
      where
        head_same : {b : ℕ} {xs ys : List Item} → meet b ∷ xs ≡ i ∷ ys → i ≡ meet b
        head_same e = cc

        here : (b : ℕ) → (b == b) ≡ false → ⊥
        here b h = ground (arith, h)

-- The workers do not block each other: in every state that comes about, either all actions so far are
-- done, or the scheduling thread can push or a worker can take a step.
pub works_on :
    (acts : List Action) (log : List (ℕ × ClientMessage)) (w : Workers)
    → Works acts log w
    → ((finished : List Action) × Runs acts finished [] × (log ≡ served_by finished))
      ⊎ ((new : List (ℕ × ClientMessage)) × (v : Workers) × Step w new v)
works_on acts log w works = pushes w.pushing refl
  where
    s : Simulates acts log w
    s = Works-Simulates works

    to_do :
        (p : ℕ) → w.pushing ≡ [] → undone w.missing (w.status p) (w.queues p) ≡ queue_of p s.left
    to_do p idle =
        sym (append-nil (undone w.missing (w.status p) (w.queues p)))
        ∙ ap (λ x. undone w.missing (w.status p) (w.queues p) ++ for_worker p x) (sym idle)
        ∙ s.view p

    next :
        (left : List Action)
        → s.left ≡ left
        → w.pushing ≡ []
        → ((finished : List Action) × Runs acts finished [] × (log ≡ served_by finished))
          ⊎ ((new : List (ℕ × ClientMessage)) × (v : Workers) × Step w new v)
    next [] e idle = inl (s.finished, subst (Runs acts s.finished) e s.runs, s.logged)
    next (push p m ∷ left) e idle = inr (
        worker_steps w p (request m) (queue_of p left)
          (to_do p idle ∙ ap (queue_of p) e ∙ ground arith) (λ b h. absurd (cc)))
    next (sync b ps ∷ left) e idle =
        let (distinct, count, some, known) =
          (subst (All (Counted w.status w.missing w.next_barrier)) e s.counted).0 in
        let (p, inside, away) = absent_some w.status b ps (subst (λ x. 0 < x) count some) in
        inr (
          worker_steps w p (meet b) (queue_of p left)
            (to_do p idle ∙ ap (queue_of p) e ∙ rw inside refl)
            (λ c h. subst (λ x. is_at x (w.status p) ≡ false) (meet_same h) away))
      where
        meet_same : {x y : ℕ} → meet x ≡ meet y → x ≡ y
        meet_same e = cc

    pushes :
        (xs : List (ℕ × Item))
        → w.pushing ≡ xs
        → ((finished : List Action) × Runs acts finished [] × (log ≡ served_by finished))
          ⊎ ((new : List (ℕ × ClientMessage)) × (v : Workers) × Step w new v)
    pushes [] e = next s.left refl e
    pushes (x ∷ xs) e = inr (_, _, pushed x.0 x.1 xs e)
