-- ===== src/Scheduler/Workers/Simulation.antt =====
-- How the state of the workers stands to an order of the scheduling thread's actions: which of them are
-- done, and which are left.
use mathlib.Core.List.{append-nil}
use kvpaxos.Base.{ℕ, ◌<◌, ◌≤◌, suc, false, List, [], ◌∷◌, ◌++◌, ◌≡◌, refl, arith, All, length}
use kvpaxos.Types.{ClientMessage}
use kvpaxos.Scheduler.{Action, push, sync}
use kvpaxos.Scheduler.Order.{Runs}
use kvpaxos.Scheduler.Workers.{
  Item, Status, ready, serving, waiting, Workers, set_at, issue, AllDistinct, IsIssuable,
}
use kvpaxos.Scheduler.Workers.Views.{
  for_worker, queue_of, undone, is_at, absent, absent_all, for_worker-pushes, queue_of-append,
}
use kvpaxos.Scheduler.Workers.Left.{
  is_barrier, Unique, All-join, All-each, Unique-push, Unique-sync, Runs_more,
}

abbrev pub served_by : List Action → List (ℕ × ClientMessage)
served_by [] = []
served_by (push p m ∷ es) = (p, m) ∷ served_by es
served_by (sync b ps ∷ es) = served_by es

-- The barrier counts those that have still to come, and one has.
abbrev pub Counted : (ℕ → Status) → (ℕ → ℕ) → ℕ → Action → Type 0
Counted status missing next (push p m) = Unit {0}
Counted status missing next (sync b ps) =
    AllDistinct ps × (missing b ≡ absent status b ps) × (0 < missing b) × (b < next)

pub record Simulates (acts : List Action) (log : List (ℕ × ClientMessage)) (w : Workers)
    : Type 0 where
  pub finished : List Action
  pub left : List Action
  pub runs : Runs acts finished left
  pub logged : log ≡ served_by finished
  pub view :
      (q : ℕ)
      → undone w.missing (w.status q) (w.queues q) ++ for_worker q w.pushing ≡ queue_of q left
  pub counted : All (Counted w.status w.missing w.next_barrier) left
  pub unique : Unique left
  pub known : (q b : ℕ) → w.status q ≡ waiting b → b < w.next_barrier

pub served_by-append : (xs ys : List Action) → served_by (xs ++ ys) ≡ served_by xs ++ served_by ys
served_by-append [] ys = refl
served_by-append (push p m ∷ xs) ys = rw (served_by-append xs ys) refl
served_by-append (sync b ps ∷ xs) ys = served_by-append xs ys

pub undone-append :
    (missing : ℕ → ℕ) (s : Status) (xs ys : List Item)
    → undone missing s (xs ++ ys) ≡ undone missing s xs ++ ys
undone-append missing ready xs ys = refl
undone-append missing (serving m) xs ys = refl
undone-append missing (waiting b) xs ys = ground arith

pub undone_other :
    (missing : ℕ → ℕ) (b n : ℕ) (s : Status) (queue : List Item)
    → is_at b s ≡ false
    → undone (set_at b n missing) s queue ≡ undone missing s queue
undone_other missing b n ready queue h = refl
undone_other missing b n (serving m) queue h = refl
undone_other missing b n (waiting c) queue h = ground (arith, h)

pub waiting_injective : {b c : ℕ} → waiting b ≡ waiting c → b ≡ c
waiting_injective e = cc

-- Nobody stands at a barrier that has not been made.
unknown :
    (b next : ℕ) (s : Status) → ((c : ℕ) → s ≡ waiting c → c < next) → next ≤ b → is_at b s ≡ false
unknown b next ready k h = refl
unknown b next (serving m) k h = refl
unknown b next (waiting c) k h = let lt = k c refl in ground (arith, lt, h)

pub issue-Simulates :
    (e : Action) (acts : List Action) (log : List (ℕ × ClientMessage)) (w : Workers)
    → w.pushing ≡ []
    → IsIssuable e w
    → Simulates acts log w
    → Simulates (acts ++ e ∷ []) log (issue e w)
issue-Simulates (push p m) acts log w idle i s = record {
  finished = s.finished;
  left = s.left ++ push p m ∷ [];
  runs = Runs_more (push p m) s.runs;
  logged = s.logged;
  view = λ q.
      let v = rw (idle, append-nil) at (s.view q) in
      rw (v, queue_of-append q s.left (push p m ∷ [])) refl;
  counted =
      All-join (Counted w.status w.missing w.next_barrier) s.left (push p m ∷ []) s.counted
        (tt, tt);
  unique = Unique-push s.left p m s.unique;
  known = s.known;
}
issue-Simulates (sync b ps) acts log w idle i s = record {
  finished = s.finished;
  left = s.left ++ sync b ps ∷ [];
  runs = Runs_more (sync b ps) s.runs;
  logged = s.logged;
  view = λ q.
      let v = rw (idle, append-nil) at (s.view q) in
      rw
        (
          undone_other w.missing b (length ps) (w.status q) (w.queues q) (nobody q),
          v,
          for_worker-pushes q (sync b ps) i.1,
          queue_of-append q s.left (sync b ps ∷ []),
        )
        refl;
  counted =
      All-join Counted' s.left (sync b ps ∷ []) (All-each Counted_w Counted' s.left kept s.counted)
        (
          (i.1, ground (arith, absent_all w.status b ps nobody), ground (arith, i.2), omega arith),
          tt,
        );
  unique =
      Unique-sync s.left b ps
        (All-each Counted_w (λ c. is_barrier b c ≡ false) s.left older s.counted) s.unique;
  known = λ q c h. omega (arith, s.known q c h, i.0);
}
  where
    Counted_w : Action → Type 0
    Counted_w = Counted w.status w.missing w.next_barrier

    Counted' : Action → Type 0
    Counted' = Counted w.status (set_at b (length ps) w.missing) (suc b)

    nobody : (q : ℕ) → is_at b (w.status q) ≡ false
    nobody q = unknown b w.next_barrier (w.status q) (s.known q) i.0

    kept : (c : Action) → Counted_w c → Counted' c
    kept (push p m) h = tt
    kept (sync c qs) h =
        (h.0, ground (arith, h.1, h.3, i.0), ground (arith, h.2, h.3, i.0), omega (arith, h.3, i.0))

    older : (c : Action) → Counted_w c → is_barrier b c ≡ false
    older (push p m) h = refl
    older (sync c qs) h = ground (arith, h.3, i.0)
