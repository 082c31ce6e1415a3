-- ===== src/Scheduler/Workers/Steps.antt =====
-- A worker has served a request: one more action is done.
use kvpaxos.Base.{
  ℕ, ◌<◌, true, List, [], ◌∷◌, ◌++◌, ◌≡◌, refl, sym, ◌∙◌, ap, subst, arith, ◌==◌, All, Bool-cases,
  inl, inr,
}
use kvpaxos.Types.{ClientMessage}
use kvpaxos.Scheduler.{Action, push, sync}
use kvpaxos.Scheduler.Order.{covers}
use kvpaxos.Scheduler.Workers.{request, ready, serving, waiting, Workers, set_at}
use kvpaxos.Scheduler.Workers.Views.{for_worker, item_of, queue_of, undone, is_at, absent-same}
use kvpaxos.Scheduler.Workers.Left.{
  First, first_of, Unique, All-remove, All-join, All-each, Unique-remove, queue_of_without,
  Runs_then,
}
use kvpaxos.Scheduler.Workers.Simulation.{Counted, Simulates, served_by-append}

pub served-Simulates :
    (p : ℕ) (m : ClientMessage) (acts : List Action) (log : List (ℕ × ClientMessage)) (w : Workers)
    → w.status p ≡ serving m
    → Simulates acts log w
    → Simulates acts (log ++ (p, m) ∷ []) (record w { status = set_at p ready w.status })
served-Simulates p m acts log w r s =
    let f =
      first_of p (request m) (w.queues p ++ for_worker p w.pushing) s.left
        (sym (s.view p) ∙ rw r refl) in
    done f (is_push f.action f.item f.covered)
  where
    is_push : (e : Action) → item_of e ≡ request m → covers e p ≡ true → e ≡ push p m
    is_push (push q n) i c =
        let same : n ≡ m = request_injective i in
        let here : p ≡ q = ground arith in rw (same, here) refl
      where
        request_injective : {x y : ClientMessage} → request x ≡ request y → x ≡ y
        request_injective e = cc
    is_push (sync b ps) i c = cc

    done :
        (f : First p (request m) (w.queues p ++ for_worker p w.pushing) s.left)
        → f.action ≡ push p m
        → Simulates acts (log ++ (p, m) ∷ []) (record w { status = set_at p ready w.status })
    done f e = record {
      finished = s.finished ++ push p m ∷ [];
      left = f.before ++ f.behind;
      runs = Runs_then f.before (push p m) f.behind s.runs split f.apart;
      logged = rw (s.logged, served_by-append s.finished (push p m ∷ [])) refl;
      view = view;
      counted =
          All-each (Counted w.status w.missing w.next_barrier)
            (Counted (set_at p ready w.status) w.missing w.next_barrier) (f.before ++ f.behind) kept
            (All-join (Counted w.status w.missing w.next_barrier) f.before f.behind others.0
              others.2);
      unique = Unique-remove f.before (push p m) f.behind (subst Unique split s.unique);
      known = known;
    }
      where
        split : s.left ≡ f.before ++ push p m ∷ f.behind
        split = f.split ∙ ap (λ x. f.before ++ x ∷ f.behind) e

        others :
            All (Counted w.status w.missing w.next_barrier) f.before
            × Counted w.status w.missing w.next_barrier (push p m)
            × All (Counted w.status w.missing w.next_barrier) f.behind
        others =
            All-remove (Counted w.status w.missing w.next_barrier) f.before (push p m) f.behind
              (subst (All (Counted w.status w.missing w.next_barrier)) split s.counted)

        view :
            (q : ℕ)
            → undone w.missing (set_at p ready w.status q) (w.queues q) ++ for_worker q w.pushing
              ≡ queue_of q (f.before ++ f.behind)
        view q = elim (Bool-cases (q == p)) [
          | inl here ↦ let e' : q ≡ p = ground arith in rw (here, e') (sym f.others)
          | inr away ↦ rw away (
              s.view q
              ∙ ap (queue_of q) split
              ∙ queue_of_without q f.before (push p m) f.behind away)
        ]

        kept :
            (c : Action)
            → Counted w.status w.missing w.next_barrier c
            → Counted (set_at p ready w.status) w.missing w.next_barrier c
        kept (push q n) h = tt
        kept (sync c qs) h =
            (h.0, h.1 ∙ absent-same w.status (set_at p ready w.status) c qs stands, h.2, h.3)
          where
            stands : (q : ℕ) → is_at c (w.status q) ≡ is_at c (set_at p ready w.status q)
            stands q = elim (Bool-cases (q == p)) [
              | inl here ↦ let e' : q ≡ p = ground arith in rw (here, e', r) refl
              | inr away ↦ rw away refl
            ]

        known : (q c : ℕ) → set_at p ready w.status q ≡ waiting c → c < w.next_barrier
        known q c h = elim (Bool-cases (q == p)) [
          | inl here ↦ absurd (ready≢waiting (rw here at h))
          | inr away ↦ s.known q c (rw away at h)
        ]
          where
            ready≢waiting : ready ≡ waiting c → ⊥
            ready≢waiting e = cc
