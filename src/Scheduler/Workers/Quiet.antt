-- ===== src/Scheduler/Workers/Quiet.antt =====
-- The steps of a worker after which the same actions are left.
use mathlib.Core.List.{append_assoc}
use kvpaxos.Base.{
  ℕ, ◌<◌, List, [], ◌∷◌, ◌++◌, ◌≡◌, refl, ◌∙◌, ap, arith, ◌==◌, Bool-cases, inl, inr,
}
use kvpaxos.Types.{ClientMessage}
use kvpaxos.Scheduler.{Action, push, sync}
use kvpaxos.Scheduler.Workers.{Item, request, ready, serving, waiting, Workers, set_at}
use kvpaxos.Scheduler.Workers.Views.{for_worker, undone, is_at, absent-same}
use kvpaxos.Scheduler.Workers.Left.{All-each}
use kvpaxos.Scheduler.Workers.Simulation.{Counted, Simulates, undone-append}

-- A step after which every worker has the same still to do, and stands at the same barriers that are
-- not complete.
quiet-Simulates :
    (acts : List Action) (log : List (ℕ × ClientMessage)) (w v : Workers)
    → v.missing ≡ w.missing
    → v.next_barrier ≡ w.next_barrier
    → ((q : ℕ)
        → undone w.missing (v.status q) (v.queues q) ++ for_worker q v.pushing
          ≡ undone w.missing (w.status q) (w.queues q) ++ for_worker q w.pushing)
    → ((q b : ℕ) → 0 < w.missing b → is_at b (w.status q) ≡ is_at b (v.status q))
    → ((q b : ℕ) → v.status q ≡ waiting b → w.status q ≡ waiting b)
    → Simulates acts log w
    → Simulates acts log v
quiet-Simulates acts log w v missing next same stands known s = record {
  finished = s.finished;
  left = s.left;
  runs = s.runs;
  logged = s.logged;
  view = λ q. rw missing (same q ∙ s.view q);
  counted =
      rw (missing, next)
        (All-each (Counted w.status w.missing w.next_barrier)
          (Counted v.status w.missing w.next_barrier) s.left kept s.counted);
  unique = s.unique;
  known = λ q b h. rw next (s.known q b (known q b h));
}
  where
    kept :
        (c : Action)
        → Counted w.status w.missing w.next_barrier c
        → Counted v.status w.missing w.next_barrier c
    kept (push p m) h = tt
    kept (sync c qs) h =
        (h.0, h.1 ∙ absent-same w.status v.status c qs (λ q. stands q c h.2), h.2, h.3)

pub pushed-Simulates :
    (p : ℕ) (i : Item) (rest : List (ℕ × Item)) (acts : List Action)
    (log : List (ℕ × ClientMessage)) (w : Workers)
    → w.pushing ≡ (p, i) ∷ rest
    → Simulates acts log w
    → Simulates acts log
        (record w { pushing = rest; queues = set_at p (w.queues p ++ i ∷ []) w.queues })
pushed-Simulates p i rest acts log w e s =
    quiet-Simulates acts log w
      (record w { pushing = rest; queues = set_at p (w.queues p ++ i ∷ []) w.queues }) refl refl
      same (λ q b h. refl) (λ q b h. h) s
  where
    same :
        (q : ℕ)
        → undone w.missing (w.status q) (set_at p (w.queues p ++ i ∷ []) w.queues q)
            ++ for_worker q rest
          ≡ undone w.missing (w.status q) (w.queues q) ++ for_worker q w.pushing
    same q = rw e (elim (Bool-cases (q == p)) [
      | inl here ↦
          let e' : p ≡ q = ground arith in
          rw (here, e')
            (ap (λ x. x ++ for_worker q rest)
                (undone-append w.missing (w.status q) (w.queues q) (i ∷ []))
              ∙ append_assoc (undone w.missing (w.status q) (w.queues q)) (i ∷ [])
                  (for_worker q rest))
      | inr away ↦ rw away refl
    ])

pub taken-Simulates :
    (p : ℕ) (m : ClientMessage) (rest : List Item) (acts : List Action)
    (log : List (ℕ × ClientMessage)) (w : Workers)
    → w.status p ≡ ready
    → w.queues p ≡ request m ∷ rest
    → Simulates acts log w
    → Simulates acts log
        (record w { queues = set_at p rest w.queues; status = set_at p (serving m) w.status })
taken-Simulates p m rest acts log w r e s =
    quiet-Simulates acts log w
      (record w { queues = set_at p rest w.queues; status = set_at p (serving m) w.status }) refl
      refl (λ q. ap (λ x. x ++ for_worker q w.pushing) (same q)) stands known s
  where
    same :
        (q : ℕ)
        → undone w.missing (set_at p (serving m) w.status q) (set_at p rest w.queues q)
          ≡ undone w.missing (w.status q) (w.queues q)
    same q = elim (Bool-cases (q == p)) [
      | inl here ↦ let e' : q ≡ p = ground arith in rw (here, e', r, e) refl
      | inr away ↦ rw away refl
    ]

    stands :
        (q b : ℕ)
        → 0 < w.missing b
        → is_at b (w.status q) ≡ is_at b (set_at p (serving m) w.status q)
    stands q b h = elim (Bool-cases (q == p)) [
      | inl here ↦ let e' : q ≡ p = ground arith in rw (here, e', r) refl
      | inr away ↦ rw away refl
    ]

    known : (q b : ℕ) → set_at p (serving m) w.status q ≡ waiting b → w.status q ≡ waiting b
    known q b h = elim (Bool-cases (q == p)) [
      | inl here ↦ absurd (serving≢waiting (rw here at h))
      | inr away ↦ rw away at h
    ]
      where
        serving≢waiting : serving m ≡ waiting b → ⊥
        serving≢waiting e = cc

pub released-Simulates :
    (p b : ℕ) (acts : List Action) (log : List (ℕ × ClientMessage)) (w : Workers)
    → w.status p ≡ waiting b
    → w.missing b ≡ 0
    → Simulates acts log w
    → Simulates acts log (record w { status = set_at p ready w.status })
released-Simulates p b acts log w r z s =
    quiet-Simulates acts log w (record w { status = set_at p ready w.status }) refl refl
      (λ q. ap (λ x. x ++ for_worker q w.pushing) (same q)) stands known s
  where
    same :
        (q : ℕ)
        → undone w.missing (set_at p ready w.status q) (w.queues q)
          ≡ undone w.missing (w.status q) (w.queues q)
    same q = elim (Bool-cases (q == p)) [
      | inl here ↦ let e' : q ≡ p = ground arith in rw (here, e', r, z) refl
      | inr away ↦ rw away refl
    ]

    stands :
        (q c : ℕ) → 0 < w.missing c → is_at c (w.status q) ≡ is_at c (set_at p ready w.status q)
    stands q c h = elim (Bool-cases (q == p)) [
      | inl here ↦
          let e' : q ≡ p = ground arith in
          rw (here, e', r)
            (elim (Bool-cases (b == c)) [
              | inl y ↦ let f : b ≡ c = ground arith in absurd (omega (arith, h, rw f at z))
              | inr n ↦ n
            ])
      | inr away ↦ rw away refl
    ]

    known : (q c : ℕ) → set_at p ready w.status q ≡ waiting c → w.status q ≡ waiting c
    known q c h = elim (Bool-cases (q == p)) [
      | inl here ↦ absurd (ready≢waiting (rw here at h))
      | inr away ↦ rw away at h
    ]
      where
        ready≢waiting : ready ≡ waiting c → ⊥
        ready≢waiting e = cc
