-- ===== src/Scheduler/Workers/Meeting.antt =====
-- A worker comes to a barrier. It is the last, and the `sync` is done, where none is missing then.
use mathlib.Core.List.{append-nil}
use kvpaxos.Base.{
  ℕ, ◌+◌, ◌-◌, ◌<◌, true, false, List, [], ◌∷◌, ◌++◌, ◌≡◌, refl, sym, ◌∙◌, ap, subst, arith, ◌==◌,
  All, Bool-cases, inl, inr,
}
use kvpaxos.Types.{ClientMessage}
use kvpaxos.Scheduler.{Action, push, sync, contains}
use kvpaxos.Scheduler.Order.{covers}
use kvpaxos.Scheduler.Workers.{
  Item, request, meet, Status, ready, serving, waiting, Workers, set_at,
}
use kvpaxos.Scheduler.Workers.Views.{
  for_worker, item_of, queue_of, undone, is_at, absent, absent-same, absent_fewer, absent_none,
}
use kvpaxos.Scheduler.Workers.Left.{
  first_of, AreOthers, Unique, All-remove, All-join, Unique-split, Unique-remove, meet_first,
  queue_of_without, Runs_then, Apart-sync,
}
use kvpaxos.Scheduler.Workers.Simulation.{Counted, Simulates, served_by-append, undone_other}

pub at_barrier : (b : ℕ) (s : Status) → is_at b s ≡ true → s ≡ waiting b
at_barrier b ready h = cc
at_barrier b (serving m) h = cc
at_barrier b (waiting c) h = let e : c ≡ b = ground arith in rw e refl

undone_incomplete :
    (missing : ℕ → ℕ) (b n : ℕ) (s : Status) (queue : List Item)
    → 0 < missing b
    → 0 < n
    → undone (set_at b n missing) s queue ≡ undone missing s queue
undone_incomplete missing b n ready queue h k = refl
undone_incomplete missing b n (serving m) queue h k = refl
undone_incomplete missing b n (waiting c) queue h k = elim (Bool-cases (c == b)) [
  | inl here ↦ let e : c ≡ b = ground arith in rw e (ground (arith, h, k))
  | inr away ↦ rw away refl
]

-- The barrier `b` of the partitions `ps` is left, with `xs` before it and `ys` behind it.
module _ (p b : ℕ) (rest : List Item) (acts : List Action) (log : List (ℕ × ClientMessage))
    (w : Workers) (r : w.status p ≡ ready) (e : w.queues p ≡ meet b ∷ rest)
    (s : Simulates acts log w) (ps : List ℕ) (xs ys : List Action)
    (split : s.left ≡ xs ++ sync b ps ∷ ys) (inside : contains p ps ≡ true) where
  abbrev arrival : Workers
  arrival = record w {
    queues = set_at p rest w.queues;
    status = set_at p (waiting b) w.status;
    missing = set_at b (w.missing b - 1) w.missing;
  }

  parts :
      All (Counted w.status w.missing w.next_barrier) xs
      × Counted w.status w.missing w.next_barrier (sync b ps)
      × All (Counted w.status w.missing w.next_barrier) ys
  parts =
      All-remove (Counted w.status w.missing w.next_barrier) xs (sync b ps) ys
        (subst (All (Counted w.status w.missing w.next_barrier)) split s.counted)

  others : AreOthers b xs × AreOthers b ys
  others = Unique-split xs b ps ys (subst Unique split s.unique)

  fewer : absent arrival.status b ps + 1 ≡ w.missing b
  fewer =
      let (distinct, count, some, known) = parts.1 in
      absent_fewer w.status b p ps distinct inside r ∙ sym count

  missed : 0 < w.missing b
  missed = let (distinct, count, some, known) = parts.1 in some

  others-Counted :
      (es : List Action)
      → AreOthers b es
      → All (Counted w.status w.missing w.next_barrier) es
      → All (Counted arrival.status arrival.missing w.next_barrier) es
  others-Counted [] o h = tt
  others-Counted (push q m ∷ es) o h = (tt, others-Counted es o.1 h.1)
  others-Counted (sync c qs ∷ es) o h =
      let (distinct, count, some, known) = h.0 in
      (
        (
          distinct,
          rw (o.0) (count ∙ absent-same w.status arrival.status c qs stands),
          rw (o.0) some,
          known,
        ),
        others-Counted es o.1 h.1,
      )
    where
      stands : (q : ℕ) → is_at c (w.status q) ≡ is_at c (set_at p (waiting b) w.status q)
      stands q = elim (Bool-cases (q == p)) [
        | inl here ↦
            let e' : q ≡ p = ground arith in
            let apart : (b == c) ≡ false = ground (arith, o.0) in rw (here, e', r, apart) refl
        | inr away ↦ rw away refl
      ]

  arrival_known : (q c : ℕ) → arrival.status q ≡ waiting c → c < w.next_barrier
  arrival_known q c h = elim (Bool-cases (q == p)) [
    | inl here ↦
        let (distinct, count, some, known) = parts.1 in
        let same : b ≡ c = waiting_same (rw here at h) in rw same at known
    | inr away ↦ s.known q c (rw away at h)
  ]
    where
      waiting_same : {x y : ℕ} → waiting x ≡ waiting y → x ≡ y
      waiting_same e = cc

  -- Others are missing.
  incomplete : 0 < w.missing b - 1 → Simulates acts log arrival
  incomplete more = record {
    finished = s.finished;
    left = s.left;
    runs = s.runs;
    logged = s.logged;
    view = λ q. ap (λ x. x ++ for_worker q w.pushing) (same q) ∙ s.view q;
    counted = subst (All (Counted arrival.status arrival.missing w.next_barrier)) (sym split) (
        All-join (Counted arrival.status arrival.missing w.next_barrier) xs (sync b ps ∷ ys)
          (others-Counted xs others.0 parts.0) (here, others-Counted ys others.1 parts.2));
    unique = s.unique;
    known = arrival_known;
  }
    where
      here : Counted arrival.status arrival.missing w.next_barrier (sync b ps)
      here =
          let (distinct, count, some, known) = parts.1 in
          (distinct, ground (arith, fewer), ground (arith, more), known)

      same :
          (q : ℕ)
          → undone arrival.missing (arrival.status q) (arrival.queues q)
            ≡ undone w.missing (w.status q) (w.queues q)
      same q = elim (Bool-cases (q == p)) [
        | inl here ↦ let e' : q ≡ p = ground arith in rw (here, e', r, e) (ground (arith, more))
        | inr away ↦
            rw away (
              undone_incomplete w.missing b (w.missing b - 1) (w.status q) (w.queues q) missed more)
      ]

  -- It is the last.
  complete : w.missing b - 1 ≡ 0 → Simulates acts log arrival
  complete last = record {
    finished = s.finished ++ sync b ps ∷ [];
    left = xs ++ ys;
    runs =
        Runs_then xs (sync b ps) ys s.runs split
          (Apart-sync b ps xs (λ q i. (met q (meeting q i)).0));
    logged = rw (served_by-append s.finished (sync b ps ∷ []), append-nil) (s.logged);
    view = view;
    counted =
        All-join (Counted arrival.status arrival.missing w.next_barrier) xs ys
          (others-Counted xs others.0 parts.0) (others-Counted ys others.1 parts.2);
    unique = Unique-remove xs (sync b ps) ys (subst Unique split s.unique);
    known = arrival_known;
  }
    where
      -- What a worker that meets had to do first.
      met :
          (q : ℕ) {tail : List Item}
          → undone w.missing (w.status q) (w.queues q) ≡ meet b ∷ tail
          → All (λ c. covers c q ≡ false) xs
            × (contains q ps ≡ true)
            × (queue_of q (xs ++ ys) ≡ tail ++ for_worker q w.pushing)
      met q {tail = tail} h =
          meet_first xs b ps ys q (tail ++ for_worker q w.pushing) others.0 others.1
            (sym (ap (queue_of q) split) ∙ sym (s.view q) ∙ ap (λ x. x ++ for_worker q w.pushing) h)

      standing :
          (q : ℕ)
          → w.status q ≡ waiting b
          → undone w.missing (w.status q) (w.queues q) ≡ meet b ∷ w.queues q
      standing q h = rw h (ground (arith, missed))

      meeting :
          (q : ℕ)
          → contains q ps ≡ true
          → undone w.missing (w.status q) (w.queues q)
            ≡ meet b ∷ undone arrival.missing (arrival.status q) (arrival.queues q)
      meeting q i =
          let here = absent_none arrival.status b q ps (omega (arith, fewer, last)) i in
          elim (Bool-cases (q == p)) [
            | inl same ↦ let e' : q ≡ p = ground arith in rw (same, e', r, e) (ground (arith, last))
            | inr away ↦
                let stands = at_barrier b (w.status q) (rw away at here) in
                rw (away, stands) (ground (arith, missed, last))
          ]

      view :
          (q : ℕ)
          → undone arrival.missing (arrival.status q) (arrival.queues q) ++ for_worker q w.pushing
            ≡ queue_of q (xs ++ ys)
      view q = elim (Bool-cases (contains q ps)) [
        | inl i ↦ sym (met q (meeting q i)).2
        | inr n ↦ elim (Bool-cases (is_at b (w.status q))) [
          | inl stands ↦
              let i = (met q (standing q (at_barrier b (w.status q) stands))).1 in
              absurd (ground (arith, i, n))
          | inr away ↦ elim (Bool-cases (q == p)) [
            | inl here ↦
                let e' : q ≡ p = ground arith in absurd (ground (arith, rw e' at n, inside))
            | inr other ↦ rw other (
                ap (λ x. x ++ for_worker q w.pushing)
                  (undone_other w.missing b (w.missing b - 1) (w.status q) (w.queues q) away)
                ∙ s.view q
                ∙ ap (queue_of q) split
                ∙ queue_of_without q xs (sync b ps) ys n)
          ]
        ]
      ]

pub arrived-Simulates :
    (p b : ℕ) (rest : List Item) (acts : List Action) (log : List (ℕ × ClientMessage)) (w : Workers)
    → w.status p ≡ ready
    → w.queues p ≡ meet b ∷ rest
    → Simulates acts log w
    → Simulates acts log (record w {
      queues = set_at p rest w.queues;
      status = set_at p (waiting b) w.status;
      missing = set_at b (w.missing b - 1) w.missing;
    })
arrived-Simulates p b rest acts log w r e s =
    let f =
      first_of p (meet b) (rest ++ for_worker p w.pushing) s.left
        (sym (s.view p) ∙ rw (r, e) refl) in
    let (ps, same, inside) = is_sync f.action f.item f.covered in
    let split = f.split ∙ ap (λ x. f.before ++ x ∷ f.behind) same in
    elim (Bool-cases (w.missing b - 1 == 0)) [
      | inl last ↦
          complete p b rest acts log w r e s ps f.before f.behind split inside (ground arith)
      | inr more ↦
          incomplete p b rest acts log w r e s ps f.before f.behind split inside (ground arith)
    ]
  where
    is_sync :
        (c : Action)
        → item_of c ≡ meet b
        → covers c p ≡ true
        → (ps : List ℕ) × (c ≡ sync b ps) × (contains p ps ≡ true)
    is_sync (push q m) i h = absurd (request≢meet i)
      where
        request≢meet : request m ≡ meet b → ⊥
        request≢meet e = cc
    is_sync (sync c ps) i h = let same : c ≡ b = meet_same i in (ps, rw same refl, h)
      where
        meet_same : {x y : ℕ} → meet x ≡ meet y → x ≡ y
        meet_same e = cc
