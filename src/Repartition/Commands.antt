-- ===== src/Repartition/Commands.antt =====
-- Each step of the three threads, beside the handshake and the run of commands.
use kvpaxos.Base.{
  ℕ, true, ◌||◌, none, some, List, [], ◌++◌, ◌≡◌, refl, sym, ◌∙◌, ap, subst, arith, Bool-cases, inl,
  inr, ◌==◌, if-true, All, All-append,
}
use kvpaxos.Base.Results.{Result, ok, ok_injective}
use kvpaxos.Base.Maps.{find}
use kvpaxos.Types.{ClientMessage, int_key}
use kvpaxos.Tracking.Window.{IsRequest}
use kvpaxos.Repartition.Start.{Populated, Started}
use kvpaxos.Scheduler.Involving.{IsValid}
use kvpaxos.Scheduler.{Scheduler, Action}
use kvpaxos.Scheduler.Dispatching.{IsDispatched}
use kvpaxos.Scheduler.Sequence.{Command, IsCommand, schedule}
use kvpaxos.Repartition.{Shared, Scheduling, begin_partitioning, end_partitioning}
use kvpaxos.Repartition.Free
use kvpaxos.Repartition.Handshake.{
  Handshake, Round, begin_partitioning-Handshake, end_partitioning-Handshake,
}
use kvpaxos.Repartition.Taking.{Served}
use kvpaxos.Repartition.Threads.{
  Variant, free, non_stop, async, async_imb, Setting, schedule_of, update_graph_of, init_of,
  started_with,
}
use kvpaxos.Repartition.Variants.{
  schedule-append, IsSetting, schedule_of-Served, update_graph_of-Round,
}

-- The handshake holds, and the actions are those of a run of commands that are allowed, from what
-- the threads started with.
pub record Agrees (g : Setting) (n : ℕ) (acts : List Action) (s : Shared) : Type 0 where
  pub holds : Handshake n g.config.tracking_length s
  pub begun : Scheduler
  pub begun_valid : IsValid begun
  pub begun_size : begun.n_partitions ≡ n
  pub commands : List Command
  pub allowed : All (IsCommand n) commands
  pub performed :
      schedule g.order commands begun ≡ ok (record { scheduler = s.scheduler; actions = acts })

-- After the commands so far, those of a round.
scheduling-Agrees :
    (g : Setting) (n : ℕ) (acts : List Action) (s : Shared) (r : Scheduling)
    → Agrees g n acts s
    → Served g.order n g.config.tracking_length s (ok r)
    → Agrees g n (acts ++ r.actions) r.shared
scheduling-Agrees g n acts s r a o =
    let same : r ≡ o.after = ok_injective o.runs in
    record {
      holds = rw same (o.holds);
      begun = a.begun;
      begun_valid = a.begun_valid;
      begun_size = a.begun_size;
      commands = a.commands ++ o.commands;
      allowed = All-append (IsCommand n) a.commands o.commands a.allowed o.allowed;
      performed =
          schedule-append g.order a.commands o.commands a.begun
          ∙ rw (a.performed) (rw (o.performed) (rw same refl));
    }

-- A step of another thread, which leaves the scheduler alone.
other-Agrees :
    (g : Setting) (n : ℕ) (acts : List Action) (s t : Shared)
    → Agrees g n acts s
    → t.scheduler ≡ s.scheduler
    → Handshake n g.config.tracking_length t
    → Agrees g n acts t
other-Agrees g n acts s t a same h = record {
  holds = h;
  begun = a.begun;
  begun_valid = a.begun_valid;
  begun_size = a.begun_size;
  commands = a.commands;
  allowed = a.allowed;
  performed = a.performed ∙ ap (λ c. ok (record { scheduler = c; actions = acts })) (sym same);
}

pub Started-Agrees :
    (g : Setting) (n now : ℕ) (p : Populated)
    → Started n g.config.tracking_length p
    → Agrees g n [] (started_with p (init_of g n now))
unfolding schedule find
Started-Agrees g n now p h =
    subst (λ s. Agrees g n [] (started_with p s)) (sym (go g.variant refl)) started
  where
    started : Agrees g n [] (started_with p (Free.init_shared g.config n now))
    started = record {
      holds = record {
        valid = h.valid;
        same_size = h.same_size;
        at_most_one = omega arith;
        scheme = λ e. ([], refl, λ k q f. absurd (cc));
        graph = λ h. absurd (omega (arith, h));
        inside = h.inside;
      };
      begun = p.scheduler;
      begun_valid = h.valid;
      begun_size = h.same_size;
      commands = [];
      allowed = tt;
      performed = refl;
    }

    go : (v : Variant) → g.variant ≡ v → init_of g n now ≡ Free.init_shared g.config n now
    go free e = rw e refl
    go non_stop e = rw e refl
    go async e = rw e refl
    go async_imb e = rw e refl

-- An order that is there to be taken.
pub beginning-Agrees :
    (g : Setting) (n : ℕ) (acts : List Action) (s t : Shared)
    → Agrees g n acts s
    → begin_partitioning s ≡ some t
    → Agrees g n acts t
unfolding begin_partitioning
beginning-Agrees g n acts s t a e = elim (Bool-cases (s.repart_semaphore == 0)) [
  | inl z ↦
      absurd
        (none≢some (sym (if-true {b = s.updating || s.repart_semaphore == 0} _ (ground arith)) ∙ e))
  | inr z ↦
      let (u, runs, working, same, h) =
        begin_partitioning-Handshake n g.config.tracking_length s a.holds (ground arith) in
      let e' : u ≡ t = some_injective (sym runs ∙ e) in
      other-Agrees g n acts s t a (ap (λ x. x.scheduler) (sym e') ∙ same)
        (subst (Handshake n g.config.tracking_length) e' h)
]
  where
    some_injective : {a b : Shared} → some a ≡ some b → a ≡ b
    some_injective e = cc

    none≢some : {a : Shared} → none ≡ some a → ⊥
    none≢some e = cc

round-Agrees :
    (g : Setting) (n : ℕ) (acts : List Action) (s t : Shared) (r : Result Shared)
    → Agrees g n acts s
    → Round n g.config.tracking_length s.scheduler r
    → r ≡ ok t
    → Agrees g n acts t
round-Agrees g n acts s t r a o e =
    let e' : o.after ≡ t = ok_injective (sym o.runs ∙ e) in
    other-Agrees g n acts s t a (ap (λ x. x.scheduler) (sym e') ∙ o.unchanged)
      (subst (Handshake n g.config.tracking_length) e' o.holds)

pub scheduled-Agrees :
    (g : Setting) (n now : ℕ) (m : ClientMessage) (acts : List Action) (s : Shared) (r : Scheduling)
    → IsSetting g
    → IsDispatched m
    → schedule_of g now m s ≡ ok r
    → Agrees g n acts s
    → Agrees g n (acts ++ r.actions) r.shared
scheduled-Agrees g n now m acts s r i d e a =
    scheduling-Agrees g n acts s r a (rw e at (schedule_of-Served g n now m s i d a.holds))

pub tracked-Agrees :
    (g : Setting) (n now : ℕ) (amounts : List ℕ) (m : ClientMessage) (acts : List Action)
    (s t : Shared)
    → IsSetting g
    → IsRequest m
    → update_graph_of g now amounts m s ≡ ok t
    → Agrees g n acts s
    → Agrees g n acts t
tracked-Agrees g n now amounts m acts s t i d e a =
    round-Agrees g n acts s t (update_graph_of g now amounts m s) a
      (update_graph_of-Round g n now amounts m s i d a.holds) e

pub ended-Agrees :
    (g : Setting) (n : ℕ) (acts : List Action) (s t : Shared)
    → IsSetting g
    → s.updating ≡ true
    → end_partitioning g.partitioners g.config s ≡ ok t
    → Agrees g n acts s
    → Agrees g n acts t
ended-Agrees g n acts s t i u e a =
    round-Agrees g n acts s t (end_partitioning g.partitioners g.config s) a
      (end_partitioning-Handshake n g.config.tracking_length g.partitioners g.config s
        i.partitioners a.holds u)
      e
