-- ===== src/Repartition/Variants.antt =====
-- A round of the scheduling thread and one of the graph thread, of each of the classes.
use kvpaxos.Base.{ℕ, ◌<◌, List, [], ◌∷◌, ◌++◌, ◌≡◌, refl, sym, ◌∙◌, ap}
use mathlib.Core.List.{append_assoc}
use kvpaxos.Base.Results.{Result, ok, ◌>>=◌, >>=_assoc, >>=_same, >>=_ok}
use kvpaxos.Types.{ClientMessage, int_key}
use kvpaxos.Tracking.Window.{IsRequest}
use kvpaxos.Scheduler.{Scheduler, Action, Dispatched}
use kvpaxos.Scheduler.Dispatching.{IsOrder, IsDispatched}
use kvpaxos.Scheduler.Sequence.{Command, perform, schedule}
use kvpaxos.Repartition.{Shared}
use kvpaxos.Repartition.Scheme.{AreSound}
use kvpaxos.Repartition.Handshake.{Handshake, Round}
use kvpaxos.Repartition.Serving.{free-Served, async-Served, async_imb-Served}
use kvpaxos.Repartition.Taking.{Served}
use kvpaxos.Repartition.Graphing.{
  HasInterval, free-Round, non_stop-Round, async-Round, async_imb-Round,
}
use kvpaxos.Repartition.Threads.{
  Variant, free, non_stop, async, async_imb, Setting, schedule_of, update_graph_of,
}

-- The tracking window is not empty, an interval of operations is not 0, and the library's code does
-- what it documents.
pub record IsSetting (g : Setting) : Type 0 where
  pub window : 0 < g.config.tracking_length
  pub interval : HasInterval g.config
  pub iterates : IsOrder g.order
  pub partitioners : AreSound g.partitioners

module _ (order : List ℕ → List ℕ) where
  -- What `ds` does after `d`.
  abbrev pub then_schedule : List Command → Dispatched → Result Dispatched
  then_schedule ds d =
      schedule order ds d.scheduler >>= λ e. ok (record e { actions = d.actions ++ e.actions })

  -- Actions put in front.
  abbrev after_actions : List Action → Dispatched → Result Dispatched
  after_actions es e = ok (record e { actions = es ++ e.actions })

  then_schedule-after_actions :
      (ds : List Command) (es : List Action) (e : Dispatched)
      → (then_schedule ds e >>= after_actions es)
        ≡ then_schedule ds (record e { actions = es ++ e.actions })
  then_schedule-after_actions ds es e =
      >>=_assoc (schedule order ds e.scheduler) (after_actions e.actions) (after_actions es)
      ∙ >>=_same (schedule order ds e.scheduler)
          (λ f. ok (record f { actions = es ++ (e.actions ++ f.actions) }))
          (after_actions (es ++ e.actions))
          (λ f.
            ap (λ fs. ok (record f { actions = fs })) (sym (append_assoc es e.actions f.actions)))

  pub schedule-append :
      (cs ds : List Command) (s : Scheduler)
      → schedule order (cs ++ ds) s ≡ (schedule order cs s >>= then_schedule ds)
  unfolding schedule
  schedule-append [] ds s = sym (>>=_ok (schedule order ds s))
  schedule-append (c ∷ cs) ds s =
      >>=_same (perform order c s)
        (λ d. schedule order (cs ++ ds) d.scheduler >>= after_actions d.actions)
        (λ d. schedule order cs d.scheduler >>= after_actions d.actions >>= then_schedule ds)
        (λ d.
          ap (λ r. r >>= after_actions d.actions) (schedule-append cs ds d.scheduler)
          ∙ >>=_assoc (schedule order cs d.scheduler) (then_schedule ds) (after_actions d.actions)
          ∙ >>=_same (schedule order cs d.scheduler)
              (λ e. then_schedule ds e >>= after_actions d.actions)
              (λ e. then_schedule ds (record e { actions = d.actions ++ e.actions }))
              (λ e. then_schedule-after_actions ds d.actions e)
          ∙ sym (
              >>=_assoc (schedule order cs d.scheduler) (after_actions d.actions)
                (then_schedule ds)))
      ∙ sym (
          >>=_assoc (perform order c s)
            (λ d. schedule order cs d.scheduler >>= after_actions d.actions) (then_schedule ds))

-- A round of the scheduling thread.
pub schedule_of-Served :
    (g : Setting) (n now : ℕ) (m : ClientMessage) (s : Shared)
    → IsSetting g
    → IsDispatched m
    → Handshake n g.config.tracking_length s
    → Served g.order n g.config.tracking_length s (schedule_of g now m s)
schedule_of-Served g n now m s i d h = go g.variant refl
  where
    go :
        (v : Variant)
        → g.variant ≡ v
        → Served g.order n g.config.tracking_length s (schedule_of g now m s)
    go free e = rw e (free-Served g.order g.config n now m s i.iterates d h)
    go non_stop e = rw e (free-Served g.order g.config n now m s i.iterates d h)
    go async e = rw e (async-Served g.order g.config n now m s i.iterates d h)
    go async_imb e = rw e (async_imb-Served g.order g.config n now m s i.iterates d h)

-- A round of the graph thread.
pub update_graph_of-Round :
    (g : Setting) (n now : ℕ) (amounts : List ℕ) (m : ClientMessage) (s : Shared)
    → IsSetting g
    → IsRequest m
    → Handshake n g.config.tracking_length s
    → Round n g.config.tracking_length s.scheduler (update_graph_of g now amounts m s)
update_graph_of-Round g n now amounts m s i r h = go g.variant refl
  where
    go :
        (v : Variant)
        → g.variant ≡ v
        → Round n g.config.tracking_length s.scheduler (update_graph_of g now amounts m s)
    go free e = rw e (free-Round g.config n now m s i.window i.interval r h)
    go non_stop e = rw e (non_stop-Round g.config n m s i.window r h)
    go async e = rw e (async-Round g.config n m s i.window r h)
    go async_imb e = rw e (
        async_imb-Round g.float g.balance_threshold g.max_sucessive_imbalances g.config n now
          amounts m s i.window r h)
