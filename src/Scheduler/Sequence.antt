-- ===== src/Scheduler/Sequence.antt =====
-- A run of the scheduling thread: requests, and changes of the partition scheme; and what its actions do
-- to the requests that name a key.
use kvpaxos.Base.{ℕ, ◌<◌, some, List, [], ◌∷◌, ◌++◌, ℤ, ◌≡◌, subst, sym, ◌∙◌, refl, ◌∙◌, All}
use kvpaxos.Base.Maps.{Map, find}
use kvpaxos.Base.Results.{Result, ok, ◌>>=◌, ok_injective}
use kvpaxos.Types.{ClientMessage, int_key}
use kvpaxos.Scheduler.{
  Scheduler, make, Action, Dispatched, ids_below, dispatch_counted, change_scheme,
  sync_all_partitions, sync_partitions,
}
use kvpaxos.Scheduler.Involving.{IsValid}
use kvpaxos.Scheduler.Dispatching.{
  IsOrder, alone, across, touches, Shape, Group, IsDispatched, dispatch-Group, contains-ids_below,
}
use kvpaxos.Scheduler.Order.{Guarded, keep, Runs, Runs-Guarded}
use kvpaxos.Scheduler.Following.{
  Follows, Placed, alone-Follows, across-Follows, remap-Follows, Owner-Extends,
}

-- What the scheduling thread does: it dispatches a request, or takes over a new partition scheme.
pub data Command : Type 0 where
  request : ClientMessage → Command
  remap : Map ℤ ℕ → Command

-- A scheme maps keys to partitions that exist.
abbrev pub IsCommand : ℕ → Command → Type 0
IsCommand n (request m) = IsDispatched m
IsCommand n (remap scheme) = (k : ℤ) (p : ℕ) → find k scheme ≡ some p → p < n

module _ (order : List ℕ → List ℕ) where
  unfoldable pub perform : Command → Scheduler → Result Dispatched
  perform (request m) s = dispatch_counted order m s
  perform (remap scheme) s = ok (change_scheme order scheme s)

  unfoldable pub schedule : List Command → Scheduler → Result Dispatched
  unfolding perform
  schedule [] s = ok (record { scheduler = s; actions = [] })
  schedule (c ∷ cs) s = perform c s >>= λ d.
      schedule cs d.scheduler >>= λ e. ok (record e { actions = d.actions ++ e.actions })

-- What a run of the scheduling thread from `s` comes to.
pub record Scheduled (order : List ℕ → List ℕ) (cs : List Command) (s : Scheduler) : Type 0 where
  pub result : Dispatched
  pub runs : schedule order cs s ≡ ok result
  pub valid : IsValid result.scheduler
  pub follows : (k : ℤ) → Follows k s result.actions

schedule_request :
    (order : List ℕ → List ℕ) (m : ClientMessage) (cs : List Command) (s : Scheduler)
    → (g : Group order m s) → Scheduled order cs g.result.scheduler
    → Scheduled order (request m ∷ cs) s
unfolding schedule perform touches
schedule_request order m cs s g r = record {
  result = record (r.result) { actions = g.result.actions ++ r.result.actions };
  runs = rw (g.runs) (rw (r.runs) refl);
  valid = r.valid;
  follows = λ k.
      let (f, rest) = grouped k g.partitions g.result.actions g.shape (g.owner k) in
      (λ h own. f h (Owner-Extends h k s g.result.scheduler g.extends own), rest);
}
  where
    grouped :
        (k : ℤ) (ps : List ℕ) (es : List Action)
        → Shape m ps es
        → Placed k m ps g.result.scheduler
        → Follows k g.result.scheduler (es ++ r.result.actions)
    grouped k ps es (alone p a b) o = rw b (
        alone-Follows k m p g.result.scheduler r.result.actions g.valid
          (subst (λ x. Placed k m x g.result.scheduler) a o) (r.follows k))
    grouped k ps es (across b b' p inside e) o = rw e (
        across-Follows k m b b' p ps g.result.scheduler r.result.actions g.valid inside o
          (r.follows k))

schedule_remap :
    (order : List ℕ → List ℕ) (scheme : Map ℤ ℕ) (cs : List Command) (s : Scheduler)
    → IsOrder order
    → IsValid s
    → Scheduled order cs (change_scheme order scheme s).scheduler
    → Scheduled order (remap scheme ∷ cs) s
unfolding schedule perform change_scheme sync_all_partitions sync_partitions
schedule_remap order scheme cs s o v r = record {
  result = record (r.result) {
    actions = (change_scheme order scheme s).actions ++ r.result.actions;
  };
  runs = rw (r.runs) refl;
  valid = r.valid;
  follows = λ k.
      remap-Follows k s.next_barrier (order (ids_below s.n_partitions)) s
        (change_scheme order scheme s).scheduler r.result.actions v refl
        (λ p below.
          o.same_items (ids_below s.n_partitions) p ∙ contains-ids_below p s.n_partitions below)
        (r.follows k);
}

change_scheme-IsValid :
    (order : List ℕ → List ℕ) (scheme : Map ℤ ℕ) (s : Scheduler)
    → IsValid s
    → IsCommand s.n_partitions (remap scheme)
    → IsValid (change_scheme order scheme s).scheduler
unfolding change_scheme sync_all_partitions sync_partitions
change_scheme-IsValid order scheme s v c = record {
  some_partition = v.some_partition;
  in_round = v.in_round;
  in_range = c;
}

change_scheme-size :
    (order : List ℕ → List ℕ) (scheme : Map ℤ ℕ) (s : Scheduler)
    → (change_scheme order scheme s).scheduler.n_partitions ≡ s.n_partitions
unfolding change_scheme sync_all_partitions sync_partitions
change_scheme-size order scheme s = refl

-- From a valid state, a run of requests that name keys and of schemes with existing partitions
-- succeeds and keeps the state valid; and its actions serve each key where the key is mapped.
pub schedule-Scheduled :
    (order : List ℕ → List ℕ) (cs : List Command) (s : Scheduler)
    → IsOrder order
    → IsValid s
    → All (IsCommand s.n_partitions) cs
    → Scheduled order cs s
unfolding schedule
schedule-Scheduled order [] s o v c = record {
  result = record { scheduler = s; actions = [] };
  runs = refl;
  valid = v;
  follows = λ k. (λ h own. tt, tt);
}
schedule-Scheduled order (request m ∷ cs) s o v c =
    let g = dispatch-Group order m s o v c.0 in
    schedule_request order m cs s g
      (schedule-Scheduled order cs g.result.scheduler o g.valid (rw (g.extends.same_size) c.1))
schedule-Scheduled order (remap scheme ∷ cs) s o v c = schedule_remap order scheme cs s o v (
    schedule-Scheduled order cs (change_scheme order scheme s).scheduler o
      (change_scheme-IsValid order scheme s v c.0) (rw (change_scheme-size order scheme s) c.1))

-- From the start, with at least one partition, a run of requests that name keys and of schemes with
-- existing partitions succeeds, and its state is valid.
pub schedule_succeeds :
    (order : List ℕ → List ℕ) (n : ℕ) (cs : List Command)
    → IsOrder order
    → 0 < n
    → All (IsCommand n) cs
    → (d : Dispatched) × (schedule order cs (make n) ≡ ok d) × IsValid d.scheduler
unfolding make find
schedule_succeeds order n cs o p c =
    let r =
      schedule-Scheduled order cs (make n) o
        (record { some_partition = p; in_round = p; in_range = λ k q e. absurd (cc) }) c in
    (r.result, r.runs, r.valid)

-- Of a run from a valid state, of requests that name keys and of schemes with existing partitions:
-- in whichever order the workers do its actions, the requests that name a key `k` are done in the
-- order of the run: those done, then those left, are all of them.
pub schedule_in_order :
    (order : List ℕ → List ℕ) (s : Scheduler) (cs : List Command) (k : ℤ) (d : Dispatched)
    (finished left : List Action)
    → IsOrder order
    → IsValid s
    → All (IsCommand s.n_partitions) cs
    → schedule order cs s ≡ ok d
    → Runs d.actions finished left
    → keep (touches k) finished ++ keep (touches k) left ≡ keep (touches k) d.actions
schedule_in_order order s cs k d finished left o v c e run =
    let r = schedule-Scheduled order cs s o v c in
    let same : r.result ≡ d = ok_injective (sym r.runs ∙ e) in
    Runs-Guarded (touches k) run (subst (λ x. Guarded (touches k) x.actions) same (r.follows k).1)
