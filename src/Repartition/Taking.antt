-- ===== src/Repartition/Taking.antt =====
-- What a dispatch, and the taking over of a scheme, do to the state of the three threads.
use kvpaxos.Base.{ℕ, true, false, some, List, [], ◌∷◌, ◌++◌, ℤ, ◌≡◌, refl, sym, ◌∙◌, ap, arith, All}
use mathlib.Core.List.{append-nil}
use kvpaxos.Base.Maps.{Map}
use kvpaxos.Base.Results.{Result, ok}
use kvpaxos.Types.{ClientMessage, int_key}
use kvpaxos.Imbalance.{Balance}
use kvpaxos.Scheduler.{
  Scheduler, Dispatched, dispatch_counted, change_scheme, sync_all_partitions, sync_partitions,
}
use kvpaxos.Scheduler.Dispatching.{IsOrder, IsDispatched, dispatch-Group}
use kvpaxos.Scheduler.Sequence.{Command, request, remap, IsCommand, perform, schedule}
use kvpaxos.Repartition.{Shared, Scheduling, change_partition_scheme}
use kvpaxos.Repartition.Scheme.{InRange}
use kvpaxos.Repartition.Rounds.{dispatch_shared, take_over}
use kvpaxos.Repartition.Handshake.{Handshake}

-- A round of the scheduling thread succeeds, does what some commands do, and keeps the handshake.
pub record Served (order : List ℕ → List ℕ) (n tl : ℕ) (s : Shared) (r : Result Scheduling)
    : Type 0 where
  pub after : Scheduling
  pub runs : r ≡ ok after
  pub commands : List Command
  pub allowed : All (IsCommand n) commands
  pub performed :
      schedule order commands s.scheduler
      ≡ ok (record { scheduler = after.shared.scheduler; actions = after.actions })
  pub holds : Handshake n tl after.shared

-- The request has been dispatched, as `d` says.
pub record Sent (order : List ℕ → List ℕ) (n tl : ℕ) (m : ClientMessage) (s : Shared) : Type 0 where
  pub d : Dispatched
  pub counted : dispatch_counted order m s.scheduler ≡ ok d
  pub runs :
      dispatch_shared order m s
      ≡ ok (record { shared = record s { scheduler = d.scheduler }; actions = d.actions })
  pub performed : schedule order (request m ∷ []) s.scheduler ≡ ok d
  pub holds : Handshake n tl (record s { scheduler = d.scheduler })

pub dispatch_shared-Sent :
    (order : List ℕ → List ℕ) (n tl : ℕ) (m : ClientMessage) (s : Shared)
    → IsOrder order
    → IsDispatched m
    → Handshake n tl s
    → Sent order n tl m s
unfolding dispatch_shared schedule perform
dispatch_shared-Sent order n tl m s o r h =
    let g = dispatch-Group order m s.scheduler o h.valid r in
    record {
      d = g.result;
      counted = g.runs;
      runs = rw (g.runs) refl;
      performed = rw (g.runs) (
          ap (λ es. ok (record { scheduler = g.result.scheduler; actions = es }))
            (append-nil g.result.actions));
      holds = record {
        valid = g.valid;
        same_size = g.extends.same_size ∙ h.same_size;
        at_most_one = h.at_most_one;
        scheme = h.scheme;
        graph = h.graph;
        inside = h.inside;
      };
    }

-- A scheme that is ready is there, and taking it over ends the repartitioning.
pub record Taken (order : List ℕ → List ℕ) (n tl : ℕ) (t : Shared) : Type 0 where
  pub scheme : Map ℤ ℕ
  pub in_range : InRange n scheme
  pub runs :
      change_partition_scheme order t
      ≡ ok (record {
        shared = record t {
          scheduler = (change_scheme order scheme t.scheduler).scheduler;
          updated_data_to_partition = some t.scheduler.data_to_partition;
        };
        actions = (change_scheme order scheme t.scheduler).actions;
      })
  pub holds :
      (time start : ℕ) (b : Balance)
      → Handshake n tl (record t {
        scheduler = (change_scheme order scheme t.scheduler).scheduler;
        updated_data_to_partition = some t.scheduler.data_to_partition;
        update = false;
        repartitioning = false;
        time_start = time;
        operation_start = start;
        balance = b;
      })

pub change_partition_scheme-Taken :
    (order : List ℕ → List ℕ) (n tl : ℕ) (t : Shared)
    → Handshake n tl t
    → t.update ≡ true
    → Taken order n tl t
unfolding change_partition_scheme change_scheme sync_all_partitions sync_partitions
change_partition_scheme-Taken order n tl t h e =
    let idle : t.updating ≡ false = ground (arith, h.at_most_one) in
    let (scheme, here, in_range) = h.scheme idle in
    record {
      scheme = scheme;
      in_range = in_range;
      runs = rw here refl;
      holds = λ time start b. record {
        valid = record {
          some_partition = h.valid.some_partition;
          in_round = h.valid.in_round;
          in_range = λ k p f. omega (arith, in_range k p f, h.same_size);
        };
        same_size = h.same_size;
        at_most_one = ground (arith, h.at_most_one);
        scheme = λ x. (
          t.scheduler.data_to_partition,
          refl,
          λ k p f. omega (arith, h.valid.in_range k p f, h.same_size),
        );
        graph = h.graph;
        inside = h.inside;
      };
    }

-- The two commands of a round that takes a scheme over.
performed_both :
    (order : List ℕ → List ℕ) (m : ClientMessage) (scheme : Map ℤ ℕ) (s : Scheduler)
    (d : Dispatched)
    → dispatch_counted order m s ≡ ok d
    → schedule order (request m ∷ remap scheme ∷ []) s
      ≡ ok (record {
        scheduler = (change_scheme order scheme d.scheduler).scheduler;
        actions = d.actions ++ (change_scheme order scheme d.scheduler).actions;
      })
unfolding schedule perform
performed_both order m scheme s d e = rw e (
    ap
      (λ es. ok (record {
        scheduler = (change_scheme order scheme d.scheduler).scheduler;
        actions = d.actions ++ es;
      }))
      (append-nil (change_scheme order scheme d.scheduler).actions))

pub plain-Served :
    (order : List ℕ → List ℕ) (n tl : ℕ) (m : ClientMessage) (s t : Shared) (r : Result Scheduling)
    → IsDispatched m
    → (sent : Sent order n tl m s) → t.scheduler ≡ sent.d.scheduler
    → Handshake n tl t
    → r ≡ ok (record { shared = t; actions = sent.d.actions })
    → Served order n tl s r
plain-Served order n tl m s t r is sent same h e = record {
  after = record { shared = t; actions = sent.d.actions };
  runs = e;
  commands = request m ∷ [];
  allowed = (is, tt);
  performed =
      sent.performed ∙ ap (λ c. ok (record { scheduler = c; actions = sent.d.actions })) (sym same);
  holds = h;
}

-- A round that takes the scheme over, with the fields that the class starts again.
abbrev pub taken_over :
    (order : List ℕ → List ℕ) (n tl : ℕ) (m : ClientMessage) (s : Shared)
    → (sent : Sent order n tl m s) → Taken order n tl (record s { scheduler = sent.d.scheduler })
    → (time start : ℕ) (b : Balance) → Scheduling
taken_over order n tl m s sent taken time start b = record {
  shared = record s {
    scheduler = (change_scheme order taken.scheme sent.d.scheduler).scheduler;
    updated_data_to_partition = some sent.d.scheduler.data_to_partition;
    update = false;
    repartitioning = false;
    time_start = time;
    operation_start = start;
    balance = b;
  };
  actions = sent.d.actions ++ (change_scheme order taken.scheme sent.d.scheduler).actions;
}

pub take_over-Taken :
    (order : List ℕ → List ℕ) (n tl : ℕ) (m : ClientMessage) (s : Shared)
    → (sent : Sent order n tl m s)
    → (taken : Taken order n tl (record s { scheduler = sent.d.scheduler }))
    → (reset : Shared → Shared)
    → take_over order
        (record { shared = record s { scheduler = sent.d.scheduler }; actions = sent.d.actions })
        reset
      ≡ ok (record {
        shared = reset (record s {
          scheduler = (change_scheme order taken.scheme sent.d.scheduler).scheduler;
          updated_data_to_partition = some sent.d.scheduler.data_to_partition;
        });
        actions = sent.d.actions ++ (change_scheme order taken.scheme sent.d.scheduler).actions;
      })
unfolding take_over
take_over-Taken order n tl m s sent taken reset = rw (taken.runs) refl

pub renewed-Served :
    (order : List ℕ → List ℕ) (n tl : ℕ) (m : ClientMessage) (s : Shared) (r : Result Scheduling)
    → IsDispatched m
    → (sent : Sent order n tl m s)
    → (taken : Taken order n tl (record s { scheduler = sent.d.scheduler }))
    → (time start : ℕ) (b : Balance) → r ≡ ok (taken_over order n tl m s sent taken time start b)
    → Served order n tl s r
renewed-Served order n tl m s r is sent taken time start b e = record {
  after = taken_over order n tl m s sent taken time start b;
  runs = e;
  commands = request m ∷ remap taken.scheme ∷ [];
  allowed = (is, (taken.in_range, tt));
  performed = performed_both order m taken.scheme s.scheduler sent.d sent.counted;
  holds = taken.holds time start b;
}
