-- ===== src/Scheduler.antt =====
-- src/scheduler/scheduler.hpp: the scheduling thread's part of `Scheduler`, which every scheduler
-- inherits: where keys are mapped, which partitions a request involves, and how it is dispatched.
pub mod Involving
pub mod Mapping
pub mod Order
pub mod Dispatching
pub mod Following
pub mod Workers
pub mod Sequence
pub mod Loop
pub mod Metrics
use kvpaxos.Base.{
  ℕ, zero, suc, ◌+◌, ◌%◌, Bool, true, false, ◌||◌, Option, none, some, List, [], ◌∷◌, ◌++◌, ℤ, pos,
  ◌+ℤ◌, pos_part, length, is_some, ltb, ◌==◌, if◌then◌else◌, map,
}
use kvpaxos.Base.Maps.{Map, find, emplace}
use kvpaxos.Base.Results.{Result, ok, throws, undefined, ◌>>=◌, or_throw}
use kvpaxos.Types.{ClientMessage, RequestType, int_key, key_count}

-- A partition is known by its id, 0 to `n_partitions` - 1. `next_barrier` stands for the heap: it is
-- the address that the next `new pthread_barrier_t` gets.
pub record Scheduler : Type 0 where
  pub n_partitions : ℕ
  pub round_robin_counter : ℕ
  pub sync_counter : ℕ
  pub n_dispatched_requests : ℕ
  pub data_to_partition : Map ℤ ℕ
  pub cross_partition_count : ℕ
  pub next_barrier : ℕ

-- The constructor.
unfoldable pub make : ℕ → Scheduler
make n = record {
  n_partitions = n;
  round_robin_counter = 0;
  sync_counter = 0;
  n_dispatched_requests = 0;
  data_to_partition = [];
  cross_partition_count = 0;
  next_barrier = 0;
}

unfoldable pub mapped : ℤ → Scheduler → Bool
mapped key s = is_some (find key s.data_to_partition)

-- `partitions_.at(id)`
abbrev pub partition_at : ℕ → Scheduler → Result ℕ
partition_at id s = if ltb id s.n_partitions then ok id else throws

-- `map_key(key, partition_id)`
unfoldable pub map_key_to : ℤ → ℕ → Scheduler → Result Scheduler
map_key_to key id s = partition_at id s >>= λ p.
    ok (record s { data_to_partition = emplace key p s.data_to_partition })

abbrev pub next_round : Scheduler → Scheduler
next_round s = record s { round_robin_counter = (s.round_robin_counter + 1) % s.n_partitions }

-- `map_key(key)`
unfoldable pub map_key : ℤ → Scheduler → Result Scheduler
unfolding map_key_to
map_key key s = map_key_to key s.round_robin_counter s >>= λ t. ok (next_round t)

-- `std::unordered_set::insert`
abbrev pub contains : ℕ → List ℕ → Bool
contains p [] = false
contains p (q ∷ qs) = p == q || contains p qs

unfoldable pub insert : ℕ → List ℕ → List ℕ
insert p ps = if contains p ps then ps else ps ++ p ∷ []

-- The variables of the loop of `involved_partitions`.
pub record Involved : Type 0 where
  pub scheduler : Scheduler
  pub new_mapping : Bool
  pub partitions : List ℕ

-- The body of the loop.
unfoldable pub involve : ℤ → Involved → Result Involved
unfolding map_key_to insert
involve key v = elim (find key v.scheduler.data_to_partition) [
  | none ↦ map_key_to key v.scheduler.round_robin_counter v.scheduler >>= λ s.
      ok (record v { scheduler = s; new_mapping = true })
  | some p ↦ ok (record v { partitions = insert p v.partitions })
]

unfoldable pub involve_from : ℤ → ℕ → ℕ → Involved → Result Involved
unfolding involve
involve_from key i zero v = ok v
involve_from key i (suc n) v = involve (key +ℤ pos i) v >>= λ w. involve_from key (i + 1) n w

-- After the loop.
unfoldable pub close_mapping : Involved → Result Involved
unfolding insert
close_mapping v =
    if v.new_mapping
    then (partition_at v.scheduler.round_robin_counter v.scheduler >>= λ p.
        ok (record v { scheduler = next_round v.scheduler; partitions = insert p v.partitions }))
    else ok v

unfoldable pub involved_partitions : ClientMessage → Scheduler → Result Involved
unfolding involve_from close_mapping
involved_partitions m s = or_throw (key_count m) >>= λ range.
    involve_from m.key 0 (pos_part range)
      (record { scheduler = s; new_mapping = false; partitions = [] })
    >>= close_mapping

-- What the scheduling thread does to the partitions' queues: it pushes a request, or pushes one
-- `sync` message, with a new barrier, to each of some partitions.
pub data Action : Type 0 where
  push : ℕ → ClientMessage → Action
  sync : ℕ → List ℕ → Action

-- `create_sync_request`: the other fields of the message are not initialised.
unfoldable pub create_sync_request : ClientMessage → ℕ → ℕ → ClientMessage
create_sync_request garbage sync_counter barrier = record garbage {
  id = pos sync_counter;
  s_addr = barrier;
  type = RequestType.sync;
}

-- The loop of `sync_partitions` over the set.
unfoldable pub pushes_of : ClientMessage → ℕ → Action → List (ℕ × ClientMessage)
pushes_of garbage sync_counter (push p m) = (p, m) ∷ []
pushes_of garbage sync_counter (sync b ps) =
    map (λ p. (p, create_sync_request garbage sync_counter b)) ps

pub record Dispatched : Type 0 where
  pub scheduler : Scheduler
  pub actions : List Action

-- The ids of all partitions.
pub ids_below : ℕ → List ℕ
ids_below zero = []
ids_below (suc n) = ids_below n ++ n ∷ []

-- A set of partitions is iterated over in an order of the library's choice, `order`.
module _ (order : List ℕ → List ℕ) where
  -- `sync_partitions`
  unfoldable pub sync_partitions : List ℕ → Scheduler → Dispatched
  sync_partitions ps s = record {
    scheduler = record s { next_barrier = s.next_barrier + 1 };
    actions = sync s.next_barrier (order ps) ∷ [];
  }

  unfoldable pub sync_all_partitions : Scheduler → Dispatched
  unfolding sync_partitions ids_below
  sync_all_partitions s = sync_partitions (ids_below s.n_partitions) s

  -- `dispatch`, on the partitions in the order of iteration.
  unfoldable pub dispatch_to : ClientMessage → List ℕ → List ℕ → Scheduler → Result Dispatched
  unfolding sync_partitions
  dispatch_to m set [] s = undefined
  dispatch_to m set (p ∷ []) s = ok (record { scheduler = s; actions = push p m ∷ [] })
  dispatch_to m set (p ∷ q ∷ ps) s =
      let before = sync_partitions set s in
      let after = sync_partitions set before.scheduler in
      let t = after.scheduler in
      ok (record {
        scheduler = record t { cross_partition_count = t.cross_partition_count + 1 };
        actions = before.actions ++ (push p m ∷ after.actions);
      })

  -- `*begin(partitions)` is undefined where no partition is involved.
  unfoldable pub dispatch : ClientMessage → Scheduler → Result Dispatched
  unfolding involved_partitions dispatch_to
  dispatch m s =
      involved_partitions m s >>= λ v. dispatch_to m v.partitions (order v.partitions) v.scheduler

  -- The request on the scheduling thread: `dispatch`, and `n_dispatched_requests_++`.
  unfoldable pub dispatch_counted : ClientMessage → Scheduler → Result Dispatched
  unfolding dispatch
  dispatch_counted m s = dispatch m s >>= λ d. ok (record d {
    scheduler = record (d.scheduler) {
      n_dispatched_requests = d.scheduler.n_dispatched_requests + 1;
    };
  })

  -- A new map takes the place of the old one, and all partitions are synchronised.
  unfoldable pub change_scheme : Map ℤ ℕ → Scheduler → Dispatched
  unfolding sync_all_partitions
  change_scheme scheme s = sync_all_partitions (record s { data_to_partition = scheme })
