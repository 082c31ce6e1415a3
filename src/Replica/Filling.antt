-- ===== src/Replica/Filling.antt =====
-- Which keys are mapped, and which messages tracked, while `initialize_scheduler` runs over them.
use native.Mathlib.Nat.{mod-add-mod, mod-lt}
use kvpaxos.Base.{
  ℕ, zero, suc, ◌+◌, ◌%◌, ◌<◌, ◌≤◌, List, [], ◌∷◌, ◌++◌, pos, negsuc, some, none, ◌≡◌, refl, arith,
  length, replicate, if◌then◌else◌, ltb,
}
use kvpaxos.Base.Maps.{find, emplace, find-emplace}
use kvpaxos.Base.Results.{ok}
use kvpaxos.Types.{ClientMessage, int_key, key_count}
use kvpaxos.Tracking.{Tracker, dummy_message}
use kvpaxos.Tracking.Window.{IsRequest}
use kvpaxos.Tracking.Runs.{InWindow}
use kvpaxos.Scheduler.{Scheduler, map_key, map_key_to}
use kvpaxos.Replica.{populate_message}

-- The keys 0, …, i - 1, and no others, have their partitions, by turns, in their order.
pub record IsMapped (i n : ℕ) (s : Scheduler) : Type 0 where
  pub size : s.n_partitions ≡ n
  pub turn : s.round_robin_counter ≡ i % n
  pub home : (j : ℕ) → j < i → find (pos j) s.data_to_partition ≡ some (j % n)
  pub others : (j : ℕ) → i ≤ j → find (pos j) s.data_to_partition ≡ none
  pub no_negative : (j : ℕ) → find (negsuc j) s.data_to_partition ≡ none

next_turn : (i n : ℕ) → (i % n + 1) % n ≡ (i + 1) % n
next_turn i n = mod-add-mod i n 1

pub map_key-IsMapped :
    (i n : ℕ) (s : Scheduler)
    → 0 < n
    → IsMapped i n s
    → (t : Scheduler) × (map_key (pos i) s ≡ ok t) × IsMapped (i + 1) n t
unfolding map_key map_key_to
map_key-IsMapped i n s h v = (
  record s {
    data_to_partition = emplace (pos i) s.round_robin_counter s.data_to_partition;
    round_robin_counter = (s.round_robin_counter + 1) % s.n_partitions;
  },
  ground (arith, v.turn, v.size, mod-lt i h),
  record {
    size = v.size;
    turn = rw (v.turn, v.size) (next_turn i n);
    home = λ j p. ground (
      arith,
      find-emplace (pos i) (pos j) s.round_robin_counter s.data_to_partition,
      v.turn,
      v.home j,
      v.others i,
      v.others j,
    );
    others = λ j p. ground (
      arith,
      find-emplace (pos i) (pos j) s.round_robin_counter s.data_to_partition,
      v.others i,
      v.others j,
    );
    no_negative = λ j. ground (
      arith,
      find-emplace (pos i) (negsuc j) s.round_robin_counter s.data_to_partition,
      v.no_negative j,
    );
  },
)

pub populate-IsRequest : (garbage : ClientMessage) (i : ℕ) → IsRequest (populate_message garbage i)
unfolding populate_message key_count
populate-IsRequest garbage i = record { real = refl; counted = refl }

pub one_further : (i : ℕ) → (if ltb i i then i else i + 1) ≡ i + 1
one_further i = ground arith

-- The messages of the loop, from `i`, in their order.
unfoldable pub populate_messages : (ℕ → ClientMessage) → ℕ → ℕ → List ClientMessage
populate_messages garbage i zero = []
populate_messages garbage i (suc n) =
    populate_message (garbage i) i ∷ populate_messages garbage (i + 1) n

-- The messages have gone through the window: it is what is left at the end of the dummies followed by
-- the messages, and the graph is that of the window.
pub record IsTracking (tl : ℕ) (ms : List ClientMessage) (t : Tracker) : Type 0 where
  pub expired : List ClientMessage
  pub as_many : length expired ≡ length ms
  pub queue : expired ++ t.graph_deletion_queue ≡ replicate tl dummy_message ++ ms
  pub inside : InWindow tl t
  pub uncounted : t.n_processed_requests ≡ 0
