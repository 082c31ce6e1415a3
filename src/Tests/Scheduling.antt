-- ===== src/Tests/Scheduling.antt =====
-- The scheduling thread's theorems at two requests and a change of the scheme.
use kvpaxos.Base.{
  ℕ, List, [], ◌∷◌, ◌++◌, ℤ-discrete, ℕ_discrete, pos, ◌≡◌, refl, arith, All, some, ◌+ℤ◌,
}
use kvpaxos.Base.Maps.{find, emplace, assign}
use kvpaxos.Base.Results.{ok}
use kvpaxos.Text.{
  c_string, stoi, scan_int, signed, unsigned, scan_digits, skip_spaces, is_space, negate,
}
use kvpaxos.Types.{key_count, scan_length, read, scan, int_key}
use kvpaxos.Scheduler.{
  make, Involved, push, Dispatched, involved_partitions, involve_from, involve, close_mapping,
  map_key_to, insert, dispatch_counted, dispatch, dispatch_to,
}
use kvpaxos.Scheduler.Mapping.{Involves, involved_partitions-Involves}
use kvpaxos.Scheduler.Involving.{IsValid}
use kvpaxos.Scheduler.Dispatching.{IsOrder, IsDispatched, Group, touches, dispatch-Group}
use kvpaxos.Scheduler.Order.{Runs, next, stop, keep}
use kvpaxos.Scheduler.Sequence.{
  Command, request, remap, IsCommand, perform, schedule, schedule_succeeds, schedule_in_order,
}
use kvpaxos.Tests.{message}

abbrev pub as_is : List ℕ → List ℕ
as_is ps = ps

pub as_is-IsOrder : IsOrder as_is
as_is-IsOrder = record { same_items = λ ps p. refl }

pub read-IsDispatched : (k : ℕ) → IsDispatched (message read k)
unfolding key_count
read-IsDispatched k = record {
  request = record { real = refl; counted = refl };
  not_empty = omega arith;
}

abbrev both : List Command
both = request (message read 0) ∷ request (message read 1) ∷ []

both-IsCommand : All (IsCommand 2) both
both-IsCommand = (read-IsDispatched 0, (read-IsDispatched 1, tt))

abbrev remapped : List Command
remapped = request (message read 0) ∷ remap ((pos 0, 1) ∷ []) ∷ request (message read 0) ∷ []

remapped-IsCommand : All (IsCommand 2) remapped
unfolding find
remapped-IsCommand = (read-IsDispatched 0, (λ k p e. ground arith, (read-IsDispatched 0, tt)))

schedule_succeeds_example :
    (d : Dispatched) × (schedule as_is remapped (make 2) ≡ ok d) × IsValid d.scheduler
schedule_succeeds_example =
    schedule_succeeds as_is 2 remapped as_is-IsOrder (omega arith) remapped-IsCommand

-- The two keys go to two partitions.
abbrev ran : Dispatched
ran = record {
  scheduler = record {
    n_partitions = 2;
    round_robin_counter = 0;
    sync_counter = 0;
    n_dispatched_requests = 2;
    data_to_partition = (pos 0, 0) ∷ (pos 1, 1) ∷ [];
    cross_partition_count = 0;
    next_barrier = 0;
  };
  actions = push 0 (message read 0) ∷ push 1 (message read 1) ∷ [];
}

schedule-both : schedule as_is both (make 2) ≡ ok ran
unfolding schedule perform dispatch_counted dispatch dispatch_to involved_partitions involve_from
    involve close_mapping map_key_to insert make key_count find emplace assign ◌+ℤ◌ ℤ-discrete
    ℕ_discrete
schedule-both = refl

-- The second worker is first.
other_way : Runs ran.actions (push 1 (message read 1) ∷ []) (push 0 (message read 0) ∷ [])
other_way = next (push 0 (message read 0) ∷ []) (push 1 (message read 1)) [] (refl, tt) (stop _)

make-IsValid : IsValid (make 2)
unfolding make find
make-IsValid = record {
  some_partition = omega arith;
  in_round = omega arith;
  in_range = λ k p e. absurd (cc);
}

schedule_in_order_example :
    keep (touches (pos 0)) (push 1 (message read 1) ∷ [])
      ++ keep (touches (pos 0)) (push 0 (message read 0) ∷ [])
    ≡ keep (touches (pos 0)) ran.actions
schedule_in_order_example =
    schedule_in_order as_is (make 2) both (pos 0) ran (push 1 (message read 1) ∷ [])
      (push 0 (message read 0) ∷ []) as_is-IsOrder make-IsValid both-IsCommand schedule-both
      other_way

scan_pair-key_count : key_count (message scan 5) ≡ some (pos 2)
unfolding key_count scan_length c_string stoi scan_int signed unsigned scan_digits skip_spaces
    is_space negate
scan_pair-key_count = refl

involved_partitions-Involves_example :
    (v : Involved) × (involved_partitions (message scan 5) (make 2) ≡ ok v)
    × Involves (pos 5) 2 (make 2) v
involved_partitions-Involves_example =
    involved_partitions-Involves (message scan 5) 2 (make 2) make-IsValid scan_pair-key_count

dispatch-Group_example : Group as_is (message read 0) (make 2)
dispatch-Group_example =
    dispatch-Group as_is (message read 0) (make 2) as_is-IsOrder make-IsValid (read-IsDispatched 0)
