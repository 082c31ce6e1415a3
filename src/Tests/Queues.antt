-- ===== src/Tests/Queues.antt =====
-- The theorems on the queues at a run in which one item comes to the first reader.
use kvpaxos.Base.{
  ℕ, List, [], ◌∷◌, ◌++◌, some, none, ◌≡◌, refl, arith, ◌≤◌, ◌+◌, length, ◌<◌, inr, Option, ◌∙◌, ap,
}
use kvpaxos.Queue.{first, second, Queue, make, push_to, notify, wait_item, wait_lead, pop_front}
use kvpaxos.Queue.Threads.{
  System, Reach, begin, later, start, push_first, push_second, notify_first, notify_second,
  take_item, take_lead, ready, popped_by, reader,
}
use kvpaxos.Queue.Safety.{initial_lead, popped_in_order, popped_lead, pop_front-ready}
use kvpaxos.Types.{ClientMessage, read}
use kvpaxos.Partition
use kvpaxos.Partition.{BoundedQueue, Partition, push_request, pop_request}
use kvpaxos.Partition.Fifo.{
  pending, Pushed, Popped, make-IsCounted, push_request-pending, push_request_full,
  pop_request_empty, pop_request-pending,
}
use kvpaxos.Tests.{message}

submitted_one : (s : System ℕ) × Reach 1 1 s × (reader first s ≡ ready)
unfolding start make push_to notify wait_item wait_lead
submitted_one = (
  _,
  later
      (later
        (later
          (later (later (later begin (push_first 7 refl refl)) (push_second 7 refl refl))
            (notify_first refl refl))
          (notify_second refl refl))
        (take_item first _ refl refl refl))
      (take_lead first _ refl refl refl),
  refl,
)

popped_in_order_example :
    (rest : List ℕ) × (popped_by first submitted_one.0 ++ rest ≡ submitted_one.0.submitted)
popped_in_order_example = popped_in_order submitted_one.1 first

popped_lead_example :
    length (popped_by second submitted_one.0)
    ≤ initial_lead second 1 1 + length (popped_by first submitted_one.0)
popped_lead_example = popped_lead submitted_one.1 second

pop_front-ready_example :
    (x : ℕ) × (q : Queue ℕ) × (pop_front first submitted_one.0.queue ≡ some (x, q))
pop_front-ready_example = pop_front-ready submitted_one.1 first submitted_one.2

rest_of : List ClientMessage → List ClientMessage
rest_of [] = []
rest_of (m ∷ ms) = ms

first_of : List ClientMessage → Option ClientMessage
first_of [] = none
first_of (m ∷ ms) = some m

-- A bounded queue as a list.
listed : (capacity : ℕ) → BoundedQueue capacity
unfolding rest_of first_of
listed capacity = record {
  Items = List ClientMessage;
  empty = [];
  push = λ m q. q ++ m ∷ [];
  front = first_of;
  pop = rest_of;
  read_available = length;
  to_list = λ q. q;
  to_list-empty = refl;
  to_list-push = λ m q h. refl;
  front-cons = λ m ms q e. rw e refl;
  to_list-pop = λ m ms q e. rw e refl;
  available-length = λ q. refl;
}

abbrev fresh : Partition (listed 1)
fresh = Partition.make (listed 1) 0

fresh-pending : pending (listed 1) fresh ≡ []
fresh-pending = (make-IsCounted (listed 1) 0).1

fresh-room : length (pending (listed 1) fresh) < 1
fresh-room = rw fresh-pending (omega arith)

push_request-pending_example : Pushed (listed 1) (message read 0) fresh
push_request-pending_example =
    push_request-pending (listed 1) (message read 0) fresh (make-IsCounted (listed 1) 0).0
      (omega (arith, fresh-room)) (inr fresh-room)

one_pushed : Pushed (listed 1) (message read 0) fresh
one_pushed =
    push_request-pending (listed 1) (message read 0) fresh (make-IsCounted (listed 1) 0).0
      (omega (arith, fresh-room)) (inr fresh-room)

one-pending : pending (listed 1) one_pushed.after ≡ message read 0 ∷ []
one-pending = one_pushed.appended ∙ ap (λ ms. ms ++ message read 0 ∷ []) fresh-pending

push_request_full_example : push_request (listed 1) (message read 1) one_pushed.after ≡ none
push_request_full_example =
    push_request_full (listed 1) (message read 1) one_pushed.after one_pushed.counted (omega arith)
      (rw one-pending (omega arith))

pop_request_empty_example : pop_request (listed 1) fresh ≡ none
pop_request_empty_example =
    pop_request_empty (listed 1) fresh (make-IsCounted (listed 1) 0).0 fresh-pending

pop_request-pending_example : Popped (listed 1) (message read 0) [] one_pushed.after
pop_request-pending_example =
    pop_request-pending (listed 1) (message read 0) [] one_pushed.after one_pushed.counted
      (omega arith) one-pending
