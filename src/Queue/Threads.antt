-- ===== src/Queue/Threads.antt =====
-- The writer, `submit` of src/scheduler/scheduler.hpp, and the two reading loops, `wait` and `pop`,
-- as threads over one queue: each step is one locked section or one operation on a semaphore.
use kvpaxos.Base.{ℕ, List, [], ◌∷◌, ◌++◌, some, ◌≡◌}
use kvpaxos.Queue.{
  Head, first, second, Queue, push_to, notify, wait_item, wait_lead, pop_front, lead_other, make,
}

-- Where the writer stands in `submit`.
pub data Writer {ℓ} (A : Type ℓ) : Type ℓ where
  idle : Writer A
  half_pushed : A → Writer A
  pushed : Writer A
  half_notified : Writer A

-- Where a reader stands in its loop.
pub data Reader : Type 0 where
  waiting : Reader
  has_item : Reader
  ready : Reader
  popped : Reader

-- The threads, with what was submitted and what each reader has popped so far.
pub record System {ℓ} (A : Type ℓ) : Type ℓ where
  pub queue : Queue A
  pub writer : Writer A
  pub reader_0 : Reader
  pub reader_1 : Reader
  pub submitted : List A
  pub popped_0 : List A
  pub popped_1 : List A

module _ {ℓ} {A : Type ℓ} where
  abbrev pub reader : Head → System A → Reader
  reader first s = s.reader_0
  reader second s = s.reader_1

  abbrev pub popped_by : Head → System A → List A
  popped_by first s = s.popped_0
  popped_by second s = s.popped_1

  -- A reader moves on, with a new queue.
  abbrev pub moves : Head → Reader → Queue A → System A → System A
  moves first r q s = record s { reader_0 = r; queue = q }
  moves second r q s = record s { reader_1 = r; queue = q }

  abbrev pub records : Head → A → System A → System A
  records first x s = record s { popped_0 = s.popped_0 ++ x ∷ [] }
  records second x s = record s { popped_1 = s.popped_1 ++ x ∷ [] }

  unfoldable pub start : ℕ → ℕ → System A
  unfolding make
  start ahead_0 ahead_1 = record {
    queue = make ahead_0 ahead_1;
    writer = idle;
    reader_0 = waiting;
    reader_1 = waiting;
    submitted = [];
    popped_0 = [];
    popped_1 = [];
  }

  pub data Step (s t : System A) : Type ℓ where
    push_first :
        (x : A)
        → s.writer ≡ idle
        → t ≡ record s {
          queue = push_to first x s.queue;
          writer = half_pushed x;
          submitted = s.submitted ++ x ∷ [];
        }
        → Step s t
    push_second :
        (x : A)
        → s.writer ≡ half_pushed x
        → t ≡ record s { queue = push_to second x s.queue; writer = pushed }
        → Step s t
    notify_first :
        s.writer ≡ pushed
        → t ≡ record s { queue = notify first s.queue; writer = half_notified }
        → Step s t
    notify_second :
        s.writer ≡ half_notified
        → t ≡ record s { queue = notify second s.queue; writer = idle }
        → Step s t
    take_item :
        (h : Head) (q : Queue A)
        → reader h s ≡ waiting
        → wait_item h s.queue ≡ some q
        → t ≡ moves h has_item q s
        → Step s t
    take_lead :
        (h : Head) (q : Queue A)
        → reader h s ≡ has_item
        → wait_lead h s.queue ≡ some q
        → t ≡ moves h ready q s
        → Step s t
    take_front :
        (h : Head) (x : A) (q : Queue A)
        → reader h s ≡ ready
        → pop_front h s.queue ≡ some (x, q)
        → t ≡ records h x (moves h popped q s)
        → Step s t
    give_lead :
        (h : Head) → reader h s ≡ popped → t ≡ moves h waiting (lead_other h s.queue) s → Step s t

  pub data Reach (ahead_0 ahead_1 : ℕ) : System A → Type ℓ where
    begin : Reach ahead_0 ahead_1 (start ahead_0 ahead_1)
    later : {s t : System A} → Reach ahead_0 ahead_1 s → Step s t → Reach ahead_0 ahead_1 t
