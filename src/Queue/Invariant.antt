-- ===== src/Queue/Invariant.antt =====
-- The states that the threads of the queue come to.
use kvpaxos.Base.{ℕ, ◌+◌, ◌≤◌, List, [], ◌∷◌, ◌++◌, ◌≡◌, refl, arith, length, length-append}
use mathlib.Core.List.{append_assoc, append-nil}
use kvpaxos.Queue.{
  Head, first, second, push_to, notify, wait_item, wait_lead, pop_front, lead_other,
}
use kvpaxos.Queue.Threads.{
  Writer, idle, half_pushed, pushed, half_notified, Reader, waiting, has_item, ready, popped,
  System, start, Step, push_first, push_second, notify_first, notify_second, take_item, take_lead,
  take_front, give_lead, Reach, begin, later,
}

-- An item that the reader holds a permit for, and has not popped.
abbrev pub holds_item : Reader → ℕ
holds_item waiting = 0
holds_item has_item = 1
holds_item ready = 1
holds_item popped = 0

abbrev pub holds_lead : Reader → ℕ
holds_lead ready = 1
holds_lead _ = 0

abbrev pub owes_lead : Reader → ℕ
owes_lead popped = 1
owes_lead _ = 0

module _ {ℓ} {A : Type ℓ} where
  -- Items in the queue of which the readers are not told yet.
  abbrev pub untold : Head → Writer A → ℕ
  untold first idle = 0
  untold first (half_pushed x) = 1
  untold first pushed = 1
  untold first half_notified = 0
  untold second idle = 0
  untold second (half_pushed x) = 0
  untold second pushed = 1
  untold second half_notified = 1

  abbrev pub unpushed : Head → Writer A → List A
  unpushed second (half_pushed x) = x ∷ []
  unpushed _ _ = []

  pub record Inv (ahead_0 ahead_1 : ℕ) (s : System A) : Type ℓ where
    pub order_0 : s.popped_0 ++ s.queue.queue_0 ≡ s.submitted
    pub order_1 : s.popped_1 ++ (s.queue.queue_1 ++ unpushed second s.writer) ≡ s.submitted
    pub items_0 :
        s.queue.semaphore_0 + holds_item s.reader_0 + untold first s.writer ≤ length s.queue.queue_0
    pub items_1 :
        s.queue.semaphore_1 + holds_item s.reader_1 + untold second s.writer
        ≤ length s.queue.queue_1
    pub lead_0 :
        s.queue.ahead_sem_0 + holds_lead s.reader_0 + length s.popped_0 + owes_lead s.reader_1
        ≤ ahead_0 + length s.popped_1
    pub lead_1 :
        s.queue.ahead_sem_1 + holds_lead s.reader_1 + length s.popped_1 + owes_lead s.reader_0
        ≤ ahead_1 + length s.popped_0

  start-Inv : (a b : ℕ) → Inv a b (start {A = A} a b)
  unfolding start
  start-Inv a b = record {
    order_0 = refl;
    order_1 = refl;
    items_0 = omega arith;
    items_1 = omega arith;
    lead_0 = omega arith;
    lead_1 = omega arith;
  }

  Step-Inv : (a b : ℕ) {s t : System A} → Step s t → Inv a b s → Inv a b t
  unfolding push_to notify wait_item wait_lead pop_front lead_other
  Step-Inv a b {s} (push_first x w e) i = ground (
    arith,
    length-append s.queue.queue_0 (x ∷ []),
    append_assoc s.popped_0 s.queue.queue_0 (x ∷ []),
    append_assoc s.popped_1 s.queue.queue_1 (x ∷ []),
    append-nil s.queue.queue_1,
  )
  Step-Inv a b {s} (push_second x w e) i =
      ground (arith, length-append s.queue.queue_1 (x ∷ []), append-nil (s.queue.queue_1 ++ x ∷ []))
  Step-Inv a b (notify_first w e) i = ground arith
  Step-Inv a b (notify_second w e) i = ground arith
  Step-Inv a b (take_item h q r w e) i = ground arith
  Step-Inv a b (take_lead h q r w e) i = ground arith
  Step-Inv a b {s} (take_front first x q r w e) i =
      ground (arith, append_assoc s.popped_0 (x ∷ []) q.queue_0, length-append s.popped_0 (x ∷ []))
  Step-Inv a b {s} (take_front second x q r w e) i = ground (
    arith,
    append_assoc s.popped_1 (x ∷ []) (q.queue_1 ++ unpushed second s.writer),
    length-append s.popped_1 (x ∷ []),
  )
  Step-Inv a b (give_lead h r e) i = ground arith

  pub Reach-Inv : {a b : ℕ} {s : System A} → Reach a b s → Inv a b s
  Reach-Inv {a} {b} begin = start-Inv a b
  Reach-Inv {a} {b} (later r st) = Step-Inv a b st (Reach-Inv r)
