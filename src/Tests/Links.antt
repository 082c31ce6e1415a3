-- ===== src/Tests/Links.antt =====
-- The theorems on the linked queue, the scheduling loop and the report at small data.
use kvpaxos.Base.{ℕ, suc, List, [], ◌∷◌, ◌≡◌, refl, arith, true, map}
use kvpaxos.Base.Results.{Result, ok, undefined, ◌>>=◌}
use kvpaxos.Base.Runs.{returns}
use kvpaxos.Types.{ClientMessage, read, end}
use kvpaxos.Queue.{second}
use kvpaxos.LinkedQueue.{LinkedQueue, make, push, pop}
use kvpaxos.LinkedQueue.Shape.{Holds, make-Holds, push-Holds}
use kvpaxos.LinkedQueue.Order.{pop-Holds}
use kvpaxos.Scheduler.Loop.{scheduling_loop, scheduling_loop-end, serve_all}
use kvpaxos.Replica.Report.{Times, Row, report_rows, Covers, report_rows_iff}
use kvpaxos.Tests.{message}

one_pushed : (t : LinkedQueue ℕ) × (push 7 (make 1 1) ≡ returns t) × Holds (7 ∷ []) 0 0 t
one_pushed = push-Holds [] 0 0 7 (make 1 1) (make-Holds 1 1)

pop-Holds_example :
    (t : LinkedQueue ℕ) × (pop 2 second one_pushed.0 ≡ returns (7, t)) × Holds (7 ∷ []) 0 1 t
pop-Holds_example = pop-Holds second 0 (7 ∷ []) 0 0 7 one_pushed.0 refl one_pushed.2

abbrev count_up : ClientMessage → ℕ → Result ℕ
count_up m n = ok (suc n)

scheduling_loop-end_example :
    scheduling_loop count_up (message read 0 ∷ message end 0 ∷ message read 1 ∷ []) 5 ≡ (
      serve_all count_up (message read 0 ∷ []) 5 >>= λ t.
      ok (record { state = t; ended = true; left = message read 1 ∷ [] }))
scheduling_loop-end_example =
    scheduling_loop-end count_up (message read 0 ∷ []) (message read 1 ∷ []) (message end 0) 5
      (refl, tt) refl

abbrev one_of_two : Times
one_of_two = record {
  copy_time = 1 ∷ 2 ∷ [];
  repartition_end = 1 ∷ 2 ∷ [];
  repartition_request = 1 ∷ 2 ∷ [];
  repartition_apply = 1 ∷ [];
  reconstruction = 1 ∷ 2 ∷ [];
}

report_rows_iff_example :
    (Covers 2 one_of_two
      → (rows : List Row) × (report_rows (3 ∷ 4 ∷ []) one_of_two ≡ ok rows)
        × (map (λ r. r.repartition_begin_time) rows ≡ 3 ∷ 4 ∷ []))
    × (¬ Covers 2 one_of_two → report_rows (3 ∷ 4 ∷ []) one_of_two ≡ undefined)
report_rows_iff_example = report_rows_iff (3 ∷ 4 ∷ []) one_of_two

-- The scheme of the last repartitioning was not taken over before the end.
one_of_two_undefined : report_rows (3 ∷ 4 ∷ []) one_of_two ≡ undefined
one_of_two_undefined =
    (report_rows_iff (3 ∷ 4 ∷ []) one_of_two).1 (λ c. let h = c.applies in omega arith)
