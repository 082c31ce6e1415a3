-- ===== src/Scheduler/Loop.antt =====
-- src/scheduler/scheduler.hpp, `scheduling_loop`: messages are served until one of type `END`.
use kvpaxos.Base.{Bool, true, false, List, [], ◌∷◌, ◌++◌, if◌then◌else◌, ◌≡◌, All, sym, ◌∙◌}
use kvpaxos.Base.Results.{Result, ok, ◌>>=◌, >>=_same, >>=_assoc}
use kvpaxos.Types.{ClientMessage, is_end}

module _ {S : Type 0} (schedule_and_answer : ClientMessage → S → Result S) where
  -- The messages are those that the queue gives, in order. The result has those that are left; with
  -- none left the thread waits for the next message, or has come to the end.
  pub record Loop : Type 0 where
    pub state : S
    pub ended : Bool
    pub left : List ClientMessage

  unfoldable pub scheduling_loop : List ClientMessage → S → Result Loop
  scheduling_loop [] s = ok (record { state = s; ended = false; left = [] })
  scheduling_loop (message ∷ messages) s =
      let rest = schedule_and_answer message s >>= λ t. scheduling_loop messages t in
      if is_end message.type then ok (record { state = s; ended = true; left = messages }) else rest

  -- The messages served one after the other.
  pub serve_all : List ClientMessage → S → Result S
  serve_all [] s = ok s
  serve_all (m ∷ ms) s = schedule_and_answer m s >>= λ t. serve_all ms t

  -- Messages none of which is an `END`, and an `END` behind them: the loop serves all of them, in their
  -- order, and ends there; it takes nothing that comes behind.
  pub scheduling_loop-end :
      (ms rest : List ClientMessage) (last : ClientMessage) (s : S)
      → All (λ m. is_end m.type ≡ false) ms
      → is_end last.type ≡ true
      → scheduling_loop (ms ++ (last ∷ rest)) s
        ≡ (serve_all ms s >>= λ t. ok (record { state = t; ended = true; left = rest }))
  unfolding scheduling_loop serve_all
  scheduling_loop-end [] rest last s h e = rw e
  scheduling_loop-end (m ∷ ms) rest last s h e = rw h.0 (
      >>=_same (schedule_and_answer m s) _ _ (λ t. scheduling_loop-end ms rest last t h.1 e)
      ∙ sym (>>=_assoc (schedule_and_answer m s) _ _))
