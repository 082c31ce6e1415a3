-- ===== src/Partition/Worker.antt =====
-- src/scheduler/partition.hpp, `thread_loop`: what a worker does with one request. The barrier of a
-- `sync` message is in Scheduler.Workers; here it leaves everything alone. `populate_storage` fills the store.
use kvpaxos.Base.{
  ℕ, ◌+◌, List, [], ◌∷◌, ◌++◌, ℤ, pos, negsuc, none, some, if◌then◌else◌, Bool, true, false,
}
use kvpaxos.Base.Results.{Result, ok, throws, undefined, ◌>>=◌, or_throw, or_undefined}
use kvpaxos.Text.{c_string, stoi}
use kvpaxos.Types.{ClientMessage, RequestType, read, write, scan, error, is_sync, is_write}
use kvpaxos.Requests.{Request}
use kvpaxos.Storage.{Text, Codec, Storage}
use kvpaxos.Storage
use kvpaxos.Partition.{BoundedQueue, Partition, pop_request}

-- `std::ostream_iterator<std::string>(oss, ",")`
pub joined : List Text → Text
joined [] = []
joined (v ∷ vs) = v ++ (b',' ∷ joined vs)

abbrev pub error_text : Text
error_text = b'E' ∷ b'R' ∷ b'R' ∷ b'O' ∷ b'R' ∷ []

-- What a request does: the store after it, its answer, and whether it was a scan that failed.
pub record Done : Type 0 where
  pub store : Storage
  pub answer : Text
  pub failed : Bool

-- `catch (...)` catches an exception of the scan. `std::vector<T> keys(length)` throws where the
-- length is negative, and nothing catches that.
scan_answer : ℤ → Result (List Text) → Storage → Result Done
scan_answer length throws s = ok (record { store = s; answer = error_text; failed = true })
scan_answer length undefined s = undefined
scan_answer (pos n) (ok vs) s = ok (record { store = s; answer = joined vs; failed = false })
scan_answer (negsuc n) (ok vs) s = throws

module _ (codec : Codec) where
  -- The `switch`, with `request_args`.
  unfoldable pub serve : RequestType → ℤ → Text → Storage → Result Done
  unfolding scan_answer joined
  serve read key args s =
      Storage.read codec key s >>= λ v. ok (record { store = s; answer = v; failed = false })
  serve write key args s = Storage.write codec key args s >>= λ t.
      ok (record { store = t; answer = args; failed = false })
  serve scan key args s =
      or_throw (stoi args) >>= λ length. scan_answer length (Storage.scan codec key length s) s
  serve error key args s = ok (record { store = s; answer = error_text; failed = false })
  serve other key args s = ok (record { store = s; answer = []; failed = false })

  -- `std::string(request.args)` reads up to the NUL.
  unfoldable pub execute : ClientMessage → Storage → Result Done
  unfolding serve
  execute m s = or_undefined (c_string m.args) >>= λ args. serve m.type m.key args s

  -- `populate_storage(struct client_message&)`
  unfoldable pub populate_storage : ClientMessage → Storage → Result Storage
  populate_storage m s = Storage.write codec m.key [] s

  -- `populate_storage(const std::vector<workload::Request>&)`
  unfoldable pub populate_requests : List Request → Storage → Result Storage
  populate_requests [] s = ok s
  populate_requests (r ∷ rs) s =
      let rest = Storage.write codec r.key r.args s >>= λ t. populate_requests rs t in
      let skipped = populate_requests rs s in if is_write r.type then rest else skipped

  module _ {capacity : ℕ} (bounded : BoundedQueue capacity) where
    -- `sync` messages are not counted.
    unfoldable pub count_request : ClientMessage → Done → Partition bounded → Partition bounded
    count_request m d p = record p {
      error_count = if d.failed then p.error_count + 1 else p.error_count;
      n_executed_requests =
          if is_sync m.type then p.n_executed_requests else p.n_executed_requests + 1;
    }

    pub data Round : Type 0 where
      blocks : Round
      stops : Partition bounded → Round
      serves : Result (Storage × Partition bounded × Text) → Round

    -- One round of the loop.
    unfoldable pub thread_round : Storage → Partition bounded → Round
    unfolding execute count_request
    thread_round s p = elim (pop_request bounded p) [
      | none ↦ blocks
      | some (m, q) ↦
          if q.executing
          then serves (execute m s >>= λ d. ok (d.store, count_request m d q, d.answer))
          else stops q
    ]
