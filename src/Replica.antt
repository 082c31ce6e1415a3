-- ===== src/Replica.antt =====
-- src/replica.cpp: the workload is read from its file and made into messages, the scheduler starts
-- on a populated store, and the messages are submitted. The children show what arrives.
pub mod Messages
pub mod Arrival
pub mod Replay
pub mod Filling
pub mod Start
pub mod Report
use Prim.Native.String.{String}
use text.Mathlib.Text.{◌==◌}
use kvpaxos.Base.{
  ℕ, zero, suc, ◌+◌, Option, none, some, List, [], ◌∷◌, ◌++◌, ℤ, pos, ◌+ℤ◌, pos_part, length,
  if◌then◌else◌,
}
use kvpaxos.Base.Results.{Result, ok, or_undefined, or_throw, ◌>>=◌}
use kvpaxos.Base.Runs.{Run, out_of_fuel, finished, returns}
use kvpaxos.Base.Runs
use kvpaxos.Text.{c_string, scan_int}
use kvpaxos.Types.{ClientMessage, RequestType}
use kvpaxos.Requests.{Text, Request, Fields, import_cs_request}
use kvpaxos.Storage.{Codec}
use kvpaxos.Repartition.{
  CutMethod, metis, kahip, fennel, refennel, round_robin, Config, IntervalType,
}
use kvpaxos.Repartition.Start.{Populated, unpopulated, process_populate_request}

-- A write into an array; `none` is behind its end.
pub write_at : ℕ → ℕ → List ℕ → Option (List ℕ)
write_at i c [] = none
write_at zero c (x ∷ array) = some (c ∷ array)
write_at (suc i) c (x ∷ array) = elim (write_at i c array) [ none ↦ none | some a ↦ some (x ∷ a) ]

-- The loop of `build_client_message` that copies the arguments, from `i`.
pub copy_args : ℕ → Text → List ℕ → Result (List ℕ)
unfolding write_at
copy_args i [] array = ok array
copy_args i (c ∷ cs) array = or_undefined (write_at i c array) >>= λ a. copy_args (i + 1) cs a

-- `build_client_message`, with the counter `client_message_id`. What is not assigned is `garbage`.
unfoldable pub build_client_message : ClientMessage → ℤ → Request → Result (ClientMessage × ℤ)
unfolding copy_args write_at
build_client_message garbage client_message_id request =
    copy_args 0 request.args garbage.args >>= λ args.
    or_undefined (write_at (length request.args) 0 args) >>= λ args'. ok (
      record garbage {
        sin_port = 0;
        id = client_message_id;
        type = request.type;
        key = request.key;
        args = args';
        size = length request.args;
      },
      client_message_id +ℤ pos 1,
    )

-- What the stack holds where a line is read, and where a message is made, in each round.
pub record Stack : Type 0 where
  pub fields : ℕ → Fields
  pub message : ℕ → ClientMessage

-- The loop of `run` that reads the file, with the number of rounds as fuel.
unfoldable pub read_messages : Stack → ℕ → ℕ → ℤ → Text → Run (List ClientMessage)
unfolding import_cs_request build_client_message
read_messages stack zero round id file = out_of_fuel
read_messages stack (suc fuel) round id [] = returns []
read_messages stack (suc fuel) round id (c ∷ file) =
    Runs.◌>>=◌ (finished (import_cs_request (stack.fields round) (c ∷ file))) λ r.
      Runs.◌>>=◌ (finished (build_client_message (stack.message round) id r.0))
        λ m. Runs.◌>>=◌ (read_messages stack fuel (round + 1) m.1 r.1) λ ms. returns (m.0 ∷ ms)

-- `workload_loop`: what it submits, in order. The waits of a request rate do not change that.
unfoldable pub workload_loop : ClientMessage → List ClientMessage → List ClientMessage
workload_loop garbage [] = record garbage { type = RequestType.end } ∷ []
workload_loop garbage (m ∷ messages) = m ∷ workload_loop garbage messages

-- `atoi`: a text with no number at its start is 0.
unfoldable pub atoi : Text → ℤ
unfolding scan_int
atoi text = elim (scan_int text) [ none ↦ pos 0 | some (z, rest) ↦ z ]

-- `string_to_cut_method.at`; `none` is its exception.
unfoldable pub string_to_cut_method : String → Option CutMethod
string_to_cut_method name =
    if name == "METIS"
    then some metis
    else if name == "KAHIP"
    then some kahip
    else if name == "FENNEL"
    then some fennel
    else if name == "REFENNEL"
    then some refennel
    else if name == "ROUND_ROBIN"
    then some round_robin
    else none

-- The parameters of the command line that the scheduler takes.
pub record Params : Type 0 where
  pub n_partitions : Text
  pub n_initial_keys : Text
  pub repartition_interval : Text
  pub repartition_method : String

-- The message of the loop of `initialize_scheduler`.
unfoldable pub populate_message : ClientMessage → ℕ → ClientMessage
populate_message garbage i = record garbage { type = RequestType.write; key = pos i }

module _ (codec : Codec) where
  -- The loop, from `i`, with the number of rounds left.
  unfoldable pub populate_from : Config → (ℕ → ClientMessage) → ℕ → ℕ → Populated → Result Populated
  unfolding populate_message process_populate_request
  populate_from cfg garbage i zero p = ok p
  populate_from cfg garbage i (suc n) p =
      process_populate_request codec cfg (populate_message (garbage i) i) p >>= λ q.
      populate_from cfg garbage (i + 1) n q

  -- `initialize_scheduler`, of any of the classes: what its constructor is given, and the members
  -- that all of them have from `Scheduler`, with the storage. A number of partitions, an interval or
  -- a number of keys below 0 is not modelled: the loops have no round.
  unfoldable pub initialize_scheduler :
      IntervalType → ℕ → (ℕ → ClientMessage) → Params → Result (Config × ℕ × Populated)
  unfolding populate_from atoi string_to_cut_method
  initialize_scheduler type tl garbage params =
      or_throw (string_to_cut_method params.repartition_method) >>= λ method.
      let cfg : Config = record {
        repartition_method = method;
        interval_type = type;
        repartition_interval = pos_part (atoi params.repartition_interval);
        tracking_length = tl;
      } in
      let n = pos_part (atoi params.n_partitions) in
      populate_from cfg garbage 0 (pos_part (atoi params.n_initial_keys +ℤ pos 1))
        (unpopulated cfg n)
      >>= λ p. ok (cfg, n, p)
