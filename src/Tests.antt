-- ===== src/Tests.antt =====
-- Runs of the model on small data, and the theorems at such data.
pub mod Scheduling
pub mod Queues
pub mod Stores
pub mod Graphs
pub mod Repartitioning
pub mod Barriers
pub mod Crews
pub mod Workloads
pub mod Replicas
pub mod Links
use kvpaxos.Base.{ℕ, List, [], ◌∷◌, pos, false}
use kvpaxos.Types.{ClientMessage, RequestType}

-- A request of one key.
abbrev pub message : RequestType → ℕ → ClientMessage
message type k = record {
  id = pos 0;
  s_addr = 0;
  sin_port = 0;
  key = pos k;
  type = type;
  record_timestamp = false;
  args = b'2' ∷ 0 ∷ 0 ∷ 0 ∷ [];
  size = 1;
}
