-- ===== src/Tests/Stores.antt =====
-- The theorems on the store, the worker and the tracking window at small data.
use kvpaxos.Base.{
  [], ◌∷◌, pos, negsuc, Option, some, none, ite, ◌≡◌, refl, arith, ℤ-discrete, ℕ_discrete,
  if◌then◌else◌, ltb, ◌+◌,
}
use kvpaxos.Base.Maps.{find}
use kvpaxos.Base.Results.{ok}
use kvpaxos.Text.{c_string, stoi, to_string}
use kvpaxos.Text.RoundTrip.{stoi-to_string}
use kvpaxos.Types.{read, int_key}
use kvpaxos.Storage.{Text, Codec, Storage, template_value}
use kvpaxos.Storage
use kvpaxos.Storage.Dense.{IsDense, Undoes, write-IsDense, read-write}
use kvpaxos.Partition.Serving.{Served, execute-Served}
use kvpaxos.Tracking.{init}
use kvpaxos.Tracking.Runs.{Ran, track_requests_window}
use kvpaxos.Tests.{message}
use kvpaxos.Tests.Scheduling.{read-IsDispatched}

-- A codec that marks what it has compressed.
abbrev pub marked : Codec
marked = record { compress = λ t. some (1 ∷ t); decompress = unmark }
  where
    unmark : Text → Option Text
    unmark [] = none
    unmark (c ∷ t) = some t

pub marked-Undoes : Undoes marked
marked-Undoes = record { packed = 1 ∷ template_value; compresses = refl; restores = refl }

abbrev pub store : Storage
store = record { storage = (pos 0, 1 ∷ []) ∷ (pos 1, 1 ∷ []) ∷ [] }

pub store-IsDense : IsDense 2 store
unfolding find ℤ-discrete ℕ_discrete
store-IsDense = record {
  counted = refl;
  stored = λ i h. ground arith;
  bounded = λ i h. ground arith;
}

write-IsDense_example :
    (t : Storage) × (Storage.write marked (pos 2) [] store ≡ ok t)
    × IsDense (if ltb 2 2 then 2 else 2 + 1) t
write-IsDense_example = write-IsDense marked 2 2 [] store marked-Undoes store-IsDense (omega arith)

written : (t : Storage) × (Storage.write marked (pos 1) (7 ∷ []) store ≡ ok t)
unfolding Storage.write
written = (_, refl)

read-write_example :
    Storage.read marked (pos 0) written.0
    ≡ ite (ℤ-discrete (pos 1) (pos 0)) (ok template_value) (Storage.read marked (pos 0) store)
read-write_example =
    read-write marked (pos 1) (pos 0) (7 ∷ []) store written.0 marked-Undoes written.1

args-c_string : c_string (b'2' ∷ 0 ∷ 0 ∷ 0 ∷ []) ≡ some (b'2' ∷ [])
unfolding c_string
args-c_string = refl

execute-Served_example : Served marked 2 (message read 1) 1 store
execute-Served_example =
    execute-Served marked marked-Undoes (message read 1) 2 1 (b'2' ∷ []) store store-IsDense
      (omega arith) (omega arith) refl args-c_string (omega arith)

stoi-to_string_example : stoi (to_string (negsuc 41)) ≡ some (negsuc 41)
stoi-to_string_example = stoi-to_string (negsuc 41) refl

track_requests_window_example : Ran 1 (message read 0 ∷ message read 1 ∷ []) (init 1)
track_requests_window_example =
    track_requests_window 1 (message read 0 ∷ message read 1 ∷ []) (omega arith)
      ((read-IsDispatched 0).request, ((read-IsDispatched 1).request, tt))
