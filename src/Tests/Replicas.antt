-- ===== src/Tests/Replicas.antt =====
-- The theorems on the replica at small data.
use kvpaxos.Base.{◌⊎◌, ◌<◌, ◌≤◌, List, [], ◌∷◌, pos, ◌+ℤ◌, some, length, ◌≡◌, refl, arith}
use kvpaxos.Base.Results.{ok, undefined}
use kvpaxos.Base.Runs.{finished, returns}
use kvpaxos.Text.{to_string}
use kvpaxos.Types.{ClientMessage, read, write, scan}
use kvpaxos.Storage.{Storage}
use kvpaxos.Storage.Dense.{IsDense}
use kvpaxos.Requests.{Request, export_text}
use kvpaxos.Requests.Lines.{number, nothing}
use kvpaxos.Requests.Generation.Keys.{AskAll, scans, inserts, none_left, asks}
use kvpaxos.Repartition.{Config, metis, operations}
use kvpaxos.Repartition.Start.{Populated, Populating}
use kvpaxos.Replica.{
  Stack, Params, build_client_message, read_messages, initialize_scheduler, string_to_cut_method,
  atoi,
}
use kvpaxos.Replica.Messages.{Built, build_client_message-Built}
use kvpaxos.Replica.Arrival.{
  AllReadable, readable, one_read, none_read, all-Arrived, Overlong, Arrived, read_messages-Arrived,
}
use kvpaxos.Replica.Arrival
use kvpaxos.Replica.Replay.{Serves, Arrived-Serves}
use kvpaxos.Replica.Start.{IsPopulated, initialize_scheduler-IsPopulated}
use kvpaxos.Replica.Filling.{populate_messages}
use kvpaxos.Tests.{message}
use kvpaxos.Tests.Stores.{marked, marked-Undoes, store, store-IsDense}

abbrev scan_one : Request
scan_one = record { type = scan; key = pos 0; args = to_string (pos 1) }

abbrev write_next : Request
write_next = record { type = write; key = pos 2; args = [] }

scan_one-printed : to_string (pos 1) ≡ b'1' ∷ []
unfolding to_string
scan_one-printed = refl

abbrev scan_printed : Request
scan_printed = record { type = scan; key = pos 0; args = b'1' ∷ [] }

build_client_message-Built_example :
    (1 < 4
      → (m : ClientMessage) × (build_client_message (message read 0) (pos 7) scan_printed
          ≡ ok (m, pos 7 +ℤ pos 1))
        × Built (pos 7) scan_printed m)
    × (4 ≤ 1 → build_client_message (message read 0) (pos 7) scan_printed ≡ undefined)
build_client_message-Built_example =
    build_client_message-Built (message read 0) (pos 7) scan_printed refl (omega arith, tt)

-- The stack holds 42 where a line has no third number.
abbrev stack : Stack
stack = record {
  fields = λ i. record { type = pos 9; key = pos 9; arg = pos 42 };
  message = λ i. message read 0;
}

short_texts : (length (to_string (pos 1)) < 4) × (length (to_string (pos 42)) < 4)
unfolding to_string
short_texts = (omega arith, omega arith)

both_readable : AllReadable stack 0 (scan_one ∷ write_next ∷ [])
both_readable =
    readable
      (record { key = refl; number = pos 1; argument = number (pos 1) refl refl; array = refl })
      short_texts.0
      (readable (record { key = refl; number = pos 42; argument = nothing refl; array = refl })
        short_texts.1 (Arrival.none_left 2))

both_read :
    (ms : List ClientMessage) × (read_messages stack 5 0
        (pos 0)
        (export_text (scan_one ∷ write_next ∷ []))
      ≡ returns ms)
    × Arrived stack 0 (pos 0) (scan_one ∷ write_next ∷ []) ms
both_read = all-Arrived stack 5 0 (pos 0) (scan_one ∷ write_next ∷ []) (omega arith) both_readable

-- With 1000 where the line has no third number, the write's message does not fit.
abbrev full_stack : Stack
full_stack = record stack { fields = λ i. record { type = pos 9; key = pos 9; arg = pos 1000 } }

read_messages-Arrived_example :
    (AllReadable full_stack 0 (scan_one ∷ write_next ∷ [])
      × ((ms : List ClientMessage) × (read_messages full_stack 5 0
              (pos 0)
              (export_text (scan_one ∷ write_next ∷ []))
            ≡ returns ms)
          × Arrived full_stack 0 (pos 0) (scan_one ∷ write_next ∷ []) ms))
    ⊎ (Overlong full_stack 0 (scan_one ∷ write_next ∷ [])
        × (read_messages full_stack 5 0 (pos 0) (export_text (scan_one ∷ write_next ∷ []))
            ≡ finished undefined))
read_messages-Arrived_example =
    read_messages-Arrived full_stack 5 0 (pos 0) (scan_one ∷ write_next ∷ []) (omega arith) (
      one_read
        (record { key = refl; number = pos 1; argument = number (pos 1) refl refl; array = refl })
        (one_read (record { key = refl; number = pos 1000; argument = nothing refl; array = refl })
          (none_read 2)))

both_asked : AskAll 2 (scan_one ∷ write_next ∷ []) 3 2
both_asked = asks (scans 0 1 (omega arith)) (asks inserts (none_left refl refl) refl) refl

Arrived-Serves_example : (t : Storage) × Serves marked store both_read.0 t × IsDense 3 t
Arrived-Serves_example =
    Arrived-Serves marked marked-Undoes stack store store-IsDense (omega arith) (omega arith)
      both_asked both_read.2

abbrev params : Params
params = record {
  n_partitions = b'2' ∷ [];
  n_initial_keys = b'1' ∷ [];
  repartition_interval = b'5' ∷ [];
  repartition_method = "METIS";
}

params_read :
    (string_to_cut_method "METIS" ≡ some metis)
    × (atoi (b'2' ∷ []) ≡ pos 2)
    × (atoi (b'1' ∷ []) ≡ pos 1)
unfolding string_to_cut_method atoi
params_read = (refl, refl, refl)

initialize_scheduler-IsPopulated_example :
    (cfg : Config) × (p : Populated) × (initialize_scheduler marked operations 2
        (λ i. message read 0)
        params
      ≡ ok (cfg, 2, p))
    × (cfg.repartition_method ≡ metis)
    × IsPopulated 2 2 2 metis (populate_messages (λ i. message read 0) 0 2) p
    × Populating marked cfg 2 p
initialize_scheduler-IsPopulated_example =
    initialize_scheduler-IsPopulated marked marked-Undoes operations 2 (λ i. message read 0) params
      metis 2 1 (omega arith) (omega arith) params_read.0 params_read.1 params_read.2
