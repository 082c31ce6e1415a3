-- ===== src/Partition/Serving.antt =====
-- A worker with a request, on a store that can answer it.
use kvpaxos.Base.{ℕ, ◌+◌, ◌^◌, ◌<◌, ◌≤◌, [], pos, some, if◌then◌else◌, false, ◌≡◌, refl, ltb}
use kvpaxos.Base.Results.{ok}
use kvpaxos.Text.{c_string, stoi}
use kvpaxos.Types.{ClientMessage, RequestType, read, write, scan, error}
use kvpaxos.Storage.{Text, Codec, Storage}
use kvpaxos.Storage.Dense.{IsDense, Undoes, write-IsDense, read-IsDense, scan-IsDense}
use kvpaxos.Partition.Worker.{Done, serve, execute, joined, error_text}

-- What a request of a type may ask of a store with the keys 0, …, n - 1.
abbrev pub InStore : ℕ → RequestType → ℕ → Text → Type 0
InStore n read k args = k < n
InStore n write k args = k ≤ n
InStore n scan k args = (length : ℕ) × (stoi args ≡ some (pos length))
InStore n _ k args = Unit {0}

-- The keys after the request.
abbrev pub keys_after : ℕ → RequestType → ℕ → ℕ
keys_after n write k = if ltb k n then n else n + 1
keys_after n _ k = n

pub record Served (codec : Codec) (n : ℕ) (m : ClientMessage) (k : ℕ) (s : Storage) : Type 0 where
  pub result : Done
  pub runs : execute codec m s ≡ ok result
  pub succeeds : result.failed ≡ false
  pub dense : IsDense (keys_after n m.type k) result.store

module _ (codec : Codec) (undoes : Undoes codec) where
  record Answers (type : RequestType) (n k : ℕ) (args : Text) (s : Storage) : Type 0 where
    result : Done
    runs : serve codec type (pos k) args s ≡ ok result
    succeeds : result.failed ≡ false
    dense : IsDense (keys_after n type k) result.store

  serve-Answers :
      (type : RequestType) (n k : ℕ) (args : Text) (s : Storage)
      → IsDense n s
      → 0 < n
      → n < 2 ^ 31
      → InStore n type k args
      → Answers type n k args s
  unfolding serve
  serve-Answers read n k args s d p q h =
      let (v, e) = read-IsDense codec n k s d h in
      record {
        result = record { store = s; answer = v; failed = false };
        runs = rw e;
        succeeds = refl;
        dense = d;
      }
  serve-Answers write n k args s d p q h =
      let (t, e, d') = write-IsDense codec n k args s undoes d h in
      record {
        result = record { store = t; answer = args; failed = false };
        runs = rw e;
        succeeds = refl;
        dense = d';
      }
  serve-Answers scan n k args s d p q (length, e) =
      let (vs, e', count) = scan-IsDense codec n k length s d p q in
      record {
        result = record { store = s; answer = joined vs; failed = false };
        runs = rw (e, e');
        succeeds = refl;
        dense = d;
      }
  serve-Answers error n k args s d p q h = record {
    result = record { store = s; answer = error_text; failed = false };
    runs = refl;
    succeeds = refl;
    dense = d;
  }
  serve-Answers _ n k args s d p q h = record {
    result = record { store = s; answer = []; failed = false };
    runs = refl;
    succeeds = refl;
    dense = d;
  }

  -- On a store with the keys 0, …, n - 1 a worker serves every request that reads one of them,
  -- writes one of them or the next, or scans from any key a length that is not negative, and every
  -- request of another type: it does not throw, counts no error and leaves no gap in the keys.
  pub execute-Served :
      (m : ClientMessage) (n k : ℕ) (args : Text) (s : Storage)
      → IsDense n s
      → 0 < n
      → n < 2 ^ 31
      → m.key ≡ pos k
      → c_string m.args ≡ some args
      → InStore n m.type k args
      → Served codec n m k s
  unfolding execute
  execute-Served m n k args s d p q key text h =
      let a = serve-Answers m.type n k args s d p q h in
      record {
        result = a.result;
        runs = rw (text, key) a.runs;
        succeeds = a.succeeds;
        dense = a.dense;
      }
