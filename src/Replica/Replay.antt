-- ===== src/Replica/Replay.antt =====
-- A generated workload, read back and served in its order, on a store that has the keys it was
-- generated for.
use kvpaxos.Base.{
  ℕ, ◌+◌, ◌<◌, ◌≤◌, ◌^◌, List, [], ◌∷◌, ℤ, pos, some, none, length, ◌≡◌, refl, arith, true, false,
  ap, ◌∙◌, sym, subst, Option,
}
use kvpaxos.Base.Results.{ok}
use kvpaxos.Text.{to_string, stoi, scan_int, is_int}
use kvpaxos.Text.RoundTrip.{stoi-to_string}
use kvpaxos.Types.{ClientMessage}
use kvpaxos.Storage.{Codec, Storage}
use kvpaxos.Storage.Dense.{IsDense, Undoes}
use kvpaxos.Partition.Worker.{Done, execute}
use kvpaxos.Partition.Serving.{InStore, execute-Served, keys_after}
use kvpaxos.Requests.{Text, Request, Fields}
use kvpaxos.Requests.Lines.{Argument, number, nothing}
use kvpaxos.Requests.Generation.Keys.{
  Asks, AskAll, reads, rewrites, scans, inserts, none_left, asks,
}
use kvpaxos.Replica.{Stack}
use kvpaxos.Replica.Messages.{Built}
use kvpaxos.Replica.Arrival.{Arrived, none_arrived, arrived}

-- Messages that are served one after the other, none of which fails.
pub data Serves (codec : Codec) : Storage → List ClientMessage → Storage → Type 0 where
  all_served : (s : Storage) → Serves codec s [] s
  served :
      {m : ClientMessage} {ms : List ClientMessage} {s t : Storage} (d : Done)
      → execute codec m s ≡ ok d
      → d.failed ≡ false
      → Serves codec d.store ms t
      → Serves codec s (m ∷ ms) t

stoi-nil : stoi [] ≡ none
unfolding stoi scan_int
stoi-nil = refl

-- The text of a number that is an `int` is read as that number, whatever it was read as before.
stoi-Argument :
    {before : Fields} (l : ℕ) (z : ℤ) {args : Text}
    → is_int (pos l) ≡ true
    → args ≡ to_string (pos l)
    → Argument before args z
    → stoi (to_string z) ≡ some (pos l)
stoi-Argument l z h e (number k k' e') = rw (sym e' ∙ e) (stoi-to_string (pos l) h)
stoi-Argument l z h e (nothing e') =
    let absurdity : ◌≡◌ {A = Option ℤ} none (some (pos l)) =
      sym stoi-nil ∙ ap stoi (sym e' ∙ e) ∙ stoi-to_string (pos l) h in
    cc

-- What is known of one request and its message.
record Asked (n : ℕ) (r : Request) (m : ℕ) (z : ℤ) : Type 0 where
  key : ℕ
  is_key : r.key ≡ pos key
  in_store : InStore n r.type key (to_string z)
  after : keys_after n r.type key ≡ m

Asks-Asked :
    {n m named : ℕ} {r : Request} {before : Fields} (z : ℤ)
    → n < 2 ^ 31
    → Asks n r m named
    → Argument before r.args z
    → Asked n r m z
Asks-Asked z small (reads k h) a = record { key = k; is_key = refl; in_store = h; after = refl }
Asks-Asked z small (rewrites k h) a = record {
  key = k;
  is_key = refl;
  in_store = omega arith;
  after = ground arith;
}
Asks-Asked z small (scans k l h) a = record {
  key = k;
  is_key = refl;
  in_store = (l, stoi-Argument l z (ground arith) refl a);
  after = refl;
}
Asks-Asked {n} z small inserts a = record {
  key = n;
  is_key = refl;
  in_store = omega arith;
  after = ground arith;
}

Asks-grows : {n m named : ℕ} {r : Request} → Asks n r m named → (n ≤ m) × (m ≤ n + 1)
Asks-grows (reads k h) = (omega arith, omega arith)
Asks-grows (rewrites k h) = (omega arith, omega arith)
Asks-grows (scans k l h) = (omega arith, omega arith)
Asks-grows inserts = (omega arith, omega arith)

module _ (codec : Codec) (undoes : Undoes codec) where
  serve_one :
      {n after named : ℕ} {r : Request} {m : ClientMessage} {id : ℤ} {before : Fields} (z : ℤ)
      (s : Storage)
      → IsDense n s
      → 0 < n
      → n < 2 ^ 31
      → Asks n r after named
      → Argument before r.args z
      → Built id (record r { args = to_string z }) m
      → (d : Done) × (execute codec m s ≡ ok d) × (d.failed ≡ false) × IsDense after d.store
  serve_one {n} {after} {named} {r} {m} z s d p q a arg b =
      let w = Asks-Asked z q a arg in
      let e =
        execute-Served codec undoes m n w.key (to_string z) s d p q (b.key ∙ w.is_key) b.text
          (rw b.type w.in_store) in
      let same : keys_after n m.type w.key ≡ after = rw b.type w.after in
      (e.result, e.runs, e.succeeds, subst (λ k. IsDense k e.result.store) same e.dense)

  -- A workload that asks for keys of a store with the keys 0, …, n - 1, and what has arrived of it: served
  -- in its order from such a store, no message throws or fails, and the store has then the keys that
  -- the workload leaves, without a gap.
  pub Arrived-Serves :
      {n after named round : ℕ} {id : ℤ} {rs : List Request} {ms : List ClientMessage}
      (stack : Stack) (s : Storage)
      → IsDense n s
      → 0 < n
      → n + length rs < 2 ^ 31
      → AskAll n rs after named
      → Arrived stack round id rs ms
      → (t : Storage) × Serves codec s ms t × IsDense after t
  Arrived-Serves stack s d p q (none_left e e') (none_arrived round id) =
      (s, all_served s, rw e at d)
  Arrived-Serves stack s d p q (asks a more e) (arrived z arg b rest) =
      let (done, runs, succeeds, d') = serve_one z s d p (omega arith) a arg b in
      let (lower, upper) = Asks-grows a in
      let (t, serves, dense) =
        Arrived-Serves stack done.store d' (omega arith) (omega arith) more rest in
      (t, served done runs succeeds serves, dense)
