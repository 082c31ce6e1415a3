-- ===== src/Scheduler/Dispatching.antt =====
-- What one dispatch does: its actions, and which partitions they concern.
use kvpaxos.Base.{
  ℕ, zero, suc, ◌+◌, ◌<◌, Bool, true, false, some, List, [], ◌∷◌, ℤ, ℤ-discrete, ◌≤◌, pos, ◌+ℤ◌,
  ◌≡◌, refl, ◌∙◌, arith, ltb,
}
use mathlib.Core.Bool.{false≢true}
use kvpaxos.Base.Maps.{find}
use kvpaxos.Base.Results.{ok}
use kvpaxos.Types.{ClientMessage, int_key}
use kvpaxos.Tracking.Counts.{uses}
use kvpaxos.Tracking.Loops.{keys_from}
use kvpaxos.Tracking.Window.{request_keys, request_size, IsRequest}
use kvpaxos.Scheduler.{
  Scheduler, Action, push, sync, Dispatched, contains, ids_below, dispatch_to, dispatch,
  dispatch_counted, sync_partitions,
}
use kvpaxos.Scheduler.Mapping.{involved_partitions-Involves}
use kvpaxos.Scheduler.Involving.{IsValid, Extends, contains-append}
use kvpaxos.Scheduler.Order.{some_of}

-- The library iterates over a set in some order.
pub record IsOrder (order : List ℕ → List ℕ) : Type 0 where
  pub same_items : (ps : List ℕ) (p : ℕ) → contains p (order ps) ≡ contains p ps

-- The action serves a request that names the key.
unfoldable pub touches : ℤ → Action → Bool
touches k (push p m) = ltb 0 (uses (request_keys m) k)
touches k (sync b ps) = false

-- The set holds the partition of the key, or every partition if the key has none.
abbrev pub Owner : (ℕ → Bool) → ℤ → Scheduler → Type 0
Owner h k s =
    (p : ℕ)
    → p < s.n_partitions
    → ((q : ℕ) → find k s.data_to_partition ≡ some q → q ≡ p)
    → h p ≡ true

pub some_of-contains :
    (h : ℕ → Bool) (p : ℕ) (ps : List ℕ) → h p ≡ true → contains p ps ≡ true → some_of h ps ≡ true
some_of-contains h p [] e c = absurd (false≢true c)
some_of-contains h p (q ∷ ps) e c = ground (arith, some_of-contains h p ps e)

pub contains-ids_below : (p n : ℕ) → p < n → contains p (ids_below n) ≡ true
unfolding ids_below
contains-ids_below p zero h = elim h [ ]
contains-ids_below p (suc n) h =
    ground (arith, contains-append p (ids_below n) (n ∷ []), contains-ids_below p n)

-- The actions of one dispatch, on the partitions `ps` in order.
pub data Shape (m : ClientMessage) : List ℕ → List Action → Type 0 where
  alone :
      (p : ℕ) {ps : List ℕ} {es : List Action} → ps ≡ p ∷ [] → es ≡ push p m ∷ [] → Shape m ps es
  across :
      (b b' p : ℕ) {ps : List ℕ} {es : List Action}
      → contains p ps ≡ true
      → es ≡ sync b ps ∷ push p m ∷ sync b' ps ∷ []
      → Shape m ps es

pub record Group (order : List ℕ → List ℕ) (m : ClientMessage) (s : Scheduler) : Type 0 where
  pub result : Dispatched
  pub runs : dispatch_counted order m s ≡ ok result
  pub valid : IsValid result.scheduler
  pub extends : Extends s result.scheduler
  pub partitions : List ℕ
  pub shape : Shape m partitions result.actions
  pub owner :
      (k : ℤ)
      → ltb 0 (uses (request_keys m) k) ≡ true
      → (p : ℕ) × (find k result.scheduler.data_to_partition ≡ some p)
        × (contains p partitions ≡ true)

-- A request that names at least one key.
pub record IsDispatched (m : ClientMessage) : Type 0 where
  pub request : IsRequest m
  pub not_empty : 0 < request_size m

member-keys_from :
    (key k : ℤ) (i n : ℕ)
    → ltb 0 (uses (keys_from key i n) k) ≡ true
    → (j : ℕ) × (j < i + n) × (i ≤ j) × (key +ℤ pos j ≡ k)
unfolding uses keys_from
member-keys_from key k i zero h = absurd (false≢true h)
member-keys_from key k i (suc n) h = elim (ℤ-discrete (key +ℤ pos i) k) [
  | yes e ↦ (i, omega arith, omega arith, e)
  | no e ↦
      let (j, a, b, c) = member-keys_from key k (i + 1) n (ground arith) in
      (j, omega arith, omega arith, c)
]

member-request_keys :
    (m : ClientMessage) (k : ℤ)
    → IsRequest m
    → ltb 0 (uses (request_keys m) k) ≡ true
    → (j : ℕ) × (j < request_size m) × (m.key +ℤ pos j ≡ k)
unfolding request_keys
member-request_keys m k r h =
    let (j, a, b, c) = member-keys_from m.key k 0 (request_size m) (rw (r.real) at (h)) in
    (j, omega (arith, a), c)

-- The call on the partitions that a request involves.
dispatch_to-Shape :
    (order : List ℕ → List ℕ) (m : ClientMessage) (set ps : List ℕ) (p : ℕ) (s : Scheduler)
    → order set ≡ ps
    → contains p ps ≡ true
    → IsValid s
    → (d : Dispatched) × (dispatch_to order m set ps s ≡ ok d)
      × IsValid d.scheduler
      × (d.scheduler.data_to_partition ≡ s.data_to_partition)
      × (d.scheduler.n_partitions ≡ s.n_partitions)
      × Shape m ps d.actions
unfolding dispatch_to sync_partitions
dispatch_to-Shape order m set [] p s e c v = absurd (false≢true c)
dispatch_to-Shape order m set (x ∷ []) p s e c v = (_, refl, v, refl, refl, alone x refl refl)
dispatch_to-Shape order m set (x ∷ y ∷ ps) p s e c v = (
  _,
  refl,
  record { some_partition = v.some_partition; in_round = v.in_round; in_range = v.in_range },
  refl,
  refl,
  across s.next_barrier (s.next_barrier + 1) x (ground arith) (rw e refl),
)

-- What a dispatch does, of a request that names a key: it succeeds, and the partition of each key
-- that the request names is one of those that its actions concern.
pub dispatch-Group :
    (order : List ℕ → List ℕ) (m : ClientMessage) (s : Scheduler)
    → IsOrder order
    → IsValid s
    → IsDispatched m
    → Group order m s
unfolding dispatch_counted dispatch
dispatch-Group order m s o v r =
    let (w, involves, i) = involved_partitions-Involves m (request_size m) s v r.request.counted in
    let (p, found, inside) = i.owners 0 r.not_empty in
    let (d, runs, valid, same_map, same_size, shape) =
      dispatch_to-Shape order m w.partitions (order w.partitions) p w.scheduler refl
        (o.same_items w.partitions p ∙ inside) i.valid in
    record {
      result = record d {
        scheduler = record (d.scheduler) {
          n_dispatched_requests = d.scheduler.n_dispatched_requests + 1;
        };
      };
      runs = rw (involves) (rw runs refl);
      valid = record {
        some_partition = valid.some_partition;
        in_round = valid.in_round;
        in_range = valid.in_range;
      };
      extends = record {
        same_size = same_size ∙ i.extends.same_size;
        keeps = λ k q h. rw same_map (i.extends.keeps k q h);
      };
      partitions = order w.partitions;
      shape = shape;
      owner = λ k h.
          let (j, below, e) = member-request_keys m k r.request h in
          let (q, owned, has) = i.owners j below in
          (q, rw same_map (rw (← e) owned), o.same_items w.partitions q ∙ has);
    }
