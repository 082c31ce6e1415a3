-- ===== src/Replica/Start.antt =====
-- `initialize_scheduler` of src/replica.cpp: which keys are mapped, stored and tracked at the start.
use native.Mathlib.Nat.{zero-mod}
use kvpaxos.Base.{
  ℕ, zero, suc, ◌+◌, ◌<◌, List, [], ◌∷◌, ◌++◌, false, true, pos, negsuc, ◌+ℤ◌, some, none, ◌≡◌,
  refl, ap, ◌∙◌, arith, Bool-cases, Option-cases, length-append, replicate, inl, inr, subst, sym,
  pos_part,
}
use mathlib.Core.List.{append_assoc, append-nil}
use mathlib.Core.Bool.{false≢true}
use kvpaxos.Base.Maps.{find, find-assign, find-nil}
use kvpaxos.Base.Results.{ok, throws, ok_injective}
use kvpaxos.Types.{ClientMessage, int_key}
use kvpaxos.Storage.{Text, Codec, Storage, template_value}
use kvpaxos.Storage
use kvpaxos.Tracking.{Tracker, init, track_request, dummy_message}
use kvpaxos.Storage.Dense.{IsDense, Undoes, write-IsDense}
use kvpaxos.Partition.Worker.{populate_storage}
use kvpaxos.Tracking.Window.{IsRequest}
use kvpaxos.Tracking.Runs.{track_request-InWindow, init-InWindow}
use kvpaxos.Scheduler.{make}
use kvpaxos.Repartition.{Config, IntervalType, CutMethod, is_round_robin}
use kvpaxos.Repartition.Start.{
  Populated, Populating, constructed, populated, unpopulated, process_populate_request,
}
use kvpaxos.Replica.{
  populate_message, populate_from, Params, string_to_cut_method, atoi, initialize_scheduler,
}
use kvpaxos.Replica.Filling.{
  IsMapped, map_key-IsMapped, populate-IsRequest, one_further, populate_messages, IsTracking,
}

-- What holds when the keys 0, …, i - 1 are populated by the messages `ms`. A scheduler that never
-- repartitions does not track.
pub record IsPopulated (i n tl : ℕ) (method : CutMethod) (ms : List ClientMessage) (p : Populated)
    : Type 0 where
  pub placed : IsMapped i n p.scheduler
  pub dense : IsDense i p.store
  pub no_negative : (j : ℕ) → find (negsuc j) p.store.storage ≡ none
  pub tracked : is_round_robin method ≡ false → IsTracking tl ms p.tracker
  pub untracked : is_round_robin method ≡ true → p.tracker ≡ init tl

-- A write leaves the other keys alone.
write_positive :
    (codec : Codec) (i : ℕ) (value : Text) (s t : Storage)
    → Storage.write codec (pos i) value s ≡ ok t
    → ((j : ℕ) → find (negsuc j) s.storage ≡ none)
    → (j : ℕ) → find (negsuc j) t.storage ≡ none
unfolding Storage.write
write_positive codec i value s t e h j = elim (Option-cases (codec.compress template_value)) [
  | inl fails ↦ absurd (throws≢ok (rw fails at e))
  | inr (packed, packs) ↦
      let same = ok_injective (rw packs at e) in
      let found = find-assign (pos i) (negsuc j) packed s.storage in
      rw (← same) (ground (arith, found, h j))
]
  where
    throws≢ok : throws ≡ ok t → ⊥
    throws≢ok e = cc

track_request-IsTracking :
    (tl : ℕ) (ms : List ClientMessage) (m : ClientMessage) (t : Tracker)
    → 0 < tl
    → IsRequest m
    → IsTracking tl ms t
    → (u : Tracker) × (track_request tl m t ≡ some u)
      × IsTracking tl (ms ++ m ∷ []) (record u { n_processed_requests = t.n_processed_requests })
track_request-IsTracking tl ms m t h r v =
    let one = track_request-InWindow tl m t h r v.inside in
    (
      one.next,
      one.runs,
      record {
        expired = v.expired ++ one.oldest ∷ [];
        as_many = omega (
          arith,
          v.as_many,
          length-append v.expired (one.oldest ∷ []),
          length-append ms (m ∷ []),
        );
        queue =
            append_assoc v.expired (one.oldest ∷ []) one.next.graph_deletion_queue
            ∙ ap (λ q. v.expired ++ q) one.queue
            ∙ sym (append_assoc v.expired t.graph_deletion_queue (m ∷ []))
            ∙ ap (λ q. q ++ m ∷ []) v.queue
            ∙ append_assoc (replicate tl dummy_message) ms (m ∷ []);
        inside = record {
          follows = one.inside.follows;
          tracked = one.inside.tracked;
          full = one.inside.full;
        };
        uncounted = v.uncounted;
      },
    )

module _ (codec : Codec) (undoes : Undoes codec) (cfg : Config) where
  populate_one :
      (garbage : ClientMessage) (i n : ℕ) (ms : List ClientMessage) (p : Populated)
      → 0 < n
      → 0 < cfg.tracking_length
      → IsPopulated i n cfg.tracking_length cfg.repartition_method ms p
      → (q : Populated) × (process_populate_request codec cfg (populate_message garbage i) p ≡ ok q)
        × IsPopulated
            (i + 1)
            n
            cfg.tracking_length
            cfg.repartition_method
            (ms ++ populate_message garbage i ∷ [])
            q
  unfolding process_populate_request populate_storage populate_message
  populate_one garbage i n ms p h k v =
      let m = populate_message garbage i in
      let (c, mapped, placed) = map_key-IsMapped i n p.scheduler h v.placed in
      let (t, written, dense) = write-IsDense codec i i [] p.store undoes v.dense (omega arith) in
      let dense' = subst (λ m. IsDense m t) (one_further i) dense in
      let no_negative = write_positive codec i [] p.store t written v.no_negative in
      elim (Bool-cases (is_round_robin cfg.repartition_method)) [
        | inl turns ↦ (
          record p { scheduler = c; store = t },
          rw (mapped, written) (rw turns),
          record {
            placed = placed;
            dense = dense';
            no_negative = no_negative;
            tracked = λ cuts. absurd (false≢true (sym cuts ∙ turns));
            untracked = v.untracked;
          },
        )
        | inr cuts ↦
            let (u, runs, tracking) =
              track_request-IsTracking cfg.tracking_length ms m p.tracker k
                (populate-IsRequest garbage i) (v.tracked cuts) in
            (
              record {
                scheduler = c;
                tracker = record u { n_processed_requests = p.tracker.n_processed_requests };
                store = t;
              },
              rw (mapped, written) (rw (cuts, runs)),
              record {
                placed = placed;
                dense = dense';
                no_negative = no_negative;
                tracked = λ x. tracking;
                untracked = λ turns. absurd (false≢true (sym cuts ∙ turns));
              },
            )
      ]

  populate_from-IsPopulated :
      (garbage : ℕ → ClientMessage) (i rounds n : ℕ) (ms : List ClientMessage) (p : Populated)
      → 0 < n
      → 0 < cfg.tracking_length
      → IsPopulated i n cfg.tracking_length cfg.repartition_method ms p
      → Populating codec cfg n p
      → (q : Populated) × (populate_from codec cfg garbage i rounds p ≡ ok q)
        × IsPopulated
            (i + rounds)
            n
            cfg.tracking_length
            cfg.repartition_method
            (ms ++ populate_messages garbage i rounds)
            q
        × Populating codec cfg n q
  unfolding populate_from populate_messages
  populate_from-IsPopulated garbage i zero n ms p h k v b =
      let same : i + 0 ≡ i = omega arith in (p, refl, rw (same, append-nil) v, b)
  populate_from-IsPopulated garbage i (suc rounds) n ms p h k v b =
      let m = populate_message (garbage i) i in
      let (q, one, w) = populate_one (garbage i) i n ms p h k v in
      let (r, more, x, b') =
        populate_from-IsPopulated garbage (i + 1) rounds n (ms ++ m ∷ []) q h k w
          (populated m b (populate-IsRequest (garbage i) i) one) in
      let same : i + suc rounds ≡ i + 1 + rounds = omega arith in
      let messages = append_assoc ms (m ∷ []) (populate_messages garbage (i + 1) rounds) in
      (r, rw one more, rw same (rw messages at x), b')

keys_to_populate : (keys : ℕ) → pos_part (pos keys +ℤ pos 1) ≡ keys + 1
unfolding ◌+ℤ◌
keys_to_populate keys = ground arith

module _ (codec : Codec) (undoes : Undoes codec) (type : IntervalType) (tl : ℕ) where
  -- Where compression is undone, with a tracking window, a method that has a name, at least one
  -- partition and `keys` initial keys: the scheduler starts, with the parameters' method; the keys 0,
  -- …, `keys`, the last one included, are on the partitions by turns, and no other key is; the store
  -- has these keys and no others; unless the method is ROUND_ROBIN, which leaves the tracker alone,
  -- the messages of these keys have gone through the tracking window, in their order, and the graph is
  -- that of the window; and populating requests have brought all this about.
  pub initialize_scheduler-IsPopulated :
      (garbage : ℕ → ClientMessage) (params : Params) (method : CutMethod) (n keys : ℕ)
      → 0 < tl
      → 0 < n
      → string_to_cut_method params.repartition_method ≡ some method
      → atoi params.n_partitions ≡ pos n
      → atoi params.n_initial_keys ≡ pos keys
      → (cfg : Config) × (p : Populated) × (initialize_scheduler codec type tl garbage params
          ≡ ok (cfg, n, p))
        × (cfg.repartition_method ≡ method)
        × IsPopulated (keys + 1) n tl method (populate_messages garbage 0 (keys + 1)) p
        × Populating codec cfg n p
  unfolding initialize_scheduler make init
  initialize_scheduler-IsPopulated garbage params method n keys h k named partitions initial =
      let cfg : Config = record {
        repartition_method = method;
        interval_type = type;
        repartition_interval = pos_part (atoi params.repartition_interval);
        tracking_length = tl;
      } in
      let start : IsPopulated 0 n tl method [] (unpopulated cfg n) = record {
        placed = record {
          size = refl;
          turn = sym (zero-mod n);
          home = λ j lt. absurd (omega arith);
          others = λ j le. find-nil (pos j);
          no_negative = λ j. find-nil (negsuc j);
        };
        dense = record {
          counted = refl;
          stored = λ j lt. absurd (omega arith);
          bounded = λ j le. find-nil (pos j);
        };
        no_negative = λ j. find-nil (negsuc j);
        tracked = λ cuts. record {
          expired = [];
          as_many = refl;
          queue = sym (append-nil (replicate tl dummy_message));
          inside = init-InWindow tl;
          uncounted = refl;
        };
        untracked = λ turns. refl;
      } in
      let (p, runs, done, b) =
        populate_from-IsPopulated codec undoes cfg garbage 0 (keys + 1) n [] (unpopulated cfg n) k h
          start constructed in
      let same : 0 + (keys + 1) ≡ keys + 1 = omega arith in
      (
        cfg,
        p,
        rw (named, partitions, initial, keys_to_populate keys, runs) refl,
        refl,
        rw same at done,
        b,
      )
