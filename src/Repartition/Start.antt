-- ===== src/Repartition/Start.antt =====
-- src/scheduler/scheduler.hpp: the members that every class has from `Scheduler`, and how
-- `process_populate_request` fills them, with the storage, before the threads get their first
-- request.
use native.Mathlib.Nat.{mod-lt}
use kvpaxos.Base.{
  ℕ, ◌+◌, ◌%◌, ◌<◌, [], ℤ, ◌≡◌, refl, arith, ◌∙◌, subst, if◌then◌else◌, Bool-cases, inl, inr,
}
use kvpaxos.Base.Maps.{find, emplace, find-emplace}
use kvpaxos.Base.Results.{Result, ok, or_throw, ◌>>=◌, >>=-eq-ok, ok_injective}
use kvpaxos.Types.{ClientMessage, int_key}
use kvpaxos.Storage.{Codec, Storage}
use kvpaxos.Partition.Worker.{populate_storage}
use kvpaxos.Tracking.{Tracker, init, track_request}
use kvpaxos.Tracking.Window.{IsRequest}
use kvpaxos.Tracking.Runs.{InWindow, track_request-InWindow, init-InWindow}
use kvpaxos.Scheduler.{Scheduler, make, map_key, map_key_to}
use kvpaxos.Scheduler.Involving.{IsValid}
use kvpaxos.Repartition.{Config, is_round_robin}

pub record Populated : Type 0 where
  pub scheduler : Scheduler
  pub tracker : Tracker
  pub store : Storage

-- As the constructors of all the classes leave them, with `n` partitions.
abbrev pub unpopulated : Config → ℕ → Populated
unpopulated cfg n = record {
  scheduler = make n;
  tracker = init cfg.tracking_length;
  store = record { storage = [] };
}

-- `process_populate_request`: the key is mapped, stored and taken into the graph.
unfoldable pub process_populate_request :
    Codec → Config → ClientMessage → Populated → Result Populated
process_populate_request codec cfg m p = map_key m.key p.scheduler >>= λ c.
    populate_storage codec m p.store >>= λ stored.
    let t = record p { scheduler = c; store = stored } in
    if is_round_robin cfg.repartition_method
    then ok t
    else (or_throw (track_request cfg.tracking_length m p.tracker) >>= λ tracker. ok (record t {
      tracker = record tracker { n_processed_requests = p.tracker.n_processed_requests };
    }))

-- What comes about by requests of that kind.
pub data Populating (codec : Codec) (cfg : Config) (n : ℕ) : Populated → Type 0 where
  constructed : Populating codec cfg n (unpopulated cfg n)
  populated :
      (m : ClientMessage) {p q : Populated}
      → Populating codec cfg n p
      → IsRequest m
      → process_populate_request codec cfg m p ≡ ok q
      → Populating codec cfg n q

-- What the threads start with.
pub record Started (n tl : ℕ) (p : Populated) : Type 0 where
  pub valid : IsValid p.scheduler
  pub same_size : p.scheduler.n_partitions ≡ n
  pub inside : InWindow tl p.tracker

map_key-IsValid :
    (key : ℤ) (s : Scheduler)
    → IsValid s
    → (t : Scheduler) × (map_key key s ≡ ok t) × IsValid t × (t.n_partitions ≡ s.n_partitions)
unfolding map_key map_key_to
map_key-IsValid key s v =
    let map = emplace key s.round_robin_counter s.data_to_partition in
    (
      record s {
        data_to_partition = map;
        round_robin_counter = (s.round_robin_counter + 1) % s.n_partitions;
      },
      ground (arith, v.in_round),
      record {
        some_partition = v.some_partition;
        in_round = mod-lt (s.round_robin_counter + 1) v.some_partition;
        in_range = λ k p e. ground (
          arith,
          e,
          v.in_round,
          v.in_range k p,
          find-emplace key k s.round_robin_counter s.data_to_partition,
        );
      },
      refl,
    )

module _ (codec : Codec) (cfg : Config) where
  -- Mapping a key keeps the scheduler valid, and the request goes into the window.
  process_populate_request-Started :
      (n : ℕ) (m : ClientMessage) (p q : Populated)
      → 0 < cfg.tracking_length
      → IsRequest m
      → process_populate_request codec cfg m p ≡ ok q
      → Started n cfg.tracking_length p
      → Started n cfg.tracking_length q
  unfolding process_populate_request
  process_populate_request-Started n m p q h r e s =
      let (c, mapped, valid, same) = map_key-IsValid m.key p.scheduler s.valid in
      let e1 = rw mapped at e in
      let (t, stored, e2) = >>=-eq-ok (populate_storage codec m p.store) _ e1 in
      let one = track_request-InWindow cfg.tracking_length m p.tracker h r s.inside in
      elim (Bool-cases (is_round_robin cfg.repartition_method)) [
        | inl turns ↦
            let e3 = rw turns at e2 in
            subst (Started n cfg.tracking_length) (ok_injective e3)
              (record { valid = valid; same_size = same ∙ s.same_size; inside = s.inside })
        | inr cuts ↦
            let e3 = rw (cuts, one.runs) at e2 in
            subst (Started n cfg.tracking_length) (ok_injective e3) (record {
              valid = valid;
              same_size = same ∙ s.same_size;
              inside = record {
                follows = one.inside.follows;
                tracked = one.inside.tracked;
                full = one.inside.full;
              };
            })
      ]

  pub Populating-Started :
      (n : ℕ) (p : Populated)
      → 0 < n
      → 0 < cfg.tracking_length
      → Populating codec cfg n p
      → Started n cfg.tracking_length p
  unfolding make find
  Populating-Started n p some_partition h constructed = record {
    valid = record {
      some_partition = some_partition;
      in_round = some_partition;
      in_range = λ k q e. absurd (cc);
    };
    same_size = refl;
    inside = init-InWindow cfg.tracking_length;
  }
  Populating-Started n p some_partition h (populated m {p = p'} {q = q} before r e) =
      process_populate_request-Started n m p' q h r e
        (Populating-Started n p' some_partition h before)
