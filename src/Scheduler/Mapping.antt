-- ===== src/Scheduler/Mapping.antt =====
-- Where `involved_partitions` maps the keys of a request, and which partitions it gives.
use kvpaxos.Base.{
  ℕ, ◌+◌, ◌<◌, true, false, some, [], ℤ, pos, ◌+ℤ◌, ◌≡◌, refl, arith, inl, inr, Bool-cases,
  ℕ_discrete,
}
use native.Mathlib.Nat.{mod-lt}
use kvpaxos.Base.Maps.{find}
use kvpaxos.Base.Results.{ok}
use kvpaxos.Types.{ClientMessage, int_key, key_count}
use kvpaxos.Scheduler.{
  Scheduler, Involved, insert, contains, close_mapping, involved_partitions, next_round,
}
use kvpaxos.Scheduler.Involving.{IsValid, contains-insert, Owned, Extends, Loop, involve_from-Loop}

-- What `involved_partitions` gives for a request of `n` keys from `key` on: every key has a
-- partition that is in the set, and the set holds no other; keys that had a partition keep it.
pub record Involves (key : ℤ) (n : ℕ) (s : Scheduler) (v : Involved) : Type 0 where
  pub valid : IsValid v.scheduler
  pub extends : Extends s v.scheduler
  pub owners :
      (i : ℕ)
      → i < n
      → (p : ℕ) × (find (key +ℤ pos i) v.scheduler.data_to_partition ≡ some p)
        × (contains p v.partitions ≡ true)
  pub only : (p : ℕ) → contains p v.partitions ≡ true → Owned key n v.scheduler p

close_mapping-Involves :
    (key : ℤ) (n : ℕ) (s : Scheduler) (v : Involved)
    → Loop key n s v
    → (w : Involved) × (close_mapping v ≡ ok w) × Involves key n s w
unfolding close_mapping
close_mapping-Involves key n s v l = elim (Bool-cases v.new_mapping) [
  | inl e ↦ (
    record v {
      scheduler = next_round v.scheduler;
      partitions = insert v.scheduler.round_robin_counter v.partitions;
    },
    ground (arith, e, l.valid.in_round),
    record {
      valid = record {
        some_partition = l.valid.some_partition;
        in_round = mod-lt (v.scheduler.round_robin_counter + 1) l.valid.some_partition;
        in_range = l.valid.in_range;
      };
      extends = record { same_size = l.extends.same_size; keeps = l.extends.keeps };
      owners = λ i h.
          let o = l.done i h in
          (
            o.home,
            o.owner,
            ground (
              arith,
              o.placed,
              l.same_round,
              contains-insert o.home v.scheduler.round_robin_counter v.partitions,
            ),
          );
      only = λ p h. elim (ℕ_discrete p s.round_robin_counter) [
        | yes here ↦
            let o = l.new e in
            record { offset = o.offset; below = o.below; owned = rw here o.owned }
        | no other ↦
            let o = l.only p (
              ground (
                arith,
                l.same_round,
                contains-insert p v.scheduler.round_robin_counter v.partitions,
              )) in
            record { offset = o.offset; below = o.below; owned = o.owned }
      ];
    },
  )
  | inr e ↦ (
    v,
    rw e,
    record {
      valid = l.valid;
      extends = l.extends;
      owners = λ i h. let o = l.done i h in (o.home, o.owner, ground (arith, o.placed));
      only = l.only;
    },
  )
]

-- Of a request of `n` keys, in a valid state, `involved_partitions` succeeds and leaves a valid
-- state in which each of the keys has a partition, which is in the set; the set holds the partitions
-- of the keys only; and keys that had a partition keep it.
pub involved_partitions-Involves :
    (m : ClientMessage) (n : ℕ) (s : Scheduler)
    → IsValid s
    → key_count m ≡ some (pos n)
    → (v : Involved) × (involved_partitions m s ≡ ok v) × Involves m.key n s v
unfolding involved_partitions
involved_partitions-Involves m n s v e =
    let (w, runs, loop) =
      involve_from-Loop m.key 0 n n s
        (record { scheduler = s; new_mapping = false; partitions = [] })
        (record {
          valid = v;
          extends = record { same_size = refl; keeps = λ k p h. h };
          same_round = refl;
          done = λ i h. elim h [ ];
          only = λ p h. absurd (cc);
          new = λ h. absurd (cc);
        })
        (omega arith) in
    let (x, closes, involves) = close_mapping-Involves m.key n s w loop in
    (x, rw (e, runs) closes, involves)
