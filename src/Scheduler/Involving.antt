-- ===== src/Scheduler/Involving.antt =====
-- The loop of `involved_partitions`: where it maps the keys of a request, and which partitions it
-- meets.
use kvpaxos.Base.{
  ℕ, zero, suc, ◌+◌, ◌<◌, true, ◌||◌, none, some, List, [], ◌∷◌, ◌++◌, ℤ, pos, ◌+ℤ◌, ◌≡◌, refl,
  arith, ◌==◌, ◌⊎◌, inl, inr, Option-cases, ℕ_discrete,
}
use kvpaxos.Base.Maps.{find, emplace, find-emplace}
use kvpaxos.Base.Results.{ok}
use kvpaxos.Types.{int_key}
use kvpaxos.Scheduler.{Scheduler, Involved, map_key_to, insert, contains, involve, involve_from}

-- There are partitions, the counter names one of them, and so does every key that is mapped.
pub record IsValid (s : Scheduler) : Type 0 where
  pub some_partition : 0 < s.n_partitions
  pub in_round : s.round_robin_counter < s.n_partitions
  pub in_range : (k : ℤ) (p : ℕ) → find k s.data_to_partition ≡ some p → p < s.n_partitions

pub contains-append :
    (p : ℕ) (ps qs : List ℕ) → contains p (ps ++ qs) ≡ (contains p ps || contains p qs)
contains-append p [] qs = refl
contains-append p (x ∷ ps) qs = ground (arith, contains-append p ps qs)

pub contains-insert : (p q : ℕ) (ps : List ℕ) → contains p (insert q ps) ≡ (p == q || contains p ps)
unfolding insert
contains-insert p q ps = ground (arith, contains-append p ps (q ∷ []))

-- A key that the request names, from `key` on and below `key + n`, and its partition.
pub record Owned (key : ℤ) (n : ℕ) (s : Scheduler) (p : ℕ) : Type 0 where
  pub offset : ℕ
  pub below : offset < n
  pub owned : find (key +ℤ pos offset) s.data_to_partition ≡ some p

-- What changes between two states of the scheduler: keys are mapped that were not.
pub record Extends (s t : Scheduler) : Type 0 where
  pub same_size : t.n_partitions ≡ s.n_partitions
  pub keeps :
      (k : ℤ) (p : ℕ) → find k s.data_to_partition ≡ some p → find k t.data_to_partition ≡ some p

-- A key that the loop has met: its partition is in the set, or will be, as that of the round.
pub record Home (key : ℤ) (round : ℕ) (v : Involved) : Type 0 where
  pub home : ℕ
  pub owner : find key v.scheduler.data_to_partition ≡ some home
  pub placed : (contains home v.partitions ≡ true) ⊎ ((v.new_mapping ≡ true) × (home ≡ round))

-- The invariant of the loop, with the first `n` keys done.
pub record Loop (key : ℤ) (n : ℕ) (s : Scheduler) (v : Involved) : Type 0 where
  pub valid : IsValid v.scheduler
  pub extends : Extends s v.scheduler
  pub same_round : v.scheduler.round_robin_counter ≡ s.round_robin_counter
  pub done : (i : ℕ) → i < n → Home (key +ℤ pos i) s.round_robin_counter v
  pub only : (p : ℕ) → contains p v.partitions ≡ true → Owned key n v.scheduler p
  pub new : v.new_mapping ≡ true → Owned key n v.scheduler s.round_robin_counter

Extends-find :
    (s t : Scheduler) (key : ℤ) (n : ℕ) (p : ℕ)
    → Extends s t
    → Owned key n s p
    → Owned key (n + 1) t p
Extends-find s t key n p e o = record {
  offset = o.offset;
  below = omega (arith, o.below);
  owned = e.keeps (key +ℤ pos o.offset) p o.owned;
}

-- A key that is not mapped goes to the partition of the round.
map_key_to-Extends :
    (key : ℤ) (s : Scheduler)
    → IsValid s
    → find key s.data_to_partition ≡ none
    → (t : Scheduler) × (map_key_to key s.round_robin_counter s ≡ ok t)
      × IsValid t
      × Extends s t
      × (find key t.data_to_partition ≡ some s.round_robin_counter)
      × (t.round_robin_counter ≡ s.round_robin_counter)
unfolding map_key_to
map_key_to-Extends key s v e = (
  record s { data_to_partition = emplace key s.round_robin_counter s.data_to_partition },
  ground (arith, v.in_round),
  record {
    some_partition = v.some_partition;
    in_round = v.in_round;
    in_range = λ k p h. ground (
      arith,
      v.in_round,
      v.in_range k p,
      find-emplace key k s.round_robin_counter s.data_to_partition,
    );
  },
  record {
    same_size = refl;
    keeps = λ k p h. ground (arith, find-emplace key k s.round_robin_counter s.data_to_partition);
  },
  ground (arith, find-emplace key key s.round_robin_counter s.data_to_partition),
  refl,
)

Extends-trans : (s t u : Scheduler) → Extends s t → Extends t u → Extends s u
Extends-trans s t u e f = record {
  same_size = omega (arith, e.same_size, f.same_size);
  keeps = λ k p h. f.keeps k p (e.keeps k p h);
}

pub record Round (key : ℤ) (n : ℕ) (s : Scheduler) (v : Involved) : Type 0 where
  pub after : Involved
  pub runs : involve (key +ℤ pos n) v ≡ ok after
  pub loop : Loop key (n + 1) s after

Owned-mono : (key : ℤ) (n : ℕ) (s : Scheduler) (p : ℕ) → Owned key n s p → Owned key (n + 1) s p
Owned-mono key n s p o = record {
  offset = o.offset;
  below = omega (arith, o.below);
  owned = o.owned;
}

involve_unmapped :
    (key : ℤ) (n : ℕ) (s : Scheduler) (v : Involved)
    → Loop key n s v
    → find (key +ℤ pos n) v.scheduler.data_to_partition ≡ none
    → Round key n s v
unfolding involve
involve_unmapped key n s v l e =
    let (t, runs, valid, extends, found, round) =
      map_key_to-Extends (key +ℤ pos n) v.scheduler l.valid e in
    record {
      after = record v { scheduler = t; new_mapping = true };
      runs = rw (e, involve) (rw runs);
      loop = record {
        valid = valid;
        extends = Extends-trans s v.scheduler t l.extends extends;
        same_round = omega (arith, round, l.same_round);
        done = λ i h. elim (ℕ_discrete i n) [
          | yes here ↦ record {
            home = s.round_robin_counter;
            owner = ground (arith, found, l.same_round, here);
            placed = inr (refl, refl);
          }
          | no before ↦
              let o = l.done i (omega arith) in
              record {
                home = o.home;
                owner = extends.keeps (key +ℤ pos i) o.home o.owner;
                placed = ground (arith, o.placed);
              }
        ];
        only = λ p h. Extends-find v.scheduler t key n p extends (l.only p h);
        new = λ h. record {
          offset = n;
          below = omega arith;
          owned = ground (arith, found, l.same_round);
        };
      };
    }

involve_mapped :
    (key : ℤ) (n : ℕ) (s : Scheduler) (v : Involved) (p : ℕ)
    → Loop key n s v
    → find (key +ℤ pos n) v.scheduler.data_to_partition ≡ some p
    → Round key n s v
unfolding involve
involve_mapped key n s v p l e = record {
  after = record v { partitions = insert p v.partitions };
  runs = rw (e, involve);
  loop = record {
    valid = l.valid;
    extends = l.extends;
    same_round = l.same_round;
    done = λ i h. elim (ℕ_discrete i n) [
      | yes here ↦ record {
        home = p;
        owner = rw here e;
        placed = inl (ground (arith, contains-insert p p v.partitions));
      }
      | no before ↦
          let o = l.done i (omega arith) in
          record {
            home = o.home;
            owner = o.owner;
            placed = ground (arith, o.placed, contains-insert o.home p v.partitions);
          }
    ];
    only = λ q h. elim (ℕ_discrete q p) [
      | yes here ↦ record { offset = n; below = omega arith; owned = rw here e }
      | no other ↦
          Owned-mono key n v.scheduler q
            (l.only q (ground (arith, contains-insert q p v.partitions)))
    ];
    new = λ h. Owned-mono key n v.scheduler s.round_robin_counter (l.new h);
  };
}

involve-Loop : (key : ℤ) (n : ℕ) (s : Scheduler) (v : Involved) → Loop key n s v → Round key n s v
involve-Loop key n s v l = elim (Option-cases (find (key +ℤ pos n) v.scheduler.data_to_partition)) [
  | inl e ↦ involve_unmapped key n s v l e
  | inr (p, e) ↦ involve_mapped key n s v p l e
]

pub involve_from-Loop :
    (key : ℤ) (i n m : ℕ) (s : Scheduler) (v : Involved)
    → Loop key i s v
    → i + n ≡ m
    → (w : Involved) × (involve_from key i n v ≡ ok w) × Loop key m s w
unfolding involve_from
involve_from-Loop key i zero m s v l e = let e' : i ≡ m = omega arith in (v, refl, rw (← e') l)
involve_from-Loop key i (suc n) m s v l e =
    let one = involve-Loop key i s v l in
    let (w, runs, loop) = involve_from-Loop key (i + 1) n m s one.after one.loop (omega arith) in
    (w, rw one.runs runs, loop)
