-- ===== src/Imbalance/Counters.antt =====
-- The counters beside the rounds in a row in which a partition, or the workload, was out of
-- balance.
use kvpaxos.Base.{
  ℕ, zero, suc, ◌+◌, ◌%◌, ◌^◌, ◌≤◌, ◌<◌, Bool, false, ◌||◌, ◌&&◌, ◌-◌, List, [], ◌∷◌, ltb,
  if◌then◌else◌, replicate, length, ◌≡◌, refl, arith, All, Bool-cases, inl, inr, ◌∙◌, ap,
}
use native.Mathlib.Nat.{mod-eq_of_lt}
use kvpaxos.Imbalance.{
  Float, Balance, clear_imbalance_count, is_cross_partition_intensive, deviates, count_imbalance,
  imbalance, sum_of, cross_partition_ratio,
}

module _ (float : Float) (threshold : float.F) (max : ℕ) where
  -- The amount in a queue is further from the average than the threshold allows.
  abbrev pub is_out : float.F → ℕ → Bool
  is_out avg amount =
      float.above (float.abs (float.minus (float.of_size amount) avg)) (float.times avg threshold)

  -- What one round makes of a partition's counter.
  pub next_count : Bool → ℕ → ℕ
  next_count out c = if out then c + 1 else 0

  -- Some partition is out of balance, and has been in the last `max` rounds.
  pub overdue : float.F → List ℕ → List ℕ → Bool
  overdue avg [] counts = false
  overdue avg (a ∷ amounts) [] = false
  overdue avg (a ∷ amounts) (c ∷ counts) =
      ltb max (next_count (is_out avg a) c) || overdue avg amounts counts

  pub next_counts : float.F → List ℕ → List ℕ → List ℕ
  next_counts avg [] counts = counts
  next_counts avg (a ∷ amounts) [] = []
  next_counts avg (a ∷ amounts) (c ∷ counts) =
      next_count (is_out avg a) c ∷ next_counts avg amounts counts

  -- The counters are at most `max`.
  abbrev pub IsBounded : List ℕ → Type 0
  IsBounded counts = All (λ c. c ≤ max) counts

  count_imbalance-overdue :
      (avg : float.F) (amounts counts : List ℕ)
      → max + 1 < 2 ^ 32
      → IsBounded counts
      → ((count_imbalance float threshold max avg amounts counts).0 ≡ overdue avg amounts counts)
        × (overdue avg amounts counts ≡ false
            → (count_imbalance float threshold max avg amounts counts).1
              ≡ next_counts avg amounts counts)
  unfolding count_imbalance deviates overdue next_counts next_count
  count_imbalance-overdue avg [] counts h b = (refl, λ e. refl)
  count_imbalance-overdue avg (a ∷ amounts) [] h b = (refl, λ e. refl)
  count_imbalance-overdue avg (a ∷ amounts) (c ∷ counts) h b =
      let (found, same) = count_imbalance-overdue avg amounts counts h b.1 in
      let e : (c + 1) % 2 ^ 32 ≡ c + 1 = mod-eq_of_lt (omega (arith, b.0, h)) in
      elim (Bool-cases (is_out avg a)) [
        | inl d ↦ elim (Bool-cases (ltb max (c + 1))) [
          | inl l ↦ rw e (rw d (rw l (refl, λ x. absurd (cc))))
          | inr l ↦ rw e (rw d (rw l (found, λ x. ap (λ cs. (c + 1) ∷ cs) (same x))))
        ]
        | inr d ↦
            let none : ltb max 0 ≡ false = ground arith in
            rw d (rw none (found, λ x. ap (λ cs. 0 ∷ cs) (same x)))
      ]

  next_counts-IsBounded :
      (avg : float.F) (amounts counts : List ℕ)
      → IsBounded counts
      → overdue avg amounts counts ≡ false
      → IsBounded (next_counts avg amounts counts)
  unfolding overdue next_counts
  next_counts-IsBounded avg [] counts b e = b
  next_counts-IsBounded avg (a ∷ amounts) [] b e = tt
  next_counts-IsBounded avg (a ∷ amounts) (c ∷ counts) b e =
      (ground arith, next_counts-IsBounded avg amounts counts b.1 (ground arith))

  zeros-IsBounded : (n : ℕ) → IsBounded (replicate n 0)
  zeros-IsBounded zero = tt
  zeros-IsBounded (suc n) = (omega arith, zeros-IsBounded n)

  -- The average of the amounts, as the code computes it.
  abbrev pub average : List ℕ → float.F
  average amounts = float.over (float.of_size (sum_of amounts)) (float.of_size (length amounts))

  -- The share of cross-partition requests among those since the start of the interval, where there
  -- were any. `size_t` wraps.
  abbrev pub share : ℕ → ℕ → ℕ → Balance → float.F
  share dispatched start cross b =
      float.over (float.of_size ((cross + 2 ^ 64 - b.cross_operation_start) % 2 ^ 64))
        (float.of_size (dispatched - start))

  -- How many rounds in a row the share has been above the threshold. A round without requests does
  -- not count.
  abbrev pub next_cross : ℕ → ℕ → ℕ → Balance → ℕ
  next_cross dispatched start cross b =
      if ltb start dispatched
      then (if float.above (share dispatched start cross b) threshold
          then b.sucessive_cross_partition_intensive + 1
          else 0)
      else b.sucessive_cross_partition_intensive

  -- It is above the threshold now, and has been in more than `max` rounds.
  abbrev pub intensive : ℕ → ℕ → ℕ → Balance → Bool
  intensive dispatched start cross b =
      ltb start dispatched
      && float.above (share dispatched start cross b) threshold
      && ltb max (next_cross dispatched start cross b)

  is_cross_partition_intensive-next_cross :
      (dispatched start cross : ℕ) (b : Balance)
      → is_cross_partition_intensive float threshold max dispatched start cross b ≡ (
        intensive dispatched start cross b,
        record b { sucessive_cross_partition_intensive = next_cross dispatched start cross b },
      )
  unfolding is_cross_partition_intensive cross_partition_ratio
  is_cross_partition_intensive-next_cross dispatched start cross b =
      elim (Bool-cases (ltb start dispatched)) [
        | inr e ↦ rw e refl
        | inl e ↦ rw e (elim (Bool-cases (float.above (share dispatched start cross b) threshold)) [
          | inl x ↦ rw x refl
          | inr x ↦ rw x refl
        ])
      ]

  next_cross-le :
      (dispatched start cross : ℕ) (b : Balance)
      → intensive dispatched start cross b ≡ false
      → b.sucessive_cross_partition_intensive ≤ max
      → next_cross dispatched start cross b ≤ max
  next_cross-le dispatched start cross b e h = ground (arith, e, h)

  length-count_imbalance :
      (avg : float.F) (amounts counts : List ℕ)
      → length (count_imbalance float threshold max avg amounts counts).1 ≡ length counts
  unfolding count_imbalance
  length-count_imbalance avg [] counts = refl
  length-count_imbalance avg (a ∷ amounts) [] = refl
  length-count_imbalance avg (a ∷ amounts) (c ∷ counts) =
      ground (arith, length-count_imbalance avg amounts counts)

  -- What a round answers, and what it makes of the counters.
  pub record Judged (dispatched start cross : ℕ) (amounts : List ℕ) (b : Balance)
      (r : Bool × Balance) : Type 0 where
    pub answer : r.0 ≡ (
        intensive dispatched start cross b
        || overdue (average amounts) amounts b.sucessive_imbalance)
    pub cross_counter :
        r.1.sucessive_cross_partition_intensive
        ≡ (if r.0 then 0 else next_cross dispatched start cross b)
    pub counters : r.1.sucessive_imbalance ≡ (
        if r.0
        then replicate (length b.sucessive_imbalance) 0
        else next_counts (average amounts) amounts b.sucessive_imbalance)
    pub bounded : IsBounded r.1.sucessive_imbalance
    pub cross_bounded : r.1.sucessive_cross_partition_intensive ≤ max
    pub amounts_kept :
        r.1.in_queue_amount
        ≡ (if intensive dispatched start cross b then b.in_queue_amount else amounts)
    pub interval_kept : r.1.cross_operation_start ≡ b.cross_operation_start

  -- Where the counters, of the partitions and of the cross-partition rounds, are at most `max`, which
  -- is below 2^32 - 1, they stay so and never wrap, whatever the queues hold. The load is found out of
  -- balance if and only if requests have come since the start of the interval, the share of the
  -- cross-partition ones among them is above the threshold, and with this round the counter of such
  -- rounds in a row passes `max`; or the amount in some partition's queue is further from the average
  -- than the threshold allows, and with this round the counter of such rounds in a row of that
  -- partition passes `max`. Then all counters are 0. If not, each counter has gone up by one where its
  -- partition, or the share, is beyond the threshold, and is 0 where it is not; and that of the share
  -- stays as it was where no request has come.
  pub imbalance-counts :
      (dispatched start cross : ℕ) (amounts : List ℕ) (b : Balance)
      → max + 1 < 2 ^ 32
      → IsBounded b.sucessive_imbalance
      → b.sucessive_cross_partition_intensive ≤ max
      → Judged dispatched start cross amounts b
          (imbalance float threshold max dispatched start cross amounts b)
  unfolding imbalance clear_imbalance_count
  imbalance-counts dispatched start cross amounts b h bounded below =
      rw (is_cross_partition_intensive-next_cross dispatched start cross b)
        (elim (Bool-cases (intensive dispatched start cross b)) [
          | inl i ↦ rw i (record {
            answer = rw i refl;
            cross_counter = refl;
            counters = refl;
            bounded = zeros-IsBounded (length b.sucessive_imbalance);
            cross_bounded = omega arith;
            amounts_kept = rw i refl;
            interval_kept = refl;
          })
          | inr i ↦
              let avg = average amounts in
              let (found, counted) =
                count_imbalance-overdue avg amounts b.sucessive_imbalance h bounded in
              elim (Bool-cases (overdue avg amounts b.sucessive_imbalance)) [
                | inl o ↦ rw i (
                    rw (found ∙ o) (record {
                      answer = rw (i, o) refl;
                      cross_counter = refl;
                      counters =
                          ap (λ n. replicate n 0)
                            (length-count_imbalance avg amounts b.sucessive_imbalance);
                      bounded = zeros-IsBounded _;
                      cross_bounded = omega arith;
                      amounts_kept = rw i refl;
                      interval_kept = refl;
                    }))
                | inr o ↦ rw i (
                    rw (found ∙ o) (record {
                      answer = rw (i, o) refl;
                      cross_counter = refl;
                      counters = counted o;
                      bounded =
                          rw (counted o)
                            (next_counts-IsBounded avg amounts b.sucessive_imbalance bounded o);
                      cross_bounded = next_cross-le dispatched start cross b i below;
                      amounts_kept = rw i refl;
                      interval_kept = refl;
                    }))
              ]
        ])
