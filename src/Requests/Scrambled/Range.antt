-- ===== src/Requests/Scrambled/Range.antt =====
-- The numbers of src/request/scrambled_zipfian_int_distribution.cpp, and its bounds.
use kvpaxos.Base.{
  ℕ, zero, suc, ◌-◌, ◌%◌, ◌^◌, ℤ, pos, negsuc, ◌+ℤ◌, ◌-ℤ◌, ◌≤ℤ◌, int_laws, some, ◌≡◌, ◌≢◌, refl,
  arith, ltb, if◌then◌else◌,
}
use kvpaxos.Base.Results.{ok}
use kvpaxos.Types.{to_size}
use kvpaxos.Requests.Doubles.{Double, Engine}
use kvpaxos.Requests.Zipfian
use kvpaxos.Requests.Scrambled.{
  Scrambled, make, scramble, next, fnv_loop, fnv_offset_basis_64, labs, fnvhash64, remainder,
}

-- The hash before `labs`.
abbrev pub hashed : ℤ → ℕ
hashed drawn = fnv_loop 8 (to_size drawn) fnv_offset_basis_64

labs-some : (h : ℕ) → h ≢ 2 ^ 63 → (v : ℕ) × (labs h ≡ some v)
unfolding labs
labs-some h p = (if ltb h (2 ^ 63) then h else 2 ^ 64 - h, ground arith)

remainder-some :
    (h : ℕ) (count : ℤ)
    → pos 1 ≤ℤ count
    → (v : ℕ) × (remainder h count ≡ some (pos v)) × (pos v +ℤ pos 1 ≤ℤ count)
unfolding remainder ◌+ℤ◌
remainder-some h (pos zero) p = absurd (omega arith)
remainder-some h (pos (suc n)) p = (h % suc n, refl, grind arith)
remainder-some h (negsuc n) p = absurd (omega arith)

module _ (double : Double) where
  -- The distribution over `min`, …, `max`.
  pub record IsOver (min max : ℤ) (d : Scrambled double) : Type 0 where
    pub least : d.min ≡ min
    pub items : d.itemcount ≡ max -ℤ min +ℤ pos 1

  make-IsOver : (min max : ℤ) (constant : double.D) → IsOver min max (make double min max constant)
  unfolding make
  make-IsOver min max constant = record { least = refl; items = refl }

  -- A number of the range, and a distribution over the same range.
  pub record Gives (min max : ℤ) (k : ℤ) (d : Scrambled double) : Type 0 where
    pub above : min ≤ℤ k
    pub below : k ≤ℤ max
    pub over : IsOver min max d

  scramble-Gives :
      (min max drawn : ℤ) (d : Scrambled double)
      → min ≤ℤ max
      → IsOver min max d
      → hashed drawn ≢ 2 ^ 63
      → (k : ℤ) × (t : Scrambled double) × (scramble double drawn d ≡ ok (k, t)) × Gives min max k t
  unfolding scramble fnvhash64
  scramble-Gives min max drawn d p o q =
      let (h, e) = labs-some (hashed drawn) q in
      let (v, e', below) = remainder-some h d.itemcount (rw o.items (omega int_laws)) in
      let below' : pos v +ℤ pos 1 ≤ℤ max -ℤ min +ℤ pos 1 = rw o.items at below in
      (
        d.min +ℤ pos v,
        record d { lastvalue = some (d.min +ℤ pos v) },
        rw (e, e'),
        record {
          above = rw o.least (omega int_laws);
          below = rw o.least (omega int_laws);
          over = record { least = o.least; items = o.items };
        },
      )

  module _ (engine : Engine) where
    open engine use {G}

    -- A distribution over `min`, …, `max` with `min` at most `max`, where the zipfian draw below it gives
    -- a number whose hash is not 2^63, of which `labs` is undefined: `operator()` gives a number from
    -- `min` to `max`, and leaves a distribution over the same range.
    pub next-Gives :
        (min max : ℤ) (d : Scrambled double) (g : G) (drawn : ℤ) (gen : Zipfian.Zipfian double)
        (g' : G)
        → min ≤ℤ max
        → IsOver min max d
        → Zipfian.next_item double engine d.gen g ≡ ok (drawn, gen, g')
        → hashed drawn ≢ 2 ^ 63
        → (k : ℤ) × (t : Scrambled double) × (next double engine d g ≡ ok (k, t, g'))
          × Gives min max k t
    unfolding next
    next-Gives min max d g drawn gen g' p o e q =
        let (k, t, e', gives) =
          scramble-Gives min max drawn (record d { gen = gen }) p
            (record { least = o.least; items = o.items }) q in
        (k, t, rw (e, e'), gives)
