-- ===== src/Requests/Scrambled.antt =====
-- src/request/scrambled_zipfian_int_distribution.cpp at `long`.
pub mod Range
use Prim.Native.Nat.{bit_and, bit_xor}
use kvpaxos.Base.{
  ℕ, zero, suc, ◌-◌, ◌*◌, ◌/◌, ◌%◌, ◌^◌, ℤ, pos, negsuc, ◌+ℤ◌, ◌-ℤ◌, Option, none, some, ltb, ◌==◌,
  if◌then◌else◌,
}
use kvpaxos.Base.Results.{Result, ok, undefined, ◌>>=◌, or_undefined}
use kvpaxos.Types.{to_size}
use kvpaxos.Requests.Doubles.{Double, Engine}
use kvpaxos.Requests.Zipfian

abbrev pub fnv_offset_basis_64 : ℕ
fnv_offset_basis_64 = 0xCBF29CE484222325

abbrev pub fnv_prime_64 : ℕ
fnv_prime_64 = 1099511628211

-- The loop of `fnvhash64` over the octets.
unfoldable pub fnv_loop : ℕ → ℕ → ℕ → ℕ
fnv_loop zero val hashval = hashval
fnv_loop (suc n) val hashval =
    fnv_loop n (val / 2 ^ 8) (bit_xor hashval (bit_and val 0xFF) * fnv_prime_64 % 2 ^ 64)

-- `labs` of the hash as a `long`; of the least `long` it is undefined.
unfoldable pub labs : ℕ → Option ℕ
labs hashval =
    if ltb hashval (2 ^ 63)
    then some hashval
    else if hashval == 2 ^ 63
    then none
    else some (2 ^ 64 - hashval)

unfoldable pub fnvhash64 : ℕ → Option ℕ
unfolding fnv_loop labs
fnvhash64 val = labs (fnv_loop 8 val fnv_offset_basis_64)

-- `hash % itemcount`, whose sign is the hash's; it is not negative. By 0 it is undefined.
unfoldable pub remainder : ℕ → ℤ → Option ℤ
remainder hash (pos zero) = none
remainder hash (pos (suc n)) = some (pos (hash % suc n))
remainder hash (negsuc n) = some (pos (hash % suc n))

module _ (double : Double) where
  open double use {D, literal, same}

  -- The base class is the field `gen`.
  pub record Scrambled : Type 0 where
    pub gen : Zipfian.Zipfian double
    pub min : ℤ
    pub max : ℤ
    pub itemcount : ℤ
    pub lastvalue : Option ℤ

  abbrev pub used_zipfian_constant : D
  used_zipfian_constant = literal 99 2

  abbrev pub zetan_constant : D
  zetan_constant = literal 2646902820178302 14

  abbrev pub item_count : ℤ
  item_count = pos 10000000000

  -- The constructor.
  unfoldable pub make : ℤ → ℤ → D → Scrambled
  unfolding Zipfian.init Zipfian.zetastatic
  make min max zipfianconstant =
      let itemcount = max -ℤ min +ℤ pos 1 in
      record {
        gen =
            if same zipfianconstant used_zipfian_constant
            then Zipfian.init double (pos 0) item_count zipfianconstant zetan_constant
            else Zipfian.init double (pos 0) item_count zipfianconstant (
                Zipfian.zetastatic double (pos 0) itemcount zipfianconstant
                  (double.of_long (pos 0)));
        min = min;
        max = max;
        itemcount = itemcount;
        lastvalue = none;
      }

  -- The lines of `operator()` below the draw.
  unfoldable pub scramble : ℤ → Scrambled → Result (ℤ × Scrambled)
  unfolding fnvhash64 remainder
  scramble drawn d = or_undefined (fnvhash64 (to_size drawn)) >>= λ hash.
      or_undefined (remainder hash d.itemcount) >>= λ r.
      ok (d.min +ℤ r, record d { lastvalue = some (d.min +ℤ r) })

  module _ (engine : Engine) where
    open engine use {G}

    -- `operator()`
    unfoldable pub next : Scrambled → G → Result (ℤ × Scrambled × G)
    unfolding scramble Zipfian.next_item
    next d g = Zipfian.next_item double engine d.gen g >>= λ r.
        scramble r.0 (record d { gen = r.1 }) >>= λ t. ok (t.0, t.1, r.2)
