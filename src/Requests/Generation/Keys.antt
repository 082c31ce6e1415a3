-- ===== src/Requests/Generation/Keys.antt =====
-- The keys that the requests of a workload name, and the keys that the store then has.
pub mod Sources
pub mod Starving
use kvpaxos.Base.{
  ℕ, zero, suc, ◌+◌, ◌-◌, ◌<◌, ◌≤◌, ◌^◌, ◌%◌, ◌&&◌, List, [], ◌∷◌, ℤ, pos, ◌+ℤ◌, ◌-ℤ◌, ◌≡◌, refl,
  arith, All, true, ltb_ℤ, Bool-cases, inl, inr, subst, if◌then◌else◌,
}
use kvpaxos.Base.Results.{Result, ok, throws}
use kvpaxos.Text.{to_string}
use kvpaxos.Types.{RequestType, read, write, scan, update, to_size, to_int}
use kvpaxos.Requests.{Request}
use kvpaxos.Requests.Counter.{Counter, make, next, acknowledge, last_value}
use kvpaxos.Requests.Doubles.{Double}
use kvpaxos.Requests.Operations.{Proportions, pick}
use kvpaxos.Requests.Generation.{narrow}

abbrev pub request : RequestType → ℕ → List ℕ → Request
request type k args = record { type = type; key = pos k; args = args }

-- `Asks n r m named`: on a store with the keys 0, …, n - 1 the request reads, or scans, or writes
-- such keys, or writes the next one; the store then has the keys 0, …, m - 1, and the request has
-- named `named` of them.
pub data Asks (n : ℕ) : Request → ℕ → ℕ → Type 0 where
  reads : (k : ℕ) → k < n → Asks n (request read k []) n 1
  rewrites : (k : ℕ) → k < n → Asks n (request write k []) n 1
  scans :
      (k length : ℕ) → k + length < n → Asks n (request scan k (to_string (pos length))) n length
  inserts : Asks n (request write n []) (n + 1) 1

-- The same of requests one after the other.
pub data AskAll : ℕ → List Request → ℕ → ℕ → Type 0 where
  none_left : {n m total : ℕ} → n ≡ m → total ≡ 0 → AskAll n [] m total
  asks :
      {n m named o total total' : ℕ} {r : Request} {rs : List Request}
      → Asks n r m named
      → AskAll m rs o total
      → total' ≡ named + total
      → AskAll n (r ∷ rs) o total'

-- The counter when the keys 0, …, n - 1 are there.
pub record IsAt (n : ℕ) (c : Counter) : Type 0 where
  pub counter : c.counter ≡ pos n
  pub limit : c.limit ≡ pos (n - 1)

pub make-IsAt : (n : ℕ) → 0 < n → IsAt n (make (pos n))
unfolding make ◌-ℤ◌
make-IsAt n h = record { counter = refl; limit = ground arith }

pub narrow_small : (n : ℕ) → n < 2 ^ 31 → narrow (pos n) ≡ pos n
narrow_small n h = ground arith

pub acknowledge-next :
    (n : ℕ) (c : Counter) → IsAt n c → 0 < n → IsAt (n + 1) (acknowledge (pos n) (next c).1)
unfolding acknowledge next ◌+ℤ◌
acknowledge-next n c h p = record {
  counter = ground (arith, h.counter, h.limit);
  limit = ground (arith, h.counter, h.limit);
}

-- The types that the loop of the generation has a branch for.
pub data IsOperation : RequestType → Type 0 where
  is_read : IsOperation read
  is_update : IsOperation update
  is_scan : IsOperation scan
  is_write : IsOperation write

ok_injective : {t u : RequestType} → ok t ≡ ok u → t ≡ u
ok_injective e = cc

module _ (double : Double) where
  pub pick-IsOperation :
      (sum val : double.D) (values : Proportions double) {type : RequestType}
      → All (λ v. IsOperation v.0) values
      → pick double sum val values ≡ ok type
      → IsOperation type
  unfolding pick
  pick-IsOperation sum val [] h e = cc
  pick-IsOperation sum val ((t, p) ∷ values) {type} h e =
      elim (Bool-cases (double.below val (double.over p sum))) [
        | inl found ↦
            let same : t ≡ type = ok_injective (rw found at e) in subst IsOperation same h.0
        | inr not_found ↦
            pick-IsOperation sum (double.minus val (double.over p sum)) values h.1
              (rw not_found at e)
      ]
