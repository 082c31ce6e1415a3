-- ===== src/Tracking/Counts.antt =====
-- How often a list of keys names a key, and a pair of keys.
use kvpaxos.Base.{ℕ, suc, ◌+◌, ◌*◌, ◌≤◌, List, [], ◌∷◌, ◌≡◌, ◌≢◌, refl, arith}
use kvpaxos.Base.Maps.{Key}
use kvpaxos.Graph.View.{at}

suc_mul : (m n : ℕ) → suc m * n ≡ m * n + n
suc_mul m n = omega arith

mul_suc : (m n : ℕ) → m * suc n ≡ m * n + m
mul_suc m n = omega arith

module _ {K : Type 0} ⦃key : Key K⦄ where
  unfoldable pub uses : List K → K → ℕ
  uses [] a = 0
  uses (k ∷ ks) a = at k a (suc (uses ks a)) (uses ks a)

  -- The pairs of `k` with a key of the list that are `a` and `b`, in either order.
  abbrev pub crossings : K → List K → K → K → ℕ
  crossings k ks a b = at k a (uses ks b) 0 + at k b (uses ks a) 0

  -- The pairs of places in the list that hold `a` and `b`, in either order.
  unfoldable pub joins : List K → K → K → ℕ
  joins [] a b = 0
  joins (k ∷ ks) a b = joins ks a b + crossings k ks a b

  abbrev pub Distinct : List K → Type 0
  Distinct [] = Unit {0}
  Distinct (k ∷ ks) = (uses ks k ≡ 0) × Distinct ks

  pub uses-Distinct : (ks : List K) (a : K) → Distinct ks → uses ks a ≤ 1
  unfolding uses
  uses-Distinct [] a d = omega arith
  uses-Distinct (k ∷ ks) a d = ground (arith, uses-Distinct ks a)

  pub joins_comm : (ks : List K) (a b : K) → joins ks a b ≡ joins ks b a
  unfolding joins
  joins_comm [] a b = refl
  joins_comm (k ∷ ks) a b = omega (arith, joins_comm ks a b)

  pub joins_absent : (ks : List K) (a b : K) → uses ks a ≡ 0 → joins ks a b ≡ 0
  unfolding joins uses
  joins_absent [] a b h = refl
  joins_absent (k ∷ ks) a b h = ground (arith, joins_absent ks a b)

  pub joins-le-uses : (ks : List K) (a b : K) → Distinct ks → joins ks a b ≤ uses ks a
  unfolding joins uses
  joins-le-uses [] a b d = omega arith
  joins-le-uses (k ∷ ks) a b d = ground (
    arith,
    joins-le-uses ks a b,
    joins_absent ks a b,
    joins_absent ks b a,
    joins_comm ks a b,
    uses-Distinct ks b,
  )

  -- Two different keys are joined by a request as often as it names both.
  pub joins-ne : (ks : List K) (a b : K) → a ≢ b → joins ks a b ≡ uses ks a * uses ks b
  unfolding joins uses
  joins-ne [] a b h = refl
  joins-ne (k ∷ ks) a b h =
      ground
        (arith, joins-ne ks a b h, suc_mul (uses ks a) (uses ks b), mul_suc (uses ks a) (uses ks b))

  pub joins_self : (ks : List K) (a : K) → Distinct ks → joins ks a a ≡ 0
  unfolding joins uses
  joins_self [] a d = refl
  joins_self (k ∷ ks) a d = ground (arith, joins_self ks a)
