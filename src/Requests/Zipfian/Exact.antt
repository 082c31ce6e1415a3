-- ===== src/Requests/Zipfian/Exact.antt =====
-- The zeta that src/request/zipfian_int_distribution.cpp keeps up to date, beside the one from
-- scratch.
use kvpaxos.Base.{
  ℕ, zero, suc, ◌+◌, ◌-◌, ◌<◌, ◌≤◌, false, List, [], ◌∷◌, ℤ, pos, negsuc, ◌+ℤ◌, ◌-ℤ◌, pos_part,
  int_laws, ltb, ltb→lt, if◌then◌else◌, ◌≡◌, refl, sym, ap, ◌∙◌, arith, Bool-cases, inl, inr, subst,
}
use kvpaxos.Base.Results.{ok, >>=-eq-ok}
use kvpaxos.Requests.Doubles.{Double, Engine}
use kvpaxos.Requests.Zipfian.{
  Zipfian, zeta_from, zetastatic, eta_of, make, init, grow, adjust, choose, next,
}

-- The larger of a count and an item count that may be negative.
abbrev pub larger : ℕ → ℤ → ℕ
larger n (pos c) = if ltb n c then c else n
larger n (negsuc c) = n

one_more : (i : ℤ) (a : ℕ) → i +ℤ pos 1 +ℤ pos a ≡ i +ℤ pos (suc a)
unfolding ◌+ℤ◌
one_more i a = ground arith

span : (m n : ℕ) → pos_part (pos n -ℤ pos m) ≡ n - m
unfolding ◌-ℤ◌
span m n = ground arith

module _ (double : Double) where
  open double use {D, of_long}

  -- A loop of `a` rounds and one of `b` rounds from where it stopped are one loop.
  zeta_from-add :
      (i : ℤ) (a b : ℕ) (theta sum : D)
      → zeta_from double (i +ℤ pos a) b theta (zeta_from double i a theta sum)
        ≡ zeta_from double i (a + b) theta sum
  unfolding zeta_from
  zeta_from-add i zero b theta sum =
      let e : i +ℤ pos 0 ≡ i = omega int_laws in let k : 0 + b ≡ b = omega arith in rw (e, k) refl
  zeta_from-add i (suc a) b theta sum =
      let next =
        double.plus sum (double.over (of_long (pos 1)) (double.pow (of_long (i +ℤ pos 1)) theta)) in
      let k : suc a + b ≡ suc (a + b) = omega arith in
      rw k (
        ap (λ (j : ℤ). zeta_from double j b theta (zeta_from double (i +ℤ pos 1) a theta next))
          (sym (one_more i a))
        ∙ zeta_from-add (i +ℤ pos 1) a b theta next)

  zetastatic-zetastatic :
      (m n : ℕ) (theta : D)
      → m ≤ n
      → zetastatic double
          (pos m)
          (pos n)
          theta
          (zetastatic double (pos 0) (pos m) theta (of_long (pos 0)))
        ≡ zetastatic double (pos 0) (pos n) theta (of_long (pos 0))
  unfolding zetastatic
  zetastatic-zetastatic m n theta h =
      let e : pos 0 +ℤ pos m ≡ pos m = omega int_laws in
      let a = zeta_from-add (pos 0) m (n - m) theta (of_long (pos 0)) in
      let k : m + (n - m) ≡ n = ground arith in
      let p : m - 0 ≡ m = omega arith in
      let q : n - 0 ≡ n = omega arith in rw (span m n, span 0 m, span 0 n, p, q) (rw (e, k) at a)

  -- `zetan` and `eta` are those of the item count `n`.
  pub record IsExact (n : ℕ) (z : Zipfian double) : Type 0 where
    pub counted : z.countforzeta ≡ pos n
    pub zeta : z.zetan ≡ zetastatic double (pos 0) (pos n) z.theta (of_long (pos 0))
    pub tuned : z.eta ≡ eta_of double z.items z.theta z.zeta2theta z.zetan
    pub keeps : z.allowitemcountdecrease ≡ false

  adjust-IsExact_larger :
      (n c : ℕ) (z : Zipfian double)
      → IsExact n z
      → n < c
      → (adjust double (pos c) z ≡ grow double (pos c) z) × IsExact c (grow double (pos c) z)
  unfolding adjust grow
  adjust-IsExact_larger n c z h less = (
    ground (arith, h.counted),
    record {
      counted = refl;
      zeta = rw (h.counted, h.zeta) (zetastatic-zetastatic n c z.theta (omega arith));
      tuned = refl;
      keeps = h.keeps;
    },
  )

  adjust-same :
      (n : ℕ) (c : ℤ) (z : Zipfian double) → IsExact n z → larger n c ≡ n → adjust double c z ≡ z
  unfolding adjust
  adjust-same n (pos c) z h e = ground (arith, h.counted, h.keeps)
  adjust-same n (negsuc c) z h e = ground (arith, h.counted, h.keeps)

  pub adjust-IsExact :
      (n : ℕ) (c : ℤ) (z : Zipfian double) → IsExact n z → IsExact (larger n c) (adjust double c z)
  adjust-IsExact n (negsuc c) z h = rw (adjust-same n (negsuc c) z h refl) h
  adjust-IsExact n (pos c) z h = elim (Bool-cases (ltb n c)) [
    | inl less ↦ let (e, k) = adjust-IsExact_larger n c z h (ltb→lt n c less) in rw (less, e) k
    | inr not_less ↦ rw (not_less, adjust-same n (pos c) z h (rw not_less)) h
  ]

  items_of : (max : ℕ) → pos max -ℤ pos 0 +ℤ pos 1 ≡ pos (suc max)
  unfolding ◌-ℤ◌ ◌+ℤ◌
  items_of max = ground arith

  make-IsExact : (max : ℕ) → IsExact (suc max) (make double (pos 0) (pos max))
  unfolding make init
  make-IsExact max = record {
    counted = items_of max;
    zeta = rw (items_of max);
    tuned = refl;
    keeps = refl;
  }

  choose-IsExact :
      (n : ℕ) (c : ℤ) (u : D) (z : Zipfian double) {r : ℤ × Zipfian double}
      → IsExact n z
      → choose double c u z ≡ ok r
      → IsExact n r.1
  unfolding choose
  choose-IsExact n c u z h e = ground (arith, h.counted, h.zeta, h.tuned, h.keeps)

  abbrev pub largest : ℕ → List ℤ → ℕ
  largest n [] = n
  largest n (c ∷ cs) = larger (largest n cs) c

  module _ (engine : Engine) where
    open engine use {G}

    -- The distributions that come about from the one for 0, …, `max`, by draws with these item
    -- counts, the last one first.
    pub data Drawn (max : ℕ) : List ℤ → Zipfian double → Type 0 where
      made : Drawn max [] (make double (pos 0) (pos max))
      drawn :
          (c : ℤ) (g : G) {cs : List ℤ} {z : Zipfian double} {r : ℤ × Zipfian double × G}
          → Drawn max cs z
          → next double engine c z g ≡ ok r
          → Drawn max (c ∷ cs) r.1

    next-IsExact :
        (n : ℕ) (c : ℤ) (z : Zipfian double) (g : G) {r : ℤ × Zipfian double × G}
        → IsExact n z
        → next double engine c z g ≡ ok r
        → IsExact (larger n c) r.1
    unfolding next
    next-IsExact n c z g {r} h e =
        let u =
          double.over (double.minus (of_long (pos (engine.draw g).0)) (of_long (pos engine.min)))
            (of_long (pos (engine.max - engine.min))) in
        let (p, chosen, rest) =
          >>=-eq-ok (choose double c u (adjust double c z)) (λ r. ok (r.0, r.1, (engine.draw g).1))
            e in
        let same : p.1 ≡ r.1 = cc in
        subst (IsExact (larger n c)) same
          (choose-IsExact (larger n c) c u (adjust double c z) (adjust-IsExact n c z h) chosen)

    -- Of a distribution for 0, …, `max`, after draws with any item counts: the zeta is, bit for bit,
    -- the sum from scratch for the largest item count so far, although a draw adds only the new terms
    -- to the old zeta; and `eta` is that of this zeta.
    pub Drawn-IsExact :
        (max : ℕ) {cs : List ℤ} {z : Zipfian double}
        → Drawn max cs z
        → IsExact (largest (suc max) cs) z
    Drawn-IsExact max made = make-IsExact max
    Drawn-IsExact max (drawn c g {cs} {z} d e) =
        next-IsExact (largest (suc max) cs) c z g (Drawn-IsExact max d) e
