-- ===== src/Scheduler/Order.antt =====
-- In which orders the workers can do the actions of the scheduling thread. Each partition does the
-- actions that concern it in the order of its queue, and a `sync` waits until all of its partitions
-- have come to it: so an action may be done once no earlier one that is left shares a partition.
use kvpaxos.Base.{
  ℕ, Bool, true, false, ◌||◌, List, [], ◌∷◌, ◌++◌, ◌≡◌, refl, sym, ◌∙◌, ◌↔◌, arith, ◌==◌,
  if◌then◌else◌, All, Bool-cases, inl, inr,
}
use mathlib.Core.Bool.{false≢true}
use kvpaxos.Scheduler.{Action, push, sync, contains}

-- The partitions that an action concerns.
abbrev pub covers : Action → ℕ → Bool
covers (push p m) q = q == p
covers (sync b ps) q = contains q ps

abbrev pub some_of : (ℕ → Bool) → List ℕ → Bool
some_of h [] = false
some_of h (p ∷ ps) = h p || some_of h ps

-- The action concerns a partition of the set.
abbrev pub meets : (ℕ → Bool) → Action → Bool
meets h (push p m) = h p
meets h (sync b ps) = some_of h ps

abbrev pub union : (ℕ → Bool) → (ℕ → Bool) → ℕ → Bool
union h k p = h p || k p

-- Two actions that share no partition.
abbrev pub Apart : Action → Action → Type 0
Apart e c = meets (covers c) e ≡ false

-- The actions are done in the order `done`, and `left` is left of them.
pub data Runs : List Action → List Action → List Action → Type 0 where
  stop : (left : List Action) → Runs left [] left
  next :
      (xs : List Action) (e : Action) (ys : List Action) {done left : List Action}
      → All (Apart e) xs
      → Runs (xs ++ ys) done left
      → Runs (xs ++ e ∷ ys) (e ∷ done) left

some_of-union :
    (h k : ℕ → Bool) (ps : List ℕ) → some_of (union h k) ps ≡ (some_of h ps || some_of k ps)
some_of-union h k [] = refl
some_of-union h k (p ∷ ps) = ground (arith, some_of-union h k ps)

pub meets-union : (h k : ℕ → Bool) (e : Action) → meets (union h k) e ≡ (meets h e || meets k e)
meets-union h k (push p m) = refl
meets-union h k (sync b ps) = some_of-union h k ps

unfoldable pub keep : (Action → Bool) → List Action → List Action
keep t [] = []
keep t (e ∷ es) = if t e then e ∷ keep t es else keep t es

-- For a property `t` of actions.
module _ (t : Action → Bool) where
  -- Each action with the property concerns a partition of `h`, or one that an action before it
  -- brought in, which itself did.
  abbrev pub Covered : (ℕ → Bool) → List Action → Type 0
  Covered h [] = Unit {0}
  Covered h (c ∷ es) = elim (meets h c) [
    | true ↦ Covered (union h (covers c)) es
    | false ↦ (t c ≡ false) × Covered h es
  ]

  -- From each action with the property on, the later ones are covered.
  abbrev pub Guarded : List Action → Type 0
  Guarded [] = Unit {0}
  Guarded (c ∷ es) = (t c ≡ true → Covered (covers c) es) × Guarded es

  pub Covered-true :
      (h : ℕ → Bool) (c : Action) (es : List Action)
      → meets h c ≡ true
      → Covered (union h (covers c)) es ↔ Covered h (c ∷ es)
  Covered-true h c es m = (λ x. rw (m, Covered) x, λ x. rw (m, Covered) at x)

  pub Covered-false :
      (h : ℕ → Bool) (c : Action) (es : List Action)
      → meets h c ≡ false
      → ((t c ≡ false) × Covered h es) ↔ Covered h (c ∷ es)
  Covered-false h c es m = (λ x. rw (m, Covered) x, λ x. rw (m, Covered) at x)

  -- An action that can be done before those that are covered does not have the property.
  Covered-remove :
      (h : ℕ → Bool) (xs : List Action) (e : Action) (ys : List Action)
      → Covered h (xs ++ e ∷ ys)
      → meets h e ≡ false
      → All (Apart e) xs
      → (t e ≡ false) × Covered h (xs ++ ys)
  Covered-remove h [] e ys c m a = (Covered-false h e ys m).1 c
  Covered-remove h (x ∷ xs) e ys c m a = elim (Bool-cases (meets h x)) [
    | inl y ↦
        let (te, rest) =
          Covered-remove (union h (covers x)) xs e ys ((Covered-true h x (xs ++ e ∷ ys) y).1 c)
            (ground (arith, meets-union h (covers x) e, a.0)) a.1 in
        (te, (Covered-true h x (xs ++ ys) y).0 rest)
    | inr n ↦
        let (tx, covered) = (Covered-false h x (xs ++ e ∷ ys) n).1 c in
        let (te, rest) = Covered-remove h xs e ys covered m a.1 in
        (te, (Covered-false h x (xs ++ ys) n).0 (tx, rest))
  ]

  -- So it is the first of those with the property, if it has it.
  Guarded-remove :
      (xs : List Action) (e : Action) (ys : List Action)
      → Guarded (xs ++ e ∷ ys)
      → All (Apart e) xs
      → Guarded (xs ++ ys) × (t e ≡ true → keep t xs ≡ [])
  unfolding keep
  Guarded-remove [] e ys g a = (g.1, λ h. refl)
  Guarded-remove (x ∷ xs) e ys g a =
      let (rest, first) = Guarded-remove xs e ys g.1 a.1 in
      (
        (λ tx. (Covered-remove (covers x) xs e ys (g.0 tx) a.0 a.1).1, rest),
        λ te. elim (Bool-cases (t x)) [
          | inl tx ↦
              absurd (false≢true (sym (Covered-remove (covers x) xs e ys (g.0 tx) a.0 a.1).0 ∙ te))
          | inr tx ↦ rw tx (first te)
        ],
      )

  keep-append : (xs ys : List Action) → keep t (xs ++ ys) ≡ keep t xs ++ keep t ys
  unfolding keep
  keep-append [] ys = refl
  keep-append (x ∷ xs) ys = ground (arith, keep-append xs ys)

  keep-remove :
      (xs : List Action) (e : Action) (ys : List Action)
      → (t e ≡ true → keep t xs ≡ [])
      → keep t (xs ++ e ∷ ys) ≡ (if t e then e ∷ keep t (xs ++ ys) else keep t (xs ++ ys))
  unfolding keep
  keep-remove xs e ys first =
      rw (keep-append xs (e ∷ ys), keep-append xs ys)
        (elim (Bool-cases (t e)) [ inl h ↦ rw (h, first h) | inr h ↦ rw h ])

  -- Whatever the order in which the actions are done, those with the property are done in the order
  -- of the queues' actions: what is done of them, then what is left of them, is all of them.
  pub Runs-Guarded :
      {all done left : List Action}
      → Runs all done left
      → Guarded all
      → keep t done ++ keep t left ≡ keep t all
  unfolding keep
  Runs-Guarded (stop left) g = refl
  Runs-Guarded (next xs e ys {done} {left} a r) g =
      let (rest, first) = Guarded-remove xs e ys g a in
      ground (arith, keep-remove xs e ys first, Runs-Guarded r rest)
