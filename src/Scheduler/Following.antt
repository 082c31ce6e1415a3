-- ===== src/Scheduler/Following.antt =====
-- The actions of a run beside the partition of a key, and its synchronisation with the later ones.
use kvpaxos.Base.{
  ℕ, ◌<◌, Bool, true, false, some, List, [], ◌∷◌, ℤ, ◌≡◌, refl, sym, ◌∙◌, arith, Bool-cases,
  Option-cases, inl, inr,
}
use mathlib.Core.Bool.{false≢true}
use kvpaxos.Base.Maps.{find}
use kvpaxos.Types.{ClientMessage, int_key}
use kvpaxos.Scheduler.{Scheduler, Action, push, sync, contains}
use kvpaxos.Scheduler.Involving.{IsValid, Extends}
use kvpaxos.Scheduler.Dispatching.{touches, Owner, some_of-contains}
use kvpaxos.Scheduler.Order.{covers, meets, union, Covered, Guarded, Covered-true, Covered-false}

pub Owner-Extends :
    (h : ℕ → Bool) (k : ℤ) (s t : Scheduler) → Extends s t → Owner h k s → Owner h k t
Owner-Extends h k s t e o =
    λ p below only. o p (omega (arith, e.same_size)) (λ q found. only q (e.keeps k q found))

Owner-union : (h j : ℕ → Bool) (k : ℤ) (s : Scheduler) → Owner h k s → Owner (union h j) k s
Owner-union h j k s o = λ p below only. rw (o p below only) refl

Owner-has :
    (h : ℕ → Bool) (k : ℤ) (s : Scheduler) (q : ℕ)
    → find k s.data_to_partition ≡ some q
    → h q ≡ true
    → Owner h k s
Owner-has h k s q found e = λ p below only. rw (← only q found) e

Owner-at :
    (h : ℕ → Bool) (k : ℤ) (s : Scheduler) (q : ℕ)
    → IsValid s
    → find k s.data_to_partition ≡ some q
    → Owner h k s
    → h q ≡ true
Owner-at h k s q v found o = o q (v.in_range k q found) (λ r e. cc)

-- After an action, whether the set meets it or not.
Covered-step :
    (t : Action → Bool) (h : ℕ → Bool) (c : Action) (es : List Action)
    → (t c ≡ true → meets h c ≡ true)
    → (meets h c ≡ true → Covered t (union h (covers c)) es)
    → (meets h c ≡ false → Covered t h es)
    → Covered t h (c ∷ es)
Covered-step t h c es f a b = elim (Bool-cases (meets h c)) [
  | inl y ↦ (Covered-true t h c es y).0 (a y)
  | inr n ↦
      (Covered-false t h c es n).0
        (elim (Bool-cases (t c)) [ inl y ↦ absurd (false≢true (sym n ∙ f y)) | inr z ↦ z ], b n)
]

-- The actions `es` are covered by each set that owns the key.
abbrev pub Follows : ℤ → Scheduler → List Action → Type 0
Follows k s es = ((h : ℕ → Bool) → Owner h k s → Covered (touches k) h es) × Guarded (touches k) es

-- The partition of each key that the message names is one of `ps`.
abbrev pub Placed : ℤ → ClientMessage → List ℕ → Scheduler → Type 0
Placed k m ps t =
    touches k (push 0 m) ≡ true
    → (p : ℕ) × (find k t.data_to_partition ≡ some p) × (contains p ps ≡ true)

pub alone-Follows :
    (k : ℤ) (m : ClientMessage) (p : ℕ) (t : Scheduler) (es : List Action)
    → IsValid t
    → Placed k m (p ∷ []) t
    → Follows k t es
    → Follows k t (push p m ∷ es)
unfolding touches
alone-Follows k m p t es v o (f, g) = (
  λ h own.
      Covered-step (touches k) h (push p m) es
        (λ y.
          let (q, found, e) = o y in
          let same : q ≡ p = ground arith in rw (← same) (Owner-at h k t q v found own))
        (λ y. f (union h (covers (push p m))) (Owner-union h _ k t own)) (λ n. f h own),
  (
    λ y. let (q, found, e) = o y in f (covers (push p m)) (Owner-has _ k t q found (ground arith)),
    g,
  ),
)

pub across-Follows :
    (k : ℤ) (m : ClientMessage) (b b' p : ℕ) (ps : List ℕ) (t : Scheduler) (es : List Action)
    → IsValid t
    → contains p ps ≡ true
    → Placed k m ps t
    → Follows k t es
    → Follows k t (sync b ps ∷ push p m ∷ sync b' ps ∷ es)
unfolding touches
across-Follows k m b b' p ps t es v inside o (f, g) = (
  λ h own.
      Covered-step (touches k) h (sync b ps) (push p m ∷ sync b' ps ∷ es) (λ y. cc)
        (λ y. pushed (union h (covers (sync b ps))) (Owner-union h _ k t own) (λ z. ground arith))
        (λ n. pushed h own (λ z.
          let (q, found, e) = o z in
          absurd (false≢true (sym n ∙ some_of-contains h q ps (Owner-at h k t q v found own) e)))),
  (
    λ y. cc,
    (
      λ y.
          let (q, found, e) = o y in
          Covered-step (touches k) (covers (push p m)) (sync b' ps) es (λ y. cc)
            (λ z. f _ (Owner-has _ k t q found (ground arith)))
            (λ n. absurd (
              false≢true
                (sym n ∙ some_of-contains (covers (push p m)) p ps (ground arith) inside))),
      (λ y. cc, g),
    ),
  ),
)
  where
    synced : (h : ℕ → Bool) → Owner h k t → Covered (touches k) h (sync b' ps ∷ es)
    synced h own =
        Covered-step (touches k) h (sync b' ps) es (λ y. cc)
          (λ y. f (union h (covers (sync b' ps))) (Owner-union h _ k t own)) (λ n. f h own)

    pushed :
        (h : ℕ → Bool)
        → Owner h k t
        → (touches k (push p m) ≡ true → h p ≡ true)
        → Covered (touches k) h (push p m ∷ sync b' ps ∷ es)
    pushed h own e =
        Covered-step (touches k) h (push p m) (sync b' ps ∷ es) e
          (λ y. synced (union h (covers (push p m))) (Owner-union h _ k t own)) (λ n. synced h own)

-- After the partitions all meet, any set owns the key.
pub remap-Follows :
    (k : ℤ) (b : ℕ) (ps : List ℕ) (s t : Scheduler) (es : List Action)
    → IsValid s
    → t.n_partitions ≡ s.n_partitions
    → ((p : ℕ) → p < s.n_partitions → contains p ps ≡ true)
    → Follows k t es
    → Follows k s (sync b ps ∷ es)
unfolding touches
remap-Follows k b ps s t es v size all (f, g) = (
  λ h own.
      let (p, below, e) = home h own in
      (Covered-true (touches k) h (sync b ps) es (some_of-contains h p ps e (all p below))).0 (
        f _ (λ q lt only.
          let e : contains q ps ≡ true = all q (omega (arith, size, lt)) in ground arith)),
  (λ y. cc, g),
)
  where
    home : (h : ℕ → Bool) → Owner h k s → (p : ℕ) × (p < s.n_partitions) × (h p ≡ true)
    home h own = elim (Option-cases (find k s.data_to_partition)) [
      | inl e ↦ (0, v.some_partition, own 0 v.some_partition (λ q found. cc))
      | inr (p, e) ↦ (p, v.in_range k p e, own p (v.in_range k p e) (λ q found. cc))
    ]
