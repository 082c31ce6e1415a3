-- ===== src/Tracking/Loops.antt =====
-- The loops over indices beside the recursions on the list of keys.
use kvpaxos.Base.{
  ℕ, zero, suc, ◌+◌, ◌<◌, List, [], ◌∷◌, ◌++◌, ℤ, pos, ◌+ℤ◌, ◌≡◌, refl, ap, ◌∙◌, sym, arith,
  +ℤ_pos_injective, ℤ-discrete,
}
use kvpaxos.Types.{int_key}
use kvpaxos.Graph.{Graph}
use kvpaxos.Tracking.{link_from, update_from, unlink_from, expire_from}
use kvpaxos.Tracking.Counts.{uses, Distinct}
use kvpaxos.Tracking.Lists.{link, track, unlink, untrack}
use kvpaxos.Tracking.Steps.{touch, unlink_step, release}

-- `key + i`, …, `key + i + n - 1`
unfoldable pub keys_from : ℤ → ℕ → ℕ → List ℤ
keys_from key i zero = []
keys_from key i (suc n) = (key +ℤ pos i) ∷ keys_from key (i + 1) n

uses-keys_from : (key : ℤ) (i j n : ℕ) → i < j → uses (keys_from key j n) (key +ℤ pos i) ≡ 0
unfolding keys_from uses
uses-keys_from key i j zero h = refl
uses-keys_from key i j (suc n) h =
    ground (arith, +ℤ_pos_injective key j i, uses-keys_from key i (j + 1) n (omega arith))

pub keys_from-Distinct : (key : ℤ) (i n : ℕ) → Distinct (keys_from key i n)
unfolding keys_from
keys_from-Distinct key i zero = tt
keys_from-Distinct key i (suc n) =
    (uses-keys_from key i (i + 1) n (omega arith), keys_from-Distinct key (i + 1) n)

link_from-link :
    (key : ℤ) (i j n : ℕ) (g : Graph ℤ)
    → link_from key i j n g ≡ link (key +ℤ pos i) (keys_from key j n) g
unfolding link_from link keys_from
link_from-link key i j zero g = refl
link_from-link key i j (suc n) g = link_from-link key i (j + 1) n _

pub update_from-track :
    (key : ℤ) (i n : ℕ) (g : Graph ℤ) → update_from key i n g ≡ track (keys_from key i n) g
unfolding update_from track keys_from
update_from-track key i zero g = refl
update_from-track key i (suc n) g =
    rw (link_from-link key i (i + 1) n (touch (key +ℤ pos i) g)) (update_from-track key (i + 1) n _)

unlink-snoc :
    (k j : ℤ) (ks : List ℤ) (g : Graph ℤ)
    → unlink k (ks ++ j ∷ []) g ≡ unlink k ks (unlink_step k j g)
unfolding unlink
unlink-snoc k j [] g = refl
unlink-snoc k j (x ∷ ks) g = ap (unlink_step k x) (unlink-snoc k j ks g)

keys_from-snoc :
    (key : ℤ) (i n : ℕ) → keys_from key i (suc n) ≡ keys_from key i n ++ (key +ℤ pos (i + n)) ∷ []
unfolding keys_from
keys_from-snoc key i zero = ap (λ j. (key +ℤ pos j) ∷ []) (omega arith)
keys_from-snoc key i (suc n) =
    ap (λ l. (key +ℤ pos i) ∷ l)
      (keys_from-snoc key (i + 1) n
        ∙ ap (λ j. keys_from key (i + 1) n ++ (key +ℤ pos j) ∷ []) (omega arith))

unlink_from-unlink :
    (key : ℤ) (i n : ℕ) (g : Graph ℤ)
    → unlink_from key i n g ≡ unlink (key +ℤ pos i) (keys_from key (i + 1) n) g
unfolding unlink_from unlink keys_from
unlink_from-unlink key i zero g = refl
unlink_from-unlink key i (suc n) g =
    unlink_from-unlink key i n _
    ∙ sym (unlink-snoc (key +ℤ pos i) (key +ℤ pos (suc (i + n))) (keys_from key (i + 1) n) g)
    ∙ ap (λ ks. unlink (key +ℤ pos i) ks g) (sym last)
  where
    last :
        keys_from key (i + 1) (suc n) ≡ keys_from key (i + 1) n ++ (key +ℤ pos (suc (i + n))) ∷ []
    last =
        keys_from-snoc key (i + 1) n
        ∙ ap (λ j. keys_from key (i + 1) n ++ (key +ℤ pos j) ∷ []) (omega arith)

-- One round of the outer loop puts one more key in front.
release-untrack :
    (key : ℤ) (i m : ℕ) (g : Graph ℤ)
    → release (key +ℤ pos i) (unlink_from key i m (untrack (keys_from key (suc i) m) g))
      ≡ untrack (keys_from key i (suc m)) g
unfolding untrack keys_from
release-untrack key i m g =
    ap (release (key +ℤ pos i)) (unlink_from-unlink key i m _)
    ∙ ap
        (λ j.
          release (key +ℤ pos i)
            (unlink (key +ℤ pos i) (keys_from key (i + 1) m) (untrack (keys_from key j m) g)))
        (omega arith)

-- The keys from `i` on are done, and the loop does the others.
expire_rest :
    (key : ℤ) (i m size : ℕ) (g : Graph ℤ)
    → i + m ≡ size
    → expire_from key size i (untrack (keys_from key i m) g) ≡ untrack (keys_from key 0 size) g
unfolding expire_from
expire_rest key zero m size g h = ap (λ n. untrack (keys_from key 0 n) g) (omega arith)
expire_rest key (suc i) m size g h =
    ap
      (λ n.
        expire_from key size i
          (release (key +ℤ pos i) (unlink_from key i n (untrack (keys_from key (suc i) m) g))))
      (omega arith)
    ∙ ap (expire_from key size i) (release-untrack key i m g)
    ∙ expire_rest key i (suc m) size g (omega arith)

pub expire_from-untrack :
    (key : ℤ) (size : ℕ) (g : Graph ℤ)
    → expire_from key size size g ≡ untrack (keys_from key 0 size) g
unfolding untrack keys_from
expire_from-untrack key size g = expire_rest key size 0 size g (omega arith)

-- A key that is in use is one of the keys.
pub keys_from-uses :
    (key a : ℤ) (i n : ℕ)
    → 0 < uses (keys_from key i n) a
    → (j : ℕ) × (j < i + n) × (key +ℤ pos j ≡ a)
unfolding keys_from uses
keys_from-uses key a i zero h = elim h [ ]
keys_from-uses key a i (suc n) h = elim (ℤ-discrete (key +ℤ pos i) a) [
  | yes e ↦ (i, omega arith, e)
  | no e ↦
      let (j, below, e') = keys_from-uses key a (i + 1) n (ground arith) in (j, omega arith, e')
]
