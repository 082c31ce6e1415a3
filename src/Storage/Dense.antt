-- ===== src/Storage/Dense.antt =====
-- A store that holds the keys from 0 on without a gap: what reads, writes and scans do to it.
use kvpaxos.Base.{
  ℕ, zero, suc, ◌+◌, ◌%◌, ◌^◌, ◌<◌, ◌≤◌, List, [], ◌∷◌, ℤ, pos, ◌+ℤ◌, ite, ℤ-discrete, none, some,
  length, ◌≡◌, refl, ap, arith, or_else, is_some, true, if◌then◌else◌, Option-cases, inl, inr, ltb,
}
use kvpaxos.Base.Maps.{find, assign, find-assign, length-assign}
use kvpaxos.Base.Results.{ok}
use kvpaxos.Types.{int_key, to_size, to_int}
use kvpaxos.Storage.{Text, Codec, Storage, template_value, read, write, scan_from, scan}

-- The keys are 0, …, n - 1.
pub record IsDense (n : ℕ) (s : Storage) : Type 0 where
  pub counted : length s.storage ≡ n
  pub stored : (i : ℕ) → i < n → is_some (find (pos i) s.storage) ≡ true
  pub bounded : (i : ℕ) → n ≤ i → find (pos i) s.storage ≡ none

-- What compression is relied on for: it does not fail on the template, and is undone.
pub record Undoes (codec : Codec) : Type 0 where
  pub packed : Text
  pub compresses : codec.compress template_value ≡ some packed
  pub restores : codec.decompress packed ≡ some template_value

module _ (codec : Codec) where
  -- Where compression is undone, a write to a key of a store with the keys 0, …, n - 1, or to the next
  -- one, succeeds and leaves no gap.
  pub write-IsDense :
      (n k : ℕ) (value : Text) (s : Storage)
      → Undoes codec
      → IsDense n s
      → k ≤ n
      → (t : Storage) × (write codec (pos k) value s ≡ ok t)
        × IsDense (if ltb k n then n else n + 1) t
  unfolding write
  write-IsDense n k value s u d h = (
    record s { storage = assign (pos k) u.packed s.storage },
    rw u.compresses,
    record {
      counted =
          ground
            (arith, length-assign (pos k) u.packed s.storage, d.counted, d.stored k, d.bounded k);
      stored = λ i q. ground (arith, find-assign (pos k) (pos i) u.packed s.storage, d.stored i);
      bounded = λ i q. ground (arith, find-assign (pos k) (pos i) u.packed s.storage, d.bounded i);
    },
  )

  -- Where compression is undone, after a write that succeeds a read gives the template at the key that
  -- was written, whatever the value was, and at any other key what it gave before.
  pub read-write :
      (k j : ℤ) (value : Text) (s t : Storage)
      → Undoes codec
      → write codec k value s ≡ ok t
      → read codec j t ≡ (ite (ℤ-discrete k j) (ok template_value) (read codec j s))
  unfolding write read
  read-write k j value s t u e =
      ground (arith, u.compresses, u.restores, find-assign k j u.packed s.storage)

  pub read-IsDense :
      (n k : ℕ) (s : Storage) → IsDense n s → k < n → (v : Text) × (read codec (pos k) s ≡ ok v)
  unfolding read
  read-IsDense n k s d p = elim (Option-cases (find (pos k) s.storage)) [
    | inl e ↦ absurd (ground (arith, d.stored k))
    | inr (v, e) ↦ (or_else (codec.decompress v) template_value, rw e)
  ]

  wraps :
      (n start i : ℕ)
      → 0 < n
      → n < 2 ^ 31
      → to_int (to_size (pos start +ℤ pos i) % n) ≡ pos ((start + i) % n)
  unfolding ◌+ℤ◌
  wraps n start i p q = ground arith

  scan_from-IsDense :
      (n start i k : ℕ) (s : Storage)
      → IsDense n s
      → 0 < n
      → n < 2 ^ 31
      → (vs : List Text) × (scan_from codec (pos start) i k s ≡ ok vs) × (length vs ≡ k)
  unfolding scan_from
  scan_from-IsDense n start i zero s d p q = ([], refl, refl)
  scan_from-IsDense n start i (suc k) s d p q =
      let (v, one) = read-IsDense n ((start + i) % n) s d (grind arith) in
      let (vs, rest, count) = scan_from-IsDense n start (i + 1) k s d p q in
      (v ∷ vs, ground (arith, d.counted, wraps n start i p q, one, rest), ap suc count)

  pub scan-IsDense :
      (n start k : ℕ) (s : Storage)
      → IsDense n s
      → 0 < n
      → n < 2 ^ 31
      → (vs : List Text) × (scan codec (pos start) (pos k) s ≡ ok vs) × (length vs ≡ k)
  unfolding scan
  scan-IsDense n start k s d p q = scan_from-IsDense n start 0 k s d p q
