-- ===== src/Tracking/Window.antt =====
-- The workload graph beside the requests of the tracking window.
use kvpaxos.Base.{
  ℕ, zero, suc, ◌+◌, ◌≤◌, true, false, some, List, [], ◌∷◌, ◌++◌, ℤ, pos, ◌≡◌, refl, sym, arith,
  pos_part, or_else, if◌then◌else◌, ltb, replicate, ◌⊎◌, inl, inr, Bool-cases,
}
use kvpaxos.Types.{ClientMessage, int_key, key_count, is_dummy}
use kvpaxos.Graph.{Graph, empty}
use kvpaxos.Tracking.{update_graph, expire, dummy_message, update_from, expire_from}
use kvpaxos.Tracking.Counts.{uses, joins, Distinct, joins_comm, joins-le-uses}
use kvpaxos.Tracking.Lists.{track-Tracks, untrack-Tracks}
use kvpaxos.Tracking.Loops.{keys_from, keys_from-Distinct, update_from-track, expire_from-untrack}
use kvpaxos.Tracking.Steps.{Tracks, Tracks-ext, Grounded, empty-Tracks}

-- The number of keys of a message that is not a dummy.
abbrev pub request_size : ClientMessage → ℕ
request_size m = pos_part (or_else (key_count m) (pos 0))

-- The keys that a request names; a dummy names none.
unfoldable pub request_keys : ClientMessage → List ℤ
request_keys m = if is_dummy m.type then [] else keys_from m.key 0 (request_size m)

-- A request whose length, if it is a scan, is a number that is not negative.
pub record IsRequest (m : ClientMessage) : Type 0 where
  pub real : is_dummy m.type ≡ false
  pub counted : key_count m ≡ some (pos (request_size m))

abbrev pub IsTracked : ClientMessage → Type 0
IsTracked m = (is_dummy m.type ≡ true) ⊎ IsRequest m

-- How many messages of the window name the key, and how many name both keys.
pub window_uses : List ClientMessage → ℤ → ℕ
window_uses [] a = 0
window_uses (m ∷ w) a = uses (request_keys m) a + window_uses w a

pub window_joins : List ClientMessage → ℤ → ℤ → ℕ
window_joins [] a b = 0
window_joins (m ∷ w) a b = joins (request_keys m) a b + window_joins w a b

-- The graph of the window: its vertices are the keys in use, weighted by their uses, and its edges
-- the pairs of keys that some message names together, weighted by how many do.
abbrev pub Follows : List ClientMessage → Graph ℤ → Type 0
Follows w g = Tracks (λ a. ltb 0 (window_uses w a)) (window_uses w) (window_joins w) g

request_keys-Distinct : (m : ClientMessage) → Distinct (request_keys m)
unfolding request_keys
request_keys-Distinct m = elim (Bool-cases (is_dummy m.type)) [
  | inl e ↦ rw e tt
  | inr e ↦ rw e (keys_from-Distinct m.key 0 (request_size m))
]

window_joins-le : (w : List ClientMessage) (a b : ℤ) → window_joins w a b ≤ window_uses w a
unfolding window_joins window_uses
window_joins-le [] a b = omega arith
window_joins-le (m ∷ w) a b =
    omega
      (arith, window_joins-le w a b, joins-le-uses (request_keys m) a b (request_keys-Distinct m))

window_joins_comm : (w : List ClientMessage) (a b : ℤ) → window_joins w a b ≡ window_joins w b a
unfolding window_joins
window_joins_comm [] a b = refl
window_joins_comm (m ∷ w) a b =
    omega (arith, window_joins_comm w a b, joins_comm (request_keys m) a b)

window_uses-snoc :
    (w : List ClientMessage) (m : ClientMessage) (a : ℤ)
    → window_uses (w ++ m ∷ []) a ≡ window_uses w a + uses (request_keys m) a
unfolding window_uses
window_uses-snoc [] m a = omega arith
window_uses-snoc (x ∷ w) m a = omega (arith, window_uses-snoc w m a)

window_joins-snoc :
    (w : List ClientMessage) (m : ClientMessage) (a b : ℤ)
    → window_joins (w ++ m ∷ []) a b ≡ window_joins w a b + joins (request_keys m) a b
unfolding window_joins
window_joins-snoc [] m a b = omega arith
window_joins-snoc (x ∷ w) m a b = omega (arith, window_joins-snoc w m a b)

window-Grounded :
    (w : List ClientMessage)
    → Grounded (λ a. ltb 0 (window_uses w a)) (window_uses w) (window_joins w)
window-Grounded w = record {
  no_weight = λ a h. ground arith;
  no_edge = λ a b h. ground (arith, window_joins-le w a b);
  even = window_joins_comm w;
}

-- `update_graph` succeeds on a request, and adds it at the end of the window.
pub update_graph-Follows :
    (w : List ClientMessage) (m : ClientMessage) (g : Graph ℤ)
    → IsRequest m
    → Follows w g
    → (g' : Graph ℤ) × (update_graph m g ≡ some g') × Follows (w ++ m ∷ []) g'
unfolding update_graph request_keys
update_graph-Follows w m g r f = (
  update_from m.key 0 (request_size m) g,
  rw r.counted,
  rw (update_from-track m.key 0 (request_size m) g) (
      Tracks-ext
        (track-Tracks (keys_from m.key 0 (request_size m)) _ _ _ g f (window-Grounded w)
          (keys_from-Distinct m.key 0 (request_size m)))
        (λ a. ground (arith, window_uses-snoc w m a, r.real))
        (λ a. ground (arith, window_uses-snoc w m a, r.real))
        (λ a b. ground (arith, window_joins-snoc w m a b, r.real))),
)

-- `expire` succeeds on the oldest message of the window, and takes it away.
pub expire-Follows :
    (w : List ClientMessage) (m : ClientMessage) (g : Graph ℤ)
    → IsTracked m
    → Follows (m ∷ w) g
    → (g' : Graph ℤ) × (expire m g ≡ some g') × Follows w g'
unfolding expire request_keys window_uses window_joins uses joins
expire-Follows w m g (inl e) f =
    (g, rw e, Tracks-ext f (λ a. ground arith) (λ a. ground arith) (λ a b. ground arith))
expire-Follows w m g (inr r) f = (
  expire_from m.key (request_size m) (request_size m) g,
  rw (r.real, r.counted),
  rw (expire_from-untrack m.key (request_size m) g) (
      Tracks-ext
        (untrack-Tracks (keys_from m.key 0 (request_size m)) _ _ g f (window_joins_comm (m ∷ w))
          (window_joins-le (m ∷ w)) (keys_from-Distinct m.key 0 (request_size m))
          (λ a. ground (arith, r.real)) (λ a b. ground (arith, r.real)))
        (λ a. ground (arith, r.real)) (λ a. ground (arith, r.real))
        (λ a b. ground (arith, r.real))),
)

replicate-uses : (n : ℕ) (a : ℤ) → window_uses (replicate n dummy_message) a ≡ 0
unfolding window_uses request_keys uses
replicate-uses zero a = refl
replicate-uses (suc n) a = omega (arith, replicate-uses n a)

replicate-joins : (n : ℕ) (a b : ℤ) → window_joins (replicate n dummy_message) a b ≡ 0
unfolding window_joins request_keys joins
replicate-joins zero a b = refl
replicate-joins (suc n) a b = omega (arith, replicate-joins n a b)

-- The empty graph is that of a window of dummies.
pub empty-Follows : (n : ℕ) → Follows (replicate n dummy_message) empty
empty-Follows n =
    Tracks-ext empty-Tracks (λ a. ground (arith, replicate-uses n a))
      (λ a. sym (replicate-uses n a)) (λ a b. sym (replicate-joins n a b))
