-- ===== src/Tracking/Lists.antt =====
-- The loops of `update_graph` and `expire` as recursions on the list of the request's keys.
use kvpaxos.Base.{
  ℕ, ◌+◌, ◌-◌, ◌<◌, ◌≤◌, Bool, true, ◌||◌, List, [], ◌∷◌, ◌≡◌, ◌≢◌, refl, arith, ltb,
}
use kvpaxos.Base.Maps.{Key}
use kvpaxos.Graph.{Graph}
use kvpaxos.Tracking.Counts.{
  uses, joins, crossings, Distinct, uses-Distinct, joins_comm, joins_absent,
}
use kvpaxos.Tracking.Steps.{
  Tracks, Tracks-ext, Grounded, with_key, one_more, pair_more, pair_less, touch, link_step,
  unlink_step, release, touch-Tracks, link_step-Tracks, link_step-Grounded, unlink_step-Tracks,
  release-Tracks,
}

module _ {K : Type 0} ⦃key : Key K⦄ where
  unfoldable pub link : K → List K → Graph K → Graph K
  link k [] g = g
  link k (j ∷ js) g = link k js (link_step k j g)

  unfoldable pub track : List K → Graph K → Graph K
  track [] g = g
  track (k ∷ ks) g = track ks (link k ks (touch k g))

  unfoldable pub unlink : K → List K → Graph K → Graph K
  unlink k [] g = g
  unlink k (j ∷ js) g = unlink_step k j (unlink k js g)

  unfoldable pub untrack : List K → Graph K → Graph K
  untrack [] g = g
  untrack (k ∷ ks) g = release k (unlink k ks (untrack ks g))

  abbrev pub with_keys : (K → Bool) → List K → K → Bool
  with_keys e ks a = e a || ltb 0 (uses ks a)

  record Linked (k : K) (js : List K) (e : K → Bool) (s : K → ℕ) (q : K → K → ℕ) (g : Graph K)
      : Type 0 where
    linked : Tracks (with_keys e js) s (λ a b. q a b + crossings k js a b) (link k js g)
    grounded : Grounded (with_keys e js) s (λ a b. q a b + crossings k js a b)

  link-Tracks :
      (k : K) (js : List K) (e : K → Bool) (s : K → ℕ) (q : K → K → ℕ) (g : Graph K)
      → Tracks e s q g
      → Grounded e s q
      → e k ≡ true
      → uses js k ≡ 0
      → Linked k js e s q g
  unfolding link uses
  link-Tracks k [] e s q g tr gr ek new = record {
    linked = Tracks-ext tr (λ a. ground arith) (λ a. refl) (λ a b. ground arith);
    grounded = record {
      no_weight = λ a h. gr.no_weight a (ground arith);
      no_edge = λ a b h. ground (arith, gr.no_edge a b);
      even = λ a b. ground (arith, gr.even a b);
    };
  }
  link-Tracks k (j ∷ js) e s q g tr gr ek new =
      let apart : k ≢ j = ground arith in
      let rest =
        link-Tracks k js (with_key e j) s (pair_more q k j) (link_step k j g)
          (link_step-Tracks e s q g k j tr gr apart ek) (link_step-Grounded e s q k j gr ek)
          (ground arith) (ground arith) in
      record {
        linked = Tracks-ext rest.linked (λ a. ground arith) (λ a. refl) (λ a b. ground arith);
        grounded = record {
          no_weight = λ a h. rest.grounded.no_weight a (ground arith);
          no_edge = λ a b h. ground (arith, rest.grounded.no_edge a b);
          even = λ a b. ground (arith, gr.even a b);
        };
      }

  -- `update_graph` adds the request's keys to the vertices, and its pairs of keys to the edges.
  pub track-Tracks :
      (ks : List K) (e : K → Bool) (s : K → ℕ) (q : K → K → ℕ) (g : Graph K)
      → Tracks e s q g
      → Grounded e s q
      → Distinct ks
      → Tracks (with_keys e ks) (λ a. s a + uses ks a) (λ a b. q a b + joins ks a b) (track ks g)
  unfolding track uses joins
  track-Tracks [] e s q g tr gr d =
      Tracks-ext tr (λ a. ground arith) (λ a. omega arith) (λ a b. omega arith)
  track-Tracks (k ∷ ks) e s q g tr gr d =
      Tracks-ext
        (track-Tracks ks _ (one_more s k) _ (link k ks (touch k g)) row.linked row.grounded d.1)
        (λ a. ground arith) (λ a. ground arith) (λ a b. omega arith)
    where
      row : Linked k ks (with_key e k) (one_more s k) q (touch k g)
      row =
          link-Tracks k ks (with_key e k) (one_more s k) q (touch k g)
            (touch-Tracks k tr (gr.no_weight k) (gr.no_edge k))
            (record {
              no_weight = λ a h. ground (arith, gr.no_weight a);
              no_edge = λ a b h. ground (arith, gr.no_edge a b);
              even = gr.even;
            })
            (ground arith) d.0

  crossings-nil : (k a b : K) (n : ℕ) → n ≡ n - crossings k [] a b
  unfolding uses
  crossings-nil k a b n = ground arith

  uses-tail : (k j : K) (js : List K) → uses (j ∷ js) k ≡ 0 → uses js k ≡ 0
  unfolding uses
  uses-tail k j js h = ground arith

  uses-cons : (i j : K) (js : List K) → 0 < uses js i → 0 < uses (j ∷ js) i
  unfolding uses
  uses-cons i j js h = ground arith

  -- What the row of `k` still has to lose.
  abbrev Left : K → List K → (K → ℕ) → (K → K → ℕ) → Type 0
  Left k js s q = (j : K) → 0 < uses js j → (0 < q k j) × (q k j ≤ s j + 1)

  pair_less-crossings :
      (k j : K) (js : List K) (q : K → K → ℕ) (a b : K)
      → Distinct (j ∷ js)
      → uses (j ∷ js) k ≡ 0
      → pair_less (λ x y. q x y - crossings k js x y) k j a b ≡ q a b - crossings k (j ∷ js) a b
  unfolding uses
  pair_less-crossings k j js q a b d new =
      ground (arith, uses-Distinct js a d.1, uses-Distinct js b d.1)

  unlink-cons :
      (k j : K) (js : List K) (e : K → Bool) (s : K → ℕ) (q : K → K → ℕ) (g : Graph K)
      → Tracks e s (λ a b. q a b - crossings k js a b) g
      → ((a : K) → e a ≡ ltb 0 (s a))
      → e k ≡ true
      → ((a b : K) → q a b ≡ q b a)
      → uses (j ∷ js) k ≡ 0
      → Distinct (j ∷ js)
      → Left k (j ∷ js) s q
      → Tracks e s (λ a b. q a b - crossings k (j ∷ js) a b) (unlink_step k j g)
  unfolding uses
  unlink-cons k j js e s q g before he ek even new d left =
      Tracks-ext
        (unlink_step-Tracks e s _ g before k j (ground arith) ek (ground (arith, even k j)) (he j)
          (ground (arith, left j)) (ground (arith, left j)))
        (λ a. refl) (λ a. refl) (λ a b. pair_less-crossings k j js q a b d new)

  unlink-Tracks :
      (k : K) (js : List K) (e : K → Bool) (s : K → ℕ) (q : K → K → ℕ) (g : Graph K)
      → Tracks e s q g
      → ((a : K) → e a ≡ ltb 0 (s a))
      → e k ≡ true
      → ((a b : K) → q a b ≡ q b a)
      → uses js k ≡ 0
      → Distinct js
      → Left k js s q
      → Tracks e s (λ a b. q a b - crossings k js a b) (unlink k js g)
  unfolding unlink
  unlink-Tracks k [] e s q g start he ek even new d left =
      Tracks-ext start (λ a. refl) (λ a. refl) (λ a b. crossings-nil k a b (q a b))
  unlink-Tracks k (j ∷ js) e s q g start he ek even new d left =
      unlink-cons k j js e s q (unlink k js g)
        (unlink-Tracks k js e s q g start he ek even (uses-tail k j js new) d.1
          (λ i h. left i (uses-cons i j js h)))
        he ek even new d left

  -- `expire` takes them away again, and with them what has no weight left.
  pub untrack-Tracks :
      (ks : List K) (s : K → ℕ) (q : K → K → ℕ) (g : Graph K)
      → Tracks (λ a. ltb 0 (s a)) s q g
      → ((a b : K) → q a b ≡ q b a)
      → ((a b : K) → q a b ≤ s a)
      → Distinct ks
      → ((a : K) → uses ks a ≤ s a)
      → ((a b : K) → joins ks a b ≤ q a b)
      → Tracks
          (λ a. ltb 0 (s a - uses ks a))
          (λ a. s a - uses ks a)
          (λ a b. q a b - joins ks a b)
          (untrack ks g)
  unfolding untrack uses joins
  untrack-Tracks [] s q g tr even below d us js =
      Tracks-ext tr (λ a. ground arith) (λ a. omega arith) (λ a b. omega arith)
  untrack-Tracks (k ∷ ks) s q g tr even below d us js =
      let rest =
        untrack-Tracks ks s q g tr even below d.1 (λ a. ground (arith, us a))
          (λ a b. omega (arith, js a b)) in
      let row =
        unlink-Tracks k ks _ (λ a. s a - uses ks a) (λ a b. q a b - joins ks a b) (untrack ks g)
          rest (λ a. refl) (ground (arith, us k))
          (λ a b. ground (arith, even a b, joins_comm ks a b)) d.0 d.1
          (λ j h. ground (
            arith,
            js k j,
            us j,
            below j k,
            even k j,
            joins_absent ks k j,
            uses-Distinct ks j d.1,
          )) in
      Tracks-ext
        (release-Tracks _ _ _ (unlink k ks (untrack ks g)) row k (ground (arith, us k))
          (ground (arith, us k)))
        (λ a. ground arith) (λ a. ground arith) (λ a b. ground (arith, js a b))
