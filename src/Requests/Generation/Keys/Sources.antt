-- ===== src/Requests/Generation/Keys/Sources.antt =====
-- A workload whose generators come up with keys: its generation, and the keys that it asks for.
use kvpaxos.Base.{
  ℕ, zero, suc, ◌+◌, ◌<◌, ◌≤◌, ◌^◌, List, [], ◌∷◌, ℤ, pos, ◌+ℤ◌, ◌-ℤ◌, int_laws, ◌≡◌, refl, arith,
  All, true, ltb_ℤ, length, fun_ext, ap, Bool, subst, eq_of_parts, pos_part, neg_part,
}
use kvpaxos.Base.Results.{ok, >>=-eq-ok}
use kvpaxos.Base.Runs.{returns}
use kvpaxos.Text.{to_string}
use kvpaxos.Types.{RequestType, read, write, scan}
use kvpaxos.Requests.{Request}
use kvpaxos.Requests.Counter.{Counter, next, acknowledge, last_value}
use kvpaxos.Requests.Doubles.{Double, Engine}
use kvpaxos.Requests.Random.{Standard, RandFunction, DoubleRandFunction, call}
use kvpaxos.Requests.Operations.{Proportions, next_operation}
use kvpaxos.Requests.Generation.{Generator, draw_until, generate_typed, generate_one, generate_from}
use kvpaxos.Requests.Generation.Drawing.{Accepted, draw_until-Accepted, accepts}
use kvpaxos.Requests.Generation.Keys.{
  request, Asks, reads, rewrites, scans, inserts, AskAll, none_left, asks, IsAt, narrow_small,
  acknowledge-next, pick-IsOperation, IsOperation, is_read, is_update, is_scan, is_write,
}

counts_add :
    (a b c : ℤ) (rounds one more : ℕ)
    → b +ℤ pos 1 ≡ a +ℤ pos one
    → c +ℤ pos rounds ≡ b +ℤ pos more
    → c +ℤ pos (suc rounds) ≡ a +ℤ pos (one + more)
counts_add a b c rounds one more h k =
    eq_of_parts _ _ (omega (int_laws, ap pos_part h, ap neg_part h, ap pos_part k, ap neg_part k))

module _ (double : Double) (engine : Engine) (standard : Standard double engine) where
  abbrev Rand : Type 0
  Rand = RandFunction double engine standard

  abbrev Operation : Type 0
  Operation = DoubleRandFunction double engine standard

  -- That the loop for a request of `size` more keys ends with a key.
  abbrev pub fits : Counter → ℕ → ℤ → Bool
  fits c size key = ltb_ℤ (key +ℤ pos size) (last_value c)

  -- What the generators give, from `least` keys on: a key with room for `longest` more, within `fuel`
  -- draws; a length of a scan up to `longest`; and a type of request. They stay of their kinds.
  pub record Sources (fuel least longest : ℕ) (proportions : Proportions double)
      (Keys Lengths : Rand → Type 0) (Types : Operation → Type 0) : Type 0 where
    pub draws :
        (n size : ℕ) (c : Counter) (f : Rand)
        → least ≤ n
        → size ≤ longest
        → IsAt n c
        → Keys f
        → (k i : ℕ) × (f' : Rand) × Accepted double engine standard (fits c size) c i f (pos k) f'
          × (i < fuel)
          × Keys f'
    pub lengths :
        (c : Counter) (f : Rand)
        → Lengths f
        → (l : ℕ) × (f' : Rand) × (call double engine standard c f ≡ ok (pos l, f'))
          × (l ≤ longest)
          × Lengths f'
    pub types :
        (o : Operation)
        → Types o
        → (t : RequestType) × (o' : Operation) × (next_operation double engine standard proportions
              o
            ≡ ok (t, o'))
          × Types o'

  fits-lt : (n size k : ℕ) (c : Counter) → IsAt n c → fits c size (pos k) ≡ true → k + size < n
  unfolding last_value ◌+ℤ◌
  fits-lt n size k c a h = ground (arith, a.limit)

  fits_none : (c : Counter) → (λ key. ltb_ℤ key (last_value c)) ≡ fits c 0
  unfolding ◌+ℤ◌
  fits_none c = fun_ext λ key. ground arith

  module _ (fuel least longest : ℕ) (proportions : Proportions double)
      (Keys Lengths : Rand → Type 0) (Types : Operation → Type 0)
      (sources : Sources fuel least longest proportions Keys Lengths Types) (positive : 0 < least)
      (small : longest < 2 ^ 31) (operations : All (λ v. IsOperation v.0) proportions) where
    -- The loop's variables when the keys 0, …, n - 1 are there.
    pub record Ready (n : ℕ) (s : Generator double engine standard) : Type 0 where
      pub placed : IsAt n s.insertkeysequence
      pub keys : Keys s.data_generator
      pub lengths : Lengths s.scan_length_generator
      pub types : Types s.operation_generator

    first_key :
        (n : ℕ) (s : Generator double engine standard)
        → Ready n s
        → (next s.insertkeysequence).0 ≡ pos n
    unfolding next
    first_key n s r = r.placed.counter

    record Draw (n size : ℕ) (s : Generator double engine standard) : Type 0 where
      key : ℕ
      left : Rand
      runs :
          draw_until double engine standard fuel
            (fits s.insertkeysequence size)
            s.insertkeysequence
            s.data_generator
          ≡ returns (pos key, left)
      room : key + size < n
      keys : Keys left

    draw :
        (n size : ℕ) (s : Generator double engine standard)
        → least ≤ n
        → size ≤ longest
        → Ready n s
        → Draw n size s
    draw n size s p q r =
        let c = s.insertkeysequence in
        let (k, i, f', a, i-lt, keys) =
          sources.draws n size c s.data_generator p q r.placed r.keys in
        record {
          key = k;
          left = f';
          runs = draw_until-Accepted double engine standard (fits c size) c fuel a i-lt;
          room = fits-lt n size k c r.placed (accepts double engine standard a);
          keys = keys;
        }

    record MakesOne (n : ℕ) (t : RequestType) (s : Generator double engine standard) : Type 0 where
      made : Request
      state : Generator double engine standard
      after : ℕ
      named : ℕ
      runs : generate_typed double engine standard fuel t s ≡ returns (made, state)
      asked : Asks n made after named
      ready : Ready after state
      counted : state.n_requests +ℤ pos 1 ≡ s.n_requests +ℤ pos named
      grows : (n ≤ after) × (after ≤ n + 1)

    generate_typed-MakesOne :
        (n : ℕ) (t : RequestType) (s : Generator double engine standard)
        → IsOperation t
        → least ≤ n
        → n < 2 ^ 31
        → Ready n s
        → MakesOne n t s
    unfolding generate_typed
    generate_typed-MakesOne n t s is_read p q r =
        let d = draw n 0 s p (omega arith) r in
        record {
          made = request read d.key [];
          state = record s { data_generator = d.left };
          after = n;
          named = 1;
          runs = rw (fits_none s.insertkeysequence, d.runs);
          asked = reads d.key (let h = d.room in omega arith);
          ready = record { placed = r.placed; keys = d.keys; lengths = r.lengths; types = r.types };
          counted = refl;
          grows = (omega arith, omega arith);
        }
    generate_typed-MakesOne n t s is_update p q r =
        let d = draw n 0 s p (omega arith) r in
        record {
          made = request write d.key [];
          state = record s { data_generator = d.left };
          after = n;
          named = 1;
          runs = rw (fits_none s.insertkeysequence, d.runs);
          asked = rewrites d.key (let h = d.room in omega arith);
          ready = record { placed = r.placed; keys = d.keys; lengths = r.lengths; types = r.types };
          counted = refl;
          grows = (omega arith, omega arith);
        }
    generate_typed-MakesOne n t s is_scan p q r =
        let (l, g, called, l-le, lengths) =
          sources.lengths s.insertkeysequence s.scan_length_generator r.lengths in
        let d = draw n l s p l-le r in
        record {
          made = request scan d.key (to_string (pos l));
          state = record s {
            n_requests = s.n_requests +ℤ (pos l -ℤ pos 1);
            data_generator = d.left;
            scan_length_generator = g;
          };
          after = n;
          named = l;
          runs = rw called (rw (narrow_small l (omega arith)) (rw d.runs));
          asked = scans d.key l d.room;
          ready = record { placed = r.placed; keys = d.keys; lengths = lengths; types = r.types };
          counted = omega int_laws;
          grows = (omega arith, omega arith);
        }
    generate_typed-MakesOne n t s is_write p q r = record {
      made = request write n [];
      state = record s { insertkeysequence = acknowledge (pos n) (next s.insertkeysequence).1 };
      after = n + 1;
      named = 1;
      runs = rw (first_key n s r) (rw (narrow_small n q));
      asked = inserts;
      ready = record {
        placed = acknowledge-next n s.insertkeysequence r.placed (omega arith);
        keys = r.keys;
        lengths = r.lengths;
        types = r.types;
      };
      counted = refl;
      grows = (omega arith, omega arith);
    }

    next_operation-IsOperation :
        (o o' : Operation) (t : RequestType)
        → next_operation double engine standard proportions o ≡ ok (t, o')
        → IsOperation t
    unfolding next_operation
    next_operation-IsOperation o o' t e =
        let (u, picked, rest) = >>=-eq-ok _ _ e in
        let same : u ≡ t = cc in
        subst IsOperation same (pick-IsOperation double _ _ proportions operations picked)

    -- The requests of a run of `rounds` rounds from `s`, which has the keys 0, …, n - 1.
    pub record Workload (n rounds : ℕ) (s : Generator double engine standard) : Type 0 where
      pub requests : List Request
      pub state : Generator double engine standard
      pub after : ℕ
      pub named : ℕ
      pub runs :
          generate_from double engine standard fuel proportions rounds s ≡ returns (requests, state)
      pub asked : AskAll n requests after named
      pub made : length requests ≡ rounds
      pub counted : state.n_requests +ℤ pos rounds ≡ s.n_requests +ℤ pos named

    -- Where, from `least` keys on, which is not 0, the generators come up, within the fuel, with keys
    -- that have room for the lengths of scans that they give: with the keys 0, …, n - 1 there, and
    -- room for the keys in `int`, the loop ends and makes a request in each round. Each request reads,
    -- scans or writes keys that are there when it is made, or writes the next one; and the number that
    -- is printed is, from the number of rounds on, that of the keys that the requests name.
    pub generate_from-Workload :
        (n rounds : ℕ) (s : Generator double engine standard)
        → least ≤ n
        → n + rounds < 2 ^ 31
        → Ready n s
        → Workload n rounds s
    unfolding generate_from generate_one
    generate_from-Workload n zero s p q r = record {
      requests = [];
      state = s;
      after = n;
      named = 0;
      runs = refl;
      asked = none_left refl refl;
      made = refl;
      counted = refl;
    }
    generate_from-Workload n (suc rounds) s p q r =
        let (t, o, typed, types) = sources.types s.operation_generator r.types in
        let one =
          generate_typed-MakesOne n t (record s { operation_generator = o })
            (next_operation-IsOperation s.operation_generator o t typed) p (omega arith)
            (record { placed = r.placed; keys = r.keys; lengths = r.lengths; types = types }) in
        let more =
          generate_from-Workload one.after rounds one.state (let g = one.grows.0 in omega arith)
            (let g = one.grows.1 in omega arith) one.ready in
        record {
          requests = one.made ∷ more.requests;
          state = more.state;
          after = more.after;
          named = one.named + more.named;
          runs = rw typed (rw one.runs (rw more.runs));
          asked = asks one.asked more.asked refl;
          made = ap suc more.made;
          counted =
              counts_add s.n_requests one.state.n_requests more.state.n_requests rounds one.named
                more.named one.counted more.counted;
        }
