-- ===== src/Tests/Workloads.antt =====
-- The theorems on the generation of workloads at small data. Numbers stand for doubles, in hundredths.
use kvpaxos.Base.{
  ℕ, ◌+◌, ◌-◌, ◌*◌, ◌/◌, ◌%◌, ◌^◌, ◌≤◌, some, [], ◌∷◌, ◌++◌, ℤ, pos, ◌+ℤ◌, ◌-ℤ◌, pos_part, ltb,
  ltb_ℤ, ◌==◌, if◌then◌else◌, ◌≡◌, refl, arith, ◌≢◌,
}
use kvpaxos.Base.Results.{ok}
use kvpaxos.Base.Runs.{out_of_fuel}
use kvpaxos.Text.{to_string}
use kvpaxos.Types.{read, write, scan}
use kvpaxos.Requests.{Request, Fields, request_line, import_cs_request}
use kvpaxos.Requests.Lines.{number, import_cs_request-request_line}
use kvpaxos.Requests.Counter.{Counter, make, last_value}
use kvpaxos.Requests.Doubles.{Double, Engine}
use kvpaxos.Requests.Zipfian
use kvpaxos.Requests.Zipfian.Exact.{IsExact, largest, made, drawn, Drawn-IsExact}
use kvpaxos.Requests.Scrambled
use kvpaxos.Requests.Scrambled.Range.{IsOver, Gives, next-Gives, hashed}
use kvpaxos.Requests.Random.{
  Standard, RandFunction, fixed_at, DoubleRandFunction, call, uniform_distribution_rand,
}
use kvpaxos.Requests.Operations.{Proportions, next_operation}
use kvpaxos.Requests.Generation.{Generator, generate_typed}
use kvpaxos.Requests.Generation.Drawing.{Accepted, now}
use kvpaxos.Requests.Generation.Keys.{IsAt, is_scan, is_write, make-IsAt}
use kvpaxos.Requests.Generation.Keys.Sources.{Sources, Ready, Workload, generate_from-Workload}
use kvpaxos.Requests.Generation.Keys.Starving.{IsUniform, reads, generate_typed-Starves}

abbrev hundredths : Double
hundredths = record {
  D = ℕ;
  literal = λ m d. m;
  of_long = pos_part;
  to_long = λ d. some (pos d);
  to_int = λ d. some (pos d);
  plus = λ a b. a + b;
  minus = λ a b. a - b;
  times = λ a b. a * b;
  over = λ a b. a * 100 / b;
  pow = λ a b. a;
  below = ltb;
  same = λ a b. a == b;
}

abbrev counting : Engine
counting = record { G = ℕ; seed = pos_part; draw = λ g. (g, g + 1); min = 0; max = 100 }

abbrev lowest : Standard hundredths counting
lowest = record {
  uniform_int = λ min max g. (min, g);
  uniform_real = λ min max g. (g % 100, g + 60);
  binomial_int = λ n p g. (n, g);
}

drawn_once :
    (r : ℤ × Zipfian.Zipfian hundredths × ℕ) × (Zipfian.next hundredths counting
        (pos 5)
        (Zipfian.make hundredths (pos 0) (pos 3))
        7
      ≡ ok r)
unfolding Zipfian.next Zipfian.make ◌+ℤ◌ ◌-ℤ◌
drawn_once = (_, refl)

Drawn-IsExact_example : IsExact hundredths (largest hundredths 4 (pos 5 ∷ [])) drawn_once.0.1
Drawn-IsExact_example = Drawn-IsExact hundredths counting 3 (drawn (pos 5) 7 made drawn_once.1)

two_to_five : Scrambled.Scrambled hundredths
unfolding Scrambled.make
two_to_five = Scrambled.make hundredths (pos 2) (pos 5) 99

drawn_item :
    (r : ℤ × Zipfian.Zipfian hundredths × ℕ) × (Zipfian.next_item hundredths counting
        two_to_five.gen 0
      ≡ ok r)
unfolding two_to_five Zipfian.next_item ◌+ℤ◌ ◌-ℤ◌
drawn_item = (_, refl)

two_to_five-IsOver : IsOver hundredths (pos 2) (pos 5) two_to_five
unfolding two_to_five Scrambled.make
two_to_five-IsOver = record { least = refl; items = refl }

drawn_item-hashed : hashed drawn_item.0.0 ≢ 2 ^ 63
unfolding drawn_item Scrambled.fnv_loop
drawn_item-hashed = omega arith

next-Gives_example :
    (k : ℤ) × (t : Scrambled.Scrambled hundredths) × (Scrambled.next hundredths counting two_to_five
        0
      ≡ ok (k, t, drawn_item.0.2))
    × Gives hundredths (pos 2) (pos 5) k t
next-Gives_example =
    next-Gives hundredths counting (pos 2) (pos 5) two_to_five 0 drawn_item.0.0 drawn_item.0.1
      drawn_item.0.2 (omega arith) two_to_five-IsOver drawn_item.1 drawn_item-hashed

-- The hash of 0, as the published constants give it.
fnvhash64_zero : Scrambled.fnvhash64 0 ≡ some 6284781860667377211
unfolding Scrambled.fnvhash64
fnvhash64_zero = refl

abbrev held : Fields
held = record { type = pos 9; key = pos 9; arg = pos 42 }

abbrev scan_of_two : Request
scan_of_two = record { type = scan; key = pos 17; args = to_string (pos 2) }

import_cs_request-request_line_example :
    import_cs_request held (request_line scan_of_two ++ b'0' ∷ [])
    ≡ ok (record scan_of_two { args = to_string (pos 2) }, b'0' ∷ [])
import_cs_request-request_line_example =
    import_cs_request-request_line held scan_of_two (pos 2) (b'0' ∷ []) refl
      (number (pos 2) refl refl)

IsUniform-lowest : IsUniform hundredths counting lowest
IsUniform-lowest = record { bounds = λ min max g h. (omega arith, h) }

abbrev one_record : Generator hundredths counting lowest
one_record = record {
  insertkeysequence = make (pos 1);
  n_requests = pos 10;
  data_generator = uniform_distribution_rand hundredths counting lowest (pos 0) (pos 1) (pos 3);
  scan_length_generator = fixed_at (pos 2);
  operation_generator = record { least = 0; greatest = 100; generator = 0 };
}

generate_typed-Starves_example :
    generate_typed hundredths counting lowest 1000 read one_record ≡ out_of_fuel
generate_typed-Starves_example =
    generate_typed-Starves hundredths counting lowest 1 1000 (pos 3) read one_record
      IsUniform-lowest (omega arith) reads refl refl

-- Writes and scans, by halves.
abbrev halves : Proportions hundredths
halves = (write, 5) ∷ (scan, 5) ∷ []

abbrev Zeros : RandFunction hundredths counting lowest → Type 0
Zeros f = f ≡ fixed_at (pos 0)

abbrev Twos : RandFunction hundredths counting lowest → Type 0
Twos f = f ≡ fixed_at (pos 2)

abbrev AnyOperation : DoubleRandFunction hundredths counting lowest → Type 0
AnyOperation o = Unit

zeros_fit :
    (n size : ℕ) (c : Counter) (f : RandFunction hundredths counting lowest)
    → 4 ≤ n
    → size ≤ 2
    → IsAt n c
    → Zeros f
    → Accepted hundredths counting lowest
        (λ key. ltb_ℤ (key +ℤ pos size) (last_value c))
        c
        0
        f
        (pos 0)
        (fixed_at (pos 0))
unfolding call last_value ◌+ℤ◌
zeros_fit n size c f p q at e = now (pos 0) (rw e) (ground (arith, at.limit))

next_half :
    (o : DoubleRandFunction hundredths counting lowest)
    → next_operation hundredths counting lowest halves o
      ≡ ok (
        (if ltb (o.generator % 100) 50 then write else scan),
        record o { generator = o.generator + 60 },
      )
unfolding next_operation
next_half o = ground arith

halves-Sources : Sources hundredths counting lowest 1 4 2 halves Zeros Twos AnyOperation
unfolding call
halves-Sources = record {
  draws = λ n size c f p q at e.
      (0, 0, fixed_at (pos 0), zeros_fit n size c f p q at e, omega arith, refl);
  lengths = λ c f e. (2, fixed_at (pos 2), rw e, omega arith, refl);
  types = λ o t. (_, _, next_half o, tt);
}

abbrev four_records : Generator hundredths counting lowest
four_records = record {
  insertkeysequence = make (pos 4);
  n_requests = pos 3;
  data_generator = fixed_at (pos 0);
  scan_length_generator = fixed_at (pos 2);
  operation_generator = record { least = 0; greatest = 100; generator = 0 };
}

four_records-Ready :
    Ready hundredths counting lowest 1 4 2 halves Zeros Twos AnyOperation halves-Sources
      (omega arith)
      (omega arith)
      (is_write, (is_scan, tt))
      4
      four_records
four_records-Ready = record {
  placed = make-IsAt 4 (omega arith);
  keys = refl;
  lengths = refl;
  types = tt;
}

generate_from-Workload_example :
    Workload hundredths counting lowest 1 4 2 halves Zeros Twos AnyOperation halves-Sources
      (omega arith)
      (omega arith)
      (is_write, (is_scan, tt))
      4
      3
      four_records
generate_from-Workload_example =
    generate_from-Workload hundredths counting lowest 1 4 2 halves Zeros Twos AnyOperation
      halves-Sources (omega arith) (omega arith) (is_write, (is_scan, tt)) 4 3 four_records
      (omega arith) (omega arith) four_records-Ready
