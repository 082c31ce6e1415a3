-- ===== src/Requests/Setup.antt =====
-- src/request/request_generation.cpp: what `generate_export_requests` does before and behind its
-- loop, and `create_requests`. The configuration, as `toml::parse` gives it, is a parameter.
use Prim.Native.String.{String}
use kvpaxos.Base.{ℕ, ℤ, pos, ◌+ℤ◌, pos_part, Bool, Option, List, [], ◌∷◌, ◌++◌, if◌then◌else◌}
use kvpaxos.Base.Results.{Result, ok, or_throw, or_undefined, ◌>>=◌}
use kvpaxos.Base.Runs.{Run, finished, returns}
use kvpaxos.Base.Runs
use kvpaxos.Types.{RequestType, read, write, scan, update}
use kvpaxos.Requests.{Request}
use kvpaxos.Requests.Counter.{Counter, make, last_value}
use kvpaxos.Requests.Doubles.{Double, Engine}
use kvpaxos.Requests.Zipfian
use kvpaxos.Requests.Random.{
  Distribution, uniform, zipfian, latest, Standard, RandFunction, empty, string_to_distribution,
  uniform_distribution_rand, uniform_double_distribution_rand, scrambled_zipfian_distribution,
  skewed_latest_distribution,
}
use kvpaxos.Requests.Operations.{Proportions}
use kvpaxos.Requests.Generation.{Generator, generate_from}

-- A configuration: `toml::find` of a type along a path of names; `none` where it throws.
pub record Toml (D : Type 0) : Type 0 where
  pub find_string : List String → Option String
  pub find_long : List String → Option ℤ
  pub find_double : List String → Option D
  pub find_bool : List String → Option Bool

module _ (double : Double) (engine : Engine) (standard : Standard double engine) where
  open double use {D, literal, of_long, to_int, times, below}

  abbrev workload_path : String → List String
  workload_path name = "workload" ∷ name ∷ []

  -- `if(proportion>0) operation_proportions.push_back(…)`
  unfoldable pub push_proportion : RequestType → D → Proportions double → Proportions double
  push_proportion type proportion values =
      if below (of_long (pos 0)) proportion then values ++ (type, proportion) ∷ [] else values

  -- `int expectednewkeys = (int) ((n_operations) * insert_proportion * 2.0)`
  unfoldable pub expected_new_keys : ℤ → D → Result ℤ
  expected_new_keys n_operations insert_proportion =
      or_undefined (to_int (times (times (of_long n_operations) insert_proportion) (literal 20 1)))

  -- The branches that set `data_generator`. A name that is in the table and in no branch leaves it
  -- empty.
  unfoldable pub data_generator_of :
      Distribution → ℤ → ℤ → D → Counter → ℤ → Result (RandFunction double engine standard)
  unfolding expected_new_keys uniform_distribution_rand scrambled_zipfian_distribution
      skewed_latest_distribution last_value Zipfian.make
  data_generator_of uniform n_records n_operations insert_proportion counter key_seed =
      ok (uniform_distribution_rand double engine standard (pos 0) n_records key_seed)
  data_generator_of zipfian n_records n_operations insert_proportion counter key_seed =
      expected_new_keys n_operations insert_proportion >>= λ expected. ok (
        scrambled_zipfian_distribution double engine standard (pos 0) (n_records +ℤ expected)
          key_seed)
  data_generator_of latest n_records n_operations insert_proportion counter key_seed = ok (
      skewed_latest_distribution double engine standard
        (Zipfian.make double (pos 0) (last_value counter)) key_seed)
  data_generator_of _ n_records n_operations insert_proportion counter key_seed = ok empty

  -- The branches that set `scan_length_generator`.
  unfoldable pub scan_length_generator_of :
      Distribution → ℤ → ℤ → D → ℤ → ℤ → ℤ → Result (RandFunction double engine standard)
  unfolding expected_new_keys uniform_distribution_rand scrambled_zipfian_distribution
  scan_length_generator_of uniform n_records n_operations insert_proportion min max scan_seed =
      ok (uniform_distribution_rand double engine standard min max scan_seed)
  scan_length_generator_of zipfian n_records n_operations insert_proportion min max scan_seed =
      expected_new_keys n_operations insert_proportion >>= λ expected.
      ok (scrambled_zipfian_distribution double engine standard (pos 0) n_records scan_seed)
  scan_length_generator_of _ n_records n_operations insert_proportion min max scan_seed = ok empty

  module _ (config : Toml D) where
    abbrev find_long : String → Result ℤ
    find_long name = or_throw (config.find_long (workload_path name))

    abbrev find_double : String → Result D
    find_double name = or_throw (config.find_double (workload_path name))

    abbrev find_distribution : String → Result Distribution
    find_distribution name = or_throw (config.find_string (workload_path name)) >>= λ text.
        or_throw (string_to_distribution text)

    -- The block under `if(scan_proportion > 0)`.
    unfoldable pub scan_lengths : ℤ → ℤ → D → D → Result (RandFunction double engine standard)
    unfolding scan_length_generator_of string_to_distribution
    scan_lengths n_records n_operations insert_proportion scan_proportion =
        if below (of_long (pos 0)) scan_proportion
        then (find_long "scan_seed" >>= λ scan_seed.
            find_distribution "scan_length_distribution" >>= λ distribution.
            find_long "min_scan_length" >>= λ min. find_long "max_scan_length" >>= λ max.
            scan_length_generator_of distribution n_records n_operations insert_proportion min max
              scan_seed)
        else ok empty

    -- What the loop starts with: the number of rounds, the proportions, and its variables.
    pub record Workload : Type 0 where
      pub n_operations : ℤ
      pub operation_proportions : Proportions double
      pub generator : Generator double engine standard

    unfoldable pub workload : Result Workload
    unfolding push_proportion data_generator_of scan_lengths uniform_double_distribution_rand make
        string_to_distribution
    workload =
        or_throw (config.find_string ("output" ∷ "requests" ∷ "export_path" ∷ [])) >>= λ path.
        find_long "key_seed" >>= λ key_seed. find_long "operation_seed" >>= λ operation_seed.
        find_long "n_records" >>= λ n_records. find_long "n_operations" >>= λ n_operations.
        find_double "read_proportion" >>= λ reads. find_double "scan_proportion" >>= λ scans.
        find_double "update_proportion" >>= λ updates.
        find_double "insert_proportion" >>= λ inserts.
        find_distribution "data_distribution" >>= λ distribution.
        data_generator_of distribution n_records n_operations inserts (make n_records) key_seed
        >>= λ data_generator.
            scan_lengths n_records n_operations inserts scans >>= λ scan_length_generator.
            ok (record {
              n_operations = n_operations;
              operation_proportions = push_proportion scan scans (
                  push_proportion write inserts
                    (push_proportion update updates (push_proportion read reads [])));
              generator = record {
                insertkeysequence = make n_records;
                n_requests = n_operations;
                data_generator = data_generator;
                scan_length_generator = scan_length_generator;
                operation_generator =
                    uniform_double_distribution_rand double engine standard (literal 0 1)
                      (literal 10 1) operation_seed;
              };
            })

    -- The requests that the file gets, and the number that is printed.
    unfoldable pub generate_export_requests : ℕ → Run (List Request × ℤ)
    unfolding workload generate_from
    generate_export_requests fuel = Runs.◌>>=◌ (finished workload) λ w.
        Runs.◌>>=◌
          (generate_from double engine standard fuel w.operation_proportions
            (pos_part w.n_operations) w.generator)
          λ r. returns (r.0, r.1.n_requests)

    -- `create_requests` gives an empty vector; the requests are in the file.
    unfoldable pub create_requests : ℕ → Run (List Request × ℤ)
    unfolding generate_export_requests
    create_requests fuel =
        Runs.◌>>=◌ (finished (or_throw (config.find_bool (workload_path "single_distribution"))))
          λ one. if one then generate_export_requests fuel else returns ([], pos 0)
