-- ===== src/Requests/Generation.antt =====
-- src/request/request_generation.cpp, `generate_export_requests`: a workload is drawn and written to
-- a file. `Setup` has what is before and behind the loop.
pub mod Drawing
pub mod Keys
use kvpaxos.Base.{ℕ, zero, suc, ℤ, pos, ◌+ℤ◌, ◌-ℤ◌, Bool, true, false, List, [], ◌∷◌, ltb_ℤ}
use kvpaxos.Base.Results.{undefined, throws, ok}
use kvpaxos.Base.Runs.{Run, out_of_fuel, finished, ◌>>=◌, returns}
use kvpaxos.Text.{to_string}
use kvpaxos.Types.{RequestType, read, write, scan, update, to_size, to_int}
use kvpaxos.Requests.{Request}
use kvpaxos.Requests.Counter.{Counter, next, acknowledge, last_value}
use kvpaxos.Requests.Doubles.{Double, Engine}
use kvpaxos.Requests.Random.{Standard, RandFunction, DoubleRandFunction, call}
use kvpaxos.Requests.Operations.{Proportions, next_operation}

-- `long` to `int`.
abbrev pub narrow : ℤ → ℤ
narrow k = to_int (to_size k)

module _ (double : Double) (engine : Engine) (standard : Standard double engine) where
  -- The variables of the loop.
  pub record Generator : Type 0 where
    pub insertkeysequence : Counter
    pub n_requests : ℤ
    pub data_generator : RandFunction double engine standard
    pub scan_length_generator : RandFunction double engine standard
    pub operation_generator : DoubleRandFunction double engine standard

  -- `do key = data_generator(); while (…);` with the number of draws as fuel. `accept` is that the
  -- loop ends with this key.
  unfoldable pub draw_until :
      ℕ
      → (ℤ → Bool)
      → Counter
      → RandFunction double engine standard
      → Run (ℤ × RandFunction double engine standard)
  unfolding call
  draw_until zero accept c f = out_of_fuel
  draw_until (suc fuel) accept c f = elim (call double engine standard c f) [
    | undefined ↦ finished undefined
    | throws ↦ finished throws
    | ok (k, f') ↦ elim (accept (narrow k)) [
      | true ↦ returns (narrow k, f')
      | false ↦ draw_until fuel accept c f'
    ]
  ]

  -- The branches of the loop's body. No other type is among the proportions; its key would not be
  -- initialised.
  unfoldable pub generate_typed : ℕ → RequestType → Generator → Run (Request × Generator)
  unfolding draw_until call next acknowledge last_value
  generate_typed fuel read s =
      draw_until fuel (λ key. ltb_ℤ key (last_value s.insertkeysequence)) s.insertkeysequence
        s.data_generator
      >>= λ r.
          returns (record { type = read; key = r.0; args = [] }, record s { data_generator = r.1 })
  generate_typed fuel update s =
      draw_until fuel (λ key. ltb_ℤ key (last_value s.insertkeysequence)) s.insertkeysequence
        s.data_generator
      >>= λ r.
          returns (record { type = write; key = r.0; args = [] }, record s { data_generator = r.1 })
  generate_typed fuel scan s =
      finished (call double engine standard s.insertkeysequence s.scan_length_generator) >>= λ l.
      draw_until fuel (λ key. ltb_ℤ (key +ℤ narrow l.0) (last_value s.insertkeysequence))
        s.insertkeysequence s.data_generator
      >>= λ r. returns (
        record { type = scan; key = r.0; args = to_string (narrow l.0) },
        record s {
          n_requests = s.n_requests +ℤ (narrow l.0 -ℤ pos 1);
          data_generator = r.1;
          scan_length_generator = l.1;
        },
      )
  generate_typed fuel write s =
      let (k, c) = next s.insertkeysequence in
      returns (
        record { type = write; key = narrow k; args = [] },
        record s { insertkeysequence = acknowledge (narrow k) c },
      )
  generate_typed fuel _ s = finished undefined

  unfoldable pub generate_one : ℕ → Proportions double → Generator → Run (Request × Generator)
  unfolding generate_typed next_operation
  generate_one fuel proportions s =
      finished (next_operation double engine standard proportions s.operation_generator) >>= λ o.
      generate_typed fuel o.0 (record s { operation_generator = o.1 })

  -- The loop, with the number of rounds left: the requests that it writes, in their order.
  unfoldable pub generate_from :
      ℕ → Proportions double → ℕ → Generator → Run (List Request × Generator)
  unfolding generate_one
  generate_from fuel proportions zero s = returns ([], s)
  generate_from fuel proportions (suc n) s = generate_one fuel proportions s >>= λ r.
      generate_from fuel proportions n r.1 >>= λ rs. returns (r.0 ∷ rs.0, rs.1)
