-- ===== src/Storage.antt =====
-- src/storage/storage.cpp: the key-value store that the partitions share. Values are texts; zlib's
-- compression (src/compresser) is a parameter.
pub mod Dense
use kvpaxos.Base.{
  ℕ, zero, suc, ◌+◌, ◌%◌, List, [], ◌∷◌, ℤ, pos, negsuc, ◌+ℤ◌, Option, none, some, length,
  replicate, if◌then◌else◌, or_else, ◌==◌,
}
use kvpaxos.Base.Maps.{Map, find, assign}
use kvpaxos.Base.Results.{Result, throws, undefined, ok, ◌>>=◌, or_throw}
use kvpaxos.Types.{int_key, to_size, to_int}

abbrev pub Text : Type 0
Text = List ℕ

-- `compress` and `decompress`; `none` is an exception.
pub record Codec : Type 0 where
  pub compress : Text → Option Text
  pub decompress : Text → Option Text

-- `std::string template_value(VALUE_SIZE, '*')`
abbrev pub value_size : ℕ
value_size = 4096

pub template_value : Text
template_value = replicate value_size b'*'

pub record Storage : Type 0 where
  pub storage : Map ℤ Text

module _ (codec : Codec) where
  -- `at` throws where the key is missing; a value that does not decompress reads as the template.
  unfoldable pub read : ℤ → Storage → Result Text
  read key s =
      or_throw (find key s.storage) >>= λ val. ok (or_else (codec.decompress val) template_value)

  -- The parameter `value` is not used: every key gets the template.
  unfoldable pub write : ℤ → Text → Storage → Result Storage
  write key value s = or_throw (codec.compress template_value) >>= λ compressed.
      ok (record s { storage = assign key compressed s.storage })

  -- The loop of `scan`, from `i`, with `n` rounds left. `%` by an empty store's size is undefined.
  unfoldable pub scan_from : ℤ → ℕ → ℕ → Storage → Result (List Text)
  unfolding read
  scan_from start i zero s = ok []
  scan_from start i (suc n) s =
      let rest = scan_from start (i + 1) n s in
      if length s.storage == 0
      then undefined
      else (read (to_int (to_size (start +ℤ pos i) % length s.storage)) s >>= λ v.
          rest >>= λ vs. ok (v ∷ vs))

  -- A negative length has no round.
  unfoldable pub scan : ℤ → ℤ → Storage → Result (List Text)
  unfolding scan_from
  scan start (pos n) s = scan_from start 0 n s
  scan start (negsuc n) s = ok []
