-- ===== src/Types.antt =====
-- src/types/types.h: the requests as they travel through the replica.
use kvpaxos.Base.{
  ℕ, ◌-◌, ◌%◌, ◌^◌, Bool, true, false, Option, some, List, ℤ, pos, negsuc, ℤ-discrete, ltb,
  if◌then◌else◌, ◌>>=◌,
}
use kvpaxos.Base.Maps.{Key}
use kvpaxos.Text.{c_string, stoi}

-- `enum request_type`
pub data RequestType : Type 0 where
  read write scan sync error update dummy end : RequestType

-- `struct client_message`. `args` is the array of four bytes; `s_addr` carries the address of a
-- barrier in a `sync` message.
pub record ClientMessage : Type 0 where
  pub id : ℤ
  pub s_addr : ℕ
  pub sin_port : ℕ
  pub key : ℤ
  pub type : RequestType
  pub record_timestamp : Bool
  pub args : List ℕ
  pub size : ℕ

instance abbrev pub int_key : Key ℤ
int_key = record { same = ℤ-discrete }

abbrev pub is_scan : RequestType → Bool
is_scan scan = true
is_scan _ = false

abbrev pub is_write : RequestType → Bool
is_write write = true
is_write _ = false

abbrev pub is_sync : RequestType → Bool
is_sync sync = true
is_sync _ = false

abbrev pub is_dummy : RequestType → Bool
is_dummy dummy = true
is_dummy _ = false

abbrev pub is_end : RequestType → Bool
is_end end = true
is_end _ = false

-- `int` to `size_t`.
abbrev pub to_size : ℤ → ℕ
to_size (pos n) = n
to_size (negsuc n) = 2 ^ 64 - 1 - n

-- `size_t` to `int`.
abbrev pub to_int : ℕ → ℤ
to_int n = if ltb (n % 2 ^ 32) (2 ^ 31) then pos (n % 2 ^ 32) else negsuc (2 ^ 32 - 1 - n % 2 ^ 32)

-- `std::stoi(request.args)`; `none` is its exception.
unfoldable pub scan_length : ClientMessage → Option ℤ
scan_length m = c_string m.args >>= stoi

-- How many keys from `key` on the request names.
unfoldable pub key_count : ClientMessage → Option ℤ
key_count m = if is_scan m.type then scan_length m else some (pos 1)
