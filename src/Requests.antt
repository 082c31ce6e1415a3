-- ===== src/Requests.antt =====
-- src/request: how a workload is made up, written out, and read in again. The children model the
-- distributions and the generation; here are the requests, their lines, and the reading of a line.
pub mod Counter
pub mod Doubles
pub mod Zipfian
pub mod Scrambled
pub mod Latest
pub mod Random
pub mod Operations
pub mod Generation
pub mod Setup
pub mod Lines
use kvpaxos.Base.{
  ℕ, zero, suc, List, [], ◌∷◌, ◌++◌, ℤ, pos, negsuc, Option, none, some, ◌==◌, if◌then◌else◌,
}
use kvpaxos.Base.Results.{Result, ok, undefined, or_undefined, ◌>>=◌}
use kvpaxos.Text.{scan_int, to_string, is_int}
use kvpaxos.Types.{RequestType, read, write, scan, sync, error, update, dummy, end}

abbrev pub Text : Type 0
Text = List ℕ

-- `workload::Request`
pub record Request : Type 0 where
  pub type : RequestType
  pub key : ℤ
  pub args : Text

-- `static_cast<int>(type)`
abbrev pub int_of_type : RequestType → ℕ
int_of_type read = 0
int_of_type write = 1
int_of_type scan = 2
int_of_type sync = 3
int_of_type error = 4
int_of_type update = 5
int_of_type dummy = 6
int_of_type end = 7

-- `static_cast<request_type>(n)`, which is undefined for a number that no type has.
unfoldable pub type_of_int : ℤ → Option RequestType
type_of_int (pos n) =
    if n == 0
    then some read
    else if n == 1
    then some write
    else if n == 2
    then some scan
    else if n == 3
    then some sync
    else if n == 4
    then some error
    else if n == 5
    then some update
    else if n == 6
    then some dummy
    else if n == 7
    then some end
    else none
type_of_int (negsuc n) = none

-- The line that `generate_export_requests` writes.
unfoldable pub request_line : Request → Text
request_line r =
    to_string (pos (int_of_type r.type))
    ++ (b',' ∷ (to_string r.key ++ (b',' ∷ (r.args ++ (b',' ∷ 10 ∷ [])))))

-- What it writes for all of them.
unfoldable pub export_text : List Request → Text
unfolding request_line
export_text [] = []
export_text (r ∷ rs) = request_line r ++ export_text rs

-- `std::getline`: the line, and the text behind it.
unfoldable pub getline : Text → Text × Text
getline [] = ([], [])
getline (c ∷ cs) = let rest = getline cs in if c == 10 then ([], cs) else (c ∷ rest.0, rest.1)

-- The variables `type`, `key` and `arg`.
pub record Fields : Type 0 where
  pub type : ℤ
  pub key : ℤ
  pub arg : ℤ

-- One `%d`. A number beyond `int` is undefined; `none` is that the format does not match.
unfoldable pub scan_field : Text → Result (Option (ℤ × Text))
scan_field cs = elim (scan_int cs) [
  | none ↦ ok none
  | some (z, rest) ↦ if is_int z then ok (some (z, rest)) else undefined
]

-- A comma and a `%d`.
unfoldable pub scan_next : Text → Result (Option (ℤ × Text))
unfolding scan_field
scan_next [] = ok none
scan_next (c ∷ cs) = if c == b',' then scan_field cs else ok none

-- `sscanf(line.c_str(), "%d,%d,%d", &type, &key, &arg)`: a variable that is not matched keeps what it
-- held, `before`.
unfoldable pub sscanf_fields : Fields → Text → Result Fields
unfolding scan_field scan_next
sscanf_fields before line = scan_field line >>= λ type. elim type [
  | none ↦ ok before
  | some (t, rest) ↦ scan_next rest >>= λ key. elim key [
    | none ↦ ok (record before { type = t })
    | some (k, rest') ↦ scan_next rest' >>= λ arg. elim arg [
      | none ↦ ok (record before { type = t; key = k })
      | some (a, rest'') ↦ ok (record { type = t; key = k; arg = a })
    ]
  ]
]

unfoldable pub make_request : Fields → Result Request
unfolding type_of_int
make_request f = or_undefined (type_of_int f.type) >>= λ type.
    ok (record { type = type; key = f.key; args = to_string f.arg })

-- The request of the next line of the file, and the rest of the file. The variables are not
-- initialised: `before` is what the stack held.
unfoldable pub import_cs_request : Fields → Text → Result (Request × Text)
unfolding getline sscanf_fields make_request
import_cs_request before file =
    let (line, rest) = getline file in
    sscanf_fields before line >>= λ f. make_request f >>= λ r. ok (r, rest)
