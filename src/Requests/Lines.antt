-- ===== src/Requests/Lines.antt =====
-- A line that src/request/request_generation.cpp writes, and its reading.
use mathlib.Core.List.{append_assoc}
use kvpaxos.Base.{
  [], ◌∷◌, ◌++◌, ℤ, pos, true, false, none, some, ◌≡◌, refl, arith, All, All-append, ◌==◌,
}
use kvpaxos.Base.Results.{ok}
use kvpaxos.Text.{scan_int, to_string, is_int}
use kvpaxos.Text.RoundTrip.{scan_int-to_string, IsPrinted, to_string-IsPrinted}
use kvpaxos.Types.{RequestType, read, write, scan, sync, error, update, dummy, end}
use kvpaxos.Requests.{
  Text, Request, Fields, request_line, getline, scan_field, scan_next, sscanf_fields, make_request,
  import_cs_request, type_of_int, int_of_type,
}

getline-append : (cs rest : Text) → All IsPrinted cs → getline (cs ++ (10 ∷ rest)) ≡ (cs, rest)
unfolding getline
getline-append [] rest h = refl
getline-append (c ∷ cs) rest h =
    let e : (c == 10) ≡ false = ground arith in rw (e, getline-append cs rest h.1)

-- The line up to the newline.
abbrev fields_text : Request → Text
fields_text r =
    to_string (pos (int_of_type r.type))
    ++ (b',' ∷ (to_string r.key ++ (b',' ∷ (r.args ++ (b',' ∷ [])))))

fields_text-IsPrinted : (r : Request) → All IsPrinted r.args → All IsPrinted (fields_text r)
fields_text-IsPrinted r h =
    All-append IsPrinted (to_string (pos (int_of_type r.type))) _ (to_string-IsPrinted _) (
      omega arith,
      All-append IsPrinted (to_string r.key) _ (to_string-IsPrinted r.key)
          (omega arith, All-append IsPrinted r.args _ h (omega arith, tt)),
    )

request_line-getline :
    (r : Request) (file : Text)
    → All IsPrinted r.args
    → getline (request_line r ++ file) ≡ (fields_text r, file)
unfolding request_line
request_line-getline r file h =
    let e : request_line r ++ file ≡ fields_text r ++ (10 ∷ file) = simp append_assoc in
    rw e (getline-append (fields_text r) file (fields_text-IsPrinted r h))

scan_field-to_string :
    (z : ℤ) (rest : Text)
    → is_int z ≡ true
    → scan_field (to_string z ++ (b',' ∷ rest)) ≡ ok (some (z, b',' ∷ rest))
unfolding scan_field
scan_field-to_string z rest h = rw (scan_int-to_string z (b',' ∷ rest) refl, scan_field) (rw h)

type_of_int-int_of_type : (t : RequestType) → type_of_int (pos (int_of_type t)) ≡ some t
unfolding type_of_int
type_of_int-int_of_type read = refl
type_of_int-int_of_type write = refl
type_of_int-int_of_type scan = refl
type_of_int-int_of_type sync = refl
type_of_int-int_of_type error = refl
type_of_int-int_of_type update = refl
type_of_int-int_of_type dummy = refl
type_of_int-int_of_type end = refl

int_of_type-is_int : (t : RequestType) → is_int (pos (int_of_type t)) ≡ true
int_of_type-is_int read = refl
int_of_type-is_int write = refl
int_of_type-is_int scan = refl
int_of_type-is_int sync = refl
int_of_type-is_int error = refl
int_of_type-is_int update = refl
int_of_type-is_int dummy = refl
int_of_type-is_int end = refl

scan_field-comma : scan_field (b',' ∷ []) ≡ ok none
unfolding scan_field scan_int
scan_field-comma = refl

-- The type and the key of a request whose key is an `int`, and what is behind them.
abbrev fields_of : Request → ℤ → Fields
fields_of r arg = record { type = pos (int_of_type r.type); key = r.key; arg = arg }

sscanf_fields-number :
    (before : Fields) (r : Request) (z : ℤ)
    → is_int r.key ≡ true
    → is_int z ≡ true
    → r.args ≡ to_string z
    → sscanf_fields before (fields_text r) ≡ ok (fields_of r z)
unfolding sscanf_fields scan_next
sscanf_fields-number before r z h k e = rw (
  e,
  scan_field-to_string (pos (int_of_type r.type))
      (to_string r.key ++ (b',' ∷ (to_string z ++ (b',' ∷ [])))) (int_of_type-is_int r.type),
  scan_field-to_string r.key (to_string z ++ (b',' ∷ [])) h,
  scan_field-to_string z [] k,
)

sscanf_fields-nothing :
    (before : Fields) (r : Request)
    → is_int r.key ≡ true
    → r.args ≡ []
    → sscanf_fields before (fields_text r) ≡ ok (fields_of r before.arg)
unfolding sscanf_fields scan_next
sscanf_fields-nothing before r h e = rw (
  e,
  scan_field-to_string (pos (int_of_type r.type)) (to_string r.key ++ (b',' ∷ (b',' ∷ [])))
      (int_of_type-is_int r.type),
  scan_field-to_string r.key (b',' ∷ []) h,
  scan_field-comma,
)

-- The arguments that the generation writes, and the number that is read for them. Where there are
-- none, it is what the variable held before.
pub data Argument (before : Fields) : Text → ℤ → Type 0 where
  number : (z : ℤ) {args : Text} → is_int z ≡ true → args ≡ to_string z → Argument before args z
  nothing : {args : Text} → args ≡ [] → Argument before args before.arg

args-IsPrinted :
    {before : Fields} {args : Text} {z : ℤ} → Argument before args z → All IsPrinted args
args-IsPrinted (number z h e) = rw e (to_string-IsPrinted z)
args-IsPrinted (nothing e) = rw e tt

sscanf_fields-Argument :
    {before : Fields} {z : ℤ} (r : Request)
    → is_int r.key ≡ true
    → Argument before r.args z
    → sscanf_fields before (fields_text r) ≡ ok (fields_of r z)
sscanf_fields-Argument {before} r h (number z k e) = sscanf_fields-number before r z h k e
sscanf_fields-Argument {before} r h (nothing e) = sscanf_fields-nothing before r h e

-- The line of a request whose key is an `int`, whatever comes behind it in the file: reading it
-- gives the request's type and key and leaves what comes behind it. The arguments are those of the
-- request where they are a number, and the text of the uninitialised variable where there are none.
pub import_cs_request-request_line :
    (before : Fields) (r : Request) (z : ℤ) (file : Text)
    → is_int r.key ≡ true
    → Argument before r.args z
    → import_cs_request before (request_line r ++ file) ≡ ok (record r { args = to_string z }, file)
unfolding import_cs_request make_request
import_cs_request-request_line before r z file h a = rw (
  request_line-getline r file (args-IsPrinted a),
  sscanf_fields-Argument r h a,
  type_of_int-int_of_type r.type,
)
