-- ===== src/Replica/Arrival.antt =====
-- The requests of a file as src/replica.cpp reads them, and the message of each.
use kvpaxos.Base.{
  ℕ, zero, suc, ◌+◌, ◌<◌, ◌≤◌, List, [], ◌∷◌, ◌++◌, ℤ, pos, ◌+ℤ◌, length, ◌≡◌, refl, arith, true,
  ◌⊎◌, inl, inr, dec_lt,
}
use kvpaxos.Base.Results.{undefined}
use kvpaxos.Base.Runs.{finished, returns}
use kvpaxos.Text.{to_string, is_int}
use kvpaxos.Text.RoundTrip.{to_string-IsPrinted}
use kvpaxos.Types.{ClientMessage}
use kvpaxos.Requests.{Text, Request, request_line, export_text, int_of_type}
use kvpaxos.Requests.Lines.{Argument, import_cs_request-request_line}
use kvpaxos.Replica.{Stack, read_messages}
use kvpaxos.Replica.Messages.{Built, build_client_message-Built}

-- A request whose key is an `int`, in the round that reads it; `number` is what is read for its
-- arguments.
pub record Read (stack : Stack) (round : ℕ) (r : Request) : Type 0 where
  pub key : is_int r.key ≡ true
  pub number : ℤ
  pub argument : Argument (stack.fields round) r.args number
  pub array : length (stack.message round).args ≡ 4

-- The text of the number has at most three characters.
abbrev pub Fits : {stack : Stack} {round : ℕ} {r : Request} → Read stack round r → Type 0
Fits read = length (to_string read.number) < 4

pub data AllRead (stack : Stack) : ℕ → List Request → Type 0 where
  none_read : (round : ℕ) → AllRead stack round []
  one_read :
      {round : ℕ} {r : Request} {rs : List Request}
      → Read stack round r
      → AllRead stack (round + 1) rs
      → AllRead stack round (r ∷ rs)

-- And every text fits.
pub data AllReadable (stack : Stack) : ℕ → List Request → Type 0 where
  none_left : (round : ℕ) → AllReadable stack round []
  readable :
      {round : ℕ} {r : Request} {rs : List Request} (read : Read stack round r)
      → Fits read
      → AllReadable stack (round + 1) rs
      → AllReadable stack round (r ∷ rs)

-- Some request has a longer text, and those before it are readable.
pub data Overlong (stack : Stack) : ℕ → List Request → Type 0 where
  too_long :
      {round : ℕ} {r : Request} {rs : List Request} (read : Read stack round r)
      → 4 ≤ length (to_string read.number)
      → Overlong stack round (r ∷ rs)
  later :
      {round : ℕ} {r : Request} {rs : List Request} (read : Read stack round r)
      → Fits read
      → Overlong stack (round + 1) rs
      → Overlong stack round (r ∷ rs)

-- The messages of requests, from a number and a round on. The text of a message is that of the
-- number that was read.
pub data Arrived (stack : Stack) : ℕ → ℤ → List Request → List ClientMessage → Type 0 where
  none_arrived : (round : ℕ) (id : ℤ) → Arrived stack round id [] []
  arrived :
      {round : ℕ} {id : ℤ} {r : Request} {m : ClientMessage} {rs : List Request}
      {ms : List ClientMessage} (number : ℤ)
      → Argument (stack.fields round) r.args number
      → Built id (record r { args = to_string number }) m
      → Arrived stack (round + 1) (id +ℤ pos 1) rs ms
      → Arrived stack round id (r ∷ rs) (m ∷ ms)

append-cons :
    (xs : Text) (c : ℕ) (ys file : Text)
    → (d : ℕ) × (ds : Text) × ((xs ++ (c ∷ ys)) ++ file ≡ d ∷ ds)
append-cons [] c ys file = (c, ys ++ file, refl)
append-cons (x ∷ xs) c ys file = (x, (xs ++ (c ∷ ys)) ++ file, refl)

request_line-cons :
    (r : Request) (file : Text) → (c : ℕ) × (cs : Text) × (request_line r ++ file ≡ c ∷ cs)
unfolding request_line
request_line-cons r file = append-cons (to_string (pos (int_of_type r.type))) b',' _ file

pub all-Arrived :
    (stack : Stack) (fuel round : ℕ) (id : ℤ) (rs : List Request)
    → length rs < fuel
    → AllReadable stack round rs
    → (ms : List ClientMessage) × (read_messages stack fuel round id (export_text rs) ≡ returns ms)
      × Arrived stack round id rs ms
unfolding read_messages export_text
all-Arrived stack zero round id rs h a = elim h [ ]
all-Arrived stack (suc fuel) round id [] h a = ([], refl, none_arrived round id)
all-Arrived stack (suc fuel) round id (r ∷ rs) h (readable here fits rest) =
    let (c, cs, e) = request_line-cons r (export_text rs) in
    let line =
      import_cs_request-request_line (stack.fields round) r here.number (export_text rs) here.key
        here.argument in
    let (m, made, built) =
      (build_client_message-Built (stack.message round) id
          (record r { args = to_string here.number }) here.array
          (to_string-IsPrinted here.number)).0
        fits in
    let (ms, more, all) = all-Arrived stack fuel (round + 1) (id +ℤ pos 1) rs (omega arith) rest in
    (
      m ∷ ms,
      rw (e, read_messages) (rw (rw e at line) (rw made (rw more))),
      arrived here.number here.argument built all,
    )

one-Overlong :
    (stack : Stack) (fuel round : ℕ) (id : ℤ) (rs : List Request)
    → length rs < fuel
    → Overlong stack round rs
    → read_messages stack fuel round id (export_text rs) ≡ finished undefined
unfolding read_messages export_text
one-Overlong stack zero round id rs h o = elim h [ ]
one-Overlong stack (suc fuel) round id [] h o = elim o [ ]
one-Overlong stack (suc fuel) round id (r ∷ rs) h (too_long here long) =
    let (c, cs, e) = request_line-cons r (export_text rs) in
    let line =
      import_cs_request-request_line (stack.fields round) r here.number (export_text rs) here.key
        here.argument in
    let over =
      (build_client_message-Built (stack.message round) id
          (record r { args = to_string here.number }) here.array
          (to_string-IsPrinted here.number)).1
        long in
    rw (e, read_messages) (rw (rw e at line) (rw over refl))
one-Overlong stack (suc fuel) round id (r ∷ rs) h (later here fits rest) =
    let (c, cs, e) = request_line-cons r (export_text rs) in
    let line =
      import_cs_request-request_line (stack.fields round) r here.number (export_text rs) here.key
        here.argument in
    let (m, made, built) =
      (build_client_message-Built (stack.message round) id
          (record r { args = to_string here.number }) here.array
          (to_string-IsPrinted here.number)).0
        fits in
    let more = one-Overlong stack fuel (round + 1) (id +ℤ pos 1) rs (omega arith) rest in
    rw (e, read_messages) (rw (rw e at line) (rw made (rw more refl)))

fits_or_not :
    {stack : Stack} {round : ℕ} {rs : List Request}
    → AllRead stack round rs
    → AllReadable stack round rs ⊎ Overlong stack round rs
fits_or_not (none_read round) = inl (none_left round)
fits_or_not (one_read read rest) = elim (dec_lt (length (to_string read.number)) 4) [
  | no long ↦ inr (too_long read (omega arith))
  | yes fits ↦ elim (fits_or_not rest) [
    | inl all ↦ inl (readable read fits all)
    | inr long ↦ inr (later read fits long)
  ]
]

-- Of a file that the generation wrote, with keys that are `int`. What is read for the arguments of a
-- request is a number: that of the arguments where they are one, and whatever the uninitialised
-- variable holds in that round where there are none, as of a READ or WRITE. Either the texts of these
-- numbers have at most three characters, and the replica reads the file to its end, and has for each
-- request, in their order, a message of its type and key, numbered from `id` on, with the text of the
-- number; or some text has four or more, and the behaviour is undefined.
pub read_messages-Arrived :
    (stack : Stack) (fuel round : ℕ) (id : ℤ) (rs : List Request)
    → length rs < fuel
    → AllRead stack round rs
    → (AllReadable stack round rs
        × ((ms : List ClientMessage) × (read_messages stack fuel round id (export_text rs)
              ≡ returns ms)
            × Arrived stack round id rs ms))
      ⊎ (Overlong stack round rs
          × (read_messages stack fuel round id (export_text rs) ≡ finished undefined))
read_messages-Arrived stack fuel round id rs h a = elim (fits_or_not a) [
  | inl fits ↦ inl (fits, all-Arrived stack fuel round id rs h fits)
  | inr long ↦ inr (long, one-Overlong stack fuel round id rs h long)
]
