-- ===== src/Replica/Messages.antt =====
-- `build_client_message` of src/replica.cpp, and its array of four bytes.
use mathlib.Core.List.{append_assoc, append-nil}
use kvpaxos.Base.{
  ℕ, zero, suc, ◌+◌, ◌<◌, ◌≤◌, List, [], ◌∷◌, ◌++◌, ℤ, pos, ◌+ℤ◌, none, some, length, length-append,
  drop, All, ◌≡◌, refl, arith, ◌==◌, false, ℕ_discrete,
}
use kvpaxos.Base.Results.{ok, undefined}
use kvpaxos.Text.{c_string}
use kvpaxos.Text.RoundTrip.{IsPrinted}
use kvpaxos.Types.{ClientMessage}
use kvpaxos.Requests.{Request}
use kvpaxos.Replica.{write_at, copy_args, build_client_message}

write_at-append :
    (pre : List ℕ) (c x : ℕ) (old : List ℕ)
    → write_at (length pre) c (pre ++ (x ∷ old)) ≡ some (pre ++ (c ∷ old))
unfolding write_at
write_at-append [] c x old = refl
write_at-append (p ∷ pre) c x old = rw (write_at-append pre c x old, write_at)

write_at_behind : (i c : ℕ) (array : List ℕ) → length array ≤ i → write_at i c array ≡ none
unfolding write_at
write_at_behind i c [] h = refl
write_at_behind zero c (x ∷ array) h = absurd (omega arith)
write_at_behind (suc i) c (x ∷ array) h = rw (write_at_behind i c array (omega arith), write_at)

length-drop : (n : ℕ) (xs : List ℕ) → n ≤ length xs → length (drop n xs) + n ≡ length xs
length-drop zero xs h = omega arith
length-drop (suc n) [] h = absurd (omega arith)
length-drop (suc n) (x ∷ xs) h = omega (arith, length-drop n xs (omega arith))

drop-cons :
    (n : ℕ) (xs : List ℕ) → n < length xs → (x : ℕ) × (rest : List ℕ) × (drop n xs ≡ x ∷ rest)
drop-cons n [] h = absurd (omega arith)
drop-cons zero (x ∷ xs) h = (x, xs, refl)
drop-cons (suc n) (x ∷ xs) h = drop-cons n xs (omega arith)

copy_args-append :
    (cs pre old : List ℕ)
    → length cs ≤ length old
    → copy_args (length pre) cs (pre ++ old) ≡ ok ((pre ++ cs) ++ drop (length cs) old)
unfolding copy_args
copy_args-append [] pre old h = rw append-nil
copy_args-append (c ∷ cs) pre [] h = absurd (omega arith)
copy_args-append (c ∷ cs) pre (x ∷ old) h =
    let i : length pre + 1 ≡ length (pre ++ c ∷ []) = omega (arith, length-append pre (c ∷ [])) in
    let more = copy_args-append cs (pre ++ c ∷ []) old (omega arith) in
    let e = append_assoc pre (c ∷ []) old in
    let e' = append_assoc pre (c ∷ []) cs in
    rw (write_at-append pre c x old, i) (rw (e, e') at more)

copy_args_overflow :
    (cs pre old : List ℕ)
    → length old < length cs
    → copy_args (length pre) cs (pre ++ old) ≡ undefined
unfolding copy_args
copy_args_overflow [] pre old h = absurd (omega arith)
copy_args_overflow (c ∷ cs) pre [] h =
    rw (append-nil pre, write_at_behind (length pre) c pre (omega arith))
copy_args_overflow (c ∷ cs) pre (x ∷ old) h =
    let i : length pre + 1 ≡ length (pre ++ c ∷ []) = omega (arith, length-append pre (c ∷ [])) in
    let more = copy_args_overflow cs (pre ++ c ∷ []) old (omega arith) in
    let e = append_assoc pre (c ∷ []) old in rw (write_at-append pre c x old, i) (rw e at more)

c_string-append : (cs rest : List ℕ) → All IsPrinted cs → c_string (cs ++ (0 ∷ rest)) ≡ some cs
unfolding c_string
c_string-append [] rest h = refl
c_string-append (c ∷ cs) rest h =
    let e : (c == 0) ≡ false = ground arith in rw (e, c_string-append cs rest h.1)

-- The message that is made of a request.
pub record Built (id : ℤ) (r : Request) (m : ClientMessage) : Type 0 where
  pub key : m.key ≡ r.key
  pub type : m.type ≡ r.type
  pub numbered : m.id ≡ id
  pub text : c_string m.args ≡ some r.args

-- Of a request whose arguments are printed characters: where they are at most three, the message has
-- the request's type and key, the next number, and the arguments as a text that ends with a NUL; and
-- where they are more, the copy runs over the end of the array of four bytes.
pub build_client_message-Built :
    (garbage : ClientMessage) (id : ℤ) (r : Request)
    → length garbage.args ≡ 4
    → All IsPrinted r.args
    → (length r.args < 4
        → (m : ClientMessage) × (build_client_message garbage id r ≡ ok (m, id +ℤ pos 1))
          × Built id r m)
      × (4 ≤ length r.args → build_client_message garbage id r ≡ undefined)
unfolding build_client_message
build_client_message-Built garbage id r four printed = (fits, runs_over)
  where
    fits :
        length r.args < 4
        → (m : ClientMessage) × (build_client_message garbage id r ≡ ok (m, id +ℤ pos 1))
          × Built id r m
    fits h =
        let copied = copy_args-append r.args [] garbage.args (omega arith) in
        let (x, rest, e) = drop-cons (length r.args) garbage.args (omega arith) in
        let ended = write_at-append r.args 0 x rest in
        (
          record garbage {
            sin_port = 0;
            id = id;
            type = r.type;
            key = r.key;
            args = r.args ++ (0 ∷ rest);
            size = length r.args;
          },
          rw copied (rw e (rw ended)),
          record {
            key = refl;
            type = refl;
            numbered = refl;
            text = c_string-append r.args rest printed;
          },
        )

    runs_over : 4 ≤ length r.args → build_client_message garbage id r ≡ undefined
    runs_over h = elim (ℕ_discrete (length r.args) 4) [
      | yes e ↦
          let copied = copy_args-append r.args [] garbage.args (omega arith) in
          let len : length (r.args ++ drop (length r.args) garbage.args) ≤ length r.args = omega (
            arith,
            length-append r.args (drop (length r.args) garbage.args),
            length-drop (length r.args) garbage.args (omega arith),
          ) in
          rw copied (rw (write_at_behind (length r.args) 0 _ len))
      | no other ↦ rw (copy_args_overflow r.args [] garbage.args (omega arith))
    ]
