-- ===== src/Text.antt =====
-- What the program uses of the C and C++ libraries' text functions: C strings, `std::stoi`,
-- `std::to_string` and the `%d` of `sscanf`. A text is the list of its bytes.
pub mod RoundTrip
use kvpaxos.Base.{
  ℕ, zero, suc, ◌+◌, ◌-◌, ◌*◌, ◌/◌, ◌%◌, ◌^◌, Bool, ◌&&◌, ◌||◌, Option, none, some, List, [], ◌∷◌,
  ◌++◌, ℤ, pos, negsuc, ltb, leb, ◌==◌, if◌then◌else◌, ◌>>=◌, leb_ℤ,
}

-- The text up to the NUL; `none` where the array holds no NUL, and the read runs on behind it.
unfoldable pub c_string : List ℕ → Option (List ℕ)
c_string [] = none
c_string (c ∷ cs) =
    let rest = c_string cs in if c == 0 then some [] else (rest >>= λ r. some (c ∷ r))

abbrev pub is_digit : ℕ → Bool
is_digit c = leb b'0' c && leb c b'9'

unfoldable pub is_space : ℕ → Bool
is_space c = c == b' ' || (leb 9 c && leb c 13)

unfoldable pub skip_spaces : List ℕ → List ℕ
unfolding is_space
skip_spaces [] = []
skip_spaces (c ∷ cs) = if is_space c then skip_spaces cs else c ∷ cs

-- Digits up to the first other byte, and what follows.
unfoldable pub scan_digits : ℕ → List ℕ → ℕ × List ℕ
scan_digits n [] = (n, [])
scan_digits n (c ∷ cs) =
    let more = scan_digits (n * 10 + (c - b'0')) cs in if is_digit c then more else (n, c ∷ cs)

-- At least one digit.
unfoldable pub unsigned : List ℕ → Option (ℕ × List ℕ)
unfolding scan_digits
unsigned [] = none
unsigned (c ∷ cs) = if is_digit c then some (scan_digits 0 (c ∷ cs)) else none

unfoldable pub negate : ℕ → ℤ
negate zero = pos 0
negate (suc n) = negsuc n

unfoldable pub signed : List ℕ → Option (ℤ × List ℕ)
unfolding unsigned negate
signed [] = none
signed (c ∷ cs) =
    if c == b'-'
    then unsigned cs >>= (λ r. some (negate r.0, r.1))
    else if c == b'+'
    then unsigned cs >>= (λ r. some (pos r.0, r.1))
    else (unsigned (c ∷ cs) >>= λ r. some (pos r.0, r.1))

-- `%d`: an integer at the start of a text, and the text behind it.
unfoldable pub scan_int : List ℕ → Option (ℤ × List ℕ)
unfolding skip_spaces signed
scan_int cs = signed (skip_spaces cs)

abbrev pub is_int : ℤ → Bool
is_int z = leb_ℤ (negsuc (2 ^ 31 - 1)) z && leb_ℤ z (pos (2 ^ 31 - 1))

-- `none` is `std::invalid_argument` or `std::out_of_range`.
unfoldable pub stoi : List ℕ → Option ℤ
unfolding scan_int
stoi cs = scan_int cs >>= λ r. if is_int r.0 then some r.0 else none

-- The first argument bounds the number of digits.
digits : ℕ → ℕ → List ℕ
digits zero n = []
digits (suc f) n =
    let front = digits f (n / 10) in
    if ltb n 10 then (b'0' + n) ∷ [] else front ++ (b'0' + n % 10) ∷ []

unfoldable pub decimal : ℕ → List ℕ
unfolding digits
decimal n = digits (suc n) n

unfoldable pub to_string : ℤ → List ℕ
unfolding decimal
to_string (pos n) = decimal n
to_string (negsuc n) = b'-' ∷ decimal (suc n)
