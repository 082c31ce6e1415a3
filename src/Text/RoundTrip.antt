-- ===== src/Text/RoundTrip.antt =====
-- `std::stoi` and `%d` on what `std::to_string` writes.
use kvpaxos.Base.{
  ℕ, zero, suc, ◌+◌, ◌-◌, ◌*◌, ◌/◌, ◌%◌, ◌<◌, true, false, some, List, [], ◌∷◌, ◌++◌, ℤ, pos,
  negsuc, ◌≡◌, refl, arith, ltb, Bool-cases, inl, inr, ap, ◌∙◌, All, All-append, length,
  length-append, lt→ltb, ◌≤◌,
}
use mathlib.Core.List.{append_assoc, append-nil}
use kvpaxos.Text.{
  is_digit, scan_digits, unsigned, signed, skip_spaces, scan_int, stoi, is_int, digits, to_string,
}

-- The text does not go on with a digit.
abbrev pub Stops : List ℕ → Type 0
Stops [] = Unit {0}
Stops (c ∷ cs) = is_digit c ≡ false

scan_digits-Stops : (n : ℕ) (rest : List ℕ) → Stops rest → scan_digits n rest ≡ (n, rest)
unfolding scan_digits
scan_digits-Stops n [] h = refl
scan_digits-Stops n (c ∷ cs) h = rw h

scan_digits-digit :
    (n d : ℕ) (rest : List ℕ)
    → d < 10
    → scan_digits n ((b'0' + d) ∷ rest) ≡ scan_digits (n * 10 + d) rest
unfolding scan_digits
scan_digits-digit n d rest h =
    let digit : is_digit (b'0' + d) ≡ true = ground arith in
    let e : n * 10 + (b'0' + d - b'0') ≡ n * 10 + d = omega arith in rw (digit, e)

scan_digits-digits :
    (f n : ℕ) (rest : List ℕ) → n < f → scan_digits 0 (digits f n ++ rest) ≡ scan_digits n rest
unfolding digits
scan_digits-digits zero n rest h = elim h [ ]
scan_digits-digits (suc f) n rest h = elim (Bool-cases (ltb n 10)) [
  | inl small ↦
      rw small
        (scan_digits-digit 0 n rest (ground arith) ∙ ap (λ m. scan_digits m rest) (omega arith))
  | inr large ↦
      rw (large, append_assoc)
        (scan_digits-digits f (n / 10) ((b'0' + n % 10) ∷ rest) (ground arith)
          ∙ scan_digits-digit (n / 10) (n % 10) rest (omega arith)
          ∙ ap (λ m. scan_digits m rest) (omega arith))
]

-- A number's text begins with a digit.
record Begins (cs : List ℕ) : Type 0 where
  first : ℕ
  others : List ℕ
  splits : cs ≡ first ∷ others
  is_number : is_digit first ≡ true

digits-Begins : (f n : ℕ) → n < f → Begins (digits f n)
unfolding digits
digits-Begins zero n h = elim h [ ]
digits-Begins (suc f) n h = elim (Bool-cases (ltb n 10)) [
  | inl small ↦ record {
    first = b'0' + n;
    others = [];
    splits = rw small;
    is_number = ground arith;
  }
  | inr large ↦
      let b = digits-Begins f (n / 10) (ground arith) in
      record {
        first = b.first;
        others = b.others ++ (b'0' + n % 10) ∷ [];
        splits = rw large (rw b.splits);
        is_number = b.is_number;
      }
]

unsigned-digits :
    (f n : ℕ) (rest : List ℕ) → n < f → Stops rest → unsigned (digits f n ++ rest) ≡ some (n, rest)
unfolding unsigned
unsigned-digits f n rest h stops =
    let b = digits-Begins f n h in
    let e = scan_digits-digits f n rest h ∙ scan_digits-Stops n rest stops in
    ground (arith, e, b.splits, b.is_number)

signed-digits :
    (f n : ℕ) (rest : List ℕ)
    → n < f
    → Stops rest
    → signed (skip_spaces (digits f n ++ rest)) ≡ some (pos n, rest)
unfolding signed skip_spaces
signed-digits f n rest h stops =
    let b = digits-Begins f n h in
    ground (arith, unsigned-digits f n rest h stops, b.splits, b.is_number)

-- `%d` reads back what `std::to_string` wrote, and stops behind it.
pub scan_int-to_string :
    (z : ℤ) (rest : List ℕ) → Stops rest → scan_int (to_string z ++ rest) ≡ some (z, rest)
unfolding scan_int to_string
scan_int-to_string (pos n) rest stops = signed-digits (suc n) n rest (omega arith) stops
scan_int-to_string (negsuc n) rest stops =
    ground (arith, unsigned-digits (suc (suc n)) (suc n) rest (omega arith) stops)

pub stoi-to_string : (z : ℤ) → is_int z ≡ true → stoi (to_string z) ≡ some z
unfolding stoi
stoi-to_string z h = ground (arith, append-nil (to_string z), scan_int-to_string z [] tt)

-- Every byte of a number's text is beyond the control characters.
abbrev pub IsPrinted : ℕ → Type 0
IsPrinted c = 10 < c

digits-IsPrinted : (f n : ℕ) → All IsPrinted (digits f n)
unfolding digits
digits-IsPrinted zero n = tt
digits-IsPrinted (suc f) n = elim (Bool-cases (ltb n 10)) [
  | inl small ↦ rw small (omega arith, tt)
  | inr large ↦ rw large (
      All-append IsPrinted (digits f (n / 10)) ((b'0' + n % 10) ∷ []) (digits-IsPrinted f (n / 10))
        (omega arith, tt))
]

pub to_string-IsPrinted : (z : ℤ) → All IsPrinted (to_string z)
unfolding to_string
to_string-IsPrinted (pos n) = digits-IsPrinted (suc n) n
to_string-IsPrinted (negsuc n) = (omega arith, digits-IsPrinted (suc (suc n)) (suc n))

length-digits_step :
    (f n k : ℕ) → length (digits f (n / 10)) ≤ k → 1 ≤ k → length (digits (suc f) n) ≤ k + 1
unfolding digits
length-digits_step f n k h p =
    ground (arith, length-append (digits f (n / 10)) ((b'0' + n % 10) ∷ []))

length-digits_1 : (f n : ℕ) → n < 10 → length (digits f n) ≤ 1
unfolding digits
length-digits_1 zero n h = omega arith
length-digits_1 (suc f) n h = rw (lt→ltb n 10 h) (omega arith)

length-digits_2 : (f n : ℕ) → n < 100 → length (digits f n) ≤ 2
unfolding digits
length-digits_2 zero n h = omega arith
length-digits_2 (suc f) n h =
    length-digits_step f n 1 (length-digits_1 f (n / 10) (omega arith)) (omega arith)

-- A number of at most three digits has a text of at most three.
pub length-to_string : (n : ℕ) → n < 1000 → length (to_string (pos n)) ≤ 3
unfolding to_string digits
length-to_string n h =
    length-digits_step n n 2 (length-digits_2 n (n / 10) (omega arith)) (omega arith)
