-- ===== src/Replica/Report.antt =====
-- src/replica.cpp, `run`: the rows of `details.csv`, one for each repartitioning. Times are numbers;
-- the fraction that is printed is left out.
use kvpaxos.Base.{
  ℕ, suc, ◌≤◌, List, [], ◌∷◌, Option, none, some, length, ◌≡◌, refl, arith, ◌⊎◌, inl, inr, ap, map,
}
use kvpaxos.Base.Results.{Result, ok, undefined, ◌>>=◌}

-- An iterator over a vector is what it has before it; at the end it has nothing. `++` at the end is
-- undefined.
abbrev pub advance : List ℕ → Result (List ℕ)
advance [] = undefined
advance (x ∷ xs) = ok xs

-- What is printed: `none` stands for the -1 of a vector that is at its end.
abbrev pub current : List ℕ → Option ℕ
current [] = none
current (x ∷ xs) = some x

-- The iterators of the loop, or the vectors before it.
pub record Times : Type 0 where
  pub copy_time : List ℕ
  pub repartition_end : List ℕ
  pub repartition_request : List ℕ
  pub repartition_apply : List ℕ
  pub reconstruction : List ℕ

pub record Row : Type 0 where
  pub repartition_request_time : Option ℕ
  pub copy_time : Option ℕ
  pub repartition_begin_time : ℕ
  pub end_time : Option ℕ
  pub reconstruction_duration : Option ℕ
  pub repartition_apply_time : Option ℕ

unfoldable pub row_of : ℕ → Times → Row
row_of repartition_time t = record {
  repartition_request_time = current t.repartition_request;
  copy_time = current t.copy_time;
  repartition_begin_time = repartition_time;
  end_time = current t.repartition_end;
  reconstruction_duration = current t.reconstruction;
  repartition_apply_time = current t.repartition_apply;
}

unfoldable pub advance_all : Times → Result Times
advance_all t = advance t.repartition_request >>= λ request.
    advance t.repartition_apply >>= λ apply. advance t.copy_time >>= λ copy.
    advance t.repartition_end >>= λ end_. advance t.reconstruction >>= λ reconstruction.
    ok (record {
      copy_time = copy;
      repartition_end = end_;
      repartition_request = request;
      repartition_apply = apply;
      reconstruction = reconstruction;
    })

-- `for (auto& repartition_time : repartition_times)`
unfoldable pub report_rows : List ℕ → Times → Result (List Row)
unfolding row_of advance_all
report_rows [] t = ok []
report_rows (time ∷ times) t =
    advance_all t >>= λ u. report_rows times u >>= λ rows. ok (row_of time t ∷ rows)

-- No vector is shorter than `n`.
pub record Covers (n : ℕ) (t : Times) : Type 0 where
  pub copies : n ≤ length t.copy_time
  pub ends : n ≤ length t.repartition_end
  pub requests : n ≤ length t.repartition_request
  pub applies : n ≤ length t.repartition_apply
  pub reconstructions : n ≤ length t.reconstruction

-- The iterators after a round.
record Advanced (t : Times) : Type 0 where
  after : Times
  runs : advance_all t ≡ ok after
  widens : (n : ℕ) → Covers n after → Covers (suc n) t
  narrows : (n : ℕ) → Covers (suc n) t → Covers n after

advance-cases :
    (xs : List ℕ)
    → (advance xs ≡ undefined)
      ⊎ ((ys : List ℕ) × (advance xs ≡ ok ys) × (length xs ≡ suc (length ys)))
advance-cases [] = inl refl
advance-cases (x ∷ xs) = inr (xs, refl, refl)

advance_all-cases : (t : Times) → (advance_all t ≡ undefined) ⊎ Advanced t
unfolding advance_all
advance_all-cases t = elim (advance-cases t.repartition_request) [
  | inl e ↦ inl (rw e)
  | inr (request, e, p) ↦ elim (advance-cases t.repartition_apply) [
    | inl e1 ↦ inl (rw (e, e1))
    | inr (apply, e1, p1) ↦ elim (advance-cases t.copy_time) [
      | inl e2 ↦ inl (rw (e, e1, e2))
      | inr (copy, e2, p2) ↦ elim (advance-cases t.repartition_end) [
        | inl e3 ↦ inl (rw (e, e1, e2, e3))
        | inr (ends, e3, p3) ↦ elim (advance-cases t.reconstruction) [
          | inl e4 ↦ inl (rw (e, e1, e2, e3, e4))
          | inr (reconstruction, e4, p4) ↦ inr (record {
            after = record {
              copy_time = copy;
              repartition_end = ends;
              repartition_request = request;
              repartition_apply = apply;
              reconstruction = reconstruction;
            };
            runs = rw (e, e1, e2, e3, e4);
            widens = λ n c. record {
              copies = let h = c.copies in omega arith;
              ends = let h = c.ends in omega arith;
              requests = let h = c.requests in omega arith;
              applies = let h = c.applies in omega arith;
              reconstructions = let h = c.reconstructions in omega arith;
            };
            narrows = λ n c. record {
              copies = let h = c.copies in omega arith;
              ends = let h = c.ends in omega arith;
              requests = let h = c.requests in omega arith;
              applies = let h = c.applies in omega arith;
              reconstructions = let h = c.reconstructions in omega arith;
            };
          })
        ]
      ]
    ]
  ]
]

advances : (xs : List ℕ) (n : ℕ) → suc n ≤ length xs → (ys : List ℕ) × (advance xs ≡ ok ys)
advances [] n h = absurd (omega arith)
advances (x ∷ xs) n h = (xs, refl)

-- Where every vector has something, the round is done.
must_advance : (t : Times) (n : ℕ) → Covers (suc n) t → advance_all t ≡ undefined → ⊥
unfolding advance_all
must_advance t n c e =
    let (request, e0) = advances t.repartition_request n c.requests in
    let (apply, e1) = advances t.repartition_apply n c.applies in
    let (copy, e2) = advances t.copy_time n c.copies in
    let (ends, e3) = advances t.repartition_end n c.ends in
    let (reconstruction, e4) = advances t.reconstruction n c.reconstructions in
    let absurdity = rw (e0, e1, e2, e3, e4) at e in cc

report_rows-Covers :
    (times : List ℕ) (t : Times)
    → Covers (length times) t
    → (rows : List Row) × (report_rows times t ≡ ok rows)
      × (map (λ r. r.repartition_begin_time) rows ≡ times)
unfolding report_rows
report_rows-Covers [] t c = ([], refl, refl)
report_rows-Covers (time ∷ times) t c = elim (advance_all-cases t) [
  | inl e ↦ absurd (must_advance t (length times) c e)
  | inr a ↦
      let (rows, more, same) = report_rows-Covers times a.after (a.narrows (length times) c) in
      (row_of time t ∷ rows, rw (a.runs, more), ap (λ xs. time ∷ xs) same)
]

report_rows_short :
    (times : List ℕ) (t : Times) → ¬ Covers (length times) t → report_rows times t ≡ undefined
unfolding report_rows
report_rows_short [] t h = absurd (
    h (record {
      copies = omega arith;
      ends = omega arith;
      requests = omega arith;
      applies = omega arith;
      reconstructions = omega arith;
    }))
report_rows_short (time ∷ times) t h = elim (advance_all-cases t) [
  | inl e ↦ rw e
  | inr a ↦ rw (a.runs, report_rows_short times a.after (λ c. h (a.widens (length times) c)))
]

-- The report has a row for each repartitioning, in their order, where no vector of times is shorter
-- than that of the repartitionings; where one is, an iterator runs over its end, which is undefined.
pub report_rows_iff :
    (times : List ℕ) (t : Times)
    → (Covers (length times) t
        → (rows : List Row) × (report_rows times t ≡ ok rows)
          × (map (λ r. r.repartition_begin_time) rows ≡ times))
      × (¬ Covers (length times) t → report_rows times t ≡ undefined)
report_rows_iff times t = (report_rows-Covers times t, report_rows_short times t)
