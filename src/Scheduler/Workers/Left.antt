-- ===== src/Scheduler/Workers/Left.antt =====
-- Lists of actions that are left: which action a worker has to do first, and what remains when that
-- is taken out.
use mathlib.Core.List.{append_assoc}
use kvpaxos.Base.{
  ℕ, Bool, true, false, List, [], ◌∷◌, ◌++◌, ◌≡◌, refl, sym, ap, subst, arith, ◌==◌, All,
  Bool-cases, inl, inr,
}
use kvpaxos.Types.{ClientMessage}
use kvpaxos.Scheduler.{Action, push, sync, contains}
use kvpaxos.Scheduler.Order.{covers, some_of, Apart, Runs, stop, next}
use kvpaxos.Scheduler.Workers.{Item, meet}
use kvpaxos.Scheduler.Workers.Views.{item_of, queue_of}

-- The first action of `left` that concerns `q`.
pub record First (q : ℕ) (i : Item) (rest : List Item) (left : List Action) : Type 0 where
  pub before : List Action
  pub action : Action
  pub behind : List Action
  pub split : left ≡ before ++ action ∷ behind
  pub apart : All (λ c. covers c q ≡ false) before
  pub covered : covers action q ≡ true
  pub item : item_of action ≡ i
  pub others : queue_of q (before ++ behind) ≡ rest

cons_head : {x y : Item} {xs ys : List Item} → x ∷ xs ≡ y ∷ ys → x ≡ y
cons_head e = cc

cons_tail : {x y : Item} {xs ys : List Item} → x ∷ xs ≡ y ∷ ys → xs ≡ ys
cons_tail e = cc

pub first_of :
    (q : ℕ) (i : Item) (rest : List Item) (left : List Action)
    → queue_of q left ≡ i ∷ rest
    → First q i rest left
first_of q i rest [] e = absurd (cc)
first_of q i rest (c ∷ left) e = elim (Bool-cases (covers c q)) [
  | inl y ↦
      let e' = rw y at e in
      record {
        before = [];
        action = c;
        behind = left;
        split = refl;
        apart = tt;
        covered = y;
        item = cons_head e';
        others = cons_tail e';
      }
  | inr n ↦
      let f = first_of q i rest left (rw n at e) in
      record {
        before = c ∷ f.before;
        action = f.action;
        behind = f.behind;
        split = ap (λ x. c ∷ x) f.split;
        apart = (n, f.apart);
        covered = f.covered;
        item = f.item;
        others = rw n (f.others);
      }
]

abbrev pub is_barrier : ℕ → Action → Bool
is_barrier b (push p m) = false
is_barrier b (sync c ps) = c == b

abbrev pub AreOthers : ℕ → List Action → Type 0
AreOthers b es = All (λ c. is_barrier b c ≡ false) es

-- No two are at one barrier.
abbrev pub Unique : List Action → Type 0
Unique [] = Unit {0}
Unique (push p m ∷ es) = Unique es
Unique (sync b ps ∷ es) = AreOthers b es × Unique es

pub All-remove :
    (P : Action → Type 0) (xs : List Action) (e : Action) (ys : List Action)
    → All P (xs ++ e ∷ ys)
    → All P xs × P e × All P ys
All-remove P [] e ys h = (tt, h.0, h.1)
All-remove P (x ∷ xs) e ys h =
    let (before, here, behind) = All-remove P xs e ys h.1 in ((h.0, before), here, behind)

pub All-join : (P : Action → Type 0) (xs ys : List Action) → All P xs → All P ys → All P (xs ++ ys)
All-join P [] ys h k = k
All-join P (x ∷ xs) ys h k = (h.0, All-join P xs ys h.1 k)

pub All-each :
    (P Q : Action → Type 0) (xs : List Action) → ((x : Action) → P x → Q x) → All P xs → All Q xs
All-each P Q [] f h = tt
All-each P Q (x ∷ xs) f h = (f x h.0, All-each P Q xs f h.1)

pub Unique-split :
    (xs : List Action) (b : ℕ) (ps : List ℕ) (ys : List Action)
    → Unique (xs ++ sync b ps ∷ ys)
    → AreOthers b xs × AreOthers b ys
Unique-split [] b ps ys u = (tt, u.0)
Unique-split (push p m ∷ xs) b ps ys u =
    let (before, behind) = Unique-split xs b ps ys u in ((refl, before), behind)
Unique-split (sync c qs ∷ xs) b ps ys u =
    let (before, behind) = Unique-split xs b ps ys u.1 in
    let (x, here, y) = All-remove (λ d. is_barrier c d ≡ false) xs (sync b ps) ys u.0 in
    ((ground (arith, here), before), behind)

pub Unique-remove :
    (xs : List Action) (e : Action) (ys : List Action) → Unique (xs ++ e ∷ ys) → Unique (xs ++ ys)
Unique-remove [] (push p m) ys u = u
Unique-remove [] (sync b ps) ys u = u.1
Unique-remove (push p m ∷ xs) e ys u = Unique-remove xs e ys u
Unique-remove (sync b ps ∷ xs) e ys u =
    let (before, here, behind) = All-remove (λ d. is_barrier b d ≡ false) xs e ys u.0 in
    (All-join (λ d. is_barrier b d ≡ false) xs ys before behind, Unique-remove xs e ys u.1)

pub Unique-push :
    (xs : List Action) (p : ℕ) (m : ClientMessage) → Unique xs → Unique (xs ++ push p m ∷ [])
Unique-push [] p m u = tt
Unique-push (push q n ∷ xs) p m u = Unique-push xs p m u
Unique-push (sync b ps ∷ xs) p m u = (
  All-join (λ d. is_barrier b d ≡ false) xs (push p m ∷ []) u.0 (refl, tt),
  Unique-push xs p m u.1,
)

pub Unique-sync :
    (xs : List Action) (b : ℕ) (ps : List ℕ)
    → AreOthers b xs
    → Unique xs
    → Unique (xs ++ sync b ps ∷ [])
Unique-sync [] b ps o u = (tt, tt)
Unique-sync (push q n ∷ xs) b ps o u = Unique-sync xs b ps o.1 u
Unique-sync (sync c qs ∷ xs) b ps o u = (
  All-join (λ d. is_barrier c d ≡ false) xs (sync b ps ∷ []) u.0 (ground (arith, o.0), tt),
  Unique-sync xs b ps o.1 u.1,
)

-- A worker whose first item is a barrier is one of those that meet there.
pub meet_first :
    (xs : List Action) (b : ℕ) (ps : List ℕ) (ys : List Action) (q : ℕ) (rest : List Item)
    → AreOthers b xs
    → AreOthers b ys
    → queue_of q (xs ++ sync b ps ∷ ys) ≡ meet b ∷ rest
    → All (λ c. covers c q ≡ false) xs × (contains q ps ≡ true) × (queue_of q (xs ++ ys) ≡ rest)
meet_first xs b ps ys q rest o o' e = go xs o e
  where
    meet_injective : {b c : ℕ} → meet b ≡ meet c → b ≡ c
    meet_injective e = cc

    other : (c : Action) → is_barrier b c ≡ false → item_of c ≡ meet b → ⊥
    other (push p m) h i = cc
    other (sync c qs) h i = let e : c ≡ b = meet_injective i in absurd (ground (arith, e, h))

    none : (zs : List Action) → AreOthers b zs → queue_of q zs ≡ meet b ∷ rest → ⊥
    none zs o e =
        let f = first_of q (meet b) rest zs e in
        let (x, here, y) =
          All-remove (λ c. is_barrier b c ≡ false) f.before f.action f.behind
            (subst (AreOthers b) f.split o) in
        other f.action here f.item

    go :
        (zs : List Action)
        → AreOthers b zs
        → queue_of q (zs ++ sync b ps ∷ ys) ≡ meet b ∷ rest
        → All (λ c. covers c q ≡ false) zs × (contains q ps ≡ true) × (queue_of q (zs ++ ys) ≡ rest)
    go [] o e = elim (Bool-cases (contains q ps)) [
      | inl y ↦ (tt, y, cons_tail (rw y at e))
      | inr n ↦ absurd (none ys o' (rw n at e))
    ]
    go (z ∷ zs) o e = elim (Bool-cases (covers z q)) [
      | inl y ↦ absurd (other z o.0 (cons_head (rw y at e)))
      | inr n ↦ let (apart, inside, same) = go zs o.1 (rw n at e) in ((n, apart), inside, rw n same)
    ]

pub queue_of_without :
    (q : ℕ) (xs : List Action) (e : Action) (ys : List Action)
    → covers e q ≡ false
    → queue_of q (xs ++ e ∷ ys) ≡ queue_of q (xs ++ ys)
queue_of_without q [] e ys n = rw n refl
queue_of_without q (x ∷ xs) e ys n = ground (arith, queue_of_without q xs e ys n)

-- One more action is done, after those that are done.
pub Runs_then :
    {all done left : List Action} (xs : List Action) (e : Action) (ys : List Action)
    → Runs all done left
    → left ≡ xs ++ e ∷ ys
    → All (Apart e) xs
    → Runs all (done ++ e ∷ []) (xs ++ ys)
Runs_then xs e ys (stop left) s a =
    subst (λ all. Runs all (e ∷ []) (xs ++ ys)) (sym s) (next xs e ys a (stop (xs ++ ys)))
Runs_then xs e ys (next xs' c ys' a' r) s a = next xs' c ys' a' (Runs_then xs e ys r s a)

-- One more action is to be done, after all.
pub Runs_more :
    {all done left : List Action} (e : Action)
    → Runs all done left
    → Runs (all ++ e ∷ []) done (left ++ e ∷ [])
Runs_more e (stop left) = stop (left ++ e ∷ [])
Runs_more e (next xs c ys {done = done} {left = left} a r) =
    subst (λ all. Runs all (c ∷ done) (left ++ e ∷ [])) (sym (append_assoc xs (c ∷ ys) (e ∷ [])))
      (next xs c (ys ++ e ∷ []) a (
        subst (λ all. Runs all done (left ++ e ∷ [])) (append_assoc xs ys (e ∷ []))
          (Runs_more e r)))

-- Those that meet are apart from an action that none of them has before.
pub Apart-sync :
    (b : ℕ) (ps : List ℕ) (xs : List Action)
    → ((q : ℕ) → contains q ps ≡ true → All (λ c. covers c q ≡ false) xs)
    → All (Apart (sync b ps)) xs
Apart-sync b ps [] h = tt
Apart-sync b ps (x ∷ xs) h = (nobody x ps (λ q i. (h q i).0), Apart-sync b ps xs (λ q i. (h q i).1))
  where
    nobody :
        (c : Action) (qs : List ℕ)
        → ((q : ℕ) → contains q qs ≡ true → covers c q ≡ false)
        → some_of (covers c) qs ≡ false
    nobody c [] h = refl
    nobody c (q ∷ qs) h =
        let here = h q (ground arith) in rw here (nobody c qs (λ r i. h r (ground (arith, i))))
