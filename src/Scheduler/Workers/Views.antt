-- ===== src/Scheduler/Workers/Views.antt =====
-- What a worker has still to do, as the queue and the worker's state show it, and as the actions that
-- are left do.
use kvpaxos.Base.{
  ℕ, suc, ◌+◌, ◌<◌, Bool, true, false, List, [], ◌∷◌, ◌++◌, ◌≡◌, refl, arith, ◌==◌, if◌then◌else◌,
  Bool-cases, inl, inr, length, map,
}
use kvpaxos.Scheduler.{Action, push, sync, contains}
use kvpaxos.Scheduler.Order.{covers}
use kvpaxos.Scheduler.Workers.{
  Item, request, meet, pushes, Status, ready, serving, waiting, set_at, AllDistinct,
}

-- The pushes into one queue.
abbrev pub for_worker : ℕ → List (ℕ × Item) → List Item
for_worker q [] = []
for_worker q (x ∷ xs) = if q == x.0 then x.1 ∷ for_worker q xs else for_worker q xs

abbrev pub item_of : Action → Item
item_of (push p m) = request m
item_of (sync b ps) = meet b

-- What the actions put into one queue.
abbrev pub queue_of : ℕ → List Action → List Item
queue_of q [] = []
queue_of q (e ∷ es) = if covers e q then item_of e ∷ queue_of q es else queue_of q es

-- A worker that serves, or stands at a barrier that others have still to come to, has not done what
-- it has taken.
abbrev pub undone : (ℕ → ℕ) → Status → List Item → List Item
undone missing ready queue = queue
undone missing (serving m) queue = request m ∷ queue
undone missing (waiting b) queue = if missing b == 0 then queue else meet b ∷ queue

abbrev pub is_at : ℕ → Status → Bool
is_at b ready = false
is_at b (serving m) = false
is_at b (waiting c) = c == b

-- How many of the partitions have not come to the barrier.
abbrev pub absent : (ℕ → Status) → ℕ → List ℕ → ℕ
absent status b [] = 0
absent status b (p ∷ ps) =
    if is_at b (status p) then absent status b ps else suc (absent status b ps)

pub absent-same :
    (status status' : ℕ → Status) (b : ℕ) (ps : List ℕ)
    → ((p : ℕ) → is_at b (status p) ≡ is_at b (status' p))
    → absent status b ps ≡ absent status' b ps
absent-same status status' b [] h = refl
absent-same status status' b (p ∷ ps) h = ground (arith, h p, absent-same status status' b ps h)

-- One that comes to the barrier and is not of the set does not count.
absent_other :
    (status : ℕ → Status) (b p : ℕ) (ps : List ℕ) (s : Status)
    → contains p ps ≡ false
    → absent (set_at p s status) b ps ≡ absent status b ps
absent_other status b p [] s h = refl
absent_other status b p (q ∷ ps) s h = ground (arith, absent_other status b p ps s (ground arith))

pub absent_fewer :
    (status : ℕ → Status) (b p : ℕ) (ps : List ℕ)
    → AllDistinct ps
    → contains p ps ≡ true
    → status p ≡ ready
    → absent (set_at p (waiting b) status) b ps + 1 ≡ absent status b ps
absent_fewer status b p [] d c r = absurd (cc)
absent_fewer status b p (q ∷ ps) d c r = elim (Bool-cases (p == q)) [
  | inl same ↦
      let e : p ≡ q = ground arith in
      let other = absent_other status b p ps (waiting b) (rw e d.0) in ground (arith, other, e, r)
  | inr apart ↦ let rest = absent_fewer status b p ps d.1 (ground arith) r in ground (arith, rest)
]

pub absent_none :
    (status : ℕ → Status) (b p : ℕ) (ps : List ℕ)
    → absent status b ps ≡ 0
    → contains p ps ≡ true
    → is_at b (status p) ≡ true
absent_none status b p [] z c = absurd (cc)
absent_none status b p (q ∷ ps) z c = elim (Bool-cases (is_at b (status q))) [
  | inl here ↦
      let rest = absent_none status b p ps (ground arith) in
      elim (Bool-cases (p == q)) [
        | inl same ↦ let e : p ≡ q = ground arith in rw e here
        | inr apart ↦ rest (ground arith)
      ]
  | inr away ↦ absurd (ground arith)
]

-- And where one is missing, it can be found.
pub absent_some :
    (status : ℕ → Status) (b : ℕ) (ps : List ℕ)
    → 0 < absent status b ps
    → (p : ℕ) × (contains p ps ≡ true) × (is_at b (status p) ≡ false)
absent_some status b [] h = absurd (omega (arith, h))
absent_some status b (q ∷ ps) h = elim (Bool-cases (is_at b (status q))) [
  | inl here ↦
      let (p, inside, away) = absent_some status b ps (ground arith) in (p, ground arith, away)
  | inr away ↦ (q, ground arith, away)
]

pub absent_all :
    (status : ℕ → Status) (b : ℕ) (ps : List ℕ)
    → ((p : ℕ) → is_at b (status p) ≡ false)
    → absent status b ps ≡ length ps
absent_all status b [] h = refl
absent_all status b (p ∷ ps) h = ground (arith, h p, absent_all status b ps h)

-- The pushes of an action are what it puts into the queues.
for_worker_none :
    (b q : ℕ) (ps : List ℕ) → contains q ps ≡ false → for_worker q (map (λ p. (p, meet b)) ps) ≡ []
for_worker_none b q [] h = refl
for_worker_none b q (p ∷ ps) h = ground (arith, for_worker_none b q ps (ground arith))

for_worker_sync :
    (b q : ℕ) (ps : List ℕ)
    → AllDistinct ps
    → for_worker q (map (λ p. (p, meet b)) ps) ≡ (if contains q ps then meet b ∷ [] else [])
for_worker_sync b q [] d = refl
for_worker_sync b q (p ∷ ps) d = elim (Bool-cases (q == p)) [
  | inl same ↦ let e : q ≡ p = ground arith in ground (arith, for_worker_none b q ps (rw e d.0))
  | inr apart ↦ ground (arith, for_worker_sync b q ps d.1)
]

abbrev pub HasDistinct : Action → Type 0
HasDistinct (push p m) = Unit {0}
HasDistinct (sync b ps) = AllDistinct ps

pub for_worker-pushes :
    (q : ℕ) (e : Action) → HasDistinct e → for_worker q (pushes e) ≡ queue_of q (e ∷ [])
for_worker-pushes q (push p m) h = refl
for_worker-pushes q (sync b ps) h = for_worker_sync b q ps h

pub queue_of-append :
    (q : ℕ) (xs ys : List Action) → queue_of q (xs ++ ys) ≡ queue_of q xs ++ queue_of q ys
queue_of-append q [] ys = refl
queue_of-append q (x ∷ xs) ys = ground (arith, queue_of-append q xs ys)
