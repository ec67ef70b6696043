-- ===== src/RunQueue/Order.antt =====
-- kernel/sched.c: the order of a run queue, and where `runq_push` places a thread.
use bunix.Common.{
  ℕ, ◌+◌, ◌≡◌, refl, ap, Bool, true, false, List, [], ◌∷◌, ◌++◌, ◌==◌, if◌then◌else◌, arith,
  Bool-cases, inl, inr,
}
use bunix.RunQueue.{Thread, after, place, last_thread}

-- A thread that goes behind another one does not go before it.
after_asym : (t q : Thread) → after t q ≡ true → after q t ≡ false
unfolding after
after_asym t q h = ground (arith, h)

-- What does not go behind `q`, which does not go behind `x`, does not go behind `x`.
after_trans : (t q x : Thread) → after t q ≡ false → after q x ≡ false → after t x ≡ false
unfolding after
after_trans t q x h k = ground (arith, h, k)

-- What goes behind `t`, behind which no `b` goes.
after_mono : (x t b : Thread) → after x t ≡ true → after b t ≡ false → after x b ≡ true
unfolding after
after_mono x t b h k = ground (arith, h, k)

-- `t` goes behind none of the threads.
abbrev pub Before : Thread → List Thread → Type 0
Before t [] = Unit {0}
Before t (x ∷ xs) = (after t x ≡ false) × Before t xs

-- No thread stands before one that it goes behind.
abbrev pub Ordered : List Thread → Type 0
Ordered [] = Unit {0}
Ordered (x ∷ xs) = Before x xs × Ordered xs

Before-trans : (t q : Thread) (xs : List Thread) → after t q ≡ false → Before q xs → Before t xs
Before-trans t q [] h b = tt
Before-trans t q (x ∷ xs) h b = (after_trans t q x h b.0, Before-trans t q xs h b.1)

place_pass :
    (t x : Thread) (xs : List Thread)
    → after t x ≡ true
    → place t (x ∷ xs) ≡ (x ∷ (place t xs).0, (place t xs).1)
unfolding place
place_pass t x xs e = rw (e, place) refl

place_stop : (t x : Thread) (xs : List Thread) → after t x ≡ false → place t (x ∷ xs) ≡ ([], x ∷ xs)
unfolding place
place_stop t x xs e = rw (e, place) refl

Before-place :
    (t q : Thread) (xs : List Thread)
    → after q t ≡ false
    → Before q xs
    → Before q ((place t xs).0 ++ (t ∷ (place t xs).1))
unfolding place
Before-place t q [] h b = (h, tt)
Before-place t q (x ∷ xs) h b = elim (Bool-cases (after t x)) [
  | inl e ↦ rw (place_pass t x xs e) (b.0, Before-place t q xs h b.1)
  | inr e ↦ rw (place_stop t x xs e) (h, b)
]

-- A thread is placed where the order asks for it.
pub place-Ordered :
    (t : Thread) (xs : List Thread) → Ordered xs → Ordered ((place t xs).0 ++ (t ∷ (place t xs).1))
unfolding place
place-Ordered t [] o = (tt, tt)
place-Ordered t (x ∷ xs) o = elim (Bool-cases (after t x)) [
  | inl e ↦
      rw (place_pass t x xs e) (Before-place t x xs (after_asym t x e) o.0, place-Ordered t xs o.1)
  | inr e ↦ rw (place_stop t x xs e) ((e, Before-trans t x xs e o.0), o)
]

-- The list is cut in two.
pub place-append : (t : Thread) (xs : List Thread) → (place t xs).0 ++ (place t xs).1 ≡ xs
unfolding place
place-append t [] = refl
place-append t (x ∷ xs) = elim (Bool-cases (after t x)) [
  | inl e ↦ rw (place_pass t x xs e) (ap (◌∷◌ x) (place-append t xs))
  | inr e ↦ rw (place_stop t x xs e) refl
]

-- A thread that goes behind another one of the queue is placed behind it.
pub place_behind :
    (x t : Thread) (front back : List Thread)
    → after x t ≡ true
    → Ordered (front ++ (t ∷ back))
    → (more : List Thread) × ((place x (front ++ (t ∷ back))).0
          ++ (x ∷ (place x (front ++ (t ∷ back))).1)
        ≡ front ++ (t ∷ more))
unfolding place
place_behind x t [] back h o =
    ((place x back).0 ++ (x ∷ (place x back).1), rw (place_pass x t back h) refl)
place_behind x t (b ∷ front) back h o =
    let (more, e) = place_behind x t front back h o.1 in
    (
      more,
      rw (place_pass x b (front ++ (t ∷ back)) (after_mono x t b h (stands front o.0)))
          (ap (◌∷◌ b) e),
    )
  where
    stands : (ys : List Thread) → Before b (ys ++ (t ∷ back)) → after b t ≡ false
    stands [] c = c.0
    stands (y ∷ ys) c = stands ys c.1

-- The number of threads of a kind.
abbrev pub number : (Thread → Bool) → List Thread → ℕ
number p [] = 0
number p (t ∷ ts) = (if p t then 1 else 0) + number p ts

pub number-append :
    (p : Thread → Bool) (xs ys : List Thread) → number p (xs ++ ys) ≡ number p xs + number p ys
number-append p [] ys = omega arith
number-append p (x ∷ xs) ys = omega (arith, number-append p xs ys)

pub number-place :
    (p : Thread → Bool) (t : Thread) (xs : List Thread)
    → number p ((place t xs).0 ++ (t ∷ (place t xs).1)) ≡ (if p t then 1 else 0) + number p xs
number-place p t xs = omega (
  arith,
  number-append p (place t xs).0 (t ∷ (place t xs).1),
  number-append p (place t xs).0 (place t xs).1,
  ap (number p) (place-append t xs),
)

abbrev pub at_is : ℕ → Thread → Bool
at_is at t = t.at == at

-- The last of the threads, 0 where there is none.
pub last_thread-append :
    (a : ℕ) (xs : List Thread) (t : Thread) (ys : List Thread)
    → last_thread a (xs ++ (t ∷ ys)) ≡ last_thread t.at ys
last_thread-append a [] t ys = refl
last_thread-append a (x ∷ xs) t ys = last_thread-append x.at xs t ys
