-- ===== src/RunQueue/Runs.antt =====
-- kernel/sched.c: sequences of operations on a run queue.
use bunix.Common.{
  ℕ, ◌+◌, ◌<◌, ◌≡◌, ◌≢◌, ◌∙◌, sym, refl, ap, true, some, List, [], ◌∷◌, ◌++◌, ◌⊎◌, inl, inr, length,
  length-append, u32_mod, arith,
}
use mathlib.Core.Path.{subst}
use mathlib.Core.List.{append_assoc, append-nil}
use bunix.RunQueue.{
  Thread, RunQueue, after, place, runq_push, runq_pop, runq_remove, runq_remove_first_eligible,
}
use bunix.RunQueue.Order.{Ordered, place_behind, number, at_is}
use bunix.RunQueue.Laws.{IsValid, runq_push-IsValid, Popped, runq_pop-Popped, runq_pop-IsValid}
use bunix.RunQueue.Removal.{runq_remove-Removed, runq_remove_first_eligible-Pulled}

-- Operations one after another. A thread that is queued is not in the queue, and there are fewer than
-- 2^32 of them.
pub data Run (cpus : ℕ) (q : RunQueue) : RunQueue → Type 0 where
  at_start : Run cpus q q
  pushed :
      {r : RunQueue} (t : Thread)
      → Run cpus q r
      → t.at ≢ 0
      → number (at_is t.at) r.queue ≡ 0
      → length r.queue + 1 < u32_mod
      → Run cpus q (runq_push r t)
  popped : {r : RunQueue} → Run cpus q r → Run cpus q (runq_pop r).1
  removed : {r : RunQueue} (at : ℕ) → Run cpus q r → Run cpus q (runq_remove r at).1
  pulled :
      {r : RunQueue} (cpu : ℕ) → Run cpus q r → Run cpus q (runq_remove_first_eligible cpus r cpu).1

-- Over any sequence of operations the threads of a run queue stay in the order of their deadlines,
-- each queued once, with the tail at the last of them and the count their number, if that holds at
-- the start. A thread that is pushed is not queued, and there are fewer than 2^32 of them.
pub Run-IsValid : (cpus : ℕ) (q q' : RunQueue) → IsValid q → Run cpus q q' → IsValid q'
Run-IsValid cpus q _ v at_start = v
Run-IsValid cpus q _ v (pushed {r = r} t s nz new room) =
    runq_push-IsValid r t (Run-IsValid cpus q r v s) nz new room
Run-IsValid cpus q _ v (popped {r = r} s) = runq_pop-IsValid r (Run-IsValid cpus q r v s)
Run-IsValid cpus q _ v (removed {r = r} at s) =
    (runq_remove-Removed r at (Run-IsValid cpus q r v s)).1
Run-IsValid cpus q _ v (pulled {r = r} cpu s) =
    (runq_remove_first_eligible-Pulled cpus r cpu (Run-IsValid cpus q r v s)).1

-- The next thread is taken and runs, or one comes that goes behind `t`. The list has the threads that
-- were taken, in order.
pub data Served (t : Thread) (q : RunQueue) : List Thread → RunQueue → Type 0 where
  waiting : Served t q [] q
  comes :
      {ys : List Thread} {r : RunQueue} (x : Thread)
      → Served t q ys r
      → after x t ≡ true
      → x.at ≢ 0
      → number (at_is x.at) r.queue ≡ 0
      → length r.queue + 1 < u32_mod
      → Served t q ys (runq_push r x)
  taken :
      {ys : List Thread} {r r' : RunQueue} {y : Thread}
      → Served t q ys r
      → runq_pop r ≡ (some y, r')
      → Served t q (ys ++ (y ∷ [])) r'

-- Where a thread is that had the threads `front` before it, once the threads `ys` were taken: it is
-- still queued, behind those of `front` that were not taken, or it was taken after all of them.
abbrev Progress : Thread → List Thread → List Thread → RunQueue → Type 0
Progress t front ys r =
    ((left : List Thread) × (back : List Thread) × (r.queue ≡ left ++ (t ∷ back))
      × (front ≡ ys ++ left))
    ⊎ ((zs : List Thread) × (ys ≡ front ++ (t ∷ zs)))

comes-Progress :
    (t x : Thread) (front ys : List Thread) (r : RunQueue)
    → IsValid r
    → after x t ≡ true
    → Progress t front ys r
    → Progress t front ys (runq_push r x)
unfolding runq_push
comes-Progress t x front ys r v h (inr d) = inr d
comes-Progress t x front ys r v h (inl (left, back, e, f)) =
    let (more, g) = place_behind x t left back h (subst Ordered e v.ordered) in
    inl (left, more, ap (λ qs. (place x qs).0 ++ (x ∷ (place x qs).1)) e ∙ g, f)

first_or : Thread → List Thread → Thread
first_or t [] = t
first_or t (x ∷ xs) = x

others : List Thread → List Thread
others [] = []
others (x ∷ xs) = xs

-- Two lists with a first thread.
same_first : (x y : Thread) (xs ys : List Thread) → x ∷ xs ≡ y ∷ ys → (x ≡ y) × (xs ≡ ys)
unfolding first_or others
same_first x y xs ys e = (ap (first_or x) e, ap others e)

taken-Progress :
    (t y : Thread) (front ys : List Thread) (r r' : RunQueue)
    → r.queue ≡ y ∷ r'.queue
    → Progress t front ys r
    → Progress t front (ys ++ (y ∷ [])) r'
taken-Progress t y front ys r r' p (inr (zs, e)) =
    inr (zs ++ (y ∷ []), ap (λ l. l ++ (y ∷ [])) e ∙ append_assoc front (t ∷ zs) (y ∷ []))
taken-Progress t y front ys r r' p (inl ([], back, e, f)) =
    let (same, rest) = same_first y t r'.queue back (sym p ∙ e) in
    inr ([], ap (λ x. ys ++ (x ∷ [])) same ∙ ap (λ l. l ++ (t ∷ [])) (sym (f ∙ append-nil ys)))
taken-Progress t y front ys r r' p (inl (l ∷ left, back, e, f)) =
    let (same, rest) = same_first y l r'.queue (left ++ (t ∷ back)) (sym p ∙ e) in
    inl (
      left,
      back,
      rest,
      f ∙ ap (λ x. ys ++ (x ∷ left)) (sym same) ∙ sym (append_assoc ys (y ∷ []) left),
    )

Served-lem :
    (t : Thread) (front back : List Thread) (q : RunQueue) {ys : List Thread} {r : RunQueue}
    → IsValid q
    → q.queue ≡ front ++ (t ∷ back)
    → Served t q ys r
    → Progress t front ys r × IsValid r
Served-lem t front back q v e waiting = (inl (front, back, e, refl), v)
Served-lem t front back q v e (comes {ys} {r} x s h nz new room) =
    let (p, w) = Served-lem t front back q v e s in
    (comes-Progress t x front ys r w h p, runq_push-IsValid r x w nz new room)
Served-lem t front back q v e (taken {ys} {r} {r'} {y} s k) =
    let (p, w) = Served-lem t front back q v e s in
    let first = subst (Popped r) k (runq_pop-Popped r w) in
    (
      taken-Progress t y front ys r r' first.0 p,
      subst IsValid (ap (λ x. x.1) k) (runq_pop-IsValid r w),
    )

-- A thread in a valid run queue is taken once as many threads as stood before it were taken, after
-- just those and in their order, however many threads come meanwhile that go behind it.
pub Served-bound :
    (t : Thread) (front back : List Thread) (q r : RunQueue) (ys : List Thread)
    → IsValid q
    → q.queue ≡ front ++ (t ∷ back)
    → Served t q ys r
    → length front < length ys
    → (zs : List Thread) × (ys ≡ front ++ (t ∷ zs))
Served-bound t front back q r ys v e s h = elim (Served-lem t front back q v e s).0 [
  | inl (left, more, f, g) ↦ absurd (omega (arith, ap length g, length-append ys left, h))
  | inr d ↦ d
]
