-- ===== src/RunQueue/Laws.antt =====
-- kernel/sched.c: every operation keeps the list, the tail and the count of a run queue in step.
use bunix.Common.{
  ℕ, ◌+◌, ◌<◌, ◌≡◌, ◌≢◌, ◌∙◌, sym, refl, ap, Option, none, some, List, [], ◌∷◌, ◌++◌, ltb,
  if◌then◌else◌, length, length-append, u32_mod, arith,
}
use mathlib.Core.Path.{subst}
use bunix.RunQueue.{
  Thread, RunQueue, place, no_threads, push_tail, runq_push, pop_from, runq_pop, last_thread,
}
use bunix.RunQueue.Order.{
  Before, Ordered, place-Ordered, place-append, number, number-append, at_is, last_thread-append,
}

-- No pointer is null, and no thread is queued twice.
abbrev pub Separate : List Thread → Type 0
Separate [] = Unit {0}
Separate (t ∷ ts) = (t.at ≢ 0) × (number (at_is t.at) ts ≡ 0) × Separate ts

-- The list is in order, the tail is its last thread, and the count is its length.
pub record IsValid (q : RunQueue) : Type 0 where
  pub ordered : Ordered q.queue
  pub separate : Separate q.queue
  pub last : q.tail ≡ last_thread 0 q.queue
  pub counted : q.count ≡ length q.queue
  pub room : length q.queue < u32_mod

Separate-place :
    (t : Thread) (xs ys : List Thread)
    → t.at ≢ 0
    → number (at_is t.at) (xs ++ ys) ≡ 0
    → Separate (xs ++ ys)
    → Separate (xs ++ (t ∷ ys))
Separate-place t [] ys nz n s = (nz, n, s)
Separate-place t (x ∷ xs) ys nz n s = (
  s.0,
  ground (arith, n, s.1, number-append (at_is x.at) xs (t ∷ ys), number-append (at_is x.at) xs ys),
  Separate-place t xs ys nz (ground (arith, n)) s.2,
)

-- The last thread of a list that has one.
last_thread-ne :
    (xs : List Thread) (y : Thread) (ys : List Thread)
    → Separate (xs ++ (y ∷ ys))
    → last_thread y.at ys ≢ 0
last_thread-ne (x ∷ xs) y ys s = last_thread-ne xs y ys s.2
last_thread-ne [] y [] s = s.0
last_thread-ne [] y (z ∷ zs) s = last_thread-ne [] z zs s.2

tail_lem :
    (a tail : ℕ) (xs ys : List Thread)
    → Separate (xs ++ ys)
    → tail ≡ last_thread 0 (xs ++ ys)
    → push_tail a tail ys ≡ last_thread a ys
tail_lem a tail xs [] s e = ground arith
tail_lem a tail xs (y ∷ ys) s e =
    let same : tail ≡ last_thread y.at ys = e ∙ last_thread-append 0 xs y ys in
    ground (arith, same, last_thread-ne xs y ys s)

pub runq_push-IsValid :
    (q : RunQueue) (t : Thread)
    → IsValid q
    → t.at ≢ 0
    → number (at_is t.at) q.queue ≡ 0
    → length q.queue + 1 < u32_mod
    → IsValid (runq_push q t)
unfolding runq_push
runq_push-IsValid q t v nz new room =
    let e = place-append t q.queue in
    let n : length ((place t q.queue).0 ++ (t ∷ (place t q.queue).1)) ≡ length q.queue + 1 = omega (
      arith,
      ap length e,
      length-append (place t q.queue).0 (place t q.queue).1,
      length-append (place t q.queue).0 (t ∷ (place t q.queue).1),
    ) in
    record {
      ordered = place-Ordered t q.queue v.ordered;
      separate =
          Separate-place t (place t q.queue).0 (place t q.queue).1 nz
            (ap (number (at_is t.at)) e ∙ new) (subst Separate (sym e) v.separate);
      last =
          tail_lem t.at q.tail (place t q.queue).0 (place t q.queue).1
            (subst Separate (sym e) v.separate) (v.last ∙ ap (last_thread 0) (sym e))
          ∙ sym (last_thread-append 0 (place t q.queue).0 t (place t q.queue).1);
      counted = omega (arith, n, v.counted, room);
      room = omega (arith, n, room);
    }

pop_tail_lem :
    (t : Thread) (a : ℕ) (ts : List Thread)
    → a ≡ last_thread t.at ts
    → (if no_threads ts then 0 else a) ≡ last_thread 0 ts
pop_tail_lem t a [] e = refl
pop_tail_lem t a (u ∷ us) e = e

-- What `runq_pop` did. Nothing, on an empty queue; otherwise it took the first thread, which goes
-- behind none that stay.
abbrev pub Popped : RunQueue → Option Thread × RunQueue → Type 0
Popped q (none, q') = (q' ≡ q) × (q.queue ≡ [])
Popped q (some t, q') =
    (q.queue ≡ t ∷ q'.queue)
    × Before t q'.queue
    × (q'.min_vruntime ≡ (if ltb q.min_vruntime t.vruntime then t.vruntime else q.min_vruntime))

pop_from-Popped :
    (q : RunQueue) (ts : List Thread) → q.queue ≡ ts → Ordered ts → Popped q (pop_from q ts)
unfolding pop_from
pop_from-Popped q [] e o = (refl, e)
pop_from-Popped q (t ∷ ts) e o = (e, o.0, refl)

-- On a valid run queue runq_pop takes the first thread, which goes behind none of those that stay,
-- and raises the least virtual time of the queue to that of the thread; on an empty queue it takes
-- nothing.
pub runq_pop-Popped : (q : RunQueue) → IsValid q → Popped q (runq_pop q)
unfolding runq_pop
runq_pop-Popped q v = pop_from-Popped q q.queue refl v.ordered

pop_from-IsValid :
    (q : RunQueue) (ts : List Thread) → q.queue ≡ ts → IsValid q → IsValid (pop_from q ts).1
unfolding pop_from
pop_from-IsValid q [] e v = v
pop_from-IsValid q (t ∷ ts) e v =
    let o = subst Ordered e v.ordered in
    let s = subst Separate e v.separate in
    let n = ap length e in
    record {
      ordered = o.1;
      separate = s.2;
      last = pop_tail_lem t q.tail ts (v.last ∙ ap (last_thread 0) e);
      counted = omega (arith, n, v.counted, v.room);
      room = omega (arith, n, v.room);
    }

pub runq_pop-IsValid : (q : RunQueue) → IsValid q → IsValid (runq_pop q).1
unfolding runq_pop
runq_pop-IsValid q v = pop_from-IsValid q q.queue refl v
