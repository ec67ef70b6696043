-- ===== src/RunQueue/Removal.antt =====
-- kernel/sched.c: `runq_remove` and `runq_remove_first_eligible` take one thread out of the queue.
use bunix.Common.{
  ℕ, ◌+◌, ◌<◌, ◌≤◌, ◌≡◌, ◌∙◌, sym, refl, ap, Bool, true, false, Option, none, some, List, [], ◌∷◌,
  ◌++◌, ◌⊎◌, inl, inr, leb, ◌==◌, if◌then◌else◌, length, length-append, arith, Bool-cases,
}
use mathlib.Core.Path.{subst}
use bunix.RunQueue.{
  Thread, RunQueue, last_thread, unlinked, without_thread, runq_remove, can_move, first_eligible,
  runq_remove_first_eligible,
}
use bunix.RunQueue.Order.{Before, Ordered, number, number-append, at_is, last_thread-append}
use bunix.RunQueue.Laws.{Separate, IsValid}

-- `us` are the threads `ts` without the thread `t`, in the same order.
abbrev pub Without : List Thread → Thread → List Thread → Type 0
Without ts t us = (xs : List Thread) × (ys : List Thread) × (ts ≡ xs ++ (t ∷ ys)) × (us ≡ xs ++ ys)

Without-cons :
    (x : Thread) (ts : List Thread) (t : Thread) (us : List Thread)
    → Without ts t us
    → Without (x ∷ ts) t (x ∷ us)
Without-cons x ts t us (xs, ys, e, f) = (x ∷ xs, ys, ap (◌∷◌ x) e, ap (◌∷◌ x) f)

Before-drop :
    (x : Thread) (xs : List Thread) (t : Thread) (ys : List Thread)
    → Before x (xs ++ (t ∷ ys))
    → Before x (xs ++ ys)
Before-drop x [] t ys b = b.1
Before-drop x (y ∷ xs) t ys b = (b.0, Before-drop x xs t ys b.1)

Ordered-drop :
    (xs : List Thread) (t : Thread) (ys : List Thread)
    → Ordered (xs ++ (t ∷ ys))
    → Ordered (xs ++ ys)
Ordered-drop [] t ys o = o.1
Ordered-drop (x ∷ xs) t ys o = (Before-drop x xs t ys o.0, Ordered-drop xs t ys o.1)

number-drop :
    (p : Thread → Bool) (xs : List Thread) (t : Thread) (ys : List Thread)
    → number p (xs ++ (t ∷ ys)) ≡ (if p t then 1 else 0) + number p (xs ++ ys)
number-drop p xs t ys = omega (arith, number-append p xs (t ∷ ys), number-append p xs ys)

Separate-drop :
    (xs : List Thread) (t : Thread) (ys : List Thread)
    → Separate (xs ++ (t ∷ ys))
    → Separate (xs ++ ys)
Separate-drop [] t ys s = s.2
Separate-drop (x ∷ xs) t ys s =
    (s.0, omega (arith, s.1, number-drop (at_is x.at) xs t ys), Separate-drop xs t ys s.2)

last_thread-drop :
    (xs : List Thread) (t : Thread) (ys : List Thread) (tail : ℕ)
    → tail ≡ last_thread 0 (xs ++ (t ∷ ys))
    → (if tail == t.at then last_thread 0 (xs ++ ys) else tail) ≡ last_thread 0 (xs ++ ys)
last_thread-drop xs t [] tail e =
    let same : tail ≡ t.at = e ∙ last_thread-append 0 xs t [] in ground (arith, same)
last_thread-drop xs t (y ∷ ys) tail e =
    let same : tail ≡ last_thread 0 (xs ++ (y ∷ ys)) =
      e ∙ last_thread-append 0 xs t (y ∷ ys) ∙ sym (last_thread-append 0 xs y ys) in
    ground (arith, same)

unlinked-IsValid :
    (q : RunQueue) (t : Thread) (us : List Thread)
    → IsValid q
    → Without q.queue t us
    → IsValid (unlinked q t.at us)
unlinked-IsValid q t us v (xs, ys, e, f) =
    let n = ap length e in
    let n' = ap length f in
    let l = length-append xs (t ∷ ys) in
    let l' = length-append xs ys in
    record {
      ordered = subst Ordered (sym f) (Ordered-drop xs t ys (subst Ordered e v.ordered));
      separate = subst Separate (sym f) (Separate-drop xs t ys (subst Separate e v.separate));
      last =
          subst (λ us. (if q.tail == t.at then last_thread 0 us else q.tail) ≡ last_thread 0 us)
            (sym f) (last_thread-drop xs t ys q.tail (v.last ∙ ap (last_thread 0) e));
      counted = ground (arith, n, n', l, l', v.counted);
      room = omega (arith, n, n', l, l', v.room);
    }

-- What `without_thread` found.
abbrev Found : ℕ → List Thread → Option (List Thread) → Type 0
Found at ts none = number (at_is at) ts ≡ 0
Found at ts (some us) = (t : Thread) × (t.at ≡ at) × Without ts t us

without_thread-Found : (at : ℕ) (ts : List Thread) → Found at ts (without_thread at ts)
unfolding without_thread
without_thread-Found at [] = refl
without_thread-Found at (t ∷ ts) = elim (Bool-cases (t.at == at)) [
  | inl e ↦ rw (e, Found) (t, ground (arith, e), ([], ts, refl, refl))
  | inr e ↦ rw (e, Found) (later (without_thread at ts) e (without_thread-Found at ts))
]
  where
    later :
        (o : Option (List Thread))
        → (t.at == at) ≡ false
        → Found at ts o
        → Found at (t ∷ ts) (elim o [ none ↦ none | some us ↦ some (t ∷ us) ])
    later none e f = ground (arith, e, f)
    later (some us) e (u, a, w) = (u, a, Without-cons t ts u us w)

-- The first thread that may run on the processor, in front of which none may.
abbrev Eligible : ℕ → List Thread → Option (Thread × List Thread) → Type 0
Eligible cpu ts none = number (can_move cpu) ts ≡ 0
Eligible cpu ts (some (t, us)) =
    (can_move cpu t ≡ true)
    × (xs : List Thread) × (ys : List Thread) × (number (can_move cpu) xs ≡ 0)
    × (ts ≡ xs ++ (t ∷ ys))
    × (us ≡ xs ++ ys)

first_eligible-Eligible : (cpu : ℕ) (ts : List Thread) → Eligible cpu ts (first_eligible cpu ts)
unfolding first_eligible
first_eligible-Eligible cpu [] = refl
first_eligible-Eligible cpu (t ∷ ts) = elim (Bool-cases (can_move cpu t)) [
  | inl e ↦ rw (e, Eligible) (e, [], ts, refl, refl, refl)
  | inr e ↦ rw (e, Eligible) (later (first_eligible cpu ts) e (first_eligible-Eligible cpu ts))
]
  where
    later :
        (o : Option (Thread × List Thread))
        → can_move cpu t ≡ false
        → Eligible cpu ts o
        → Eligible cpu (t ∷ ts) (elim o [ none ↦ none | some found ↦ some (found.0, t ∷ found.1) ])
    later none e f = ground (arith, e, f)
    later (some (u, us)) e (c, xs, ys, n, f, g) =
        (c, t ∷ xs, ys, ground (arith, e, n), ap (◌∷◌ t) f, ap (◌∷◌ t) g)

-- What `runq_remove` did: nothing, where the thread is not queued; otherwise it took it out.
abbrev pub Removed : RunQueue → ℕ → Bool × RunQueue → Type 0
Removed q at (false, q') = (q' ≡ q) × (number (at_is at) q.queue ≡ 0)
Removed q at (true, q') = (t : Thread) × (t.at ≡ at) × Without q.queue t q'.queue

remove_lem :
    (q : RunQueue) (at : ℕ) (o : Option (List Thread))
    → IsValid q
    → Found at q.queue o
    → Removed q at (elim o [ none ↦ (false, q) | some ts ↦ (true, unlinked q at ts) ])
      × IsValid
          (elim o as (λ o. Bool × RunQueue) [
            | none ↦ (false, q)
            | some ts ↦ (true, unlinked q at ts)
          ]).1
remove_lem q at none v f = ((refl, f), v)
remove_lem q at (some us) v (t, a, w) =
    ((t, a, w), subst (λ a. IsValid (unlinked q a us)) a (unlinked-IsValid q t us v w))

-- On a valid run queue runq_remove takes out the thread, and the others stay in order; it changes
-- nothing exactly where the thread is not queued. The queue stays valid.
pub runq_remove-Removed :
    (q : RunQueue) (at : ℕ)
    → IsValid q
    → Removed q at (runq_remove q at) × IsValid (runq_remove q at).1
unfolding runq_remove
runq_remove-Removed q at v =
    remove_lem q at (without_thread at q.queue) v (without_thread-Found at q.queue)

-- What `runq_remove_first_eligible` did. Nothing, for a processor that there is not, or where no
-- queued thread may move there; otherwise it took the first of those that may.
abbrev pub Pulled : ℕ → RunQueue → ℕ → Option Thread × RunQueue → Type 0
Pulled cpus q cpu (none, q') = (q' ≡ q) × ((cpus ≤ cpu) ⊎ (number (can_move cpu) q.queue ≡ 0))
Pulled cpus q cpu (some t, q') =
    (cpu < cpus)
    × (can_move cpu t ≡ true)
    × (xs : List Thread) × (ys : List Thread) × (number (can_move cpu) xs ≡ 0)
    × (q.queue ≡ xs ++ (t ∷ ys))
    × (q'.queue ≡ xs ++ ys)

pull_lem :
    (cpus : ℕ) (q : RunQueue) (cpu : ℕ) (o : Option (Thread × List Thread))
    → cpu < cpus
    → IsValid q
    → Eligible cpu q.queue o
    → Pulled cpus q cpu
        (elim o [ none ↦ (none, q) | some found ↦ (some found.0, unlinked q found.0.at found.1) ])
      × IsValid
          (elim o as (λ o. Option Thread × RunQueue) [
            | none ↦ (none, q)
            | some found ↦ (some found.0, unlinked q found.0.at found.1)
          ]).1
pull_lem cpus q cpu none h v f = ((refl, inr f), v)
pull_lem cpus q cpu (some (t, us)) h v (c, xs, ys, n, e, f) =
    ((h, c, xs, ys, n, e, f), unlinked-IsValid q t us v (xs, ys, e, f))

-- On a valid run queue runq_remove_first_eligible takes nothing where there is no such processor,
-- or no queued thread may move to it; otherwise it takes the first of those that may, the others
-- stay in order, and the queue stays valid.
pub runq_remove_first_eligible-Pulled :
    (cpus : ℕ) (q : RunQueue) (cpu : ℕ)
    → IsValid q
    → Pulled cpus q cpu (runq_remove_first_eligible cpus q cpu)
      × IsValid (runq_remove_first_eligible cpus q cpu).1
unfolding runq_remove_first_eligible
runq_remove_first_eligible-Pulled cpus q cpu v = elim (Bool-cases (leb cpus cpu)) [
  | inl e ↦ rw (e, Pulled) ((refl, inl (ground (arith, e))), v)
  | inr e ↦
      rw (e, Pulled)
        (pull_lem cpus q cpu (first_eligible cpu q.queue) (ground (arith, e)) v
          (first_eligible-Eligible cpu q.queue))
]
