-- ===== src/RunQueue/Deadline.antt =====
-- kernel/sched.c: the times that a thread gets as it is queued.
use bunix.Common.{
  ℕ, ◌+◌, ◌-◌, ◌*◌, ◌/◌, ◌<◌, ◌≤◌, ◌≡◌, refl, Bool, true, false, ltb, ◌==◌, if◌then◌else◌, inl, inr,
  add64, sub64, mul64, u32_mod, ◌^◌, arith, Bool-cases,
}
use native.Mathlib.Nat.{add-div_right, div-le_self}
use bunix.RunQueue.{
  Thread, RunQueue, sched_scale_delta, sched_refresh_deadline, slept_ticks, with_credit, woken,
  with_weight, sched_prepare_enqueue,
}

-- The division rounds up.
rounded_up : (a w : ℕ) → 0 < a → 0 < w → (a + w - 1) / w ≤ a
rounded_up a w h k =
    let e : a + w - 1 ≡ (a - 1) + w = omega (arith, h) in
    rw e (omega (arith, add-div_right (a - 1) k, div-le_self (a - 1) w, h))

sched_scale_delta-le :
    (delta weight : ℕ)
    → 0 < delta
    → delta ≤ 20
    → weight < u32_mod
    → sched_scale_delta delta weight ≤ delta * 1024
unfolding sched_scale_delta
sched_scale_delta-le delta weight h k l =
    let w = if weight == 0 then 1024 else weight in
    let w0 : 0 < w = ground arith in
    let w1 : w < u32_mod = ground (arith, l) in
    let e : sub64 (add64 (mul64 delta 1024) w) 1 ≡ delta * 1024 + w - 1 =
      omega (arith, h, k, w0, w1) in
    rw e (rounded_up (delta * 1024) w (omega (arith, h)) w0)

slept_ticks-le : (now : ℕ) (t : Thread) → slept_ticks now t ≤ 20
unfolding slept_ticks
slept_ticks-le now t = ground arith

-- The credit does not take a thread below the least `vruntime` of the queue.
with_credit-bounds :
    (least slept : ℕ) (t : Thread)
    → slept ≤ 20
    → t.weight < u32_mod
    → least < 2 ^ 63
    → t.vruntime < 2 ^ 63
    → least ≤ t.vruntime
    → (least ≤ with_credit least slept t) × (with_credit least slept t ≤ t.vruntime)
unfolding with_credit
with_credit-bounds least slept t h k l m n = elim (Bool-cases (slept == 0)) [
  | inl e ↦ rw (e, with_credit) (n, omega arith)
  | inr e ↦
      let c = sched_scale_delta-le slept t.weight (ground (arith, e)) h k in
      rw (e, with_credit) (ground (arith, c, h, l, m, n), ground (arith, c, h, l, m, n))
]

refresh_lem :
    (t : Thread)
    → t.weight < u32_mod
    → t.vruntime < 2 ^ 63
    → let r = sched_refresh_deadline t in
      (r.eligible_time ≡ t.vruntime)
      × (t.vruntime < r.virtual_deadline)
      × (r.virtual_deadline ≤ t.vruntime + 5120)
unfolding sched_refresh_deadline
refresh_lem t h k =
    let c = sched_scale_delta-le 5 t.weight (omega arith) (omega arith) h in
    (refl, later (sched_scale_delta 5 t.weight) c, soon (sched_scale_delta 5 t.weight) c)
  where
    later : (s : ℕ) → s ≤ 5120 → t.vruntime < add64 t.vruntime (if s == 0 then 1 else s)
    later s c = ground (arith, c, k)

    soon : (s : ℕ) → s ≤ 5120 → add64 t.vruntime (if s == 0 then 1 else s) ≤ t.vruntime + 5120
    soon s c = ground (arith, c, k)

-- A thread that is ready for the queue: its times and its number.
pub record Ready (q : RunQueue) (t : Thread) (made : Thread × RunQueue) : Type 0 where
  pub same_thread : made.0.at ≡ t.at
  pub weighs : 0 < made.0.weight
  pub not_below : q.min_vruntime ≤ made.0.vruntime
  pub not_above :
      made.0.vruntime ≤ (if ltb t.vruntime q.min_vruntime then q.min_vruntime else t.vruntime)
  pub eligible : made.0.eligible_time ≡ made.0.vruntime
  pub later : made.0.vruntime < made.0.virtual_deadline
  pub soon : made.0.virtual_deadline ≤ made.0.vruntime + 5120
  pub numbered : made.0.enqueue_seq ≡ add64 q.enqueue_seq 1
  pub next_number : made.1.enqueue_seq ≡ add64 q.enqueue_seq 1
  pub same_queue : made.1.queue ≡ q.queue

-- The thread before its deadline is set.
record Timed (q : RunQueue) (t r : Thread) : Type 0 where
  same_thread : r.at ≡ t.at
  weighs : 0 < r.weight
  in_word : r.weight < u32_mod
  not_below : q.min_vruntime ≤ r.vruntime
  not_above : r.vruntime ≤ (if ltb t.vruntime q.min_vruntime then q.min_vruntime else t.vruntime)

with_weight-Timed :
    (q : RunQueue) (t : Thread) → t.weight < u32_mod → Timed q t (with_weight q.min_vruntime t)
with_weight-Timed q t h = record {
  same_thread = refl;
  weighs = ground arith;
  in_word = ground (arith, h);
  not_below = ground arith;
  not_above = omega arith;
}

woken-Timed :
    (now : ℕ) (q : RunQueue) (t r : Thread)
    → q.min_vruntime < 2 ^ 63
    → t.vruntime < 2 ^ 63
    → Timed q t r
    → Timed q t (woken now q.min_vruntime r)
unfolding woken
woken-Timed now q t r h k x =
    let below : r.vruntime < 2 ^ 63 = ground (arith, x.not_above, h, k) in
    let c =
      with_credit-bounds q.min_vruntime (slept_ticks now r) r (slept_ticks-le now r) x.in_word h
        below x.not_below in
    record {
      same_thread = x.same_thread;
      weighs = x.weighs;
      in_word = x.in_word;
      not_below = c.0;
      not_above = omega (arith, c.1, x.not_above);
    }

Ready-lem :
    (now : ℕ) (q : RunQueue) (t r : Thread)
    → q.min_vruntime < 2 ^ 63
    → t.vruntime < 2 ^ 63
    → Timed q t r
    → let seq = add64 q.enqueue_seq 1 in
      Ready q t (
        sched_refresh_deadline (record r { enqueue_seq = seq; enqueue_tick = now }),
        record q { enqueue_seq = seq },
      )
unfolding sched_refresh_deadline
Ready-lem now q t r h k x =
    let below : r.vruntime < 2 ^ 63 = ground (arith, x.not_above, h, k) in
    let (e, l, s) =
      refresh_lem (record r { enqueue_seq = add64 q.enqueue_seq 1; enqueue_tick = now }) x.in_word
        below in
    record {
      same_thread = x.same_thread;
      weighs = x.weighs;
      not_below = x.not_below;
      not_above = x.not_above;
      eligible = e;
      later = l;
      soon = s;
      numbered = refl;
      next_number = refl;
      same_queue = refl;
    }

-- For virtual times below 2^63 and a weight below 2^32, a thread that is made ready for a run queue
-- has a virtual time that is not below the least of the queue, whatever credit it has for sleeping,
-- nor above its own or that least one; it is eligible from then on, its deadline is later, by 5120
-- at most, and its number and that of the queue are one more, modulo 2^64, than the number of the
-- queue was.
pub sched_prepare_enqueue-Ready :
    (now : ℕ) (q : RunQueue) (t : Thread) (wakeup : Bool)
    → t.weight < u32_mod
    → t.vruntime < 2 ^ 63
    → q.min_vruntime < 2 ^ 63
    → Ready q t (sched_prepare_enqueue now q t wakeup)
unfolding sched_prepare_enqueue
sched_prepare_enqueue-Ready now q t true w k h =
    Ready-lem now q t (woken now q.min_vruntime (with_weight q.min_vruntime t)) h k
      (woken-Timed now q t (with_weight q.min_vruntime t) h k (with_weight-Timed q t w))
sched_prepare_enqueue-Ready now q t false w k h =
    Ready-lem now q t (with_weight q.min_vruntime t) h k (with_weight-Timed q t w)
